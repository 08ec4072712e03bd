-- ===== src/Terminal/LineBuffer/Write.antt =====
-- What `LineBuffer::write` does to the lines, by their positions from the oldest on.
use dav_os.Base.{
  ℕ, ◌+◌, ◌-◌, ◌%◌, ◌≤◌, ◌<◌, ◌≡◌, ◌≢◌, refl, ap, ◌∙◌, true, false, ◌&&◌, leb, ◌==◌, if◌then◌else◌,
  Bool-cases, inl, inr, arith,
}
use dav_os.Base.Modular.{mod-add-ne}
use dav_os.Terminal.LineBuffer.{
  LineBuffer, ScrollMode, automatic, manual, is_automatic, max_lines, max_columns, newline,
  current_line, advance, follow, wrap_line, put_char, wraps, write, get_line,
}

-- The window that `setLineSize` and `setNumVisibleLines` leave is not empty, and the indices are in range.
abbrev pub IsValid : LineBuffer → Type 0
IsValid b =
    (0 < b.line_size)
    × (b.line_size ≤ max_columns)
    × (0 < b.visible_lines)
    × (b.front < max_lines)
    × (0 < b.size)
    × (b.size ≤ max_lines)
    × (b.first_visible_line < max_lines)
    × (b.current_column ≤ b.line_size)

advance-IsValid : (b : LineBuffer) → IsValid b → IsValid (advance b)
unfolding advance
advance-IsValid b v = elim (Bool-cases (leb max_lines b.size)) [
  | inl full ↦ rw full (v.0, v.1, v.2, ground arith, v.4, v.5, ground (arith, v), v.7)
  | inr room ↦ rw room (v.0, v.1, v.2, v.3, omega arith, ground (arith, room), v.6, v.7)
]

follow-IsValid : (mode : ScrollMode) (b : LineBuffer) → IsValid b → IsValid (follow mode b)
unfolding follow is_automatic
follow-IsValid automatic b v = (v.0, v.1, v.2, v.3, v.4, v.5, ground (arith, v), v.7)
follow-IsValid manual b v = v

wrap_line-IsValid :
    (mode : ScrollMode) (b : LineBuffer)
    → IsValid b
    → ((wrap_line mode b).current_column < (wrap_line mode b).line_size)
      × IsValid (wrap_line mode b)
unfolding wrap_line
wrap_line-IsValid mode b v =
    let w = follow-IsValid mode (advance b) (advance-IsValid b v) in
    (w.0, (w.0, w.1, w.2, w.3, w.4, w.5, w.6, omega arith))

wraps-room : (c : ℕ) (b : LineBuffer) → wraps c b ≡ false → b.current_column < b.line_size
unfolding wraps
wraps-room c b e = ground (arith, e)

put_char-IsValid :
    (c : ℕ) (b : LineBuffer) → b.current_column < b.line_size → IsValid b → IsValid (put_char c b)
unfolding put_char
put_char-IsValid c b room v = elim (Bool-cases (c == newline)) [
  | inl same ↦ rw same v
  | inr other ↦ rw other (v.0, v.1, v.2, v.3, v.4, v.5, v.6, omega arith)
]

-- Writing any character, in either scroll mode, keeps the line buffer valid: its indices stay
-- inside the arrays and the column inside the line.
pub write-IsValid :
    (c : ℕ) (mode : ScrollMode) (b : LineBuffer) → IsValid b → IsValid (write c mode b).1
unfolding write
write-IsValid c mode b v = elim (Bool-cases (wraps c b)) [
  | inl new ↦
      let w = wrap_line-IsValid mode b v in rw new (put_char-IsValid c (wrap_line mode b) w.0 w.1)
  | inr same ↦ rw same (put_char-IsValid c b (wraps-room c b same) v)
]

-- A character is written into the last line, so the lines before it stay.
put_char-lines :
    (c : ℕ) (b : LineBuffer) (i col : ℕ)
    → IsValid b
    → i + 1 < b.size
    → get_line (put_char c b) i col ≡ get_line b i col
unfolding put_char get_line current_line
put_char-lines c b i col v before =
    let apart : (b.front + b.size - 1) % max_lines ≢ (b.front + i) % max_lines = λ e.
      mod-add-ne (b.front + i) (b.size - 1 - i) max_lines (omega arith) (omega (arith, v))
        (ap (λ k. k % max_lines) (omega arith) ∙ e) in
    ground (arith, apart)

follow-lines :
    (mode : ScrollMode) (b : LineBuffer) (i col : ℕ)
    → get_line (follow mode b) i col ≡ get_line b i col
unfolding follow is_automatic get_line
follow-lines automatic b i col = refl
follow-lines manual b i col = refl

follow-size : (mode : ScrollMode) (b : LineBuffer) → (follow mode b).size ≡ b.size
unfolding follow is_automatic
follow-size automatic b = refl
follow-size manual b = refl

-- How many of the oldest lines a character removes.
pub dropped : ℕ → LineBuffer → ℕ
dropped c b = if wraps c b && leb max_lines b.size then 1 else 0

advance-lines :
    (b : LineBuffer) (i col : ℕ)
    → get_line (advance b) i col ≡ get_line b (i + (if leb max_lines b.size then 1 else 0)) col
unfolding advance get_line
advance-lines b i col = elim (Bool-cases (leb max_lines b.size)) [
  | inl full ↦ rw full (ap (λ r. b.lines r col) (omega arith))
  | inr room ↦ rw room (ap (λ r. b.lines r col) (omega arith))
]

wrap_line-lines :
    (mode : ScrollMode) (b : LineBuffer) (i col : ℕ)
    → get_line (wrap_line mode b) i col
      ≡ get_line b (i + (if leb max_lines b.size then 1 else 0)) col
unfolding wrap_line get_line
wrap_line-lines mode b i col = follow-lines mode (advance b) i col ∙ advance-lines b i col

put_char-size : (c : ℕ) (b : LineBuffer) → (put_char c b).size ≡ b.size
unfolding put_char
put_char-size c b = ground arith

wrap_line-size :
    (mode : ScrollMode) (b : LineBuffer)
    → (wrap_line mode b).size ≡ (if leb max_lines b.size then b.size else b.size + 1)
unfolding wrap_line advance
wrap_line-size mode b = follow-size mode (advance b) ∙ ground arith

put_char-end :
    (c : ℕ) (b : LineBuffer)
    → c ≢ newline
    → 0 < b.size
    → get_line (put_char c b) ((put_char c b).size - 1) ((put_char c b).current_column - 1) ≡ c
unfolding put_char get_line current_line
put_char-end c b other pos =
    let here : (b.front + (b.size - 1)) % max_lines ≡ (b.front + b.size - 1) % max_lines =
      ap (λ k. k % max_lines) (omega arith) in
    ground (arith, here, other)

-- After a character is written into a valid buffer, in either scroll mode, every line before the
-- last one holds what it held, counted from the oldest line on, except that on a wrap of a full
-- buffer the oldest line is gone and the others moved up by one.
pub write-lines :
    (c : ℕ) (mode : ScrollMode) (b : LineBuffer) (i col : ℕ)
    → IsValid b
    → i + 1 < (write c mode b).1.size
    → get_line (write c mode b).1 i col ≡ get_line b (i + dropped c b) col
unfolding write dropped
write-lines c mode b i col v before = elim (Bool-cases (wraps c b)) [
  | inl new ↦
      let w = wrap_line-IsValid mode b v in
      let before' : i + 1 < (wrap_line mode b).size =
        (let t : (write c mode b).1.size ≡ (wrap_line mode b).size =
            rw new (put_char-size c (wrap_line mode b)) in
          omega (arith, t, before)) in
      rw new (put_char-lines c (wrap_line mode b) i col w.1 before' ∙ wrap_line-lines mode b i col)
  | inr same ↦
      let before' : i + 1 < b.size =
        (let t : (write c mode b).1.size ≡ b.size = rw same (put_char-size c b) in
          omega (arith, t, before)) in
      rw same (put_char-lines c b i col v before' ∙ ap (λ k. get_line b k col) (omega arith))
]

-- A character other than a newline that is written into a valid buffer stands in the last line
-- afterwards, just before the column at which writing goes on.
pub write-last :
    (c : ℕ) (mode : ScrollMode) (b : LineBuffer)
    → IsValid b
    → c ≢ newline
    → (let b' = (write c mode b).1 in get_line b' (b'.size - 1) (b'.current_column - 1) ≡ c)
unfolding write
write-last c mode b v other = elim (Bool-cases (wraps c b)) [
  | inl new ↦
      let w = wrap_line-IsValid mode b v in rw new (put_char-end c (wrap_line mode b) other w.1.4)
  | inr same ↦ rw same (put_char-end c b other v.4)
]

-- A newline on a valid, full buffer brings the oldest line back: its text is that of the new last
-- line, since nothing erases the line that is used again.
pub write-stale :
    (mode : ScrollMode) (b : LineBuffer) (col : ℕ)
    → IsValid b
    → b.size ≡ max_lines
    → (let b' = (write newline mode b).1 in get_line b' (b'.size - 1) col ≡ get_line b 0 col)
unfolding write wraps put_char get_line
write-stale mode b col v full =
    let new : wraps newline b ≡ true = ground arith in
    let size : (wrap_line mode b).size ≡ max_lines = wrap_line-size mode b ∙ ground (arith, full) in
    let back : get_line b (255 + (if leb max_lines b.size then 1 else 0)) col ≡ get_line b 0 col =
      ap (λ k. b.lines k col) (ground (arith, full)) in
    rw new (
      ap (λ k. get_line (wrap_line mode b) (k - 1) col) size
      ∙ (wrap_line-lines mode b 255 col ∙ back))
