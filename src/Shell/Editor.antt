-- ===== src/Shell/Editor.antt =====
-- The line editor stays inside its array, and reads what is typed.
use dav_os.Base.{
  ℕ, zero, suc, ◌+◌, ◌-◌, ◌%◌, ◌<◌, ◌≡◌, refl, ap, ◌∙◌, List, [], ◌∷◌, ◌++◌, length, map, get_or,
  arith,
}
use dav_os.Keyboard.Key
use dav_os.Shell.{
  input_size, Effect, putchar, Line, Outcome, editing, entered, poke, handle_key, read_line,
  continue,
}

abbrev pub line_of : Outcome → Line
line_of (editing l) = l
line_of (entered l) = l

-- The index of every access is below 256: the cursor, where a character or the '\0' is put.
abbrev pub InBounds : Line → Type 0
InBounds l = l.cursor < input_size

handle_key-InBounds : (key : ℕ) (l : Line) → InBounds l → InBounds (line_of (handle_key key l).0)
unfolding handle_key
handle_key-InBounds key l inside = ground (arith, inside)

continue-InBounds :
    (loop : List ℕ → Line → Outcome × List Effect × List ℕ) (keys : List ℕ)
    → ((m : Line) → InBounds m → InBounds (line_of (loop keys m).0))
    → (s : Outcome × List Effect) → InBounds (line_of s.0)
    → InBounds (line_of (continue loop keys s).0)
continue-InBounds loop keys keeps (entered m, out) here = here
continue-InBounds loop keys keeps (editing m, out) here = keeps m here

-- Whatever keys arrive, and however many, a cursor that is inside the shell's array of 256
-- characters stays inside it.
pub read_line-InBounds :
    (keys : List ℕ) (l : Line) → InBounds l → InBounds (line_of (read_line keys l).0)
unfolding read_line
read_line-InBounds [] l inside = inside
read_line-InBounds (key ∷ keys) l inside =
    continue-InBounds (λ ks m. read_line ks m) keys (λ m h. read_line-InBounds keys m h)
      (handle_key key l) (handle_key-InBounds key l inside)

-- The keys that put a character into the line.
abbrev pub IsTyped : ℕ → Type 0
IsTyped key = (10 < key) × (key < 256)

abbrev pub AreTyped : List ℕ → Type 0
AreTyped [] = Unit {0}
AreTyped (k ∷ ks) = IsTyped k × AreTyped ks

handle_key-typed :
    (key : ℕ) (l : Line)
    → IsTyped key
    → l.cursor < input_size - 1
    → handle_key key l ≡ (
      editing (record { input = poke l.cursor key l.input; cursor = l.cursor + 1 }),
      putchar key ∷ [],
    )
unfolding handle_key
handle_key-typed key l typed room =
    let char : key % 256 ≡ key = omega (arith, typed) in rw char (ground (arith, typed, room))

-- The line after some typed keys.
abbrev pub typed : List ℕ → Line → Line
typed [] l = l
typed (k ∷ ks) l = typed ks (record { input = poke l.cursor k l.input; cursor = l.cursor + 1 })

typed-cursor : (ks : List ℕ) (l : Line) → (typed ks l).cursor ≡ l.cursor + length ks
typed-cursor [] l = omega arith
typed-cursor (k ∷ ks) l =
    typed-cursor ks (record { input = poke l.cursor k l.input; cursor = l.cursor + 1 })
    ∙ omega arith

typed-before : (ks : List ℕ) (l : Line) (i : ℕ) → i < l.cursor → (typed ks l).input i ≡ l.input i
typed-before [] l i before = refl
typed-before (k ∷ ks) l i before =
    typed-before ks (record { input = poke l.cursor k l.input; cursor = l.cursor + 1 }) i
      (omega arith)
    ∙ ground (arith, before)

typed-input :
    (ks : List ℕ) (l : Line) (i : ℕ)
    → i < length ks
    → (typed ks l).input (l.cursor + i) ≡ get_or ks i 0
typed-input [] l i inside = absurd (omega arith)
typed-input (k ∷ ks) l zero inside =
    let m : Line = record { input = poke l.cursor k l.input; cursor = l.cursor + 1 } in
    ap (typed ks m).input (omega arith) ∙ (typed-before ks m l.cursor (omega arith) ∙ ground arith)
typed-input (k ∷ ks) l (suc i) inside =
    let m : Line = record { input = poke l.cursor k l.input; cursor = l.cursor + 1 } in
    ap (typed ks m).input (omega arith) ∙ typed-input ks m i (omega arith)

read_line-run :
    (ks rest : List ℕ) (l : Line)
    → AreTyped ks
    → l.cursor + length ks < input_size
    → read_line (ks ++ (Key.enter ∷ rest)) l ≡ (
      entered (record (typed ks l) { input = poke (typed ks l).cursor 0 (typed ks l).input }),
      map putchar ks ++ (putchar 10 ∷ []),
      rest,
    )
unfolding read_line handle_key
read_line-run [] rest l keys room = refl
read_line-run (k ∷ ks) rest l keys room =
    let m : Line = record { input = poke l.cursor k l.input; cursor = l.cursor + 1 } in
    let ih = read_line-run ks rest m keys.1 (omega arith) in
    rw (handle_key-typed k l keys.0 (omega arith), ih) refl

-- Typing keys that put a character, as many as fit into the array, and then enter reads exactly
-- them: the keys stand in the array from the old cursor on with a zero byte behind them, each is
-- echoed, a newline is printed, and the keys after the enter are left for the next line.
pub read_line-typed :
    (ks rest : List ℕ) (l : Line)
    → AreTyped ks
    → l.cursor + length ks < input_size
    → (m : Line) × (read_line (ks ++ (Key.enter ∷ rest)) l
        ≡ (entered m, map putchar ks ++ (putchar 10 ∷ []), rest))
      × (m.cursor ≡ l.cursor + length ks)
      × ((i : ℕ) → i < length ks → m.input (l.cursor + i) ≡ get_or ks i 0)
      × (m.input (l.cursor + length ks) ≡ 0)
read_line-typed ks rest l keys room =
    let cursor = typed-cursor ks l in
    (
      record (typed ks l) { input = poke (typed ks l).cursor 0 (typed ks l).input },
      read_line-run ks rest l keys room,
      cursor,
      λ i h. (let t = typed-input ks l i h in ground (arith, t, cursor, h)),
      ground (arith, cursor),
    )
