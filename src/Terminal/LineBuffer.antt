-- ===== src/Terminal/LineBuffer.antt =====
-- `Terminal::LineBuffer` of kernel/include/kernel/Terminal.hpp and kernel/src/Terminal.cpp. The
-- lines are a function of the raw index of the line and of the column. The sums of `write` stay
-- below `2 * 256`, and its subtractions are guarded or take 1 from a size that is never 0.
pub mod Write
pub mod View
use dav_os.Base.{
  ℕ, suc, ◌+◌, ◌-◌, ◌%◌, min, max, Bool, true, false, not, ◌&&◌, ◌||◌, leb, ltb, ◌==◌,
  if◌then◌else◌,
}
use dav_os.Base.Int.{ℤ, pos, negsuc, abs}
use dav_os.Base.Words.{add64, sub64}

abbrev pub max_columns : ℕ
max_columns = 200

abbrev pub max_lines : ℕ
max_lines = 256

-- '\n' and '\0'.
abbrev pub newline : ℕ
newline = 10

abbrev pub nul : ℕ
nul = 0

pub data ScrollMode : Type 0 where
  automatic manual : ScrollMode

unfoldable pub is_automatic : ScrollMode → Bool
is_automatic automatic = true
is_automatic manual = false

pub record LineBuffer : Type 0 where
  pub line_size : ℕ
  pub visible_lines : ℕ
  pub lines : ℕ → ℕ → ℕ
  pub front : ℕ
  pub size : ℕ
  pub first_visible_line : ℕ
  pub current_column : ℕ

pub record WriteResult : Type 0 where
  pub line_wrapped : Bool
  pub needs_viewport_redraw : Bool

abbrev pub init : LineBuffer
init = record {
  line_size = max_columns;
  visible_lines = 24;
  lines = λ _ _. nul;
  front = 0;
  size = 1;
  first_visible_line = 0;
  current_column = 0;
}

unfoldable pub set_line_size : ℕ → LineBuffer → LineBuffer
set_line_size n b = record b { line_size = min n max_columns }

unfoldable pub set_num_visible_lines : ℕ → LineBuffer → LineBuffer
set_num_visible_lines n b = record b { visible_lines = min n max_lines }

pub scroll_down : ℤ → LineBuffer → LineBuffer
scroll_down (pos n) b = record b {
  first_visible_line = min (sub64 b.size 1) (add64 b.first_visible_line n);
}
scroll_down (negsuc n) b = record b {
  first_visible_line =
      if ltb b.first_visible_line (abs (negsuc n))
      then 0
      else b.first_visible_line - abs (negsuc n);
}

-- The index of the line that is written: `(m_front + m_size - 1) % s_maxLines`.
pub current_line : LineBuffer → ℕ
current_line b = (b.front + b.size - 1) % max_lines

-- The new line: the oldest one goes when the buffer is full.
unfoldable pub advance : LineBuffer → LineBuffer
advance b =
    if leb max_lines b.size
    then (let front' = (b.front + 1) % max_lines in
        record b {
          front = front';
          first_visible_line =
              if b.first_visible_line == front'
              then (b.first_visible_line + 1) % max_lines
              else b.first_visible_line;
        })
    else record b { size = b.size + 1 }

unfoldable pub follow : ScrollMode → LineBuffer → LineBuffer
follow mode b =
    if is_automatic mode
    then record b {
      first_visible_line =
          max b.first_visible_line
            (if ltb b.visible_lines b.size then b.size - b.visible_lines else 0);
    }
    else b

unfoldable pub wrap_line : ScrollMode → LineBuffer → LineBuffer
wrap_line mode b = record (follow mode (advance b)) { current_column = 0 }

unfoldable pub put_char : ℕ → LineBuffer → LineBuffer
put_char c b = if c == newline then b else record b {
  lines =
      λ row col. if row == current_line b && col == b.current_column then c else b.lines row col;
  current_column = b.current_column + 1;
}

unfoldable pub wraps : ℕ → LineBuffer → Bool
wraps c b = leb b.line_size b.current_column || c == newline

unfoldable pub write : ℕ → ScrollMode → LineBuffer → WriteResult × LineBuffer
write c mode b =
    let b' = if wraps c b then wrap_line mode b else b in
    (
      record {
        line_wrapped = wraps c b;
        needs_viewport_redraw = not (b'.first_visible_line == b.first_visible_line);
      },
      put_char c b',
    )

pub first_visible_line_index : LineBuffer → ℕ
first_visible_line_index b =
    if ltb b.first_visible_line b.front
    then b.first_visible_line + (max_lines - b.front - 1)
    else b.first_visible_line - b.front

unfoldable pub last_visible_line_index : LineBuffer → ℕ
last_visible_line_index b =
    min (sub64 b.size 1) (sub64 (add64 (first_visible_line_index b) b.visible_lines) 1)

pub get_line : LineBuffer → ℕ → ℕ → ℕ
get_line b index = b.lines ((b.front + index) % max_lines)

-- `m_lineBuffer[m_front] = {}` clears one line.
unfoldable pub clear : LineBuffer → LineBuffer
clear b = record b {
  front = 0;
  size = 1;
  first_visible_line = 0;
  current_column = 0;
  lines = λ row col. if row == 0 then nul else b.lines row col;
}
