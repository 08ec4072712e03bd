-- ===== src/Shell.antt =====
-- The shell of `kernel_main` in kernel/src/main.cpp: the line editor, one key at a time, and
-- `handle_command`. `char input[256]` is a function of the index; its bytes before the first line, which
-- C++ leaves undefined, are those of the function that the caller starts with. What the shell prints or
-- does is a list of effects. The loop of `get()` polls the keyboard; each key it returns is one step.
pub mod Editor
pub mod Session
use dav_os.Base.{
  ℕ, zero, suc, ◌+◌, ◌-◌, ◌%◌, Bool, true, false, not, ◌&&◌, ◌||◌, ltb, ◌==◌, if◌then◌else◌, List,
  [], ◌∷◌, ◌++◌,
}
use dav_os.Base.Int.{ℤ, pos, negsuc}
use dav_os.Kpp.CString.{strncmp}
use dav_os.Keyboard.Key

abbrev pub input_size : ℕ
input_size = 256

pub data Effect : Type 0 where
  putchar : ℕ → Effect
  erase : Effect
  scroll_down : ℤ → Effect

pub record Line : Type 0 where
  pub input : ℕ → ℕ
  pub cursor : ℕ

pub data Outcome : Type 0 where
  editing entered : Line → Outcome

abbrev pub poke : ℕ → ℕ → (ℕ → ℕ) → ℕ → ℕ
poke i c input j = if j == i then c else input j

-- `static_cast<char>(key)`
abbrev pub to_char : ℕ → ℕ
to_char key = key % 256

pub handle_key : ℕ → Line → Outcome × List Effect
handle_key key l =
    if key == Key.enter
    then (entered (record l { input = poke l.cursor 0 l.input }), putchar 10 ∷ [])
    else if key == Key.backspace
    then (if ltb 0 l.cursor
        then (editing (record l { cursor = l.cursor - 1 }), erase ∷ [])
        else (editing l, []))
    else if key == Key.left_arrow
    then (editing (record l { cursor = if ltb 0 l.cursor then l.cursor - 1 else l.cursor }), [])
    else if key == Key.right_arrow
    then (
      editing (record l {
        cursor =
            if ltb l.cursor (input_size - 1) && not (l.input l.cursor == 0)
            then l.cursor + 1
            else l.cursor;
      }),
      [],
    )
    else if key == Key.up_arrow || key == Key.down_arrow
    then (editing l, scroll_down (if key == Key.up_arrow then negsuc 0 else pos 1) ∷ [])
    else if not (key == Key.none) && ltb l.cursor (input_size - 1)
    then (
      editing (record { input = poke l.cursor (to_char key) l.input; cursor = l.cursor + 1 }),
      putchar (to_char key) ∷ [],
    )
    else (editing l, [])

-- A key that does not end the line is followed by the rest of the loop.
abbrev pub continue :
    (List ℕ → Line → Outcome × List Effect × List ℕ)
    → List ℕ
    → Outcome × List Effect
    → Outcome × List Effect × List ℕ
continue loop keys (entered l, out) = (entered l, out, keys)
continue loop keys (editing l, out) = let r = loop keys l in (r.0, out ++ r.1, r.2)

-- The keys of one line: the first enter ends it, and leaves the others.
pub read_line : List ℕ → Line → Outcome × List Effect × List ℕ
read_line [] l = (editing l, [], [])
read_line (key ∷ keys) l = continue (λ ks m. read_line keys m) keys (handle_key key l)

-- What a command does. `echo` prints the string at `input + 5`.
pub data Command : Type 0 where
  nothing help exit clear : Command
  echo unknown : ℕ → Command

-- The command words, as arrays in memory.
pub record Words : Type 0 where
  pub help_at : ℕ
  pub echo_at : ℕ
  pub exit_at : ℕ
  pub clear_at : ℕ

unfoldable pub is_zero : ℤ → Bool
is_zero (pos n) = n == 0
is_zero (negsuc n) = false

unfoldable pub handle_command : Words → (ℕ → ℕ) → ℕ → ℕ → Command
handle_command words mem input length =
    if length == 0
    then nothing
    else if is_zero (strncmp input words.help_at 4 mem)
    then help
    else if is_zero (strncmp input words.echo_at 5 mem)
    then echo (input + 5)
    else if is_zero (strncmp input words.exit_at 4 mem)
    then exit
    else if is_zero (strncmp input words.clear_at 5 mem)
    then clear
    else unknown input
