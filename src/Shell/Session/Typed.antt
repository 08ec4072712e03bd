-- ===== src/Shell/Session/Typed.antt =====
-- A whole session at the shell: lines that are typed, and what is printed.
use dav_os.Base.{
  ℕ, zero, suc, ◌+◌, ◌-◌, ◌≤◌, ◌<◌, ◌≡◌, refl, ap, ◌∙◌, Bool, true, false, ◌&&◌, ltb, leb,
  if◌then◌else◌, List, [], ◌∷◌, ◌++◌, map, length, get_or, arith,
}
use dav_os.Base.Text.{codes}
use dav_os.Base.Run.{ok}
use dav_os.Keyboard.Key
use dav_os.Kpp.CString.{Bytes}
use dav_os.Shell.{input_size, putchar, Line, entered, read_line, Words}
use dav_os.Shell.Editor.{AreTyped, read_line-typed}
use dav_os.Shell.Session.{
  Event, prompt, edit, End, waiting, halted, fresh_line, store_line, after_reply, shell_loop,
}
use dav_os.Shell.Session.Replies.{
  IsString, IsWord, HasWords, reply_of, handle_command-of, run_command-reply_of,
}

-- The keys of lines that are each ended by enter.
abbrev pub keys_of : List (List ℕ) → List ℕ
keys_of [] = []
keys_of (ks ∷ lines) = ks ++ (Key.enter ∷ keys_of lines)

-- Lines of characters that fit into the array, each before its zero byte.
abbrev pub AreLines : List (List ℕ) → Type 0
AreLines [] = Unit {0}
AreLines (ks ∷ lines) = AreTyped ks × (length ks < input_size) × AreLines lines

-- A prompt, and the echo of a line.
abbrev pub echoed : List ℕ → List Event
echoed ks = prompt ∷ map edit (map putchar ks ++ (putchar 10 ∷ []))

-- What a session prints, and how it ends: an `exit` leaves the lines behind it unread.
pub session_of : List (List ℕ) → List Event × End
session_of [] = (prompt ∷ [], waiting)
session_of (ks ∷ lines) =
    let rest = session_of lines in
    if (reply_of ks).1
    then (echoed ks ++ (reply_of ks).0, halted)
    else (echoed ks ++ ((reply_of ks).0 ++ rest.0), rest.1)

-- The command words lie below the array.
abbrev pub AreBelow : Words → ℕ → Type 0
AreBelow words input =
    (words.help_at + 5 ≤ input)
    × (words.echo_at + 5 ≤ input)
    × (words.exit_at + 5 ≤ input)
    × (words.clear_at + 5 ≤ input)

IsWord-store :
    (w : List ℕ) (b input : ℕ) (l : Line) (mem : Bytes)
    → b + length w ≤ input
    → IsWord mem b w
    → IsWord (store_line input l mem) b w
IsWord-store [] b input l mem below word = tt
IsWord-store (c ∷ w) b input l mem below word =
    (ground arith, word.1, IsWord-store w (b + 1) input l mem (omega arith) word.2)

HasWords-store :
    (words : Words) (input : ℕ) (l : Line) (mem : Bytes)
    → AreBelow words input
    → HasWords words mem
    → HasWords words (store_line input l mem)
HasWords-store words input l mem below w = (
  IsWord-store (codes "help") words.help_at input l mem (omega arith) w.0,
  IsWord-store (codes "echo ") words.echo_at input l mem (omega arith) w.1,
  IsWord-store (codes "exit") words.exit_at input l mem (omega arith) w.2,
  IsWord-store (codes "clear") words.clear_at input l mem (omega arith) w.3,
)

-- Typed keys with a zero byte behind them are a string.
IsString-of :
    (ks : List ℕ) (a : ℕ) (mem : Bytes)
    → AreTyped ks
    → ((i : ℕ) → i < length ks → mem (a + i) ≡ get_or ks i 0)
    → mem (a + length ks) ≡ 0
    → IsString mem a ks
IsString-of [] a mem typed at end = ap mem (omega arith) ∙ end
IsString-of (k ∷ ks) a mem typed at end = (
  ap mem (omega arith) ∙ at 0 (omega arith),
  omega arith,
  IsString-of ks (a + 1) mem typed.1 (λ i h. ap mem (omega arith) ∙ at (suc i) (omega arith))
      (ap mem (omega arith) ∙ end),
)

stored :
    (input i : ℕ) (l : Line) (mem : Bytes)
    → i < input_size
    → store_line input l mem (input + i) ≡ l.input i
stored input i l mem inside =
    let here : (leb input (input + i) && ltb (input + i) (input + input_size)) ≡ true =
      ground arith in
    let same : input + i - input ≡ i = omega arith in rw (here, same) refl

module _ (words : Words) (input : ℕ) (below : AreBelow words input) where
  -- One line, and the rest of the session.
  one_line :
      (fuel : ℕ) (ks : List ℕ) (lines : List (List ℕ)) (l : Line) (mem : Bytes)
      → HasWords words (store_line input l mem)
      → IsString (store_line input l mem) input ks
      → length ks < input_size
      → l.cursor ≡ length ks
      → read_line (keys_of (ks ∷ lines)) (fresh_line input mem)
        ≡ (entered l, map putchar ks ++ (putchar 10 ∷ []), keys_of lines)
      → shell_loop words fuel input (keys_of lines) (store_line input l mem) ≡ ok (session_of lines)
      → shell_loop words (suc fuel) input (keys_of (ks ∷ lines)) mem ≡ ok (session_of (ks ∷ lines))
  unfolding shell_loop session_of
  one_line fuel ks lines l mem w line short cursor reads rest =
      let named = handle_command-of words (store_line input l mem) input ks w line in
      let replies = run_command-reply_of input (store_line input l mem) ks line (omega arith) in
      rw (reads, cursor, named, replies) (ends (reply_of ks))
    where
      ends :
          (r : List Event × Bool)
          → after_reply
              (λ keys m. shell_loop words fuel input keys m)
              (echoed ks)
              (keys_of lines)
              (store_line input l mem)
              r
            ≡ ok (
                if r.1
                then (echoed ks ++ r.0, halted)
                else (echoed ks ++ (r.0 ++ (session_of lines).0), (session_of lines).1))
      ends (reply, true) = refl
      ends (reply, false) = rw rest refl

  -- With the command words in memory below the array and a round of fuel for each line and one
  -- more, typing lines of at most 255 characters, each ended by enter, prints what session_of
  -- says: for each line the prompt, the echo of the keys and the reply to the command that its
  -- first characters name. After a line that begins with "exit" the shell hangs and reads no more
  -- keys; otherwise it waits for keys after the last line.
  pub shell_loop-session_of :
      (fuel : ℕ) (lines : List (List ℕ)) (mem : Bytes)
      → HasWords words mem
      → AreLines lines
      → length lines < fuel
      → shell_loop words fuel input (keys_of lines) mem ≡ ok (session_of lines)
  unfolding shell_loop session_of
  shell_loop-session_of zero lines mem w typed enough = absurd (omega arith)
  shell_loop-session_of (suc fuel) [] mem w typed enough = unfold read_line in refl
  shell_loop-session_of (suc fuel) (ks ∷ lines) mem w typed enough =
      let (l, reads, cursor, text, end) =
        read_line-typed ks (keys_of lines) (fresh_line input mem) typed.0 (omega arith) in
      let w' = HasWords-store words input l mem below w in
      let line : IsString (store_line input l mem) input ks =
        IsString-of ks input (store_line input l mem) typed.0
          (λ i h. stored input i l mem (omega arith) ∙ (ap l.input (omega arith) ∙ text i h))
          (stored input (length ks) l mem (omega arith) ∙ (ap l.input (omega arith) ∙ end)) in
      one_line fuel ks lines l mem w' line typed.1 (omega arith) reads
        (shell_loop-session_of fuel lines (store_line input l mem) w' typed.2 (omega arith))
