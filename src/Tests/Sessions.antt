-- ===== src/Tests/Sessions.antt =====
-- A session at the shell at concrete lines.
use dav_os.Base.{ℕ, zero, suc, ◌≡◌, List, [], ◌∷◌, arith}
use dav_os.Base.Run.{ok}
use dav_os.Base.Text.{codes}
use dav_os.Kpp.CString.{Bytes}
use dav_os.Shell.{Words}
use dav_os.Shell.Session.{shell_loop}
use dav_os.Shell.Session.Replies.{HasWords}
use dav_os.Shell.Session.Typed.{keys_of, session_of, shell_loop-session_of}

abbrev command_words : Words
command_words = record { help_at = 0; echo_at = 5; exit_at = 11; clear_at = 16 }

-- The character at a place of a list, with zero behind it.
abbrev texts : List ℕ → Bytes
texts [] x = 0
texts (c ∷ cs) zero = c
texts (c ∷ cs) (suc x) = texts cs x

-- The four command words.
abbrev memory : Bytes
memory = texts (codes "help\0echo \0exit\0clear\0")

memory-HasWords : HasWords command_words memory
memory-HasWords = omega arith

abbrev lines : List (List ℕ)
lines = codes "echo hi" ∷ codes "exit" ∷ codes "help" ∷ []

shell_loop-session_of_example :
    shell_loop command_words 4 1000 (keys_of lines) memory ≡ ok (session_of lines)
shell_loop-session_of_example =
    shell_loop-session_of command_words 1000 (omega arith) 4 lines memory memory-HasWords
      (omega arith) (omega arith)
