-- ===== src/Shell/Session.antt =====
-- The loop of `kernel_main` in kernel/src/main.cpp: a prompt, a line, a command, from the first key on. The
-- array `input` lies in memory at an address of its own. What is printed is a list of events; the loop
-- runs on fuel, a round for each line.
pub mod Replies
pub mod Typed
use dav_os.Base.{
  ℕ, zero, suc, ◌+◌, ◌-◌, Bool, true, false, ◌&&◌, ltb, leb, ◌==◌, if◌then◌else◌, List, [], ◌∷◌,
  ◌++◌, map, length,
}
use Prim.Native.String.{String}
use dav_os.Base.Text.{codes}
use dav_os.Kpp.Printf.{Argument, string, vprintf}
use dav_os.Base.Run.{Run, ok, out_of_fuel, ◌>>=◌}
use dav_os.Kpp.CString.{Bytes, strlen}
use dav_os.Shell.{
  input_size, Effect, Line, Outcome, editing, entered, read_line, Command, nothing, help, exit,
  clear, echo, unknown, Words, handle_command,
}

pub data Event : Type 0 where
  prompt clear_screen : Event
  print : List ℕ → Event
  edit : Effect → Event

-- What is left when no key is left: a line that is not ended, or `kernel_hang`.
pub data End : Type 0 where
  waiting halted : End

-- `count` characters of memory.
unfoldable pub characters : ℕ → ℕ → Bytes → List ℕ
characters zero a mem = []
characters (suc count) a mem = mem a ∷ characters count (a + 1) mem

-- `%s`: a string inside the array, which a zero byte ends.
unfoldable pub c_string : ℕ → Bytes → Run (List ℕ)
unfolding characters
c_string a mem = strlen (suc input_size) a mem >>= λ n. ok (characters n a mem)

-- `kpp::printf`, with a round for each character of the format.
unfoldable pub printf : String → List Argument → Run (List Event)
printf format args =
    vprintf (length (codes format)) (codes format) args >>= λ out. ok (print out ∷ [])

-- What `handle_command` prints, and whether it hangs.
unfoldable pub run_command : ℕ → Bytes → Command → Run (List Event × Bool)
unfolding c_string printf
run_command input mem nothing = ok ([], false)
run_command input mem help = do
  a ← printf "Available commands:\n" []
  b ← printf "  help - Show this help message\n" []
  c ← printf "  echo <message> - Echo the message back\n" []
  d ← printf "  exit - Exit the shell\n" []
  ok (a ++ b ++ c ++ d, false)
run_command input mem (echo a) = do
  s ← c_string a mem
  out ← printf "%s\n" (string s ∷ [])
  ok (out, false)
run_command input mem exit = do out ← printf "Exiting shell...\n" []; ok (out, true)
run_command input mem clear = ok (clear_screen ∷ [], false)
run_command input mem (unknown a) = do
  s ← c_string a mem
  out ← printf "Unknown command: %s\n" (string s ∷ [])
  ok (out, false)

-- The array as the line editor sees it, and memory after the line.
abbrev pub fresh_line : ℕ → Bytes → Line
fresh_line input mem = record { input = λ i. mem (input + i); cursor = 0 }

abbrev pub store_line : ℕ → Line → Bytes → Bytes
store_line input l mem x =
    if leb input x && ltb x (input + input_size) then l.input (x - input) else mem x

-- The rest of the loop, from the keys and the memory that a line leaves.
abbrev pub Continuation : Type 0
Continuation = List ℕ → Bytes → Run (List Event × End)

abbrev pub after_reply :
    Continuation → List Event → List ℕ → Bytes → List Event × Bool → Run (List Event × End)
after_reply loop printed keys mem (reply, true) = ok (printed ++ reply, halted)
after_reply loop printed keys mem (reply, false) =
    loop keys mem >>= λ (later, end). ok (printed ++ (reply ++ later), end)

abbrev pub after_line :
    Words → ℕ → Bytes → Continuation → Outcome × List Effect × List ℕ → Run (List Event × End)
after_line words input mem loop (editing l, typed, keys) = ok (prompt ∷ map edit typed, waiting)
after_line words input mem loop (entered l, typed, keys) =
    let mem' = store_line input l mem in
    run_command input mem' (handle_command words mem' input l.cursor) >>= λ r.
    after_reply loop (prompt ∷ map edit typed) keys mem' r

unfoldable pub shell_loop : Words → ℕ → ℕ → List ℕ → Bytes → Run (List Event × End)
unfolding run_command
shell_loop words zero input keys mem = out_of_fuel
shell_loop words (suc fuel) input keys mem =
    after_line words input mem (λ ks m. shell_loop words fuel input ks m)
      (read_line keys (fresh_line input mem))
