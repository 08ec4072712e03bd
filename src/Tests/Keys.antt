-- ===== src/Tests/Keys.antt =====
-- The keyboard and the shell at concrete inputs.
use dav_os.Base.{ℕ, ◌+◌, ◌<◌, ◌≡◌, false, List, [], ◌∷◌, ◌++◌, map, length, get_or, arith}
use dav_os.Kpp.CircularQueue
use dav_os.Kpp.CircularQueue.Inv.{init-IsValid}
use dav_os.Kpp.CircularQueue.Refine
use dav_os.Keyboard.Key
use dav_os.Keyboard.{max_size}
use dav_os.Keyboard.Codes.{receive, keys_of, receive-contents}
use dav_os.Shell.{Line, putchar, entered, read_line}
use dav_os.Shell.Editor.{read_line-typed}

-- Up, the release of up, and `a`.
receive-contents_example :
    Refine.contents max_size Key.none
      (receive (0xe0 ∷ 0x48 ∷ 0xe0 ∷ 0xc8 ∷ 0x1e ∷ []) false (CircularQueue.init 256 0))
    ≡ Refine.contents max_size Key.none (CircularQueue.init 256 0)
      ++ keys_of (0xe0 ∷ 0x48 ∷ 0xe0 ∷ 0xc8 ∷ 0x1e ∷ []) false
receive-contents_example =
    receive-contents (0xe0 ∷ 0x48 ∷ 0xe0 ∷ 0xc8 ∷ 0x1e ∷ []) false (CircularQueue.init 256 0)
      (init-IsValid 256 0 (omega arith))
      (omega arith, (omega arith, (omega arith, (omega arith, (omega arith, tt)))))
      (unfold CircularQueue.init in omega arith)

abbrev ls : List ℕ
ls = 108 ∷ 115 ∷ []

abbrev blank : Line
blank = record { input = λ i. 0; cursor = 0 }

read_line-typed_example :
    (m : Line) × (read_line (ls ++ (Key.enter ∷ 97 ∷ [])) blank
      ≡ (entered m, map putchar ls ++ (putchar 10 ∷ []), 97 ∷ []))
    × (m.cursor ≡ 0 + length ls)
    × ((i : ℕ) → i < length ls → m.input (0 + i) ≡ get_or ls i 0)
    × (m.input (0 + length ls) ≡ 0)
read_line-typed_example =
    read_line-typed ls (97 ∷ []) blank
      ((omega arith, omega arith), ((omega arith, omega arith), tt)) (omega arith)
