-- ===== src/Tests/Library.antt =====
-- The kernel's library at concrete inputs.
use dav_os.Base.{ℕ, ◌+◌, refl, ◌↔◌, false, ◌≡◌, ◌==◌, if◌then◌else◌, List, [], ◌∷◌, arith}
use dav_os.Base.Run.{ok}
use dav_os.Kpp.CircularQueue
use dav_os.Kpp.CircularQueue.Inv.{init-IsValid}
use dav_os.Kpp.CircularQueue.Refine.{put, get, run, spec_run, run_refines}
use dav_os.Kpp.CircularQueue.Refine
use dav_os.Kpp.Function.{
  holds, refers, Functions, call_target, call, call_all, copy_construct, make_callable, call_values,
  call_copies, copy_construct-call_copies,
}
use dav_os.Kpp.UniquePtr.{make_unique}
use dav_os.Kpp.NonOwningStack.{NonOwningStack}
use dav_os.Kpp.CString.{memmove}
use dav_os.Kpp.CString.Copy.{Copied, memmove-Copied}
use dav_os.Kpp.Printf.{print_number, vprintf, int, unsigned_long_long}
use dav_os.Kpp.Printf.Typing.{Returns, HaveTypes, wanted, vprintf-HaveTypes}
use dav_os.Base.Int.{pos, abs}
use dav_os.Kpp.Printf.Digits.{read, print_number-read, sixteen-IsBase}

run_refines_example :
    run {A = ℕ} 2 0 (CircularQueue.init 2 0) (put 7 ∷ put 8 ∷ put 9 ∷ get ∷ get ∷ get ∷ [])
    ≡ spec_run {A = ℕ} 2 0
        (Refine.contents 2 0 (CircularQueue.init 2 0))
        (put 7 ∷ put 8 ∷ put 9 ∷ get ∷ get ∷ get ∷ [])
run_refines_example =
    run_refines {A = ℕ} 2 0 (put 7 ∷ put 8 ∷ put 9 ∷ get ∷ get ∷ get ∷ [])
      (init-IsValid 2 0 (omega arith))

abbrev two_frames : NonOwningStack
two_frames = record { slots = 0x1000 ∷ 0x2000 ∷ 0 ∷ []; max_size = 3; size = 2 }

-- The five characters "help\0" at 100, and "held\0" at 200.
abbrev words : ℕ → ℕ
words x =
    if x == 100
    then 104
    else if x == 101
    then 101
    else if x == 102
    then 108
    else if x == 103
    then 112
    else 0

memmove-Copied_example : Copied 101 100 4 words (memmove 101 100 4 words)
memmove-Copied_example = memmove-Copied 101 100 4 words

print_number-read_example : (s : List ℕ) × (print_number 16 48879 ≡ ok s) × (read 16 0 s ≡ 48879)
print_number-read_example = print_number-read 16 48879 sixteen-IsBase (omega arith)

-- "%d%x", with one argument of a wrong type and with right ones.
abbrev two_conversions : List ℕ
two_conversions = 37 ∷ b'd' ∷ 37 ∷ b'x' ∷ []

vprintf-HaveTypes_example :
    Returns (vprintf 4 two_conversions (int (pos 7) ∷ unsigned_long_long 255 ∷ []))
    ↔ HaveTypes (wanted false two_conversions) (int (pos 7) ∷ unsigned_long_long 255 ∷ [])
vprintf-HaveTypes_example =
    vprintf-HaveTypes 4 two_conversions (int (pos 7) ∷ unsigned_long_long 255 ∷ [])
      (unfold abs in omega arith, (omega arith, tt)) (omega arith)

-- A counter: a call adds the argument and gives the sum.
abbrev count_up : ℕ → ℕ → ℕ × ℕ
count_up x n = (n + x, n + x)

-- Function 1 refers to the counter at 9, which stands at 7; it is copied to Function 2, with a `CallableImpl` at 60.
abbrev one_function : Functions ℕ ℕ ℕ count_up
one_function = record {
  pointers = record { resource = λ p. if p == 1 then 50 else 0; destroyed = λ _. 0 };
  targets = λ _. refers 9;
  outer = λ _. 7;
}

-- Function 1 holds a counter that stands at 7.
abbrev one_owner : Functions ℕ ℕ ℕ count_up
one_owner = record one_function { targets = λ _. holds 7 }

abbrev two_calls : List (ℕ × ℕ)
two_calls = (2, 1) ∷ (1, 5) ∷ (2, 1) ∷ []

shared_calls :
    call_all ℕ ℕ ℕ count_up two_calls (copy_construct ℕ ℕ ℕ count_up 2 60 1 one_function)
    ≡ ok (8 ∷ 13 ∷ 14 ∷ [])
unfolding call_all call call_target copy_construct make_callable make_unique
shared_calls = refl

copy_construct-call_copies_example :
    call_all ℕ ℕ ℕ count_up two_calls (copy_construct ℕ ℕ ℕ count_up 2 60 1 one_owner)
    ≡ ok (8 ∷ 12 ∷ 9 ∷ [])
unfolding call_copies call_values
copy_construct-call_copies_example =
    copy_construct-call_copies ℕ ℕ ℕ count_up 2 60 1 two_calls one_owner (omega arith) (omega arith)
      (omega arith) (omega arith) (refl, (refl, (refl, tt)))
