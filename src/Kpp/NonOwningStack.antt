-- ===== src/Kpp/NonOwningStack.antt =====
-- `kpp::NonOwningStack` of kernel/lib/kpp/include/kpp/NonOwningStack.hpp: a fixed array of frame
-- pointers with a fill mark. `m_stack` is the list `slots` (the memory that the caller provides, at
-- least `max_size` pointers, see IsValid), so a write out of range changes nothing.
use dav_os.Base.{
  ℕ, zero, suc, ◌+◌, ◌-◌, ◌≤◌, ◌<◌, ◌≡◌, refl, ap, Bool, List, [], ◌∷◌, ◌==◌, if◌then◌else◌, length,
  get_or, set, length-set, get_or-set_self, get_or-set_ne, arith,
}

pub record NonOwningStack : Type 0 where
  pub slots : List ℕ
  pub max_size : ℕ
  pub size : ℕ

unfoldable pub init : List ℕ → ℕ → NonOwningStack
init slots max_size = record { slots = slots; max_size = max_size; size = 0 }

unfoldable pub empty : NonOwningStack → Bool
empty s = s.size == 0

pub full : NonOwningStack → Bool
full s = s.size == s.max_size

unfoldable pub push : ℕ → NonOwningStack → NonOwningStack
unfolding full
push frame s =
    if full s then s else record s { slots = set s.slots s.size frame; size = s.size + 1 }

unfoldable pub pop : NonOwningStack → NonOwningStack
unfolding empty
pop s = if empty s then s else record s { size = s.size - 1 }

-- `m_stack[m_size - 1]`. The callers ask only where the stack is not empty; 0 stands for the read
-- out of range that `m_size == 0` would be.
unfoldable pub top : NonOwningStack → ℕ
top s = if s.size == 0 then 0 else get_or s.slots (s.size - 1) 0

pub record IsValid (s : NonOwningStack) : Type 0 where
  pub fits : s.max_size ≤ length s.slots
  pub size_in : s.size ≤ s.max_size

-- The frames on the stack, the top first.
abbrev pub upto : List ℕ → ℕ → List ℕ
upto slots zero = []
upto slots (suc n) = get_or slots n 0 ∷ upto slots n

abbrev pub contents : NonOwningStack → List ℕ
contents s = upto s.slots s.size

pub length-upto : (slots : List ℕ) (n : ℕ) → length (upto slots n) ≡ n
length-upto slots zero = refl
length-upto slots (suc n) = ap suc (length-upto slots n)

upto-set : (slots : List ℕ) (i n x : ℕ) → n ≤ i → upto (set slots i x) n ≡ upto slots n
upto-set slots i zero x h = refl
upto-set slots i (suc n) x h =
    rw (get_or-set_ne slots i n x 0 (omega arith), upto-set slots i n x (omega arith))

pub push-IsValid : (x : ℕ) {s : NonOwningStack} → IsValid s → IsValid (push x s)
unfolding push
push-IsValid x {s} v = ground (arith, length-set s.slots s.size x)

pub pop-IsValid : {s : NonOwningStack} → IsValid s → IsValid (pop s)
unfolding pop
pop-IsValid v = ground arith

-- On a valid stack push puts a frame on top of the others, or leaves them as they are when the
-- stack is full.
pub contents-push :
    (x : ℕ) {s : NonOwningStack}
    → IsValid s
    → contents (push x s) ≡ (if s.size == s.max_size then contents s else x ∷ contents s)
unfolding push
contents-push x {s} v =
    ground (arith, get_or-set_self s.slots s.size x 0, upto-set s.slots s.size s.size x)

top_of : List ℕ → ℕ
top_of [] = 0
top_of (x ∷ xs) = x

rest_of : List ℕ → List ℕ
rest_of [] = []
rest_of (x ∷ xs) = xs

pub upto_of_pos :
    (slots : List ℕ) (n : ℕ) → 0 < n → upto slots n ≡ get_or slots (n - 1) 0 ∷ upto slots (n - 1)
upto_of_pos slots zero pos = elim pos [ ]
upto_of_pos slots (suc n) pos = ap (λ k. upto slots (suc k)) (omega arith)

-- A stack that holds a frame above others has that frame as its top, and pop leaves the others.
pub top-pop :
    (x : ℕ) (l : List ℕ) (s : NonOwningStack)
    → contents s ≡ x ∷ l
    → (top s ≡ x) × (contents (pop s) ≡ l)
unfolding top pop
top-pop x l s e = ground (arith, upto_of_pos s.slots s.size)

-- The same where there is room.
pub contents-push_room :
    (f : ℕ) (s : NonOwningStack)
    → IsValid s
    → s.size < s.max_size
    → contents (push f s) ≡ f ∷ contents s
contents-push_room f s valid room = ground (arith, contents-push f valid)
