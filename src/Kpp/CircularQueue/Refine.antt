-- ===== src/Kpp/CircularQueue/Refine.antt =====
-- A valid queue behaves as a list of at most `capacity` items, oldest first, that drops an item
-- when it is full.
use dav_os.Base.{
  ℕ, zero, suc, ◌+◌, ◌-◌, ◌%◌, ◌<◌, ◌≡◌, refl, sym, ap, ◌∙◌, List, [], ◌∷◌, ◌++◌, ◌==◌,
  if◌then◌else◌, length, get_or, set, get_or-set_self, get_or-set_ne, arith,
}
use mathlib.Core.Path.{ap₂}
use native.Mathlib.Nat.{mod-lt, mod-mod, mod-eq_of_lt}
use dav_os.Base.Modular.{mod-add-ne, mod-add-shift}
use dav_os.Kpp.CircularQueue.{CircularQueue, enqueue, dequeue}
use dav_os.Kpp.CircularQueue.Inv.{IsValid, enqueue-IsValid, dequeue-IsValid}

-- What a client asks of a queue, and the specification's state.
pub data Op {ℓ} (A : Type ℓ) : Type ℓ where
  put : A → Op A
  get : Op A

module _ {A : Type 0} (capacity : ℕ) where
  unfoldable pub spec_put : A → List A → List A
  spec_put x l = if length l == capacity then l else l ++ (x ∷ [])

module _ {A : Type 0} (default : A) where
  pub spec_get : List A → A × List A
  spec_get [] = (default, [])
  spec_get (x ∷ l) = (x, l)

module _ {A : Type 0} (capacity : ℕ) (default : A) where
  -- The replies of the `get`s in a run, by the specification and by the code.
  pub spec_run : List A → List (Op A) → List A
  spec_run l [] = []
  spec_run l (put x ∷ ops) = spec_run (spec_put capacity x l) ops
  spec_run l (get ∷ ops) = let (x, l') = spec_get default l in x ∷ spec_run l' ops

  pub run : CircularQueue A → List (Op A) → List A
  run q [] = []
  run q (put x ∷ ops) = run (enqueue capacity x q) ops
  run q (get ∷ ops) = let (x, q') = dequeue capacity default q in x ∷ run q' ops

  -- The `n` items from index `h` on.
  abbrev pub items : List A → ℕ → ℕ → List A
  items cells h zero = []
  items cells h (suc n) = get_or cells (h % capacity) default ∷ items cells (h + 1) n

  abbrev pub contents : CircularQueue A → List A
  contents q = items q.cells q.front q.size

  pub length-items : (cells : List A) (h n : ℕ) → length (items cells h n) ≡ n
  length-items cells h zero = refl
  length-items cells h (suc n) = ap suc (length-items cells (h + 1) n)

  items_mod :
      (cells : List A) (h k n : ℕ) → h % capacity ≡ k % capacity → items cells h n ≡ items cells k n
  items_mod cells h k zero e = refl
  items_mod cells h k (suc n) e =
      ap₂ ◌∷◌ (ap (λ i. get_or cells i default) e) (items_mod cells (h + 1) (k + 1) n step)
    where
      step : (h + 1) % capacity ≡ (k + 1) % capacity
      step =
          sym (mod-add-shift h 1 (h + 1) capacity refl)
          ∙ ap (λ i. (i + 1) % capacity) e
          ∙ mod-add-shift k 1 (k + 1) capacity refl

  items-set :
      (cells : List A) (x : A) (h n i : ℕ)
      → length cells ≡ capacity
      → n < capacity
      → i ≡ (h + n) % capacity
      → items (set cells i x) h (suc n) ≡ items cells h n ++ (x ∷ [])
  items-set cells x h zero i hold room e =
      let at : i ≡ h % capacity = e ∙ ap (λ k. k % capacity) (omega arith) in
      let inside : h % capacity < length cells =
        omega (arith, mod-lt h {m = capacity} (omega arith)) in
      rw (at, get_or-set_self cells (h % capacity) x default inside)
  items-set cells x h (suc n) i hold room e =
      ap₂ ◌∷◌
        (get_or-set_ne cells i (h % capacity) x default
          (rw e (mod-add-ne h (suc n) capacity (omega arith) room)))
        (items-set cells x (h + 1) n i hold (omega arith)
          (e ∙ ap (λ k. k % capacity) (omega arith)))

  items_of_pos :
      (cells : List A) (h n : ℕ)
      → 0 < n
      → items cells h n ≡ get_or cells (h % capacity) default ∷ items cells (h + 1) (n - 1)
  items_of_pos cells h zero pos = elim pos [ ]
  items_of_pos cells h (suc n) pos = ap (λ k. items cells h (suc k)) (omega arith)

  -- `enqueue` appends, or drops at capacity.
  pub contents-enqueue :
      (x : A) {q : CircularQueue A}
      → IsValid capacity q
      → contents (enqueue capacity x q) ≡ spec_put capacity x (contents q)
  unfolding enqueue spec_put
  contents-enqueue x {q} v = ground (
    arith,
    length-items q.cells q.front q.size,
    items-set q.cells x q.front q.size q.back v.holds,
  )

  -- `dequeue` takes the oldest item, or `T()`.
  pub contents-dequeue :
      {q : CircularQueue A}
      → IsValid capacity q
      → let (x, q') = dequeue capacity default q in (x, contents q') ≡ spec_get default (contents q)
  unfolding dequeue spec_get
  contents-dequeue {q} v = ground (
    arith,
    items_of_pos q.cells q.front q.size,
    mod-eq_of_lt v.front_in,
    items_mod q.cells ((q.front + 1) % capacity) (q.front + 1) (q.size - 1)
        (mod-mod (q.front + 1) capacity),
  )

  -- From a valid queue, any sequence of calls of enqueue and dequeue gives the replies that a list
  -- of at most the capacity's items gives, oldest first, where a full list drops the new item and
  -- an empty one replies with the default item.
  pub run_refines :
      (ops : List (Op A)) {q : CircularQueue A}
      → IsValid capacity q
      → run q ops ≡ spec_run (contents q) ops
  unfolding run spec_run
  run_refines [] v = refl
  run_refines (put x ∷ ops) v =
      run_refines ops (enqueue-IsValid capacity x v)
      ∙ ap (λ l. spec_run l ops) (contents-enqueue x v)
  run_refines (get ∷ ops) v =
      rw (run_refines ops (dequeue-IsValid capacity default v), ← contents-dequeue v)
