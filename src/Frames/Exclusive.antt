-- ===== src/Frames/Exclusive.antt =====
-- No frame has two owners: a frame is on the free stack once, or held by one caller, or neither.
use dav_os.Base.{
  ℕ, zero, suc, ◌+◌, ◌*◌, ◌/◌, ◌≤◌, ◌<◌, ◌≡◌, refl, ap, List, [], ◌∷◌, ◌++◌, if◌then◌else◌, arith,
}
use dav_os.Base.Run.{ok}
use dav_os.Kpp.NonOwningStack
use dav_os.Kpp.NonOwningStack.{
  NonOwningStack, IsValid, contents, push-IsValid, pop-IsValid, contents-push, upto_of_pos,
}
use dav_os.Frames.{
  MemmapEntry, frame_size, in_exclude_range, free_stack_range, allocate_frame, deallocate_frame,
}
use dav_os.Frames.Fill.{frames, kept, usable_frames}
use dav_os.Frames.Init.{count, count-append, count-reverse_aux, count-kept, IsReady}

-- The entries are in order of their bases and do not overlap.
abbrev pub IsOrdered : ℕ → List MemmapEntry → Type 0
IsOrdered lo [] = Unit {0}
IsOrdered lo (e ∷ es) = (lo ≤ e.base) × IsOrdered (e.base + e.length) es

pub count-frames_below : (a n base : ℕ) → a < base → count a (frames n base) ≡ 0
count-frames_below a zero base h = refl
count-frames_below a (suc n) base h =
    ground (arith, count-frames_below a n (base + frame_size) (omega arith))

pub count-frames_above : (a n base : ℕ) → base + n * frame_size ≤ a → count a (frames n base) ≡ 0
count-frames_above a zero base h = refl
count-frames_above a (suc n) base h =
    ground (arith, count-frames_above a n (base + frame_size) (omega arith))

pub count-frames-le : (a n base : ℕ) → count a (frames n base) ≤ 1
count-frames-le a zero base = omega arith
count-frames-le a (suc n) base =
    ground
      (arith, count-frames-le a n (base + frame_size), count-frames_below a n (base + frame_size))

count-usable_below :
    (a lo : ℕ) (es : List MemmapEntry) → IsOrdered lo es → a < lo → count a (usable_frames es) ≡ 0
count-usable_below a lo [] o h = refl
count-usable_below a lo (e ∷ es) o h = ground (
  arith,
  count-append a (frames (e.length / frame_size) e.base) (usable_frames es),
  count-frames_below a (e.length / frame_size) e.base (omega arith),
  count-usable_below a (e.base + e.length) es o.1 (omega arith),
)

count-usable-le :
    (a lo : ℕ) (es : List MemmapEntry) → IsOrdered lo es → count a (usable_frames es) ≤ 1
count-usable-le a lo [] o = omega arith
count-usable-le a lo (e ∷ es) o = ground (
  arith,
  count-append a (frames (e.length / frame_size) e.base) (usable_frames es),
  count-frames-le a (e.length / frame_size) e.base,
  count-frames_above a (e.length / frame_size) e.base,
  count-usable-le a (e.base + e.length) es o.1,
  count-usable_below a (e.base + e.length) es o.1,
)

-- On a stack that frame_allocator_init left, a frame stands as often as among the usable frames of
-- the map, and not at all if it lies in the stack's own memory.
pub count-free :
    (a : ℕ) {es : List MemmapEntry} {s : NonOwningStack}
    → IsReady es s
    → count a (contents s)
      ≡ (if in_exclude_range (free_stack_range es ∷ []) a then 0 else count a (usable_frames es))
count-free a {es} r =
    rw
      (
        r.holds,
        count-reverse_aux a (kept (free_stack_range es ∷ []) (usable_frames es)) [],
        count-kept a (free_stack_range es ∷ []) (usable_frames es),
      )
      (omega arith)

-- The stack with the frames that callers hold.
pub record Owned : Type 0 where
  pub stack : NonOwningStack
  pub held : List ℕ

pub data Step (o : Owned) : Owned → Type 0 where
  allocate :
      {f : ℕ} {s : NonOwningStack}
      → allocate_frame o.stack ≡ ok (f, s)
      → Step o (record { stack = s; held = f ∷ o.held })
  -- A caller gives back a frame that it holds.
  deallocate :
      (xs : List ℕ) (f : ℕ) (ys : List ℕ)
      → o.held ≡ xs ++ (f ∷ ys)
      → Step o (record { stack = deallocate_frame f o.stack; held = xs ++ ys })

pub data Reach (o : Owned) : Owned → Type 0 where
  here : Reach o o
  next : {p q : Owned} → Reach o p → Step p q → Reach o q

pub record IsExclusive (o : Owned) : Type 0 where
  pub valid : IsValid o.stack
  pub once : (a : ℕ) → count a (contents o.stack) + count a o.held ≤ 1

-- A frame that `allocate_frame` returns was on top, and the rest stays.
pub allocate_frame-cons :
    (s : NonOwningStack) {f : ℕ} {t : NonOwningStack}
    → allocate_frame s ≡ ok (f, t)
    → (contents s ≡ f ∷ contents t) × (t ≡ NonOwningStack.pop s)
unfolding allocate_frame NonOwningStack.empty NonOwningStack.top NonOwningStack.pop
allocate_frame-cons s e = ground (arith, upto_of_pos s.slots s.size)

Step-IsExclusive : {o p : Owned} → Step o p → IsExclusive o → IsExclusive p
Step-IsExclusive {o} (allocate {f} {s} e) i =
    let (c, t) = allocate_frame-cons o.stack e in
    record {
      valid = rw t (pop-IsValid i.valid);
      once = λ a. ground (arith, ap (count a) c, i.once a);
    }
Step-IsExclusive {o} (deallocate xs f ys e) i = record {
  valid = push-IsValid f i.valid;
  once = λ a. ground (
    arith,
    ap (count a) e,
    ap (count a) (contents-push f i.valid),
    count-append a xs (f ∷ ys),
    count-append a xs ys,
    i.once a,
  );
}

Reach-IsExclusive : {o p : Owned} → Reach o p → IsExclusive o → IsExclusive p
Reach-IsExclusive here i = i
Reach-IsExclusive (next r s) i = Step-IsExclusive s (Reach-IsExclusive r i)

-- On an ordered memory map, after the start of the allocator and any sequence of allocations and
-- of deallocations by holders, a frame is on the free stack or held by a caller at most once in
-- all.
pub Reach-once :
    {es : List MemmapEntry} {s : NonOwningStack} {o : Owned} (a : ℕ)
    → IsReady es s
    → IsOrdered 0 es
    → Reach (record { stack = s; held = [] }) o
    → count a (contents o.stack) + count a o.held ≤ 1
Reach-once {es} a ready ordered r =
    (Reach-IsExclusive r (record {
      valid = ready.valid;
      once = λ b. ground (arith, count-free b ready, count-usable-le b 0 es ordered);
    })).once
      a

-- While there is a free frame, `allocate_frame` returns one.
pub allocate_frame-ok :
    (s : NonOwningStack)
    → 0 < s.size
    → (allocate_frame s ≡ ok (NonOwningStack.top s, NonOwningStack.pop s))
      × ((NonOwningStack.pop s).size + 1 ≡ s.size)
unfolding allocate_frame NonOwningStack.empty NonOwningStack.pop
allocate_frame-ok s h = ground arith
