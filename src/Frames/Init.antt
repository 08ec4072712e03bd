-- ===== src/Frames/Init.antt =====
-- What `frame_allocator_init` and `free_limine_bootloader_memory` leave on the stack.
use mathlib.Core.List.{reverse_aux}
use dav_os.Base.{
  ℕ, zero, suc, ◌+◌, ◌*◌, ◌/◌, ◌^◌, ◌≤◌, ◌<◌, ◌≡◌, ◌≢◌, refl, ap, ◌∙◌, false, inl, inr, List, [],
  ◌∷◌, ◌++◌, ◌==◌, ◌&&◌, leb, ltb, if◌then◌else◌, Bool-cases, arith, length, length-append,
  length-replicate,
}
use dav_os.Base.Words.{add64, u64}
use dav_os.Base.Run.{ok}
use dav_os.Kpp.NonOwningStack
use dav_os.Kpp.NonOwningStack.{
  NonOwningStack, IsValid, contents, push-IsValid, contents-push, length-upto,
}
use dav_os.Frames.{
  MemmapEntry, FrameRange, frame_size, is_allocatable, in_exclude_range, get_num_allocatable_frames,
  num_allocatable_from, free_stack_begin, free_stack_range, empty_stack, frame_allocator_init,
  manually_reserve_contiguous_frames, num_free_stack_frames,
}
use dav_os.Frames.Fill.{frames, kept, push_all, usable_frames, IsAligned, fill_free_stack-frames}

abbrev pub count : ℕ → List ℕ → ℕ
count a [] = 0
count a (x ∷ xs) = if x == a then suc (count a xs) else count a xs

pub count-append : (a : ℕ) (xs ys : List ℕ) → count a (xs ++ ys) ≡ count a xs + count a ys
count-append a [] ys = omega arith
count-append a (x ∷ xs) ys = ground (arith, count-append a xs ys)

pub count-reverse_aux :
    (a : ℕ) (xs ys : List ℕ) → count a (reverse_aux xs ys) ≡ count a xs + count a ys
count-reverse_aux a [] ys = omega arith
count-reverse_aux a (x ∷ xs) ys = ground (arith, count-reverse_aux a xs (x ∷ ys))

pub count-kept :
    (a : ℕ) (ranges : List FrameRange) (xs : List ℕ)
    → count a (kept ranges xs) ≡ (if in_exclude_range ranges a then 0 else count a xs)
count-kept a ranges [] = ground arith
count-kept a ranges (x ∷ xs) = ground (arith, count-kept a ranges xs)

pub length-frames : (n base : ℕ) → length (frames n base) ≡ n
length-frames zero base = refl
length-frames (suc n) base = ap suc (length-frames n (base + frame_size))

length-kept : (ranges : List FrameRange) (xs : List ℕ) → length (kept ranges xs) ≤ length xs
length-kept ranges [] = omega arith
length-kept ranges (x ∷ xs) = ground (arith, length-kept ranges xs)

push-room :
    (x : ℕ) (s : NonOwningStack)
    → s.size < s.max_size
    → ((NonOwningStack.push x s).size ≡ s.size + 1)
      × ((NonOwningStack.push x s).max_size ≡ s.max_size)
unfolding NonOwningStack.push
push-room x s h = ground arith

push-cons :
    (x : ℕ) (s : NonOwningStack)
    → IsValid s
    → s.size < s.max_size
    → contents (NonOwningStack.push x s) ≡ x ∷ contents s
push-cons x s v h = ground (arith, contents-push x v)

-- Pushing frames for which there is room keeps them all, the last on top.
contents-push_all :
    (xs : List ℕ) (s : NonOwningStack)
    → IsValid s
    → s.size + length xs ≤ s.max_size
    → IsValid (push_all xs s)
      × ((push_all xs s).max_size ≡ s.max_size)
      × (contents (push_all xs s) ≡ reverse_aux xs (contents s))
contents-push_all [] s v room = (v, refl, refl)
contents-push_all (x ∷ xs) s v room =
    let (grown, same) = push-room x s (omega arith) in
    let (v', m, c) =
      contents-push_all xs (NonOwningStack.push x s) (push-IsValid x v) (omega arith) in
    (v', m ∙ same, c ∙ ap (reverse_aux xs) (push-cons x s v (omega arith)))

num_allocatable_from-length :
    (acc : ℕ) (es : List MemmapEntry)
    → acc + length (usable_frames es) < 2 ^ 64
    → num_allocatable_from acc es ≡ acc + length (usable_frames es)
unfolding num_allocatable_from
num_allocatable_from-length acc [] h = omega arith
num_allocatable_from-length acc (e ∷ es) h = elim (Bool-cases (is_allocatable e)) [
  | inr skip ↦ rw skip (num_allocatable_from-length acc es (rw skip at h))
  | inl use_it ↦
      let total = length-append (frames n e.base) (usable_frames es) in
      let own = length-frames n e.base in
      let room : acc + length (frames n e.base ++ usable_frames es) < 2 ^ 64 = rw use_it at h in
      let small : add64 acc n ≡ acc + n = omega arith in
      rw (use_it, small) (omega (arith, num_allocatable_from-length (acc + n) es (omega arith)))
]
  where
    n : ℕ
    n = e.length / frame_size

-- The memory of the map is less than the address space.
abbrev pub IsSmall : List MemmapEntry → Type 0
IsSmall es = length (usable_frames es) * frame_size < 2 ^ 64

pub get_num_allocatable_frames-length :
    (es : List MemmapEntry) → IsSmall es → get_num_allocatable_frames es ≡ length (usable_frames es)
unfolding get_num_allocatable_frames
get_num_allocatable_frames-length es h =
    omega (arith, num_allocatable_from-length 0 es (omega arith))

-- The frames that do not lie from `first` on and below `end`.
abbrev pub outside : ℕ → ℕ → List ℕ → List ℕ
outside first end [] = []
outside first end (x ∷ xs) =
    if leb first x && ltb x end then outside first end xs else x ∷ outside first end xs

-- The memory of eight bytes for each usable frame, in whole frames.
abbrev pub stack_bytes : List MemmapEntry → ℕ
stack_bytes es = (8 * length (usable_frames es) + 0xfff) / 0x1000 * 0x1000

-- What the allocator holds after `frame_allocator_init`: the frames of the usable entries but those
-- of the stack's own memory, the last on top.
pub record IsReady (es : List MemmapEntry) (s : NonOwningStack) : Type 0 where
  pub starts : frame_allocator_init es ≡ ok s
  pub valid : IsValid s
  pub capacity : s.max_size ≡ length (usable_frames es)
  pub holds : contents s ≡ reverse_aux (kept (free_stack_range es ∷ []) (usable_frames es)) []
  pub free :
      contents s
      ≡ reverse_aux
          (outside (free_stack_begin es) (free_stack_begin es + stack_bytes es) (usable_frames es))
          []

kept-outside : (r : FrameRange) (xs : List ℕ) → kept (r ∷ []) xs ≡ outside r.begin r.end xs
unfolding in_exclude_range
kept-outside r [] = refl
kept-outside r (x ∷ xs) = ground (arith, kept-outside r xs)

-- A reservation ends below the last page of the address space.
reserve-top :
    (n : ℕ) (es : List MemmapEntry)
    → IsAligned es
    → manually_reserve_contiguous_frames n es ≢ 0
    → manually_reserve_contiguous_frames n es + u64 (n * frame_size) + frame_size ≤ 2 ^ 64
unfolding manually_reserve_contiguous_frames
reserve-top n [] aligned h = absurd (h refl)
reserve-top n (e ∷ es) aligned h =
    elim (Bool-cases (is_allocatable e && leb (u64 (n * frame_size)) e.length)) [
      | inl fits ↦
          let room : u64 (n * frame_size) ≤ e.length = ground arith in
          rw fits (omega (arith, room, aligned.1))
      | inr not_here ↦ rw not_here (reserve-top n es aligned.2 (rw not_here at h))
    ]

free_stack_range-end :
    (es : List MemmapEntry)
    → IsAligned es
    → IsSmall es
    → free_stack_begin es ≢ 0
    → (free_stack_range es).end ≡ free_stack_begin es + stack_bytes es
free_stack_range-end es aligned small found =
    let total = get_num_allocatable_frames-length es small in
    let size : num_free_stack_frames es * frame_size ≡ stack_bytes es = ground (arith, total) in
    let exact : u64 (num_free_stack_frames es * frame_size)
        ≡ num_free_stack_frames es * frame_size =
      ground (arith, total) in
    let top = reserve-top (num_free_stack_frames es) es aligned found in
    let inside : free_stack_begin es + num_free_stack_frames es * frame_size < 2 ^ 64 =
      omega (arith, top, exact) in
    omega (arith, inside, size)

-- On a map of entries of whole frames that end at least a frame below 2 ^ 64, whose usable memory
-- is below 2 ^ 64 bytes, in which a place for the stack is found, frame_allocator_init returns a
-- valid stack with room for every usable frame. It holds exactly the frames of the usable entries
-- that do not lie in the stack's own memory, which is eight bytes for each usable frame, in whole
-- frames, from the place found on; the last is on top.
pub frame_allocator_init-IsReady :
    (es : List MemmapEntry)
    → IsAligned es
    → IsSmall es
    → free_stack_begin es ≢ 0
    → (s : NonOwningStack) × IsReady es s
unfolding frame_allocator_init NonOwningStack.init
frame_allocator_init-IsReady es aligned small found = (
  stack,
  record {
    starts = rw (go, fill_free_stack-frames ranges es (empty_stack es) aligned);
    valid = pushed.0;
    capacity = pushed.1 ∙ total;
    holds = pushed.2;
    free =
        pushed.2
        ∙ ap (λ (xs : List ℕ). reverse_aux xs [])
            (kept-outside (free_stack_range es) (usable_frames es)
              ∙ ap (λ (end : ℕ). outside (free_stack_begin es) end (usable_frames es))
                  (free_stack_range-end es aligned small found));
  },
)
  where
    ranges : List FrameRange
    ranges = free_stack_range es ∷ []

    stack : NonOwningStack
    stack = push_all (kept ranges (usable_frames es)) (empty_stack es)

    total : get_num_allocatable_frames es ≡ length (usable_frames es)
    total = get_num_allocatable_frames-length es small

    go : (free_stack_begin es == 0) ≡ false
    go = ground arith

    empty_valid : IsValid (empty_stack es)
    empty_valid = omega (arith, length-replicate {A = ℕ} (get_num_allocatable_frames es) 0)

    pushed :
        IsValid stack
        × (stack.max_size ≡ (empty_stack es).max_size)
        × (contents stack
            ≡ reverse_aux (kept ranges (usable_frames es)) (contents (empty_stack es)))
    pushed =
        contents-push_all (kept ranges (usable_frames es)) (empty_stack es) empty_valid
          (omega (arith, total, length-kept ranges (usable_frames es)))
