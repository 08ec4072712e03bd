-- ===== src/Frames/Reclaim.antt =====
-- `free_limine_bootloader_memory`, and the memory that the allocator reserves for itself.
use dav_os.Base.{
  ℕ, zero, suc, ◌+◌, ◌*◌, ◌/◌, ◌^◌, ◌≤◌, ◌<◌, ◌≡◌, ◌≢◌, refl, ap, ◌∙◌, min, true, inl, inr, ◌&&◌,
  List, [], ◌∷◌, ◌++◌, ◌==◌, leb, ltb, if◌then◌else◌, Bool-cases, arith, length, length-append,
}
use dav_os.Base.Words.{add64, u64}
use dav_os.Base.Run.{ok, ◌>>=◌}
use dav_os.Kpp.NonOwningStack
use dav_os.Kpp.NonOwningStack.{NonOwningStack, IsValid, contents, contents-push, push-IsValid}
use dav_os.Frames.{
  MemmapEntry, frame_size, is_allocatable, memmap_bootloader_reclaimable, entry_fuel, reclaim_entry,
  reclaim_entries, free_limine_bootloader_memory, num_free_stack_frames, free_stack_begin,
  manually_reserve_contiguous_frames, available_frames,
}
use dav_os.Frames.Fill.{frames, push_all, push_all-append, IsAligned, usable_frames}
use dav_os.Frames.Init.{count, length-frames, IsSmall, get_num_allocatable_frames-length}

-- The frames of the bootloader-reclaimable entries.
abbrev pub reclaimable_frames : List MemmapEntry → List ℕ
reclaimable_frames [] = []
reclaimable_frames (e ∷ es) =
    if e.kind == memmap_bootloader_reclaimable
    then frames (e.length / frame_size) e.base ++ reclaimable_frames es
    else reclaimable_frames es

reclaim_entry-frames :
    (n k frame end c : ℕ) (s : NonOwningStack)
    → n < k
    → end ≡ frame + n * frame_size
    → end + frame_size ≤ 2 ^ 64
    → c + n < 2 ^ 64
    → reclaim_entry k frame end (c, s) ≡ ok (c + n, push_all (frames n frame) s)
unfolding reclaim_entry
reclaim_entry-frames zero zero frame end c s fuel e top small = absurd (omega arith)
reclaim_entry-frames zero (suc k) frame end c s fuel e top small = ground arith
reclaim_entry-frames (suc n) zero frame end c s fuel e top small = absurd (omega arith)
reclaim_entry-frames (suc n) (suc k) frame end c s fuel e top small =
    let next : add64 frame frame_size ≡ frame + frame_size = omega arith in
    let counted : add64 c 1 ≡ c + 1 = omega arith in
    let more : ltb frame end ≡ true = ground arith in
    let total : c + 1 + n ≡ c + suc n = omega arith in
    rw (more, next, counted, ← total)
      (reclaim_entry-frames n k (frame + frame_size) end (c + 1) (NonOwningStack.push frame s)
        (omega arith) (omega arith) top (omega arith))

reclaim_entries-frames :
    (es : List MemmapEntry) (c : ℕ) (s : NonOwningStack)
    → IsAligned es
    → c + length (reclaimable_frames es) < 2 ^ 64
    → reclaim_entries es (c, s)
      ≡ ok (c + length (reclaimable_frames es), push_all (reclaimable_frames es) s)
unfolding reclaim_entries
reclaim_entries-frames [] c s a small = ground arith
reclaim_entries-frames (e ∷ es) c s a small =
    elim (Bool-cases (e.kind == memmap_bootloader_reclaimable)) [
      | inr skip ↦ rw (skip, reclaim_entries) (reclaim_entries-frames es c s a.2 (rw skip at small))
      | inl reclaim ↦
          let total = length-append (frames n e.base) (reclaimable_frames es) in
          let own = length-frames n e.base in
          let room : c + length (frames n e.base ++ reclaimable_frames es) < 2 ^ 64 =
            rw reclaim at small in
          let sum : c + length (frames n e.base ++ reclaimable_frames es)
              ≡ c + n + length (reclaimable_frames es) =
            omega arith in
          rw
            (
              reclaim,
              reclaim_entries,
              reclaim_entry-frames n (entry_fuel e) e.base (add64 e.base e.length) c s (omega arith)
                  (omega arith) (omega arith) (omega arith),
              ◌>>=◌,
              sum,
              push_all-append,
            )
            (reclaim_entries-frames es (c + n) _ a.2 (omega arith))
    ]
  where
    n : ℕ
    n = e.length / frame_size

size-push :
    (x : ℕ) (s : NonOwningStack)
    → s.size ≤ s.max_size
    → ((NonOwningStack.push x s).size ≡ min (s.size + 1) s.max_size)
      × ((NonOwningStack.push x s).max_size ≡ s.max_size)
unfolding NonOwningStack.push
size-push x s h = ground arith

size-push_all :
    (xs : List ℕ) (s : NonOwningStack)
    → s.size ≤ s.max_size
    → (push_all xs s).size ≡ min (s.size + length xs) s.max_size
size-push_all [] s h = omega arith
size-push_all (x ∷ xs) s h =
    let (a, b) = size-push x s h in
    omega (arith, size-push_all xs (NonOwningStack.push x s) (omega arith))

pub size-push_all-le :
    (xs : List ℕ) (s : NonOwningStack) → IsValid s → s.size ≤ (push_all xs s).size
size-push_all-le xs s v = omega (arith, size-push_all xs s v.size_in)

pub free_limine-frames :
    (es : List MemmapEntry) (s : NonOwningStack)
    → IsAligned es
    → length (reclaimable_frames es) < 2 ^ 64
    → free_limine_bootloader_memory es s
      ≡ ok (length (reclaimable_frames es), push_all (reclaimable_frames es) s)
unfolding free_limine_bootloader_memory
free_limine-frames es s a small =
    reclaim_entries-frames es 0 s a (omega arith)
    ∙ ap (λ n. ok (n, push_all (reclaimable_frames es) s)) (omega arith)

-- Pushing keeps a stack valid, and puts no other frames on it.
pub push_all-IsValid : (xs : List ℕ) {s : NonOwningStack} → IsValid s → IsValid (push_all xs s)
push_all-IsValid [] v = v
push_all-IsValid (x ∷ xs) v = push_all-IsValid xs (push-IsValid x v)

pub count-push_all :
    (a : ℕ) (xs : List ℕ) {s : NonOwningStack}
    → IsValid s
    → count a (contents (push_all xs s)) ≤ count a (contents s) + count a xs
count-push_all a [] v = omega arith
count-push_all a (x ∷ xs) {s} v =
    let pushed : count a (contents (NonOwningStack.push x s))
        ≤ count a (contents s) + (if x == a then 1 else 0) =
      ground (arith, ap (count a) (contents-push x v)) in
    ground (arith, count-push_all a xs (push-IsValid x v), pushed)

-- On aligned entries and a valid stack, free_limine_bootloader_memory returns the number of frames
-- of all bootloader-reclaimable entries, while the stack then has as many more frames as that, but
-- no more than its capacity.
pub available_frames-reclaim :
    (es : List MemmapEntry) (s : NonOwningStack)
    → IsAligned es
    → length (reclaimable_frames es) < 2 ^ 64
    → IsValid s
    → (t : NonOwningStack) × (free_limine_bootloader_memory es s
        ≡ ok (length (reclaimable_frames es), t))
      × (available_frames t ≡ min (available_frames s + length (reclaimable_frames es)) s.max_size)
available_frames-reclaim es s a small v = (
  push_all (reclaimable_frames es) s,
  free_limine-frames es s a small,
  size-push_all (reclaimable_frames es) s v.size_in,
)

-- The entry that a reservation comes from.
pub data Covers (base size : ℕ) : List MemmapEntry → Type 0 where
  found :
      {e : MemmapEntry} {es : List MemmapEntry}
      → is_allocatable e ≡ true
      → e.base ≡ base
      → size ≤ e.length
      → Covers base size (e ∷ es)
  later :
      {e : MemmapEntry} {es : List MemmapEntry} → Covers base size es → Covers base size (e ∷ es)

reserve-Covers :
    (n : ℕ) (es : List MemmapEntry)
    → manually_reserve_contiguous_frames n es ≢ 0
    → Covers (manually_reserve_contiguous_frames n es) (u64 (n * frame_size)) es
unfolding manually_reserve_contiguous_frames
reserve-Covers n [] h = absurd (h refl)
reserve-Covers n (e ∷ es) h =
    elim (Bool-cases (is_allocatable e && leb (u64 (n * frame_size)) e.length)) [
      | inl fits ↦ rw fits (found (ground arith) refl (ground arith))
      | inr not_here ↦ rw not_here (later (reserve-Covers n es (rw not_here at h)))
    ]

-- When a place for the free stack is found on a map whose usable memory is below 2 ^ 64 bytes, it
-- lies inside one usable entry, from the entry's base on, and has room for eight bytes for each
-- usable frame.
pub free_stack_begin-Covers :
    (es : List MemmapEntry)
    → IsSmall es
    → free_stack_begin es ≢ 0
    → Covers (free_stack_begin es) (num_free_stack_frames es * frame_size) es
      × (8 * length (usable_frames es) ≤ num_free_stack_frames es * frame_size)
free_stack_begin-Covers es small h =
    let total = get_num_allocatable_frames-length es small in
    let exact : u64 (num_free_stack_frames es * frame_size)
        ≡ num_free_stack_frames es * frame_size =
      ground arith in
    (rw exact at (reserve-Covers (num_free_stack_frames es) es h), ground arith)
