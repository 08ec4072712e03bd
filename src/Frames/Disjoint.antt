-- ===== src/Frames/Disjoint.antt =====
-- The frames of the usable entries of a memory map and of the bootloader-reclaimable ones, which
-- kernel/src/frame_allocator.cpp puts on the free stack at different times.
use dav_os.Base.{
  ℕ, zero, suc, ◌+◌, ◌*◌, ◌/◌, ◌%◌, ◌≤◌, ◌<◌, ◌≡◌, ◌⊎◌, inl, inr, refl, List, [], ◌∷◌, ◌==◌, ◌||◌,
  Bool, Bool-cases, if◌then◌else◌, arith,
}
use dav_os.Frames.{MemmapEntry, frame_size, memmap_usable, memmap_bootloader_reclaimable}
use dav_os.Frames.Fill.{frames, usable_frames}
use dav_os.Frames.Init.{count, count-append}
use dav_os.Frames.Exclusive.{IsOrdered, count-frames_below, count-frames_above, count-frames-le}
use dav_os.Frames.Reclaim.{reclaimable_frames}

-- How often a frame stands in either list.
abbrev pub count_both : ℕ → List MemmapEntry → ℕ
count_both a es = count a (usable_frames es) + count a (reclaimable_frames es)

abbrev in_use : MemmapEntry → Bool
in_use e = e.kind == memmap_usable || e.kind == memmap_bootloader_reclaimable

-- An entry adds its frames to one of the lists at most.
count_both-cons :
    (a : ℕ) (e : MemmapEntry) (es : List MemmapEntry)
    → count_both a (e ∷ es)
      ≡ (if in_use e then count a (frames (e.length / frame_size) e.base) else 0) + count_both a es
count_both-cons a e es = ground (
  arith,
  count-append a (frames (e.length / frame_size) e.base) (usable_frames es),
  count-append a (frames (e.length / frame_size) e.base) (reclaimable_frames es),
)

pub count_both_below :
    (a lo : ℕ) (es : List MemmapEntry) → IsOrdered lo es → a < lo → count_both a es ≡ 0
count_both_below a lo [] o h = omega arith
count_both_below a lo (e ∷ es) o h = ground (
  arith,
  count_both-cons a e es,
  count-frames_below a (e.length / frame_size) e.base (omega arith),
  count_both_below a (e.base + e.length) es o.1 (omega arith),
)

pub count_both-le : (a lo : ℕ) (es : List MemmapEntry) → IsOrdered lo es → count_both a es ≤ 1
count_both-le a lo [] o = omega arith
count_both-le a lo (e ∷ es) o = ground (
  arith,
  count_both-cons a e es,
  count-frames-le a (e.length / frame_size) e.base,
  count-frames_above a (e.length / frame_size) e.base,
  count_both-le a (e.base + e.length) es o.1,
  count_both_below a (e.base + e.length) es o.1,
)

Nat_cases : (n : ℕ) → (n ≡ 0) ⊎ (0 < n)
Nat_cases zero = inl refl
Nat_cases (suc n) = inr (omega arith)

-- The entries whose frames the kernel uses begin at a frame and end at or below `top`.
abbrev pub IsBelow : ℕ → List MemmapEntry → Type 0
IsBelow top [] = Unit {0}
IsBelow top (e ∷ es) =
    ((if in_use e then e.base else 0) % frame_size ≡ 0)
    × ((if in_use e then e.base + e.length else 0) ≤ top)
    × IsBelow top es

count-frames_mod : (a n base : ℕ) → 0 < count a (frames n base) → a % frame_size ≡ base % frame_size
count-frames_mod a zero base h = absurd (omega arith)
count-frames_mod a (suc n) base h = ground (arith, count-frames_mod a n (base + frame_size))

count-frames_range :
    (a n base : ℕ)
    → 0 < count a (frames n base)
    → (base ≤ a) × (a < base + n * frame_size) × (a % frame_size ≡ base % frame_size)
count-frames_range a n base h =
    ground
      (arith, count-frames_below a n base, count-frames_above a n base, count-frames_mod a n base h)

-- Such a frame begins at a frame and lies below `top`, at or above the first entry.
pub count_both-range :
    (a lo top : ℕ) (es : List MemmapEntry)
    → IsOrdered lo es
    → IsBelow top es
    → 0 < count_both a es
    → (a % frame_size ≡ 0) × (a < top) × (lo ≤ a)
count_both-range a lo top [] o b h = absurd (omega arith)
count_both-range a lo top (e ∷ es) o b h = elim (Bool-cases (in_use e)) [
  | inr unused ↦
      let rest : 0 < count_both a es = omega (arith, (rw unused at (count_both-cons a e es)), h) in
      let r = count_both-range a (e.base + e.length) top es o.1 b.2 rest in omega (arith, r, o.0)
  | inl used ↦
      let sum = rw used at (count_both-cons a e es) in
      let base : e.base % frame_size ≡ 0 = rw used at b.0 in
      let end : e.base + e.length ≤ top = rw used at b.1 in
      elim (Nat_cases (count a (frames (e.length / frame_size) e.base))) [
        | inl none_here ↦
            let r = count_both-range a (e.base + e.length) top es o.1 b.2 (omega (arith, sum, h)) in
            omega (arith, r, o.0)
        | inr here ↦
            let r = count-frames_range a (e.length / frame_size) e.base here in
            omega (arith, r, o.0, base, end)
      ]
]
