-- ===== src/Frames/Fill.antt =====
-- The loop of `fill_free_stack` over the frames of one memory map entry.
use dav_os.Base.{
  ℕ, zero, suc, ◌+◌, ◌*◌, ◌/◌, ◌^◌, ◌≤◌, ◌<◌, ◌≡◌, refl, true, inl, inr, List, [], ◌∷◌, ◌++◌, ltb,
  if◌then◌else◌, Bool-cases, arith,
}
use dav_os.Base.Words.{add64}
use dav_os.Base.Run.{ok, ◌>>=◌}
use dav_os.Kpp.NonOwningStack
use dav_os.Kpp.NonOwningStack.{NonOwningStack}
use dav_os.Frames.{
  MemmapEntry, FrameRange, frame_size, is_allocatable, in_exclude_range, entry_fuel, fill_entry,
  fill_free_stack,
}

-- `n` frames from `base` on.
abbrev pub frames : ℕ → ℕ → List ℕ
frames zero base = []
frames (suc n) base = base ∷ frames n (base + frame_size)

-- The frames outside the excluded ranges.
abbrev pub kept : List FrameRange → List ℕ → List ℕ
kept ranges [] = []
kept ranges (x ∷ xs) = if in_exclude_range ranges x then kept ranges xs else x ∷ kept ranges xs

abbrev pub push_all : List ℕ → NonOwningStack → NonOwningStack
push_all [] s = s
push_all (x ∷ xs) s = push_all xs (NonOwningStack.push x s)

-- The frames of the usable entries, in the order of the map.
abbrev pub usable_frames : List MemmapEntry → List ℕ
usable_frames [] = []
usable_frames (e ∷ es) =
    if is_allocatable e
    then frames (e.length / frame_size) e.base ++ usable_frames es
    else usable_frames es

pub kept-append :
    (ranges : List FrameRange) (xs ys : List ℕ)
    → kept ranges (xs ++ ys) ≡ kept ranges xs ++ kept ranges ys
kept-append ranges [] ys = refl
kept-append ranges (x ∷ xs) ys = ground (arith, kept-append ranges xs ys)

pub push_all-append :
    (xs ys : List ℕ) (s : NonOwningStack) → push_all (xs ++ ys) s ≡ push_all ys (push_all xs s)
push_all-append [] ys s = refl
push_all-append (x ∷ xs) ys s = push_all-append xs ys (NonOwningStack.push x s)

pub fill_entry-frames :
    (n k : ℕ) (ranges : List FrameRange) (frame end : ℕ) (s : NonOwningStack)
    → n < k
    → end ≡ frame + n * frame_size
    → end + frame_size ≤ 2 ^ 64
    → fill_entry k ranges frame end s ≡ ok (push_all (kept ranges (frames n frame)) s)
unfolding fill_entry
fill_entry-frames zero zero ranges frame end s fuel e top = absurd (omega arith)
fill_entry-frames zero (suc k) ranges frame end s fuel e top = ground arith
fill_entry-frames (suc n) zero ranges frame end s fuel e top = absurd (omega arith)
fill_entry-frames (suc n) (suc k) ranges frame end s fuel e top =
    let next : add64 frame frame_size ≡ frame + frame_size = omega arith in
    let more : ltb frame end ≡ true = ground arith in
    rw (more, next)
      (elim (Bool-cases (in_exclude_range ranges frame)) [
        | inl out ↦ rw (out) (
            fill_entry-frames n k ranges (frame + frame_size) end s (omega arith) (omega arith) top)
        | inr keep ↦ rw (keep) (
            fill_entry-frames n k ranges (frame + frame_size) end _ (omega arith) (omega arith) top)
      ])

-- The usable entries are whole frames, and do not reach the last page of the address space.
abbrev pub IsAligned : List MemmapEntry → Type 0
IsAligned [] = Unit {0}
IsAligned (e ∷ es) =
    (e.length ≡ e.length / frame_size * frame_size)
    × (e.base + e.length + frame_size ≤ 2 ^ 64)
    × IsAligned es

pub fill_free_stack-frames :
    (ranges : List FrameRange) (es : List MemmapEntry) (s : NonOwningStack)
    → IsAligned es
    → fill_free_stack ranges es s ≡ ok (push_all (kept ranges (usable_frames es)) s)
unfolding fill_free_stack
fill_free_stack-frames ranges [] s a = refl
fill_free_stack-frames ranges (e ∷ es) s a = elim (Bool-cases (is_allocatable e)) [
  | inr skip ↦ rw (skip, fill_free_stack) (fill_free_stack-frames ranges es s a.2)
  | inl use_it ↦
      let n = e.length / frame_size in
      let one =
        fill_entry-frames n (entry_fuel e) ranges e.base (add64 e.base e.length) s (omega arith)
          (omega arith) (omega arith) in
      rw (use_it, fill_free_stack, one, ◌>>=◌, kept-append, push_all-append)
        (fill_free_stack-frames ranges es _ a.2)
]
