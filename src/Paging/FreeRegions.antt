-- ===== src/Paging/FreeRegions.antt =====
-- `paging_get_initial_free_regions` of kernel/src/paging.cpp: the gaps between the unavailable virtual
-- ranges. The array of 16 regions is a list of as many, and a write past its end has no effect here.
use dav_os.Base.{
  ℕ, zero, suc, ◌+◌, ◌-◌, ◌^◌, ◌≤◌, ◌<◌, ◌≡◌, refl, ◌⊎◌, inl, inr, Bool, true, false, ◌&&◌, ◌||◌,
  List, [], ◌∷◌, ltb, leb, max, if◌then◌else◌, Bool-cases, set, replicate, arith, length,
}
use dav_os.Base.Words.{add64, sub64}
use dav_os.Base.Run.{Run, ok, panic}

pub record MemoryRegion : Type 0 where
  pub base : ℕ
  pub size : ℕ

abbrev pub num_free_memory_regions : ℕ
num_free_memory_regions = 16

abbrev pub region : ℕ → ℕ → MemoryRegion
region base size = record { base = base; size = size }

-- `initial_mappings[i].from_virtual` and the addresses that are not canonical. The HHDM offset and
-- the linker's addresses of the kernel's sections are parameters.
abbrev pub unavailable_ranges : ℕ → MemoryRegion → MemoryRegion → List MemoryRegion
unavailable_ranges hhdm_offset readonly rw_section =
    region 0x1000 0x1_0000_0000
    ∷ region 0x8000_0000_0000 0xffff_0000_0000_0000
    ∷ region hhdm_offset 0x1_0000_0000
    ∷ readonly
    ∷ rw_section
    ∷ []

-- The loop: `i` regions found so far, and the address up to which all is decided.
unfoldable pub free_regions_from :
    List MemoryRegion → ℕ → ℕ → List MemoryRegion → Run (List MemoryRegion)
free_regions_from [] i base found = ok found
free_regions_from (u ∷ us) i base found =
    let end = add64 u.base u.size in
    let after = free_regions_from us i (max base end) found in
    let gap = free_regions_from us (i + 1) end (set found i (region base (sub64 u.base base))) in
    if leb u.base base then after else if ltb num_free_memory_regions i then panic else gap

unfoldable pub paging_get_initial_free_regions : List MemoryRegion → Run (List MemoryRegion)
unfolding free_regions_from
paging_get_initial_free_regions unavailable =
    free_regions_from unavailable 0 0x1000 (replicate num_free_memory_regions (region 0 0))

-- A region of the unavailable list does not wrap round the address space.
abbrev pub Fits : List MemoryRegion → Type 0
Fits [] = Unit {0}
Fits (u ∷ us) = (u.base + u.size < 2 ^ 64) × Fits us

-- The list is in order of the bases, from `lo` on.
abbrev pub Ascending : ℕ → List MemoryRegion → Type 0
Ascending lo [] = Unit {0}
Ascending lo (u ∷ us) = (lo ≤ u.base) × Ascending u.base us

abbrev pub within : MemoryRegion → ℕ → Bool
within r x = leb r.base x && ltb x (r.base + r.size)

-- Some region of the list holds the address.
abbrev pub covers : List MemoryRegion → ℕ → Bool
covers [] x = false
covers (r ∷ rs) x = within r x || covers rs x

covers-set :
    (rs : List MemoryRegion) (i : ℕ) (r : MemoryRegion) (x : ℕ)
    → covers (set rs i r) x ≡ true
    → (covers rs x ≡ true) ⊎ (within r x ≡ true)
covers-set [] i r x h = inl h
covers-set (s ∷ rs) zero r x h = ground arith
covers-set (s ∷ rs) (suc i) r x h = ground (arith, covers-set rs i r x)

covers-Ascending :
    (us : List MemoryRegion) (lo x : ℕ) → Ascending lo us → x < lo → covers us x ≡ false
covers-Ascending [] lo x a h = refl
covers-Ascending (u ∷ us) lo x a h = ground (arith, covers-Ascending us u.base x a.1)

-- What the loop returns from a state: regions that it had, or gaps above `base`.
record Gaps (us : List MemoryRegion) (base : ℕ) (found : List MemoryRegion)
    (r : Run (List MemoryRegion)) : Type 0 where
  regions : List MemoryRegion
  returns : r ≡ ok regions
  sound :
      (x : ℕ)
      → covers regions x ≡ true
      → (covers found x ≡ true) ⊎ ((base ≤ x) × (covers us x ≡ false))

Gaps-skip :
    (u : MemoryRegion) (us : List MemoryRegion) (i base : ℕ) (found : List MemoryRegion)
    → u.base + u.size < 2 ^ 64
    → u.base ≤ base
    → Gaps us
        (max base (u.base + u.size))
        found
        (free_regions_from us i (max base (u.base + u.size)) found)
    → Gaps (u ∷ us) base found (free_regions_from (u ∷ us) i base found)
unfolding free_regions_from
Gaps-skip u us i base found fits below g =
    let exact : add64 u.base u.size ≡ u.base + u.size = omega arith in
    let test : leb u.base base ≡ true = ground arith in
    record {
      regions = g.regions;
      returns = rw (test, exact) g.returns;
      sound = λ x h. ground (arith, g.sound x);
    }

Gaps-gap :
    (u : MemoryRegion) (us : List MemoryRegion) (i base : ℕ) (found : List MemoryRegion)
    → u.base + u.size < 2 ^ 64
    → base < u.base
    → i ≤ num_free_memory_regions
    → Ascending u.base us
    → Gaps us
        (u.base + u.size)
        (set found i (region base (u.base - base)))
        (free_regions_from us (i + 1) (u.base + u.size) (set found i (region base (u.base - base))))
    → Gaps (u ∷ us) base found (free_regions_from (u ∷ us) i base found)
unfolding free_regions_from
Gaps-gap u us i base found fits above room order g =
    let exact : add64 u.base u.size ≡ u.base + u.size = omega arith in
    let size : sub64 u.base base ≡ u.base - base = omega arith in
    let test : leb u.base base ≡ false = ground arith in
    let room' : ltb num_free_memory_regions i ≡ false = ground arith in
    record {
      regions = g.regions;
      returns = rw (test, room', exact, size) g.returns;
      sound = λ x h. ground (
        arith,
        g.sound x,
        covers-set found i (region base (u.base - base)) x,
        covers-Ascending us u.base x order,
      );
    }

free_regions_from-Gaps :
    (us : List MemoryRegion) (i base lo : ℕ) (found : List MemoryRegion)
    → Fits us
    → Ascending lo us
    → i + length us ≤ num_free_memory_regions
    → Gaps us base found (free_regions_from us i base found)
free_regions_from-Gaps [] i base lo found f a room = record {
  regions = found;
  returns = unfold free_regions_from in refl;
  sound = λ x h. inl h;
}
free_regions_from-Gaps (u ∷ us) i base lo found f a room = elim (Bool-cases (leb u.base base)) [
  | inl below ↦
      Gaps-skip u us i base found f.0 (ground arith) (
        free_regions_from-Gaps us i (max base (u.base + u.size)) u.base found f.1 a.1 (omega arith))
  | inr above ↦ Gaps-gap u us i base found f.0 (ground arith) (omega arith) a.1 (
      free_regions_from-Gaps us (i + 1) (u.base + u.size) u.base
        (set found i (region base (u.base - base))) f.1 a.1 (omega arith))
]

covers_none : (n x : ℕ) → covers (replicate n (region 0 0)) x ≡ false
covers_none zero x = refl
covers_none (suc n) x = ground (arith, covers_none n x)

-- For at most 16 unavailable ranges in order of their bases, none of which reaches 2 ^ 64,
-- paging_get_initial_free_regions returns regions that hold no address of an unavailable range and
-- none below 0x1000.
pub free_regions_sound :
    (us : List MemoryRegion)
    → Fits us
    → Ascending 0 us
    → length us ≤ num_free_memory_regions
    → (fs : List MemoryRegion) × (paging_get_initial_free_regions us ≡ ok fs)
      × ((x : ℕ) → covers fs x ≡ true → (0x1000 ≤ x) × (covers us x ≡ false))
unfolding paging_get_initial_free_regions
free_regions_sound us f a room =
    let none_yet = replicate num_free_memory_regions (region 0 0) in
    let g = free_regions_from-Gaps us 0 0x1000 0 none_yet f a (omega arith) in
    (
      g.regions,
      g.returns,
      λ x h. ground (arith, g.sound x h, covers_none num_free_memory_regions x),
    )
