-- ===== src/Vmm/Init.antt =====
-- What `vmm_init` makes of the free regions.
use mathlib.Core.List.{append_assoc, append-nil}
use dav_os.Base.{
  ℕ, false, ◌+◌, ◌≤◌, ◌≡◌, ◌≢◌, refl, ◌⊎◌, inl, inr, List, [], ◌∷◌, ◌++◌, ◌==◌, arith, length,
  if◌then◌else◌, Bool-cases, length-append,
}
use dav_os.Base.Run.{ok}
use dav_os.Heap.{Heap}
use dav_os.Heap.List.{Block, Chain, Ordered}
use dav_os.Heap.Merge.{IsApart}
use dav_os.Heap.Region.{
  region_block, add_memory-Freed, join_last-apart, Ordered-prefix, IsApart-prefix,
}
use dav_os.Paging.FreeRegions.{MemoryRegion, paging_get_initial_free_regions}
use dav_os.Vmm.{add_regions, vmm_init}

-- The free blocks of a list of regions: a region of size 0 gives none.
abbrev pub region_blocks : List MemoryRegion → List Block
region_blocks [] = []
region_blocks (r ∷ rs) =
    if r.size == 0 then region_blocks rs else (region_block r.base r.size ∷ region_blocks rs)

-- A region that is not empty does not begin at the null pointer and holds at least 8 bytes.
abbrev pub Usable : List MemoryRegion → Type 0
Usable [] = Unit {0}
Usable (r ∷ rs) = ((r.size ≡ 0) ⊎ ((r.base ≢ 0) × (8 ≤ r.size))) × Usable rs

Usable-block :
    (r : MemoryRegion)
    → (r.size ≡ 0) ⊎ ((r.base ≢ 0) × (8 ≤ r.size))
    → (r.size == 0) ≡ false
    → (r.base ≢ 0) × (8 ≤ r.size)
Usable-block r (inl e) h = absurd (ground (arith, e, h))
Usable-block r (inr u) h = u

add_regions-blocks :
    (rs : List MemoryRegion) (fs : List Block) (fuel lo : ℕ) (h : Heap)
    → Chain h.mem h.head fs
    → Ordered lo (fs ++ region_blocks rs)
    → IsApart (fs ++ region_blocks rs)
    → Usable rs
    → length fs + length rs ≤ fuel
    → (h' : Heap) × (add_regions fuel rs h ≡ ok h') × Chain h'.mem h'.head (fs ++ region_blocks rs)
unfolding add_regions
add_regions-blocks [] fs fuel lo h c o apart u enough = (h, refl, rw (append-nil fs) c)
add_regions-blocks (r ∷ rs) fs fuel lo h c o apart u enough = elim (Bool-cases (r.size == 0)) [
  | inl empty ↦
      rw empty
        (add_regions-blocks rs fs fuel lo h c (rw empty at o) (rw empty at apart) u.1 (omega arith))
  | inr full ↦
      let b = region_block r.base r.size in
      let some_block = Usable-block r u.0 full in
      let assoc = append_assoc fs (b ∷ []) (region_blocks rs) in
      let o' : Ordered lo ((fs ++ (b ∷ [])) ++ region_blocks rs) = rw assoc (rw full at o) in
      let apart' : IsApart ((fs ++ (b ∷ [])) ++ region_blocks rs) = rw assoc (rw full at apart) in
      let added =
        add_memory-Freed fs [] r.base r.size fuel lo h (rw (append-nil fs) c)
          (Ordered-prefix (fs ++ (b ∷ [])) (region_blocks rs) lo o') some_block.0 some_block.1
          (omega arith) in
      let list = join_last-apart fs b (IsApart-prefix (fs ++ (b ∷ [])) (region_blocks rs) apart') in
      let ih =
        add_regions-blocks rs (fs ++ (b ∷ [])) fuel lo added.0 (rw list at added.2.0) o' apart' u.1
          (omega (arith, length-append fs (b ∷ []))) in
      rw (full, added.1) (ih.0, ih.1, rw assoc at ih.2)
]

-- When the free regions, taken as blocks that are eight bytes smaller, are in address order, do
-- not touch, and each region is empty or has at least 8 bytes and does not begin at address 0,
-- vmm_init on an empty heap, with fuel for the number of regions, leaves a free list of exactly
-- these blocks.
pub vmm_init-blocks :
    (unavailable rs : List MemoryRegion) (fuel : ℕ) (h : Heap)
    → paging_get_initial_free_regions unavailable ≡ ok rs
    → h.head ≡ 0
    → Ordered 0 (region_blocks rs)
    → IsApart (region_blocks rs)
    → Usable rs
    → length rs ≤ fuel
    → (h' : Heap) × (vmm_init fuel unavailable h ≡ ok h') × Chain h'.mem h'.head (region_blocks rs)
unfolding vmm_init
vmm_init-blocks unavailable rs fuel h regions empty o apart u enough =
    rw regions (add_regions-blocks rs [] fuel 0 h empty o apart u (omega arith))
