-- ===== src/Start/Memory/HeapRegions.antt =====
-- `vmm_init` of kernel/src/vmm.cpp after the start of paging: the regions that it gives to the heap.
use dav_os.Base.{ℕ, zero, suc, ◌≤◌, ◌≡◌, refl, false, inr, inl, ◌==◌, [], ◌∷◌, arith, replicate}
use dav_os.Base.Run.{ok}
use dav_os.Heap.{Heap}
use dav_os.Heap.List.{Chain}
use dav_os.Heap.Region.{region_block}
use dav_os.Paging.FreeRegions.{
  region, unavailable_ranges, paging_get_initial_free_regions, free_regions_from,
}
use dav_os.Paging.Init.{KernelImage, readonly_region, rw_region}
use dav_os.Vmm.{vmm_init}
use dav_os.Vmm.Init.{vmm_init-blocks, Usable}
use dav_os.Start.Memory.{higher_half, IsLinked, lower_region, upper_region}

kernel_regions :
    (k : KernelImage)
    → IsLinked k
    → paging_get_initial_free_regions
        (unavailable_ranges higher_half (readonly_region k) (rw_region k))
      ≡ ok (lower_region ∷ upper_region k ∷ replicate 14 (region 0 0))
unfolding paging_get_initial_free_regions free_regions_from
kernel_regions k l = ground arith

no_regions : (n : ℕ) → Usable (replicate n (region 0 0))
no_regions zero = tt
no_regions (suc n) = (inl refl, no_regions n)

-- When the kernel is linked as the linker script does and the direct map is where Limine puts it,
-- vmm_init on an empty heap leaves a free list of two blocks: from the end of the identity map's
-- last page to the end of the lower half, and from the end of the direct map to the kernel.
pub vmm_init-kernel :
    (fuel : ℕ) (k : KernelImage) (h : Heap)
    → IsLinked k
    → h.head ≡ 0
    → 16 ≤ fuel
    → (h' : Heap) × (vmm_init fuel
          (unavailable_ranges higher_half (readonly_region k) (rw_region k))
          h
        ≡ ok h')
      × Chain h'.mem h'.head (
          region_block lower_region.base lower_region.size
          ∷ region_block (upper_region k).base (upper_region k).size
          ∷ [])
vmm_init-kernel fuel k h l empty enough =
    let ranges = unavailable_ranges higher_half (readonly_region k) (rw_region k) in
    let full : ((upper_region k).size == 0) ≡ false = ground arith in
    let zeros : Usable (replicate 14 (region 0 0)) = no_regions 14 in
    rw full at (
      vmm_init-blocks ranges (lower_region ∷ upper_region k ∷ replicate 14 (region 0 0)) fuel h
        (kernel_regions k l) empty (rw full (omega arith)) (rw full (omega arith))
        (inr (omega arith, omega arith), (inr (omega arith, omega arith), zeros)) enough)
