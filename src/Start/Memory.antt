-- ===== src/Start/Memory.antt =====
-- The start of the memory in `kernel_init`, kernel/src/kernel.cpp: `frame_allocator_init` and `paging_init`, in
-- this order. The page faults that `vmm_init` meets afterwards are not part of it.
pub mod Tables
pub mod HeapRegions
pub mod LookUp
pub mod Started
use dav_os.Base.{
  ℕ, zero, suc, ◌+◌, ◌-◌, ◌*◌, ◌/◌, ◌%◌, ◌^◌, ◌≤◌, ◌<◌, ◌≡◌, ◌≢◌, refl, sym, ap, ◌∙◌, Bool, true,
  false, inr, inl, ◌||◌, ◌==◌, if◌then◌else◌, List, [], ◌∷◌, length, arith, replicate,
}
use dav_os.Base.Words.{add64, sub64}
use dav_os.Base.Run.{Run, ok, ◌>>=◌}
use dav_os.Kpp.NonOwningStack.{NonOwningStack, IsValid, contents, length-upto}
use dav_os.Frames.{
  MemmapEntry, frame_size, frame_allocator_init, free_stack_begin, free_stack_range,
}
use dav_os.Frames.Fill.{IsAligned, kept, usable_frames}
use dav_os.Frames.Init.{count, IsSmall, IsReady, frame_allocator_init-IsReady}
use dav_os.Frames.Exclusive.{IsOrdered, count-free}
use dav_os.Frames.Reclaim.{reclaimable_frames}
use dav_os.Frames.Disjoint.{IsBelow, count_both-le, count_both-range}
use dav_os.Heap.{Heap}
use dav_os.Heap.List.{Chain}
use dav_os.Heap.Region.{region_block}
use dav_os.Paging.FreeRegions.{
  MemoryRegion, region, within, unavailable_ranges, paging_get_initial_free_regions,
  free_regions_from,
}
use dav_os.Paging.PageTree.{Nodes, Memory, get_translation}
use dav_os.Paging.Init.{
  KernelImage, Paging, readonly_region, rw_region, initial_mappings, paging_init,
}
use dav_os.Paging.Init.Reserved.{AreApart}
use dav_os.Paging.Init.Mapped.{look_up, AllFit, tables_of}
use dav_os.Paging.Init.Ready.{Ready, paging_init-Ready}
use dav_os.Paging.Address.{page_size, get_page_range, get_page_range-covers, first_page-aligned}
use dav_os.Paging.PageTree.Map.{page_number}
use dav_os.Paging.PageTree.{PageTranslation}
use dav_os.Paging.PageTree.Missing.{boundaries}
use dav_os.Paging.Mapping.{pages_of, tables_for}
use dav_os.Vmm.{vmm_init}
use dav_os.Vmm.Init.{vmm_init-blocks, Usable, region_blocks}

-- `frame_allocator_init(); paging_init();`
pub start_memory : ℕ → KernelImage → List MemmapEntry → Nodes → Run Paging
start_memory hhdm_offset k es nodes = do
  s ← frame_allocator_init es
  paging_init hhdm_offset k es (record { nodes = nodes; free = s })

-- Where Limine puts the direct map.
abbrev pub higher_half : ℕ
higher_half = 0xffff_8000_0000_0000

-- The linker script puts the two sections behind each other into the highest 2 GiB, at page boundaries but for
-- the last end; and Limine loads the kernel at a page boundary below 2 GiB, less a page.
pub record IsLinked (k : KernelImage) : Type 0 where
  pub high : 0xffff_ffff_8000_0000 ≤ k.readonly_start
  pub readonly : k.readonly_start ≤ k.readonly_end
  pub adjacent : k.rw_start ≡ k.readonly_end
  pub rw : k.rw_start ≤ k.rw_end
  pub aligned : k.readonly_start % 0x1000 ≡ 0
  pub readonly_pages : k.readonly_end % 0x1000 ≡ 0
  pub physical : k.physical_base % 0x1000 ≡ 0
  pub end : k.rw_end ≤ 2 ^ 64 - 0x2000
  pub low : k.physical_base + 0x8000_1000 < 2 ^ 32

-- What the ranges in use leave to the heap.
abbrev pub lower_region : MemoryRegion
lower_region = region 0x1_0000_1000 (0x8000_0000_0000 - 0x1_0000_1000)

abbrev pub upper_region : KernelImage → MemoryRegion
upper_region k =
    region (higher_half + 0x1_0000_0000) (k.readonly_start - (higher_half + 0x1_0000_0000))
