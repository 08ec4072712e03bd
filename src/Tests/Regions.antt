-- ===== src/Tests/Regions.antt =====
-- The virtual memory manager at concrete inputs.
use dav_os.Base.{ℕ, ◌≡◌, ◌+◌, ◌∷◌, [], List, refl, ◌==◌, if◌then◌else◌, set, replicate}
use dav_os.Base.Run.{ok}
use dav_os.Kpp.NonOwningStack.{NonOwningStack, contents}
use dav_os.Kpp.NonOwningStack
use dav_os.Heap.{
  magic_constant, deallocate, find_spot, link_block, link, freed_size, coalesce_next, coalesce_prev,
  real_size,
}
use dav_os.Paging.FreeRegions.{
  MemoryRegion, region, paging_get_initial_free_regions, free_regions_from, num_free_memory_regions,
}
use dav_os.Paging.PageTreeNode.{get_child_address, get_child_flags}
use dav_os.Paging.PageTree.{
  Memory, PageTranslation, get_translation, translate_from, get_table_index, index_start,
}
use dav_os.Paging.Mapping.{paging_get_translation}
use dav_os.Heap.{allocate, first_fit, can_fit, take_block, perfect_fit, reserve_end}
use dav_os.Base.Run.{Run, panic, hang, out_of_fuel}
use dav_os.Base.{◌-◌}
use dav_os.Vmm.{Vmm, vmalloc, vfree}

-- One unavailable range, and the one region that it leaves below it.
abbrev unavailable : List MemoryRegion
unavailable = region 0x1_0000 0x1000 ∷ []

abbrev regions : List MemoryRegion
regions = set (replicate num_free_memory_regions (region 0 0)) 0 (region 0x1000 0xf000)

regions_found : paging_get_initial_free_regions unavailable ≡ ok regions
unfolding paging_get_initial_free_regions free_regions_from
regions_found = refl

-- Tables that lead from page 1 to the frame 0x7000.
abbrev offset : ℕ
offset = 0x8000_0000_0000_0000

abbrev root_table : ℕ
root_table = 0x8000_0000_0010_0000

abbrev tables : Memory
tables = record {
  nodes = λ v i.
      if v == root_table
      then 0x1003
      else if v == offset + 0x1000
      then 0x2003
      else if v == offset + 0x2000
      then 0x3003
      else if i == 1
      then 0x7003
      else 0;
  free = record { slots = 0 ∷ 0 ∷ 0 ∷ []; max_size = 3; size = 0 };
}

-- Two used blocks of 32 bytes in that page.
abbrev shared_page : Vmm
shared_page = record {
  allocator = record {
    head = 0;
    mem = λ x.
        if x == 0x1100
        then 32
        else if x == 0x1200
        then 32
        else if x == 0x1108
        then magic_constant
        else if x == 0x1208
        then magic_constant
        else 0;
  };
  memory = tables;
}

abbrev frame_7 : PageTranslation
frame_7 = record { physical_address = 0x7000; flags = 3 }

abbrev freed_once : Vmm
freed_once = record {
  allocator = link_block 0x1100 0 0 shared_page.allocator;
  memory = record tables { free = NonOwningStack.push 0x7000 tables.free };
}

abbrev freed_twice : Vmm
freed_twice = record {
  allocator = link_block 0x1200 0x1100 0 freed_once.allocator;
  memory = record tables { free = NonOwningStack.push 0x7000 freed_once.memory.free };
}

translated_first : paging_get_translation offset root_table 0x1110 tables ≡ ok frame_7
unfolding paging_get_translation get_translation translate_from get_table_index index_start
    get_child_address get_child_flags
translated_first = refl

translated_second : paging_get_translation offset root_table 0x1210 tables ≡ ok frame_7
unfolding paging_get_translation get_translation translate_from get_table_index index_start
    get_child_address get_child_flags
translated_second = refl

free_first : vfree offset root_table 2 0x1110 shared_page ≡ ok freed_once
unfolding vfree deallocate find_spot paging_get_translation get_translation translate_from
    get_table_index index_start get_child_address get_child_flags
free_first = refl

free_second : vfree offset root_table 2 0x1210 freed_once ≡ ok freed_twice
unfolding vfree deallocate find_spot link_block link freed_size coalesce_next coalesce_prev
    real_size paging_get_translation get_translation translate_from get_table_index index_start
    get_child_address get_child_flags
free_second = refl

-- 20 bytes of a free block of 100.
abbrev one_region : Vmm
one_region = record {
  allocator = record { head = 0x1000; mem = λ x. if x == 0x1000 then 100 else 0 };
  memory = tables;
}

abbrev pointer_of : Run (ℕ × Vmm) → ℕ
pointer_of (ok (p, v)) = p
pointer_of panic = 0
pointer_of hang = 0
pointer_of out_of_fuel = 0

taken_from_end : pointer_of (vmalloc 2 20 one_region) ≡ 0x1000 + 24 + 100 - 20
unfolding vmalloc allocate first_fit can_fit take_block perfect_fit reserve_end
taken_from_end = refl
