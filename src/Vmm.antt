-- ===== src/Vmm.antt =====
-- The virtual memory manager, kernel/src/vmm.cpp: the heap on the free virtual regions, and the frames
-- that a freed block gives back.
pub mod Init
pub mod Free
use dav_os.Base.{ℕ, ◌==◌, List, [], ◌∷◌, if◌then◌else◌}
use dav_os.Base.Run.{Run, ok, ◌>>=◌}
use dav_os.Frames.{deallocate_frame}
use dav_os.Heap.{Heap, allocate, deallocate, add_memory}
use dav_os.Paging.FreeRegions.{MemoryRegion, paging_get_initial_free_regions}
use dav_os.Paging.PageTree.{Memory}
use dav_os.Paging.Mapping.{paging_get_translation}

-- The allocator and what `vfree` needs besides: the page tree and the free frames. The words of the
-- heap are a store of their own.
pub record Vmm : Type 0 where
  pub allocator : Heap
  pub memory : Memory

-- The loop over the free regions.
pub add_regions : ℕ → List MemoryRegion → Heap → Run Heap
add_regions fuel [] h = ok h
add_regions fuel (r ∷ rs) h =
    let rest = (add_memory fuel r.base r.size h >>= λ h'. add_regions fuel rs h') in
    let skip = add_regions fuel rs h in if r.size == 0 then skip else rest

-- The unavailable ranges are those of `paging_get_initial_free_regions`.
pub vmm_init : ℕ → List MemoryRegion → Heap → Run Heap
unfolding add_regions
vmm_init fuel unavailable h =
    paging_get_initial_free_regions unavailable >>= λ regions. add_regions fuel regions h

unfoldable pub vmalloc : ℕ → ℕ → Vmm → Run (ℕ × Vmm)
vmalloc fuel size v =
    allocate fuel size v.allocator >>= λ (p, h). ok (p, record v { allocator = h })

-- The page tree is that at `root`.
unfoldable pub vfree : ℕ → ℕ → ℕ → ℕ → Vmm → Run Vmm
vfree hhdm_offset root fuel ptr v = deallocate fuel ptr v.allocator >>= λ h.
    paging_get_translation hhdm_offset root ptr v.memory >>= λ t. ok (record {
      allocator = h;
      memory = record v.memory { free = deallocate_frame t.physical_address v.memory.free };
    })
