-- ===== src/Paging/Init.antt =====
-- `paging_init` and `add_initial_mappings` of kernel/src/paging.cpp: a page tree of the kernel's own, whose
-- root is a frame of the free stack. The addresses that the linker chooses and the ones that Limine
-- answers are parameters. The loading of the root into cr3 (`load_ptbr`) is the field `ptbr`.
pub mod Reserved
pub mod Mapped
pub mod Ready
use dav_os.Base.{ℕ, ◌+◌, ◌-◌, ◌*◌, ◌%◌, ◌^◌, List, [], ◌∷◌}
use dav_os.Base.Words.{add64, sub64}
use dav_os.Base.Run.{Run, ok, ◌>>=◌}
use dav_os.Frames.{
  MemmapEntry, allocate_frame, kernel_physical_to_virtual, free_limine_bootloader_memory,
}
use dav_os.Paging.FreeRegions.{MemoryRegion, region}
use dav_os.Paging.PageTreeNode.{PageFlags, write, none_flags}
use dav_os.Paging.PageTree.{Memory, new_node}
use dav_os.Paging.Mapping.{paging_add_mapping}

pub record Mapping : Type 0 where
  pub from_virtual : MemoryRegion
  pub to_physical : ℕ
  pub flags : PageFlags

-- What the linker and the boot loader say of the kernel in memory.
pub record KernelImage : Type 0 where
  pub readonly_start : ℕ
  pub readonly_end : ℕ
  pub rw_start : ℕ
  pub rw_end : ℕ
  pub physical_base : ℕ

abbrev pub readonly_region : KernelImage → MemoryRegion
readonly_region k = region k.readonly_start (sub64 k.readonly_end k.readonly_start)

abbrev pub rw_region : KernelImage → MemoryRegion
rw_region k = region k.rw_start (sub64 k.rw_end k.rw_start)

-- The four entries of `initial_mappings`.
abbrev pub identity_map : Mapping
identity_map = record {
  from_virtual = region 0x1000 0x1_0000_0000;
  to_physical = 0x1000;
  flags = write;
}

abbrev pub direct_map : ℕ → Mapping
direct_map hhdm_offset = record {
  from_virtual = region hhdm_offset 0x1_0000_0000;
  to_physical = 0;
  flags = write;
}

abbrev pub readonly_map : KernelImage → Mapping
readonly_map k = record {
  from_virtual = readonly_region k;
  to_physical = k.physical_base;
  flags = none_flags;
}

abbrev pub rw_map : KernelImage → Mapping
rw_map k = record {
  from_virtual = rw_region k;
  to_physical = add64 k.physical_base (sub64 k.readonly_end k.readonly_start);
  flags = write;
}

unfoldable pub initial_mappings : ℕ → KernelImage → List Mapping
initial_mappings hhdm_offset k =
    identity_map ∷ direct_map hhdm_offset ∷ readonly_map k ∷ rw_map k ∷ []

-- The state that `paging_init` leaves: what cr3 holds, the root's virtual address, the memory, and the
-- number of frames that the boot loader's memory gave.
pub record Paging : Type 0 where
  pub ptbr : ℕ
  pub root : ℕ
  pub memory : Memory
  pub reclaimed : ℕ

module _ (hhdm_offset : ℕ) where
  unfoldable pub add_mappings : ℕ → List Mapping → Memory → Run Memory
  add_mappings root [] m = ok m
  add_mappings root (mp ∷ mps) m =
      paging_add_mapping hhdm_offset root mp.from_virtual.base mp.to_physical mp.from_virtual.size
        mp.flags m
      >>= λ m'. add_mappings root mps m'

  unfoldable pub add_initial_mappings : KernelImage → ℕ → Memory → Run Memory
  unfolding add_mappings initial_mappings
  add_initial_mappings k root m = add_mappings root (initial_mappings hhdm_offset k) m

  pub paging_init : KernelImage → List MemmapEntry → Memory → Run Paging
  unfolding add_initial_mappings
  paging_init k es m = do
    (frame, free') ← allocate_frame m.free
    let root = kernel_physical_to_virtual hhdm_offset frame
    m' ← add_initial_mappings k root (record { nodes = new_node root m.nodes; free = free' })
    (reclaimed, free'') ← free_limine_bootloader_memory es m'.free
    ok (record {
      ptbr = frame;
      root = root;
      memory = record m' { free = free'' };
      reclaimed = reclaimed;
    })
