-- ===== src/Start/Memory/Tables.antt =====
-- The initial mappings of kernel/src/paging.cpp for a kernel linked as its linker script does: none wraps
-- round, and few tables are enough for them.
use dav_os.Base.{ℕ, zero, suc, ◌+◌, ◌-◌, ◌*◌, ◌^◌, ◌≤◌, ◌<◌, ◌≡◌, refl, arith}
use dav_os.Base.Words.{add64, sub64}
use dav_os.Paging.Init.{KernelImage, initial_mappings}
use dav_os.Paging.Init.Mapped.{AllFit, tables_of}
use dav_os.Paging.Address.{page_size, get_page_range, get_page_range-covers, first_page-aligned}
use dav_os.Paging.PageTree.Map.{page_number}
use dav_os.Paging.PageTree.Missing.{boundaries}
use dav_os.Paging.Mapping.{pages_of, tables_for}
use dav_os.Start.Memory.{higher_half, IsLinked}

-- A section of the kernel, in the highest 2 GiB.
section_pages :
    (base size : ℕ)
    → 0xffff_ffff_8000_0000 ≤ base
    → base + size ≤ 2 ^ 64 - 0x2000
    → page_number base + pages_of base size < 2 ^ 36
section_pages base size high end = omega arith

pub fits : (k : KernelImage) → IsLinked k → AllFit (initial_mappings higher_half k)
unfolding initial_mappings
fits k l =
    let readonly : sub64 k.readonly_end k.readonly_start ≡ k.readonly_end - k.readonly_start =
      omega arith in
    let rw_size : sub64 k.rw_end k.rw_start ≡ k.rw_end - k.rw_start = omega arith in
    let physical : add64 k.physical_base (k.readonly_end - k.readonly_start)
        ≡ k.physical_base + (k.readonly_end - k.readonly_start) =
      omega arith in
    let first =
      section_pages k.readonly_start (k.readonly_end - k.readonly_start) l.high (omega arith) in
    let second = section_pages k.rw_start (k.rw_end - k.rw_start) (omega arith) (omega arith) in
    rw (readonly, rw_size, physical)
      (
        (omega arith, omega arith, omega arith, refl),
        (
          (omega arith, omega arith, omega arith, refl),
          ((omega arith, first, omega arith, refl), ((omega arith, second, omega arith, refl), tt)),
        ),
      )

tables_for-bound : (n page : ℕ) → tables_for n page ≤ 3 + boundaries page (page + n * page_size)
tables_for-bound zero page = omega arith
tables_for-bound (suc n) page = omega arith

high_boundaries : (q p : ℕ) → 0xffff_ffff_8000_0000 ≤ q → p < 2 ^ 64 → boundaries q p ≤ 1024
high_boundaries q p h k = omega arith

section_tables :
    (base size : ℕ)
    → 0xffff_ffff_8000_0000 ≤ base
    → base + size ≤ 2 ^ 64 - 0x2000
    → tables_for (pages_of base size) (get_page_range base size).first_page ≤ 1027
section_tables base size high end =
    let first = (get_page_range base size).first_page in
    let n = pages_of base size in
    let aligned = first_page-aligned base size (omega arith) in
    let covers = get_page_range-covers base size (omega arith) in
    omega (
      arith,
      tables_for-bound n first,
      high_boundaries first (first + n * page_size) (omega (arith, aligned, covers))
          (omega (arith, covers)),
    )

pub few_tables : (k : KernelImage) → IsLinked k → tables_of (initial_mappings higher_half k) < 6200
unfolding initial_mappings get_page_range
few_tables k l =
    let readonly : sub64 k.readonly_end k.readonly_start ≡ k.readonly_end - k.readonly_start =
      omega arith in
    let rw_size : sub64 k.rw_end k.rw_start ≡ k.rw_end - k.rw_start = omega arith in
    let a =
      section_tables k.readonly_start (k.readonly_end - k.readonly_start) l.high (omega arith) in
    let b = section_tables k.rw_start (k.rw_end - k.rw_start) (omega arith) (omega arith) in
    rw (readonly, rw_size) (omega (arith, a, b))
