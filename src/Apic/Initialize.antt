-- ===== src/Apic/Initialize.antt =====
-- `APICManager::initialize` as a whole.
use dav_os.Base.{
  ℕ, ◌+◌, ◌*◌, ◌%◌, ◌^◌, ◌≤◌, ◌<◌, ◌≡◌, ◌≢◌, refl, ap, ◌∙◌, ◌⊎◌, inl, inr, false, ◌==◌,
  if◌then◌else◌, arith, Bool-cases, List, [], length,
}
use dav_os.Base.Run.{panic}
use dav_os.Kpp.CString.{Bytes}
use dav_os.Frames.{kernel_physical_to_virtual}
use dav_os.Paging.PageTree.Grow.{Place, IsTree}
use dav_os.Acpi.{
  acpi_revision, root_sdt_physical_address, rsdt_physical_address, xsdt_physical_address, validate,
  find_sdt_with_signature, header_length, sizeof_header,
}
use dav_os.Acpi.Checksum.{validate_iff, covered, total}
use dav_os.Acpi.Tables.{name_at, listed, find_sdt_with_signature-listed}
use dav_os.Apic.{IoApic, Manager, initialize, parse_madt, max_io_apics, entries_offset}
use dav_os.Apic.Madt.{
  MadtEntry, Laid, described, AreLow, HasRoom, padded, Parsed, parse_madt-Parsed,
}

module _ (hhdm_offset root : ℕ) (mem : Bytes) (signature rsdp : ℕ) where
  abbrev pub root_table : ℕ
  root_table = kernel_physical_to_virtual hhdm_offset (
      if acpi_revision rsdp mem == 0
      then rsdt_physical_address rsdp mem
      else xsdt_physical_address rsdp mem)

  abbrev pub physical_madt : ℕ
  physical_madt = find_sdt_with_signature signature (acpi_revision rsdp mem) root_table mem

  abbrev pub madt : ℕ
  madt = kernel_physical_to_virtual hhdm_offset physical_madt

  -- What the entries of the MADT describe.
  abbrev pub listed_io_apics : List MadtEntry → Manager → List IoApic
  listed_io_apics es g =
      described hhdm_offset root mem (madt + entries_offset) es g.devices.registers

  abbrev pub IsSummed : Type 0
  IsSummed = total (covered rsdp mem) rsdp mem % 2 ^ 8 ≡ 0

  initialize-steps :
      (fuel : ℕ) (g : Manager)
      → rsdp ≢ 0
      → IsSummed
      → initialize hhdm_offset root mem fuel signature rsdp g ≡ (
          if physical_madt == 0
          then panic
          else parse_madt hhdm_offset root mem fuel
              (kernel_physical_to_virtual hhdm_offset physical_madt)
              g)
  unfolding initialize root_sdt_physical_address
  initialize-steps fuel g some_rsdp summed =
      let there : (rsdp == 0) ≡ false = ground (arith, some_rsdp) in
      rw (there, (validate_iff rsdp mem).1 summed) refl

  -- In a page tree without sharing, whose free frames are on a valid stack, differ from each other
  -- and from the tables, are not 0 and lie at frame boundaries below 4 GiB, on a root pointer
  -- other than null with a right checksum, through which an MADT is found that ends below 2 ^ 64
  -- and is a sequence of entries of at least two bytes, with at most 16 IO APICs, whose addresses
  -- are at least two pages below 4 GiB, six free frames for each, a direct map whose first 8 GiB
  -- end before the next multiple of 2 ^ 48 and whose first 4 GiB end four pages below 2 ^ 64, one
  -- round of fuel more than entries and an empty array, the initialisation returns, and its array
  -- holds the IO APICs that the entries of type 1 describe, in order, with the number of entries
  -- that each shows in its register 1, and is otherwise empty; the page tree has no sharing
  -- afterwards, and no register of an IO APIC has changed.
  pub initialize-Parsed :
      (es : List MadtEntry) (fuel : ℕ) (g : Manager) (place : Place)
      → rsdp ≢ 0
      → IsSummed
      → physical_madt ≢ 0
      → HasRoom hhdm_offset root mem
      → Laid mem (madt + entries_offset) (madt + header_length madt mem) es
      → madt + header_length madt mem < 2 ^ 64
      → AreLow hhdm_offset root mem (madt + entries_offset) es
      → IsTree hhdm_offset root g.memory place
      → g.io_apics ≡ padded []
      → g.num_io_apics ≡ 0
      → length (listed_io_apics es g) ≤ max_io_apics
      → 6 * length (listed_io_apics es g) ≤ g.memory.free.size
      → length es < fuel
      → Parsed hhdm_offset root mem [] g.devices.registers
          (madt + entries_offset)
          es
          (initialize hhdm_offset root mem fuel signature rsdp g)
  initialize-Parsed es fuel g place some_rsdp summed found space l top low tree a n few room
        enough =
      let there : (physical_madt == 0) ≡ false = ground (arith, found) in
      rw (initialize-steps fuel g some_rsdp summed, there)
        (parse_madt-Parsed hhdm_offset root mem es fuel madt g place space l top low tree a n few
          room enough)

  -- Without a root pointer, with a wrong checksum, or without an MADT the initialisation panics.
  pub initialize-panics :
      (fuel : ℕ) (g : Manager)
      → (rsdp ≡ 0) ⊎ ((¬ IsSummed) ⊎ (physical_madt ≡ 0))
      → initialize hhdm_offset root mem fuel signature rsdp g ≡ panic
  unfolding initialize root_sdt_physical_address
  initialize-panics fuel g (inl e) = rw e refl
  initialize-panics fuel g (inr (inl wrong)) = elim (Bool-cases (validate rsdp mem)) [
    | inl fine ↦ absurd (wrong ((validate_iff rsdp mem).0 fine))
    | inr bad ↦ ground (arith, bad)
  ]
  initialize-panics fuel g (inr (inr e)) = ground (arith, e)

  -- With ACPI revision 0 and a root table of n pointers, if none of the pointers behind the first,
  -- and not the word behind the last, leads to a table with the signature's name, the
  -- initialisation panics, wherever the first pointer leads.
  pub initialize-first :
      (n fuel : ℕ) (g : Manager)
      → acpi_revision rsdp mem ≡ 0
      → header_length root_table mem ≡ sizeof_header + 4 * n
      → sizeof_header + 4 * n < 2 ^ 64
      → ((i : ℕ) → i < n → name_at (listed root_table (i + 1) mem) mem ≢ name_at signature mem)
      → initialize hhdm_offset root mem fuel signature rsdp g ≡ panic
  initialize-first n fuel g revision len small others =
      let nothing : physical_madt ≡ 0 =
        ap (λ (r : ℕ). find_sdt_with_signature signature r root_table mem) revision
        ∙ find_sdt_with_signature-listed signature root_table n mem len small others in
      initialize-panics fuel g (inr (inr nothing))
