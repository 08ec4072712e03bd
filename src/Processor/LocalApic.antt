-- ===== src/Processor/LocalApic.antt =====
-- The local APIC, kernel/src/LocalAPIC.cpp.
use dav_os.Base.{
  ℕ, ◌+◌, ◌-◌, ◌*◌, ◌%◌, ◌^◌, ◌≤◌, ◌<◌, ◌≡◌, refl, ◌∙◌, true, ◌∷◌, if◌then◌else◌, arith, bit_or,
}
use dav_os.Base.Words.{add64, u32}
use dav_os.Base.Run.{Run, ok, panic, ◌>>=◌}
use dav_os.Frames.{kernel_physical_to_virtual}
use dav_os.Paging.Address.{
  page_size, page_floor, get_page_range, page_floor-aligned, first_page-number,
}
use dav_os.Paging.PageTreeNode.{write, cache_disable}
use dav_os.Paging.PageTree.{Memory, get_translation}
use dav_os.Paging.PageTree.Grow.{Place, IsTree}
use dav_os.Paging.PageTree.Map.{page_number}
use dav_os.Paging.Mapping.{paging_add_mapping, pages_of}
use dav_os.Paging.Mapping.Below.{paging_add_mapping-MappedRange}
use dav_os.Processor.{
  word_out, msr_out, interrupts_on, Trace, Machine, has_pat, has_msr, has_local_apic,
  local_apic_base_address, ia32_apic_base, hardware_enable_local_apic_and_set_base_address,
  remap_pic, disable_pic,
}
use dav_os.Processor.Msr.{base_field, local_apic_base_address_lem, hardware_enable_lem}

-- `baseAddress`, what was done to the devices, and the page tree with the free frames.
pub record LocalApic : Type 0 where
  pub base_address : ℕ
  pub trace : Trace
  pub memory : Memory

abbrev pub spurious_register : ℕ
spurious_register = 0xf0

abbrev pub eoi_register : ℕ
eoi_register = 0xb0

abbrev pub task_priority : ℕ
task_priority = 0x80

-- `LocalAPIC::write`
unfoldable pub write_register : ℕ → ℕ → LocalApic → LocalApic
write_register reg_offset value c = record c {
  trace = word_out (add64 c.base_address reg_offset) (u32 value) ∷ c.trace;
}

unfoldable pub send_end_of_interrupt : LocalApic → LocalApic
unfolding write_register
send_end_of_interrupt c = write_register eoi_register 0 c

abbrev pub apic_flags : ℕ
apic_flags = bit_or write cache_disable

module _ (d : Machine) (hhdm_offset root : ℕ) where
  pub enable_apic : LocalApic → Run LocalApic
  unfolding write_register
  enable_apic c = do
    physical ← local_apic_base_address d c.trace
    let virtual = kernel_physical_to_virtual hhdm_offset physical
    checked ← if has_pat d then ok c.memory else panic
    m ← paging_add_mapping hhdm_offset root virtual physical page_size apic_flags checked
    t ← hardware_enable_local_apic_and_set_base_address d physical c.trace
    let on = interrupts_on ∷ remap_pic d 0x20 0x28 (disable_pic t)
    let c' : LocalApic = record { base_address = virtual; trace = on; memory = m }
    ok (write_register task_priority 0 (write_register spurious_register 0x1ff c'))

  -- What enableAPIC leaves: the local APIC's page in the direct map, and the trace.
  pub record Enabled (c : LocalApic) : Type 0 where
    pub memory : Memory
    pub place' : Place
    pub tree : IsTree hhdm_offset root memory place'
    pub spent : c.memory.free.size ≤ memory.free.size + 3
    pub returns :
        let physical = base_field (d.rdmsr c.trace ia32_apic_base).0 in
        let virtual = physical + hhdm_offset in
        enable_apic c
        ≡ ok (record {
          base_address = virtual;
          trace =
              word_out (virtual + 0x80) 0
              ∷ word_out (virtual + 0xf0) 0x1ff
              ∷ interrupts_on
              ∷ remap_pic d 0x20 0x28
                  (disable_pic (msr_out ia32_apic_base (physical + 0x800) 0 ∷ c.trace));
          memory = memory;
        })
    pub maps :
        let physical = base_field (d.rdmsr c.trace ia32_apic_base).0 in
        get_translation hhdm_offset root (physical + hhdm_offset) memory
        ≡ ok (record { physical_address = physical; flags = 0x13 })

  -- On a processor with model-specific registers, a local APIC and a page-attribute table, in a
  -- page tree without sharing, whose free frames are on a valid stack, differ from each other and
  -- from the tables, are not 0 and lie at frame boundaries below 4 GiB, with three of them, and
  -- with a direct map at a page boundary whose first 4 GiB end before the next multiple of 2 ^ 48
  -- and two pages below 2 ^ 64, enableAPIC returns, takes at most three frames and keeps the tree
  -- without sharing: the local APIC's page in the direct map translates to its physical address,
  -- present, writable and uncached, and the devices have seen, in this order, the address with the
  -- enable bit in the model-specific register, the masking and remapping of the interrupt
  -- controllers, interrupts on, 0x1FF in the spurious vector register and 0 in the task priority
  -- register.
  pub enable_apic-Enabled :
      (c : LocalApic) {place : Place}
      → has_msr d ≡ true
      → has_local_apic d ≡ true
      → has_pat d ≡ true
      → IsTree hhdm_offset root c.memory place
      → 3 ≤ c.memory.free.size
      → hhdm_offset % page_size ≡ 0
      → hhdm_offset + 2 ^ 32 + 2 * page_size ≤ 2 ^ 64
      → page_number hhdm_offset + 2 ^ 20 < 2 ^ 36
      → Enabled c
  unfolding enable_apic
  enable_apic-Enabled c {place} msr apic pat tree room aligned top wide =
      let physical = base_field (d.rdmsr c.trace ia32_apic_base).0 in
      let virtual = physical + hhdm_offset in
      let low : physical ≤ 2 ^ 32 - page_size = omega arith in
      let page : physical % page_size ≡ 0 = omega arith in
      let one : pages_of virtual page_size ≡ 1 = omega (arith, page, aligned) in
      let floor : page_floor physical ≡ physical =
        page_floor-aligned physical page (omega (arith, low)) in
      let first : page_number (get_page_range virtual page_size).first_page ≡ page_number virtual =
        first_page-number virtual page_size (omega (arith, low)) in
      let number : page_number virtual + 1 < 2 ^ 36 = omega (arith, low, page, wide, aligned) in
      let mapped =
        paging_add_mapping-MappedRange hhdm_offset root virtual physical page_size apic_flags tree
          refl (omega (arith, low)) (rw one number) (rw one (omega (arith, low))) (rw one room) in
      let twice : base_field physical ≡ physical = omega (arith, low) in
      let exact : kernel_physical_to_virtual hhdm_offset physical ≡ virtual = omega (arith, low) in
      let at_priority : add64 virtual task_priority ≡ virtual + 0x80 = omega (arith, low) in
      let at_spurious : add64 virtual spurious_register ≡ virtual + 0xf0 = omega (arith, low) in
      record {
        memory = mapped.after;
        place' = mapped.place';
        tree = mapped.tree;
        spent = omega (arith, mapped.spent, one);
        returns =
            rw
              (
                local_apic_base_address_lem d c.trace,
                apic,
                msr,
                exact,
                pat,
                mapped.returns,
                hardware_enable_lem d physical c.trace apic msr,
                twice,
                at_priority,
                at_spurious,
              )
              refl;
        maps = mapped.translates virtual ∙ rw (one, floor, first) (ground arith);
      }
