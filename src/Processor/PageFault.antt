-- ===== src/Processor/PageFault.antt =====
-- `isr_page_fault` of kernel/src/idt.cpp, with the end of the interrupt at the local APIC.
use dav_os.Base.{
  ℕ, zero, suc, Bool, true, false, ◌==◌, ◌∙◌, ◌+◌, ◌-◌, ◌*◌, ◌%◌, ◌^◌, ◌≤◌, ◌<◌, ◌≡◌, ◌≢◌, refl, ap,
  ◌∷◌, arith,
}
use dav_os.Base.Words.{add64}
use dav_os.Base.Run.{Run, ok, out_of_fuel, ◌>>=◌}
use dav_os.Kpp.NonOwningStack.{contents}
use dav_os.Frames.Init.{count}
use dav_os.Paging.Address.{page_size}
use dav_os.Paging.PageTreeNode.{write}
use dav_os.Paging.PageTree.{Memory, get_translation, PageTranslation}
use dav_os.Paging.PageTree.Grow.{Place, IsTree}
use dav_os.Paging.PageTree.Map.{page_number}
use dav_os.Paging.Mapping.{paging_allocate_and_map, pages_of}
use dav_os.Paging.Allocate.{In, Allocated, paging_allocate_and_map-Allocated}
use dav_os.Processor.{Trace, word_out}
use dav_os.Processor.LocalApic.{LocalApic, send_end_of_interrupt, write_register}

module _ (hhdm_offset root : ℕ) where
  -- The register for the end of an interrupt.
  abbrev pub eoi_address : LocalApic → ℕ
  eoi_address c = add64 c.base_address 0xb0

  -- A page table entry with the present bit.
  abbrev pub is_present : PageTranslation → Bool
  is_present t = t.flags % 2 == 1

  -- `faulting_address` is what the processor put into CR2. Where the page of the register is not present, the
  -- write to it faults too, and is done again when that fault is handled; `fuel` for each fault.
  pub isr_page_fault : ℕ → ℕ → LocalApic → Run LocalApic
  isr_page_fault zero faulting_address c = out_of_fuel
  isr_page_fault (suc fuel) faulting_address c =
      paging_allocate_and_map hhdm_offset root faulting_address page_size write c.memory >>= λ m.
      get_translation hhdm_offset root (eoi_address c) m >>= λ t. elim (is_present t) [
        | true ↦ ok (send_end_of_interrupt (record c { memory = m }))
        | false ↦ isr_page_fault fuel (eoi_address c) (record c { memory = m }) >>= λ c'.
            ok (send_end_of_interrupt c')
      ]

  module _ (address : ℕ) (c : LocalApic) {place : Place}
      (tree : IsTree hhdm_offset root c.memory place) (top : address ≤ 2 ^ 64 - 5 * page_size)
      (wide : page_number address + 2 < 2 ^ 36) (room : 8 ≤ c.memory.free.size) where
    pages : pages_of address page_size ≤ 2
    pages = omega arith

    first : In (page_number address) (pages_of address page_size) (page_number address)
    first =
        let one : 1 ≤ pages_of address page_size = omega arith in (omega arith, omega (arith, one))

    allocated :
        Allocated hhdm_offset root
          (page_number address)
          (pages_of address page_size)
          write
          c.memory
          (paging_allocate_and_map hhdm_offset root address page_size write c.memory)
    allocated =
        paging_allocate_and_map-Allocated hhdm_offset root address page_size write tree refl
          (omega (arith, top)) (omega (arith, wide, pages)) (omega (arith, room, pages))

    handled : LocalApic
    handled = send_end_of_interrupt (record c { memory = allocated.after })

    -- The routine returns when the register's page is present once the frames are mapped.
    returns :
        (fuel : ℕ) (t : PageTranslation)
        → get_translation hhdm_offset root (eoi_address c) allocated.after ≡ ok t
        → is_present t ≡ true
        → isr_page_fault (suc fuel) address c ≡ ok handled
    unfolding isr_page_fault handled
    returns fuel t mapped there = rw (allocated.returns, ◌>>=◌, mapped, ◌>>=◌, there) refl

    -- Where it is not, it returns when a second fault does.
    faults :
        (fuel : ℕ) (t : PageTranslation) (c' : LocalApic)
        → get_translation hhdm_offset root (eoi_address c) allocated.after ≡ ok t
        → is_present t ≡ false
        → isr_page_fault fuel (eoi_address c) (record c { memory = allocated.after }) ≡ ok c'
        → isr_page_fault (suc fuel) address c ≡ ok (send_end_of_interrupt c')
    unfolding isr_page_fault
    faults fuel t c' mapped not_there again =
        rw (allocated.returns, ◌>>=◌, mapped, ◌>>=◌, not_there, again) refl

    module _ (fuel : ℕ) (eoi : PageTranslation)
        (register : get_translation hhdm_offset root (eoi_address c) c.memory ≡ ok eoi)
        (there : is_present eoi ≡ true)
        (apart : ¬ In (page_number address) 2 (page_number (eoi_address c))) where
      kept_register : get_translation hhdm_offset root (eoi_address c) allocated.after ≡ ok eoi
      kept_register =
          allocated.others (eoi_address c) (λ i. apart (i.0, omega (arith, i.1, pages))) ∙ register

      -- In a page tree without sharing, whose free frames are on a valid stack, differ from each
      -- other and from the tables, are not 0 and lie at frame boundaries below 4 GiB, with eight
      -- of them, for an address at least five pages below 2 ^ 64 and two pages behind whose page
      -- the next multiple of 2 ^ 48 is not reached, when the page of the local APIC's register for
      -- the end of an interrupt is present and is neither the address's page nor the one behind
      -- it, the page fault routine returns; the address then translates to a frame that was on the
      -- free stack and is not any more, present and writable, and the end of the interrupt has
      -- been written to the local APIC.
      pub isr_page_fault-mapped :
          (c' : LocalApic) × (frame : ℕ) × (isr_page_fault (suc fuel) address c ≡ ok c')
          × (get_translation hhdm_offset root address c'.memory
              ≡ ok (record { physical_address = frame; flags = 3 }))
          × (0 < count frame (contents c.memory.free))
          × (count frame (contents c'.memory.free) ≡ 0)
          × (c'.trace ≡ word_out (add64 c.base_address 0xb0) 0 ∷ c.trace)
      unfolding handled send_end_of_interrupt write_register
      isr_page_fault-mapped =
          let a = allocated in
          (
            handled,
            a.frame (page_number address),
            returns fuel eoi kept_register there,
            a.mapped address first,
            a.from_stack (page_number address) first,
            a.off_stack (page_number address) first,
            refl,
          )

      -- Under the conditions of isr_page_fault-mapped (in a page tree without sharing, whose free
      -- frames are on a valid stack, differ from each other and from the tables, are not 0 and lie
      -- at frame boundaries below 4 GiB, with eight of them, an address at least five pages below
      -- 2 ^ 64 and two pages behind whose page the next multiple of 2 ^ 48 is not reached, and a
      -- present page of the local APIC's register that is neither the address's page nor the one
      -- behind it), when the faulting address is not at a page boundary, the page behind its page
      -- is given a new frame too: it does not translate to the frame that it had before, if that
      -- was not on the free stack.
      pub isr_page_fault-next :
          (old : PageTranslation)
          → address % page_size ≢ 0
          → get_translation hhdm_offset root (address + page_size) c.memory ≡ ok old
          → count old.physical_address (contents c.memory.free) ≡ 0
          → (c' : LocalApic) × (frame : ℕ) × (isr_page_fault (suc fuel) address c ≡ ok c')
            × (get_translation hhdm_offset root (address + page_size) c'.memory
                ≡ ok (record { physical_address = frame; flags = 3 }))
            × (frame ≢ old.physical_address)
      unfolding handled send_end_of_interrupt write_register
      isr_page_fault-next old within was in_use =
          let a = allocated in
          let two : pages_of address page_size ≡ 2 = omega (arith, within) in
          let number : page_number (address + page_size) ≡ page_number address + 1 =
            omega (arith, wide) in
          let next : In (page_number address) (pages_of address page_size)
              (page_number (address + page_size)) =
            (omega (arith, number), omega (arith, number, two)) in
          (
            handled,
            a.frame (page_number (address + page_size)),
            returns fuel eoi kept_register there,
            a.mapped (address + page_size) next,
            λ e. omega (
              arith,
              a.from_stack (page_number (address + page_size)) next,
              in_use,
              ap (λ (f : ℕ). count f (contents c.memory.free)) e,
            ),
          )

  -- Before the local APIC has an address, with the page at 0 not present and sixteen free frames, a page fault
  -- beyond the first two pages, under the other conditions of isr_page_fault-mapped, returns after a
  -- second one at 0xB0. The page at 0x1000 then translates to a frame that was on the free stack.
  isr_page_fault-null :
      (fuel address : ℕ) (trace : Trace) (memory : Memory) {place : Place} (t : PageTranslation)
      → IsTree hhdm_offset root memory place
      → address ≤ 2 ^ 64 - 5 * page_size
      → page_number address + 2 < 2 ^ 36
      → 16 ≤ memory.free.size
      → 2 ≤ page_number address
      → get_translation hhdm_offset root 0xb0 memory ≡ ok t
      → is_present t ≡ false
      → (c' : LocalApic) × (frame : ℕ) × (isr_page_fault
            (suc (suc fuel))
            address
            (record { base_address = 0; trace = trace; memory = memory })
          ≡ ok c')
        × (get_translation hhdm_offset root 0x1000 c'.memory
            ≡ ok (record { physical_address = frame; flags = 3 }))
        × (0 < count frame (contents memory.free))
  unfolding handled send_end_of_interrupt write_register
  isr_page_fault-null fuel address trace memory t tree top wide room high absent not_there =
      let c : LocalApic = record { base_address = 0; trace = trace; memory = memory } in
      let some_room : 8 ≤ memory.free.size = omega (arith, room) in
      let a = allocated address c tree top wide some_room in
      let out : ¬ In (page_number address) (pages_of address page_size) (page_number 0xb0) =
        λ i. omega (arith, i.0, high) in
      let two_pages = pages address c tree top wide some_room in
      let left : 8 ≤ a.after.free.size = omega (arith, a.spent, room, two_pages) in
      let c1 : LocalApic = record c { memory = a.after } in
      let b = allocated 0xb0 c1 a.tree (omega arith) (omega arith) left in
      let here = first 0xb0 c1 a.tree (omega arith) (omega arith) left in
      let second =
        returns 0xb0 c1 a.tree (omega arith) (omega arith) left fuel
          (record { physical_address = b.frame 0; flags = 3 }) (b.mapped 0xb0 here) refl in
      let next : In 0 (pages_of 0xb0 page_size) 1 = (omega arith, omega arith) in
      (
        send_end_of_interrupt (handled 0xb0 c1 a.tree (omega arith) (omega arith) left),
        b.frame 1,
        faults address c tree top wide some_room (suc fuel) t
            (handled 0xb0 c1 a.tree (omega arith) (omega arith) left) (a.others 0xb0 out ∙ absent)
            not_there second,
        b.mapped 0x1000 next,
        omega (arith, b.from_stack 1 next, a.shrinks (b.frame 1)),
      )
