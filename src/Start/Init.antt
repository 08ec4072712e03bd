-- ===== src/Start/Init.antt =====
-- The end of `kernel_init`, kernel/src/kernel.cpp, in its order: the local APIC, the keyboard controller, the IO
-- APICs and the keyboard's interrupt, from the page tree and the free frames that the calls before leave.
pub mod Initialized
use dav_os.Base.{
  ℕ, ◌+◌, ◌*◌, ◌/◌, ◌%◌, ◌^◌, ◌≤◌, ◌<◌, ◌≡◌, ◌≢◌, refl, ap, sym, ◌∙◌, true, List, [], ◌∷◌, ◌++◌,
  length, some, arith,
}
use dav_os.Base.Run.{Run, ok, ◌>>=◌}
use dav_os.Kpp.CString.{Bytes}
use dav_os.Frames.{MemmapEntry, free_stack_begin, free_stack_range}
use dav_os.Frames.Fill.{IsAligned, kept, usable_frames}
use dav_os.Frames.Init.{IsSmall}
use dav_os.Frames.Exclusive.{IsOrdered}
use dav_os.Frames.Reclaim.{reclaimable_frames}
use dav_os.Frames.Disjoint.{IsBelow}
use dav_os.Heap.{Heap}
use dav_os.Paging.PageTree.{Nodes, Memory}
use dav_os.Paging.PageTree.Grow.{Place, IsTree}
use dav_os.Paging.Init.{KernelImage, Paging}
use dav_os.Processor.{
  Machine, Trace, has_msr, has_local_apic, has_pat, init_keyboard_controller, input_clear,
  output_full,
}
use dav_os.Processor.Polling.{Eventually}
use dav_os.Processor.KeyboardController.{init_keyboard_controller-enabled}
use dav_os.Processor.LocalApic.{LocalApic, enable_apic, Enabled, enable_apic-Enabled}
use dav_os.Descriptors.IdtInit.{Isr, keyboard, idt_init}
use dav_os.Descriptors.Idt.{gate_address}
use dav_os.Acpi.{header_length}
use dav_os.Apic.{IoApic, Devices, Manager, initialize, max_io_apics, entries_offset}
use dav_os.Apic.Madt.{MadtEntry, Laid, AreLow, described, padded, Parsed}
use dav_os.Apic.Initialize.{IsSummed, physical_madt, madt, listed_io_apics, initialize-Parsed}
use dav_os.Apic.Redirect.{handler, entry_register}
use dav_os.Start.{redirect_keyboard, keyboard_entry, redirect_keyboard-idt_init}
use dav_os.Start.Memory.{start_memory, higher_half, IsLinked}
use dav_os.Start.Memory.Started.{Started, start_memory-Started}

-- What the kernel has set up.
pub record Interrupts : Type 0 where
  pub local_apic : LocalApic
  pub manager : Manager

module _ (d : Machine) (hhdm_offset root : ℕ) (mem : Bytes) (signature rsdp : ℕ) where
  -- `fuel` for each loop whose number of rounds is not known beforehand.
  pub init_interrupts : ℕ → Memory → Trace → Devices → Run Interrupts
  init_interrupts fuel memory trace devices = do
    c ← enable_apic d hhdm_offset root (record { base_address = 0; trace = trace; memory = memory })
    trace' ← init_keyboard_controller d fuel c.trace
    g ←
        initialize hhdm_offset root mem fuel signature rsdp
          (record { io_apics = padded []; num_io_apics = 0; memory = c.memory; devices = devices })
    ok (record {
      local_apic = record c { trace = trace' };
      manager = record g { devices = redirect_keyboard g.io_apics g.devices };
    })
