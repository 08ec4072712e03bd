-- ===== src/Start/Init/Initialized.antt =====
-- The last calls of the kernel start as one run, kernel/src/kernel.cpp.
use dav_os.Base.{
  ℕ, ◌+◌, ◌*◌, ◌/◌, ◌%◌, ◌^◌, ◌≤◌, ◌<◌, ◌≡◌, ◌≢◌, refl, ap, ◌∙◌, true, List, [], ◌∷◌, length, some,
  arith,
}
use dav_os.Base.Run.{ok, ◌>>=◌}
use dav_os.Kpp.CString.{Bytes}
use dav_os.Paging.PageTree.{Memory}
use dav_os.Paging.PageTree.Grow.{Place, IsTree}
use dav_os.Processor.{
  Machine, Trace, has_msr, has_local_apic, has_pat, input_clear, output_full, word_out, msr_out,
  interrupts_on, ia32_apic_base, remap_pic, disable_pic,
}
use dav_os.Processor.Msr.{base_field}
use dav_os.Processor.Polling.{Eventually}
use dav_os.Processor.KeyboardController.{init_keyboard_controller-enabled}
use dav_os.Processor.LocalApic.{enable_apic-Enabled}
use dav_os.Descriptors.IdtInit.{Isr, keyboard, idt_init}
use dav_os.Descriptors.Idt.{gate_address}
use dav_os.Acpi.{header_length}
use dav_os.Apic.{IoApic, Devices, Manager, max_io_apics, entries_offset}
use dav_os.Apic.Madt.{MadtEntry, Laid, AreLow, described, padded}
use dav_os.Apic.Initialize.{IsSummed, physical_madt, madt, initialize-Parsed}
use dav_os.Apic.Redirect.{handler, entry_register}
use dav_os.Start.{redirect_keyboard, redirect_keyboard-idt_init}
use dav_os.Start.Memory.{higher_half}
use dav_os.Start.Init.{Interrupts, init_interrupts}

-- A processor with the features that the kernel needs, and a keyboard controller that answers.
pub record HasDevices (fuel : ℕ) (d : Machine) : Type 0 where
  pub msr : has_msr d ≡ true
  pub apic : has_local_apic d ≡ true
  pub pat : has_pat d ≡ true
  pub clear : Eventually d fuel input_clear
  pub full : Eventually d fuel output_full

module _ (d : Machine) (root : ℕ) (mem : Bytes) (signature rsdp : ℕ) (address : Isr → ℕ) where
  abbrev pub table : ℕ
  table = madt higher_half 0 mem signature rsdp

  -- The IO APICs of the firmware's table, with what their registers show.
  abbrev pub io_apics_of : List MadtEntry → Devices → List IoApic
  io_apics_of ms dev = described higher_half 0 mem (table + entries_offset) ms dev.registers

  -- The firmware's tables lead to an MADT of these entries.
  pub record HasTables (fuel : ℕ) (ms : List MadtEntry) (dev : Devices) : Type 0 where
    pub root_pointer : rsdp ≢ 0
    pub summed : IsSummed higher_half 0 mem signature rsdp
    pub listed : physical_madt higher_half 0 mem signature rsdp ≢ 0
    pub laid : Laid mem (table + entries_offset) (table + header_length table mem) ms
    pub top : table + header_length table mem < 2 ^ 64
    pub low : AreLow higher_half 0 mem (table + entries_offset) ms
    pub few : length (io_apics_of ms dev) ≤ max_io_apics
    pub enough : length ms < fuel

  -- The keyboard's interrupt arrives at the IO APIC.
  pub record IsWired (ms : List MadtEntry) (dev : Devices) (io : IoApic) : Type 0 where
    pub handled : handler 1 (padded (io_apics_of ms dev)) ≡ some io
    pub entries : io.num_redirection_entries ≤ 120
    pub id : io.id < 2 ^ 8
    pub words : (x n : ℕ) → dev.registers x n < 2 ^ 32

  pub record Initialized (fuel : ℕ) (bytes : Bytes) (memory : Memory) (trace : Trace)
      (dev : Devices) (ms : List MadtEntry) (io : IoApic) : Type 0 where
    pub after : Interrupts
    pub place' : Place
    pub returns :
        init_interrupts d higher_half root mem signature rsdp fuel memory trace dev ≡ ok after
    pub tree : IsTree higher_half root after.manager.memory place'
    pub io_apics : after.manager.io_apics ≡ padded (io_apics_of ms dev)
    pub unmasked : after.manager.devices.registers io.address (entry_register 1 io) / 2 ^ 16 % 2 ≡ 0
    pub routed :
        gate_address
          (idt_init address bytes)
          (after.manager.devices.registers io.address (entry_register 1 io) % 2 ^ 8)
        ≡ address keyboard

  -- In a page tree without sharing, whose free frames are on a valid stack, differ from each other
  -- and from the tables, are not 0 and lie at frame boundaries below 4 GiB, with three and six for
  -- each IO APIC of them, and the direct map at 0xffff800000000000; on a processor with model-
  -- specific registers, a local APIC and a page-attribute table, with a keyboard controller that
  -- answers within the fuel, firmware's tables that can be read, a root pointer other than null
  -- with a right checksum, through which an MADT is found that ends below 2 ^ 64 and is a sequence
  -- of entries of at least two bytes, with at most 16 IO APICs whose addresses are at least two
  -- pages below 4 GiB, fewer entries than fuel, and an IO APIC with at most 120 entries and an id
  -- of one byte that is the first to handle interrupt 1, registers of 32 bits, and routines below
  -- 2 ^ 64: the calls of kernel_init from enableAPIC to redirectIrq return in their order. The
  -- page tree still has no sharing, the array holds the IO APICs of the MADT, the keyboard's
  -- interrupt is not masked, and the gate that idt_init made for its vector leads to the
  -- keyboard's routine.
  pub init_interrupts-Initialized :
      (fuel : ℕ) (bytes : Bytes) (memory : Memory) (place : Place) (trace : Trace) (dev : Devices)
      (ms : List MadtEntry) (io : IoApic)
      → IsTree higher_half root memory place
      → HasDevices fuel d
      → HasTables fuel ms dev
      → 3 + 6 * length (io_apics_of ms dev) ≤ memory.free.size
      → IsWired ms dev io
      → ((i : Isr) → address i < 2 ^ 64)
      → Initialized fuel bytes memory trace dev ms io
  unfolding init_interrupts
  init_interrupts-Initialized fuel bytes memory place trace dev ms io tree v t room w small =
      let c =
        enable_apic-Enabled d higher_half root
          (record { base_address = 0; trace = trace; memory = memory }) v.msr v.apic v.pat tree
          (omega (arith, room)) (omega arith) (omega arith) (omega arith) in
      let g0 : Manager = record {
        io_apics = padded [];
        num_io_apics = 0;
        memory = c.memory;
        devices = dev;
      } in
      let g =
        initialize-Parsed higher_half root mem signature rsdp ms fuel g0 c.place' t.root_pointer
          t.summed t.listed (omega arith, omega arith) t.laid t.top t.low c.tree refl refl t.few
          (omega (arith, c.spent, room)) t.enough in
      let virtual = (base_field (d.rdmsr trace ia32_apic_base).0) + higher_half in
      let physical = base_field (d.rdmsr trace ia32_apic_base).0 in
      let on =
        word_out (virtual + 0x80) 0
        ∷ word_out (virtual + 0xf0) 0x1ff
        ∷ interrupts_on
        ∷ remap_pic d 0x20 0x28
            (disable_pic (msr_out ia32_apic_base (physical + 0x800) 0 ∷ trace)) in
      let (asked, trace', keys, _, _) = init_keyboard_controller-enabled d fuel on v.clear v.full in
      let ios = g.after.io_apics in
      let routed =
        redirect_keyboard-idt_init address bytes ios io g.after.devices small
          (ap (handler 1) g.array ∙ w.handled) w.entries w.id
          (λ x n. rw g.same_registers (w.words x n)) in
      record {
        after = record {
          local_apic = record { base_address = virtual; trace = trace'; memory = c.memory };
          manager = record g.after { devices = redirect_keyboard ios g.after.devices };
        };
        place' = g.place';
        returns = rw (c.returns, ◌>>=◌, keys, ◌>>=◌, g.returns) refl;
        tree = g.tree;
        io_apics = g.array;
        unmasked = routed.0;
        routed = routed.1;
      }
