-- ===== src/Apic.antt =====
-- kernel/src/APICManager.cpp and kernel/include/kernel/APICManager.hpp: the table of the interrupt
-- controllers (MADT), the IO APICs, and interrupts between processors. An IO APIC shows its registers
-- through two words, at `m_address` the number of the register and at `m_address + 0x10` its value; the
-- IO APICs that the kernel addresses do not overlap.
pub mod Madt
pub mod Redirect
pub mod Initialize
use dav_os.Base.{
  ℕ, zero, suc, ◌+◌, ◌-◌, ◌*◌, ◌/◌, ◌%◌, ◌^◌, Bool, true, false, not, ◌&&◌, List, [], ◌∷◌, ◌==◌,
  ltb, leb, if◌then◌else◌, set, replicate, length, bit_and, bit_or,
}
use dav_os.Base.Words.{u8, u32, add64, sub64}
use dav_os.Base.Run.{Run, ok, panic, out_of_fuel, ◌>>=◌}
use dav_os.Kpp.CString.{Bytes}
use dav_os.Frames.{kernel_physical_to_virtual}
use dav_os.Paging.Address.{page_size}
use dav_os.Paging.PageTreeNode.{write, cache_disable}
use dav_os.Paging.PageTree.{Memory}
use dav_os.Paging.Mapping.{paging_add_mapping}
use dav_os.Processor.{Trace, Machine, word_out, local_apic_base_address}
use dav_os.Acpi.{
  read32, header_length, acpi_revision, root_sdt_physical_address, find_sdt_with_signature,
}

pub record IoApic : Type 0 where
  pub address : ℕ
  pub global_system_interrupt_base : ℕ
  pub id : ℕ
  pub num_redirection_entries : ℕ

abbrev pub no_io_apic : IoApic
no_io_apic = record {
  address = 0;
  global_system_interrupt_base = 0;
  id = 0;
  num_redirection_entries = 0;
}

-- For each address the number of the register shown, and the registers.
pub record Devices : Type 0 where
  pub selected : ℕ → ℕ
  pub registers : ℕ → ℕ → ℕ

-- The store to `m_address`, to `m_address + 0x10`, and the load from there.
abbrev pub select : ℕ → ℕ → Devices → Devices
select a n dev = record dev { selected = λ x. if x == a then n else dev.selected x }

abbrev pub store_window : ℕ → ℕ → Devices → Devices
store_window a value dev = record dev {
  registers = λ x n.
      if x == a
      then (if n == dev.selected a then value else dev.registers x n)
      else dev.registers x n;
}

abbrev pub load_window : ℕ → Devices → ℕ
load_window a dev = dev.registers a (dev.selected a)

unfoldable pub write_register : IoApic → ℕ → ℕ → Devices → Devices
write_register io n value dev = store_window io.address value (select io.address n dev)

pub read_register : IoApic → ℕ → Devices → ℕ × Devices
read_register io n dev = let dev' = select io.address n dev in (load_window io.address dev', dev')

-- The number of entries is bits 16 to 23 of register 1.
pub new_io_apic : ℕ → ℕ → ℕ → Devices → IoApic × Devices
unfolding read_register
new_io_apic address base id dev =
    let io : IoApic = record {
      address = address;
      global_system_interrupt_base = base;
      id = id;
      num_redirection_entries = 0;
    } in
    let (value, dev') = read_register io 1 dev in
    (record io { num_redirection_entries = bit_and (value / 2 ^ 16) 0xff }, dev')

unfoldable pub handles_irq : ℕ → IoApic → Bool
handles_irq irq io =
    leb io.global_system_interrupt_base irq
    && ltb irq (u32 (io.global_system_interrupt_base + io.num_redirection_entries))

-- `0x10 + 2 * (irq - m_globalSystemInterruptBase)`, passed as a `uint8_t`; and the word after it.
pub low_register : ℕ → IoApic → ℕ
low_register irq io = u8 (u32 (0x10 + 2 * u32 (irq + 2 ^ 32 - io.global_system_interrupt_base)))

pub high_register : ℕ → IoApic → ℕ
high_register irq io =
    u8 (u32 (0x10 + 2 * u32 (irq + 2 ^ 32 - io.global_system_interrupt_base) + 1))

-- `low &= ~0xff; low |= vector; low &= ~(1 << 16);`
pub redirected_low : ℕ → ℕ → ℕ
redirected_low low vector = bit_and (bit_or (bit_and low 0xffff_ff00) vector) 0xfffe_ffff

-- `(high & 0x00ffffff) | (ioApic.id() << 24)`
pub redirected_high : ℕ → ℕ → ℕ
redirected_high high id = bit_or (bit_and high 0x00ff_ffff) (u32 (id * 2 ^ 24))

-- The body for the IO APIC that handles the interrupt.
pub redirect_entry : ℕ → ℕ → IoApic → Devices → Devices
unfolding read_register write_register low_register high_register redirected_low redirected_high
redirect_entry irq vector io dev =
    let (low, dev1) = read_register io (low_register irq io) dev in
    let (high, dev2) = read_register io (high_register irq io) dev1 in
    let dev3 = write_register io (high_register irq io) (redirected_high high io.id) dev2 in
    write_register io (low_register irq io) (redirected_low low vector) dev3

pub redirect_irq : ℕ → ℕ → List IoApic → Devices → Devices
unfolding handles_irq redirect_entry
redirect_irq irq vector [] dev = dev
redirect_irq irq vector (io ∷ ios) dev =
    let rest = redirect_irq irq vector ios dev in
    if handles_irq irq io then redirect_entry irq vector io dev else rest

-- The two writes to the local APIC, and what they leave in the trace.
pub send_interprocessor_interrupt : Machine → ℕ → ℕ → ℕ → Trace → Run Trace
send_interprocessor_interrupt d hhdm_offset destination vector t = do
  physical ← local_apic_base_address d t
  let low = bit_or 0x4000 vector
  let high = u32 (destination * 2 ^ 24)
  let base = kernel_physical_to_virtual hhdm_offset physical
  ok (word_out (add64 base 0x300) low ∷ word_out (add64 base 0x310) high ∷ t)

-- `m_ioApics`, `m_numIoApics`, and what the parser works on besides.
pub record Manager : Type 0 where
  pub io_apics : List IoApic
  pub num_io_apics : ℕ
  pub memory : Memory
  pub devices : Devices

abbrev pub max_io_apics : ℕ
max_io_apics = 16

-- The entries stand behind the table's header of 36 bytes and two words.
abbrev pub entries_offset : ℕ
entries_offset = 44

module _ (hhdm_offset root : ℕ) (mem : Bytes) where
  -- An entry of type 1; `info` is the address behind its type and length.
  pub add_io_apic : ℕ → Manager → Run Manager
  unfolding new_io_apic
  add_io_apic info g =
      let physical = read32 (info + 2) mem in
      let virtual = kernel_physical_to_virtual hhdm_offset physical in
      paging_add_mapping hhdm_offset root virtual physical page_size (bit_or write cache_disable)
        g.memory
      >>= λ m.
          let (io, dev) = new_io_apic (u32 virtual) (read32 (info + 6) mem) (mem info) g.devices in
          let added : Manager = record {
            io_apics = set g.io_apics g.num_io_apics io;
            num_io_apics = g.num_io_apics + 1;
            memory = m;
            devices = dev;
          } in
          if leb max_io_apics g.num_io_apics then panic else ok added

  -- `while (apicStructures < end)`; the step is computed with wrap-around, as `length - 2` is an `int`.
  pub parse_entries : ℕ → ℕ → ℕ → Manager → Run Manager
  parse_entries zero curr end g = out_of_fuel
  parse_entries (suc k) curr end g =
      let step = (if mem curr == 1 then add_io_apic (add64 curr 2) g else ok g) in
      let next = add64 (add64 curr 2) (sub64 (mem (add64 curr 1)) 2) in
      let rest = (step >>= λ g'. parse_entries k next end g') in if ltb curr end then rest else ok g

  pub parse_madt : ℕ → ℕ → Manager → Run Manager
  unfolding parse_entries
  parse_madt fuel madt g =
      parse_entries fuel (madt + entries_offset) (madt + header_length madt mem) g

  -- `signature` is the address of the text "APIC".
  pub initialize : ℕ → ℕ → ℕ → Manager → Run Manager
  unfolding parse_madt
  initialize fuel signature rsdp g =
      let tables =
        (root_sdt_physical_address rsdp mem >>= λ physical_rsdt.
        let rsdt = kernel_physical_to_virtual hhdm_offset physical_rsdt in
        let physical_madt = find_sdt_with_signature signature (acpi_revision rsdp mem) rsdt mem in
        let madt = kernel_physical_to_virtual hhdm_offset physical_madt in
        if physical_madt == 0 then panic else parse_madt fuel madt g) in
      if rsdp == 0 then panic else tables
