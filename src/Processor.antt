-- ===== src/Processor.antt =====
-- kernel/src/processor.cpp and kernel/src/LocalAPIC.cpp. What the processor does to its surroundings is
-- a trace of events, the latest first; what it learns from them is given by a machine, a parameter.
pub mod Pic
pub mod Msr
pub mod Polling
pub mod KeyboardController
pub mod LocalApic
pub mod PageFault
use dav_os.Base.{
  ℕ, zero, suc, ◌+◌, ◌^◌, ◌%◌, Bool, true, false, not, List, [], ◌∷◌, ◌==◌, if◌then◌else◌, bit_and,
  bit_or,
}
use dav_os.Base.Words.{u8, u32}
use dav_os.Base.Run.{Run, ok, panic, out_of_fuel, ◌>>=◌}

-- A byte to or from a port, a model-specific register set, a 32-bit word to a device's address.
pub data Event : Type 0 where
  port_out port_in : ℕ → ℕ → Event
  msr_out : ℕ → ℕ → ℕ → Event
  word_out : ℕ → ℕ → Event
  interrupts_on : Event

abbrev pub Trace : Type 0
Trace = List Event

-- EDX of CPUID leaf 1, the halves of a register, and the byte at a port, after a trace.
pub record Machine : Type 0 where
  pub cpuid_edx : ℕ
  pub rdmsr : Trace → ℕ → ℕ × ℕ
  pub port : Trace → ℕ → ℕ

abbrev pub edx_msr : ℕ
edx_msr = 0x20

abbrev pub edx_apic : ℕ
edx_apic = 0x200

abbrev pub edx_pat : ℕ
edx_pat = 0x1_0000

abbrev pub ia32_apic_base : ℕ
ia32_apic_base = 0x1b

pub outb : ℕ → ℕ → Trace → Trace
outb port value t = port_out port value ∷ t

pub io_wait : Trace → Trace
unfolding outb
io_wait t = outb 0x80 0 t

pub disable_pic : Trace → Trace
unfolding outb
disable_pic t = outb 0xa1 0xff (outb 0x21 0xff t)

-- A byte to a PIC port, and the wait behind it.
pub outb_wait : ℕ → ℕ → Trace → Trace
unfolding outb io_wait
outb_wait port value t = io_wait (outb port value t)

abbrev pub input_clear : ℕ → Bool
input_clear status = bit_and status 2 == 0

abbrev pub output_full : ℕ → Bool
output_full status = not (bit_and status 1 == 0)

-- `commandByte |= 0x01; commandByte &= ~0x10;`
pub new_command : ℕ → ℕ
new_command command_byte = u8 (bit_and (bit_or command_byte 1) 0xffff_ffef)

module _ (d : Machine) where
  unfoldable pub has_msr : Bool
  has_msr = not (bit_and d.cpuid_edx edx_msr == 0)

  unfoldable pub has_local_apic : Bool
  has_local_apic = not (bit_and d.cpuid_edx edx_apic == 0)

  unfoldable pub has_pat : Bool
  has_pat = not (bit_and d.cpuid_edx edx_pat == 0)

  pub read_msr : ℕ → Trace → Run (ℕ × ℕ)
  unfolding has_msr
  read_msr msr t = if has_msr then ok (d.rdmsr t msr) else panic

  pub write_msr : ℕ → ℕ → ℕ → Trace → Run Trace
  unfolding has_msr
  write_msr msr low high t = if has_msr then ok (msr_out msr low high ∷ t) else panic

  -- Without `__PHYSICAL_MEMORY_EXTENSION__`, which the build does not define.
  pub local_apic_base_address : Trace → Run ℕ
  unfolding has_local_apic read_msr
  local_apic_base_address t =
      if has_local_apic
      then (read_msr ia32_apic_base t >>= λ (low, high). ok (bit_and low 0xffff_f000))
      else panic

  pub hardware_enable_local_apic_and_set_base_address : ℕ → Trace → Run Trace
  unfolding has_local_apic write_msr
  hardware_enable_local_apic_and_set_base_address physical_base_address t =
      if has_local_apic
      then write_msr ia32_apic_base (bit_or (bit_and physical_base_address 0xffff_f000) 0x800) 0 t
      else panic

  pub inb : ℕ → Trace → ℕ × Trace
  inb port t = let value = u8 (d.port t port) in (value, port_in port value ∷ t)

  -- The offsets are the patterns of `int`s.
  pub remap_pic : ℕ → ℕ → Trace → Trace
  unfolding inb outb outb_wait
  remap_pic offset1 offset2 t0 =
      let (a1, t1) = inb 0x21 t0 in
      let (a2, t2) = inb 0xa1 t1 in
      let start = outb_wait 0xa0 0x11 (outb_wait 0x20 0x11 t2) in
      let offsets = outb_wait 0xa1 (u8 offset2) (outb_wait 0x21 (u8 offset1) start) in
      let cascade = outb_wait 0xa1 2 (outb_wait 0x21 4 offsets) in
      let mode = outb_wait 0xa1 1 (outb_wait 0x21 1 cascade) in outb 0xa1 a2 (outb 0x21 a1 mode)

  -- `while (!stop(inb(0x64)));`
  pub poll : (ℕ → Bool) → ℕ → Trace → Run Trace
  unfolding inb
  poll stop zero t = out_of_fuel
  poll stop (suc k) t =
      let (value, t') = inb 0x64 t in
      let rest = poll stop k t' in if stop value then ok t' else rest

  -- `fuel` rounds for each of the waits.
  pub init_keyboard_controller : ℕ → Trace → Run Trace
  unfolding inb outb_wait poll new_command
  init_keyboard_controller fuel t0 = do
    t1 ← poll input_clear fuel t0
    t2 ← poll input_clear fuel (outb_wait 0x64 0xae t1)
    t3 ← poll output_full fuel (outb_wait 0x64 0x20 t2)
    let read = inb 0x60 t3
    t5 ← poll input_clear fuel read.1
    t6 ← poll input_clear fuel (outb_wait 0x64 0x60 t5)
    ok (outb_wait 0x60 (new_command read.0) t6)
