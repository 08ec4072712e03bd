-- ===== src/Apic/Redirect.antt =====
-- `APICManager::redirectIrq` and `sendInterprocessorInterrupt`.
use dav_os.Base.{
  ℕ, ◌+◌, ◌-◌, ◌*◌, ◌/◌, ◌%◌, ◌^◌, ◌≤◌, ◌<◌, ◌≡◌, refl, ◌∙◌, sym, inl, inr, true, false, ◌&&◌, ◌==◌,
  if◌then◌else◌, arith, Bool-cases, List, [], ◌∷◌, bit_and, bit_or, Option, none, some,
}
use dav_os.Base.Words.{u32, bit_and_split, bit_and_mask, bit_and_field, bit_or_field, bit_or_comm}
use dav_os.Base.Run.{ok}
use dav_os.Apic.{
  IoApic, Devices, handles_irq, low_register, high_register, redirected_low, redirected_high,
  redirect_entry, redirect_irq, read_register, write_register, new_io_apic,
  send_interprocessor_interrupt,
}
use dav_os.Processor.{Trace, Machine, word_out, local_apic_base_address}

-- The vector in bits 0 to 7, bit 16 clear, the others as they were.
abbrev pub low_spec : ℕ → ℕ → ℕ
low_spec low vector = low / 2 ^ 17 * 2 ^ 17 + low / 2 ^ 8 % 2 ^ 8 * 2 ^ 8 + vector

-- The id in bits 24 to 31, the others as they were.
abbrev pub high_spec : ℕ → ℕ → ℕ
high_spec high id = high % 2 ^ 24 + id * 2 ^ 24

clear_vector : (low : ℕ) → low < 2 ^ 32 → bit_and low 0xffff_ff00 ≡ low / 2 ^ 8 * 2 ^ 8
clear_vector low h = bit_and_field 8 24 low ∙ omega arith

clear_mask : (x : ℕ) → x < 2 ^ 32 → bit_and x 0xfffe_ffff ≡ x / 2 ^ 17 * 2 ^ 17 + x % 2 ^ 16
clear_mask x h =
    bit_and_split 17 x 0xfffe_ffff
    ∙ omega (arith, bit_and_mask 15 (x / 2 ^ 17), bit_and_mask 16 (x % 2 ^ 17))

pub redirected_low_lem :
    (low vector : ℕ)
    → low < 2 ^ 32
    → vector < 2 ^ 8
    → redirected_low low vector ≡ low_spec low vector
unfolding redirected_low
redirected_low_lem low vector h v =
    rw (clear_vector low h, bit_or_field 8 (low / 2 ^ 8) vector v)
      (clear_mask (low / 2 ^ 8 * 2 ^ 8 + vector) (omega arith) ∙ omega arith)

pub redirected_high_lem : (high id : ℕ) → id < 2 ^ 8 → redirected_high high id ≡ high_spec high id
unfolding redirected_high
redirected_high_lem high id h =
    let small : u32 (id * 2 ^ 24) ≡ id * 2 ^ 24 = omega arith in
    rw
      (
        small,
        bit_and_mask 24 high,
        bit_or_comm (high % 2 ^ 24) (id * 2 ^ 24),
        bit_or_field 24 id (high % 2 ^ 24) (omega arith),
      )
      (omega arith)

-- The number of the first of the entry's two registers.
abbrev pub entry_register : ℕ → IoApic → ℕ
entry_register irq io = 0x10 + 2 * (irq - io.global_system_interrupt_base)

-- The registers after a redirection at an IO APIC.
abbrev pub redirected : ℕ → ℕ → IoApic → Devices → ℕ → ℕ → ℕ
redirected irq vector io dev a n =
    let low = entry_register irq io in
    if a == io.address && n == low
    then low_spec (dev.registers a n) vector
    else if a == io.address && n == low + 1
    then high_spec (dev.registers a n) io.id
    else dev.registers a n

redirect_entry-redirected :
    (irq vector : ℕ) (io : IoApic) (dev : Devices) (a n : ℕ)
    → io.global_system_interrupt_base ≤ irq
    → irq < io.global_system_interrupt_base + 120
    → irq < 2 ^ 8
    → vector < 2 ^ 8
    → io.id < 2 ^ 8
    → ((x m : ℕ) → dev.registers x m < 2 ^ 32)
    → (redirect_entry irq vector io dev).registers a n ≡ redirected irq vector io dev a n
unfolding redirect_entry read_register write_register low_register high_register
redirect_entry-redirected irq vector io dev a n lo hi small v id words =
    let low : low_register irq io ≡ entry_register irq io = omega arith in
    let high : high_register irq io ≡ entry_register irq io + 1 = omega arith in
    let low_word =
      redirected_low_lem (dev.registers io.address (entry_register irq io)) vector (words _ _) v in
    let high_word =
      redirected_high_lem (dev.registers io.address (entry_register irq io + 1)) io.id id in
    rw (low, high) (ground (arith, low_word, high_word))

-- The IO APIC that a redirection is for: the first that handles the interrupt.
abbrev pub handler : ℕ → List IoApic → Option IoApic
handler irq [] = none
handler irq (io ∷ ios) = if handles_irq irq io then some io else handler irq ios

redirect_irq-handler :
    (irq vector : ℕ) (ios : List IoApic) (io : IoApic) (dev : Devices)
    → handler irq ios ≡ some io
    → (redirect_irq irq vector ios dev ≡ redirect_entry irq vector io dev)
      × (handles_irq irq io ≡ true)
unfolding redirect_irq
redirect_irq-handler irq vector [] io dev e = absurd (ground (arith, e))
redirect_irq-handler irq vector (x ∷ xs) io dev e = elim (Bool-cases (handles_irq irq x)) [
  | inl this ↦
      let same : x ≡ io = ground (arith, this, e) in (rw (this, same) refl, rw (sym same) this)
  | inr other ↦
      let r = redirect_irq-handler irq vector xs io dev (ground (arith, other, e)) in
      (rw other r.0, r.1)
]

-- When an IO APIC with at most 120 entries is the first that handles the interrupt, and registers
-- hold 32 bits, redirectIrq puts the vector into bits 0 to 7 of the entry's low word and clears
-- bit 16, puts the IO APIC's id into bits 24 to 31 of its high word, and leaves all other bits and
-- every other register, also of other IO APICs, as they were.
pub redirect_irq-redirected :
    (irq vector : ℕ) (ios : List IoApic) (io : IoApic) (dev : Devices) (a n : ℕ)
    → handler irq ios ≡ some io
    → io.num_redirection_entries ≤ 120
    → irq < 2 ^ 8
    → vector < 2 ^ 8
    → io.id < 2 ^ 8
    → ((x m : ℕ) → dev.registers x m < 2 ^ 32)
    → (redirect_irq irq vector ios dev).registers a n ≡ redirected irq vector io dev a n
unfolding handles_irq
redirect_irq-redirected irq vector ios io dev a n e entries small v id words =
    let r = redirect_irq-handler irq vector ios io dev e in
    rw r.0 (
      redirect_entry-redirected irq vector io dev a n (ground (arith, r.1))
        (ground (arith, r.1, entries)) small v id words)

-- The IO APIC that the constructor makes does not handle the interrupt of its last entry.
handles_irq-last :
    (base entries : ℕ) (io : IoApic)
    → io.global_system_interrupt_base ≡ base
    → io.num_redirection_entries ≡ entries
    → handles_irq (base + entries) io ≡ false
unfolding handles_irq
handles_irq-last base entries io b e = rw (b, e) (ground arith)

-- For the IO APIC that the constructor makes, redirecting the interrupt of the entry whose number is in
-- register 1, the last one, does nothing.
pub redirect_irq-last :
    (address base id vector : ℕ) (dev dev' : Devices)
    → redirect_irq
        (base + dev.registers address 1 / 2 ^ 16 % 2 ^ 8)
        vector
        ((new_io_apic address base id dev).0 ∷ [])
        dev'
      ≡ dev'
unfolding new_io_apic read_register redirect_irq
redirect_irq-last address base id vector dev dev' =
    let last = dev.registers address 1 / 2 ^ 16 % 2 ^ 8 in
    let out =
      handles_irq-last base last (new_io_apic address base id dev).0 refl
        (ground (arith, bit_and_mask 8 (dev.registers address 1 / 2 ^ 16))) in
    rw out refl

-- The destination is written to 0x310 first, then the vector with bit 14 to 0x300.
pub send_interprocessor_interrupt-writes :
    (d : Machine) (hhdm_offset physical destination vector : ℕ) (t : Trace)
    → local_apic_base_address d t ≡ ok physical
    → physical + hhdm_offset + 0x400 ≤ 2 ^ 64
    → destination < 2 ^ 8
    → vector < 2 ^ 8
    → send_interprocessor_interrupt d hhdm_offset destination vector t
      ≡ ok (
          word_out (physical + hhdm_offset + 0x300) (2 ^ 14 + vector)
          ∷ word_out (physical + hhdm_offset + 0x310) (destination * 2 ^ 24)
          ∷ t)
unfolding send_interprocessor_interrupt
send_interprocessor_interrupt-writes d hhdm_offset physical destination vector t e top small v =
    let word : bit_or 0x4000 vector ≡ 2 ^ 14 + vector = bit_or_field 14 1 vector (omega arith) in
    rw (e, word) (ground arith)
