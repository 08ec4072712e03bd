-- ===== src/Processor/Msr.antt =====
-- The address of the local APIC in its model-specific register.
use dav_os.Base.{
  ℕ, ◌+◌, ◌*◌, ◌/◌, ◌%◌, ◌^◌, ◌≡◌, refl, true, ◌∷◌, if◌then◌else◌, arith, bit_or, bit_and,
}
use dav_os.Base.Words.{bit_and_field, bit_or_field}
use dav_os.Base.Run.{ok, panic, ◌>>=◌}
use dav_os.Processor.{
  msr_out, Trace, Machine, has_msr, has_local_apic, read_msr, write_msr, ia32_apic_base,
  local_apic_base_address, hardware_enable_local_apic_and_set_base_address,
}

-- Bits 12 to 31.
abbrev pub base_field : ℕ → ℕ
base_field a = a / 2 ^ 12 % 2 ^ 20 * 2 ^ 12

pub base_field_lem : (a : ℕ) → bit_and a 0xffff_f000 ≡ base_field a
base_field_lem a = bit_and_field 12 20 a

pub base_field-enable : (a : ℕ) → bit_or (base_field a) 0x800 ≡ base_field a + 0x800
base_field-enable a = bit_or_field 12 (a / 2 ^ 12 % 2 ^ 20) 0x800 (omega arith)

module _ (d : Machine) where
  pub local_apic_base_address_lem :
      (t : Trace)
      → local_apic_base_address d t ≡ (
          if has_local_apic d
          then (if has_msr d then ok (base_field (d.rdmsr t ia32_apic_base).0) else panic)
          else panic)
  unfolding local_apic_base_address read_msr
  local_apic_base_address_lem t = ground (arith, base_field_lem (d.rdmsr t ia32_apic_base).0)

  pub hardware_enable_lem :
      (a : ℕ) (t : Trace)
      → has_local_apic d ≡ true
      → has_msr d ≡ true
      → hardware_enable_local_apic_and_set_base_address d a t
        ≡ ok (msr_out ia32_apic_base (base_field a + 0x800) 0 ∷ t)
  unfolding hardware_enable_local_apic_and_set_base_address write_msr
  hardware_enable_lem a t apic msr = rw (apic, msr, base_field_lem a, base_field-enable a) refl

  -- On a machine that gives back what was written to a register, the address that is read after it was
  -- set is the one that was set, without the bits below 12 and from 32 on.
  pub local_apic_base_address-set :
      (a : ℕ) (t : Trace)
      → has_local_apic d ≡ true
      → has_msr d ≡ true
      → ((msr low high : ℕ) (t' : Trace) → d.rdmsr (msr_out msr low high ∷ t') msr ≡ (low, high))
      → (hardware_enable_local_apic_and_set_base_address d a t >>= local_apic_base_address d)
        ≡ ok (base_field a)
  local_apic_base_address-set a t apic msr keeps =
      let same : base_field (base_field a + 0x800) ≡ base_field a = omega arith in
      rw
        (
          hardware_enable_lem a t apic msr,
          local_apic_base_address_lem (msr_out ia32_apic_base (base_field a + 0x800) 0 ∷ t),
          apic,
          msr,
          keeps ia32_apic_base (base_field a + 0x800) 0 t,
          same,
        )
        refl
