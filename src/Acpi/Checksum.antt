-- ===== src/Acpi/Checksum.antt =====
-- The checksums of the ACPI tables.
use dav_os.Base.{
  ℕ, zero, suc, ◌+◌, ◌%◌, ◌^◌, ◌<◌, ◌≡◌, ◌↔◌, ap, true, ◌==◌, if◌then◌else◌, arith, inl, inr,
  Bool-cases,
}
use dav_os.Base.Words.{u8, add64}
use dav_os.Kpp.CString.{Bytes}
use dav_os.Acpi.{
  sum_bytes, sum_chars, verify_checksum, header_length, widen_char, rsdp_size, acpi_revision,
  validate, verify_partial_checksum, verify_full_checksum,
}

-- The sum of `count` bytes.
abbrev pub total : ℕ → ℕ → Bytes → ℕ
total zero a mem = 0
total (suc count) a mem = mem a + total count (a + 1) mem

pub sum_bytes-total :
    (count a sum : ℕ) (mem : Bytes)
    → sum < 2 ^ 8
    → sum_bytes count a sum mem ≡ (sum + total count a mem) % 2 ^ 8
unfolding sum_bytes
sum_bytes-total zero a sum mem h = omega arith
sum_bytes-total (suc count) a sum mem h =
    omega (arith, sum_bytes-total count (a + 1) (u8 (sum + mem a)) mem (omega arith))

widen_char-mod : (c : ℕ) → c < 2 ^ 8 → (widen_char c % 2 ^ 8 ≡ c) × (widen_char c < 2 ^ 64)
widen_char-mod c h = ground arith

pub sum_chars-total :
    (count a sum : ℕ) (mem : Bytes)
    → ((x : ℕ) → mem x < 2 ^ 8)
    → sum_chars count a sum mem % 2 ^ 8 ≡ (sum + total count a mem) % 2 ^ 8
unfolding sum_chars
sum_chars-total zero a sum mem bytes = omega arith
sum_chars-total (suc count) a sum mem bytes = omega (
  arith,
  sum_chars-total count (a + 1) (add64 sum (widen_char (mem a))) mem bytes,
  widen_char-mod (mem a) (bytes a),
)

-- On memory of bytes, the checksum of a table header, which adds signed characters into a 64-bit
-- sum, succeeds exactly when the sum of the same bytes as unsigned ones in 8 bits, as the root
-- pointer's checksum computes it, is 0.
pub verify_checksum-sum_bytes :
    (sdt : ℕ) (mem : Bytes)
    → ((x : ℕ) → mem x < 2 ^ 8)
    → verify_checksum sdt mem ≡ (sum_bytes (header_length sdt mem) sdt 0 mem == 0)
unfolding verify_checksum
verify_checksum-sum_bytes sdt mem bytes =
    ap (λ (k : ℕ). k == 0)
      (omega (
        arith,
        sum_chars-total (header_length sdt mem) sdt 0 mem bytes,
        sum_bytes-total (header_length sdt mem) sdt 0 mem (omega arith),
      ))

-- What the checksum covers.
abbrev pub covered : ℕ → Bytes → ℕ
covered rsdp mem = if acpi_revision rsdp mem == 0 then 20 else rsdp_size rsdp mem

checked :
    (count rsdp : ℕ) (mem : Bytes)
    → ((sum_bytes count rsdp 0 mem == 0) ≡ true) ↔ (total count rsdp mem % 2 ^ 8 ≡ 0)
checked count rsdp mem = ground (arith, sum_bytes-total count rsdp 0 mem (omega arith))

-- The root pointer is valid exactly when the bytes that its revision's checksum covers sum to 0 in
-- 8 bits.
pub validate_iff :
    (rsdp : ℕ) (mem : Bytes)
    → (validate rsdp mem ≡ true) ↔ (total (covered rsdp mem) rsdp mem % 2 ^ 8 ≡ 0)
unfolding validate verify_partial_checksum verify_full_checksum
validate_iff rsdp mem = elim (Bool-cases (acpi_revision rsdp mem == 0)) [
  | inl first ↦ rw first (checked 20 rsdp mem)
  | inr later ↦ rw later (checked (rsdp_size rsdp mem) rsdp mem)
]
