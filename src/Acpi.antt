-- ===== src/Acpi.antt =====
-- The ACPI tables that the kernel reads: kernel/include/kernel/RootSystemDescriptionPointer.h,
-- ACPISDTHeader.h and RootSDT.h. Memory is a function from addresses to bytes. A structure is the address
-- that it stands at, and a field is read at its offset; the tables lie below 2 ^ 64.
pub mod Checksum
pub mod Tables
use dav_os.Base.{
  ℕ, zero, suc, ◌+◌, ◌*◌, ◌/◌, ◌%◌, ◌^◌, Bool, true, false, not, ◌&&◌, List, [], ◌∷◌, ◌==◌, ltb,
  if◌then◌else◌,
}
use dav_os.Base.Words.{u8, add64, sub64}
use dav_os.Base.Int.{ℤ, pos, negsuc}
use dav_os.Base.Run.{Run, ok, panic}
use dav_os.Kpp.CString.{Bytes, strncmp}

-- Numbers of four and eight bytes, the low byte first.
abbrev pub read32 : ℕ → Bytes → ℕ
read32 a mem = mem a + mem (a + 1) * 2 ^ 8 + mem (a + 2) * 2 ^ 16 + mem (a + 3) * 2 ^ 24

abbrev pub read64 : ℕ → Bytes → ℕ
read64 a mem = read32 a mem + read32 (a + 4) mem * 2 ^ 32

-- "RSD PTR "
abbrev pub expected_signature : List ℕ
expected_signature = b'R' ∷ b'S' ∷ b'D' ∷ 0x20 ∷ b'P' ∷ b'T' ∷ b'R' ∷ 0x20 ∷ []

unfoldable pub matches_from : List ℕ → ℕ → Bytes → Bool
matches_from [] a mem = true
matches_from (c ∷ cs) a mem = if mem a == c then matches_from cs (a + 1) mem else false

unfoldable pub verify_signature : ℕ → Bytes → Bool
unfolding matches_from
verify_signature rsdp mem = matches_from expected_signature rsdp mem

-- `sum += *byte` in `uint8_t`, `count` bytes.
unfoldable pub sum_bytes : ℕ → ℕ → ℕ → Bytes → ℕ
sum_bytes zero byte sum mem = sum
sum_bytes (suc count) byte sum mem = sum_bytes count (byte + 1) (u8 (sum + mem byte)) mem

abbrev pub acpi_revision : ℕ → Bytes → ℕ
acpi_revision rsdp mem = mem (rsdp + 15)

abbrev pub rsdt_physical_address : ℕ → Bytes → ℕ
rsdt_physical_address rsdp mem = read32 (rsdp + 16) mem

abbrev pub rsdp_size : ℕ → Bytes → ℕ
rsdp_size rsdp mem = read32 (rsdp + 20) mem

abbrev pub xsdt_physical_address : ℕ → Bytes → ℕ
xsdt_physical_address rsdp mem = read64 (rsdp + 24) mem

unfoldable pub verify_partial_checksum : ℕ → Bytes → Bool
unfolding sum_bytes
verify_partial_checksum rsdp mem = sum_bytes 20 rsdp 0 mem == 0

unfoldable pub verify_full_checksum : ℕ → Bytes → Bool
unfolding sum_bytes
verify_full_checksum rsdp mem = sum_bytes (rsdp_size rsdp mem) rsdp 0 mem == 0

unfoldable pub validate : ℕ → Bytes → Bool
unfolding verify_partial_checksum verify_full_checksum
validate rsdp mem =
    if acpi_revision rsdp mem == 0
    then verify_partial_checksum rsdp mem
    else verify_full_checksum rsdp mem

unfoldable pub root_sdt_physical_address : ℕ → Bytes → Run ℕ
unfolding validate
root_sdt_physical_address rsdp mem =
    if validate rsdp mem
    then ok (
        if acpi_revision rsdp mem == 0
        then rsdt_physical_address rsdp mem
        else xsdt_physical_address rsdp mem)
    else panic

abbrev pub sizeof_header : ℕ
sizeof_header = 36

abbrev pub header_length : ℕ → Bytes → ℕ
header_length sdt mem = read32 (sdt + 4) mem

-- A `char` is signed; added to a `size_t` it is widened with its sign.
abbrev pub widen_char : ℕ → ℕ
widen_char c = if ltb c 128 then c else sub64 c 256

pub sum_chars : ℕ → ℕ → ℕ → Bytes → ℕ
sum_chars zero a byte_sum mem = byte_sum
sum_chars (suc count) a byte_sum mem =
    sum_chars count (a + 1) (add64 byte_sum (widen_char (mem a))) mem

pub verify_checksum : ℕ → Bytes → Bool
unfolding sum_chars
verify_checksum sdt mem = sum_chars (header_length sdt mem) sdt 0 mem % 0x100 == 0

abbrev pub bytes_per_pointer : ℕ → ℕ
bytes_per_pointer revision = if revision == 0 then 4 else 8

unfoldable pub num_pointers_to_other_sdts : ℕ → ℕ → Bytes → ℕ
num_pointers_to_other_sdts revision root mem =
    sub64 (header_length root mem) sizeof_header / bytes_per_pointer revision

-- `RootSDT` is not packed: a pointer is aligned to 8 bytes.
abbrev pub pointers_offset : ℕ
pointers_offset = 40

unfoldable pub table_pointer : ℕ → ℕ → ℕ → Bytes → ℕ
table_pointer revision root i mem =
    if bytes_per_pointer revision == 4
    then read32 (root + pointers_offset + 4 * i) mem
    else read64 (root + pointers_offset + 8 * i) mem

abbrev pub is_zero : ℤ → Bool
is_zero (pos n) = n == 0
is_zero (negsuc n) = false

-- `!kpp::strncmp(sdt->header.signature, signature, 4)`
abbrev pub has_signature : ℕ → ℕ → Bytes → Bool
has_signature signature sdt mem = is_zero (strncmp sdt signature 4 mem)

-- The loop, `count` rounds from `i`; 0 is the null pointer.
unfoldable pub find_from : ℕ → ℕ → ℕ → ℕ → ℕ → Bytes → ℕ
unfolding table_pointer
find_from zero i signature revision root mem = 0
find_from (suc count) i signature revision root mem =
    let rest = find_from count (i + 1) signature revision root mem in
    let sdt = table_pointer revision root i mem in
    if has_signature signature sdt mem then sdt else rest

unfoldable pub find_sdt_with_signature : ℕ → ℕ → ℕ → Bytes → ℕ
unfolding find_from num_pointers_to_other_sdts
find_sdt_with_signature signature revision root mem =
    find_from (num_pointers_to_other_sdts revision root mem) 0 signature revision root mem
