-- ===== src/Descriptors/Gdt.antt =====
-- The segment descriptors of kernel/src/gdt.cpp and the selectors that name them. The instructions
-- `lgdt` and `reload_segment_registers` are not part of the model.
use dav_os.Base.{ℕ, ◌+◌, ◌*◌, ◌/◌, ◌%◌, ◌^◌, ◌<◌, ◌≡◌, ◌∙◌, bit_and, bit_or, List, [], ◌∷◌, arith}
use dav_os.Base.Words.{u64, u16, bit_and_mask, bit_or_field, bit_or_comm}

-- `PRESENT(b)` and the other macros of an access byte.
abbrev pub present_bit : ℕ → ℕ
present_bit b = b * 2 ^ 7

abbrev pub kernel_privilege : ℕ
kernel_privilege = 0 * 2 ^ 5

abbrev pub user_privilege : ℕ
user_privilege = 3 * 2 ^ 5

abbrev pub code_or_data_segment : ℕ
code_or_data_segment = 1 * 2 ^ 4

abbrev pub is_code_segment : ℕ → ℕ
is_code_segment b = b * 2 ^ 3

abbrev pub code_exact_privilege : ℕ
code_exact_privilege = 0 * 2 ^ 2

abbrev pub data_grows_upward : ℕ
data_grows_upward = 0 * 2 ^ 2

-- `CODE_READABLE` and `DATA_WRITABLE`
abbrev pub readable_or_writable : ℕ
readable_or_writable = 1 * 2 ^ 1

abbrev pub accessed : ℕ → ℕ
accessed b = b

abbrev pub long_mode_code_paging : ℕ
long_mode_code_paging = bit_or (1 * 2 ^ 3) (1 * 2 ^ 1)

abbrev pub protected_32_paging : ℕ
protected_32_paging = bit_or (1 * 2 ^ 3) (1 * 2 ^ 2)

-- `a | b | c | d | e | f | g`
abbrev pub access : ℕ → ℕ → ℕ → ℕ
access privilege code direction =
    bit_or
      (bit_or
        (bit_or
          (bit_or (bit_or (bit_or (present_bit 1) privilege) code_or_data_segment)
            (is_code_segment code))
          direction)
        readable_or_writable)
      (accessed 1)

unfoldable pub make_segment_descriptor : ℕ → ℕ → ℕ → ℕ → ℕ
make_segment_descriptor base limit access flags =
    bit_or
      (bit_or
        (bit_or
          (bit_or (bit_or (bit_and limit 0xffff) (u64 (bit_and base 0xff_ffff * 2 ^ 16)))
            (u64 (access * 2 ^ 40)))
          (u64 (limit / 2 ^ 16 * 2 ^ 48)))
        (u64 (bit_and flags 0xf * 2 ^ 52)))
      (u64 (base / 2 ^ 24 * 2 ^ 56))

unfoldable pub global_descriptor_table : List ℕ
global_descriptor_table =
    0
    ∷ make_segment_descriptor 0 0xf_ffff (access kernel_privilege 1 code_exact_privilege)
        long_mode_code_paging
    ∷ make_segment_descriptor 0 0xf_ffff (access kernel_privilege 0 data_grows_upward)
        protected_32_paging
    ∷ make_segment_descriptor 0 0xf_ffff (access user_privilege 1 code_exact_privilege)
        long_mode_code_paging
    ∷ make_segment_descriptor 0 0xf_ffff (access user_privilege 0 data_grows_upward)
        protected_32_paging
    ∷ []

-- `GDTSegment`, `DescriptorTable` and `PrivilegeLevel`, with their integers.
pub data GdtSegment : Type 0 where
  null kernel_code kernel_data user_code user_data : GdtSegment

unfoldable pub segment_index : GdtSegment → ℕ
segment_index null = 0
segment_index kernel_code = 1
segment_index kernel_data = 2
segment_index user_code = 3
segment_index user_data = 4

pub data DescriptorTable : Type 0 where
  global local_table : DescriptorTable

unfoldable pub table_index : DescriptorTable → ℕ
table_index global = 0
table_index local_table = 1

pub data PrivilegeLevel : Type 0 where
  kernel user : PrivilegeLevel

unfoldable pub privilege_index : PrivilegeLevel → ℕ
privilege_index kernel = 0
privilege_index user = 3

pub record SegmentSelector : Type 0 where
  pub requested_privilege_level : PrivilegeLevel
  pub table_type : DescriptorTable
  pub gdt_segment : GdtSegment

unfoldable pub to_uint16_t : SegmentSelector → ℕ
to_uint16_t s = u16 (
    bit_or (bit_or (segment_index s.gdt_segment * 2 ^ 3) (table_index s.table_type * 2 ^ 2))
      (privilege_index s.requested_privilege_level))

field_lem : (k q r : ℕ) → r < 2 ^ k → bit_or r (q * 2 ^ k) ≡ q * 2 ^ k + r
field_lem k q r small = bit_or_comm r (q * 2 ^ k) ∙ bit_or_field k q r small

make_segment_descriptor-sum :
    (base limit access flags : ℕ)
    → base < 2 ^ 32
    → limit < 2 ^ 20
    → access < 2 ^ 8
    → make_segment_descriptor base limit access flags
      ≡ base / 2 ^ 24 * 2 ^ 56
        + (flags % 16 * 2 ^ 52
            + (limit / 2 ^ 16 * 2 ^ 48
                + (access * 2 ^ 40 + (base % 2 ^ 24 * 2 ^ 16 + limit % 2 ^ 16))))
unfolding make_segment_descriptor
make_segment_descriptor-sum base limit access flags hb hl ha =
    let low : bit_and limit 0xffff ≡ limit % 2 ^ 16 = bit_and_mask 16 limit in
    let mid : bit_and base 0xff_ffff ≡ base % 2 ^ 24 = bit_and_mask 24 base in
    let nibble : bit_and flags 0xf ≡ flags % 16 = bit_and_mask 4 flags in
    let b : u64 (base % 2 ^ 24 * 2 ^ 16) ≡ base % 2 ^ 24 * 2 ^ 16 = omega arith in
    let a : u64 (access * 2 ^ 40) ≡ access * 2 ^ 40 = omega (arith, ha) in
    let l : u64 (limit / 2 ^ 16 * 2 ^ 48) ≡ limit / 2 ^ 16 * 2 ^ 48 = omega (arith, hl) in
    let f : u64 (flags % 16 * 2 ^ 52) ≡ flags % 16 * 2 ^ 52 = omega arith in
    let t : u64 (base / 2 ^ 24 * 2 ^ 56) ≡ base / 2 ^ 24 * 2 ^ 56 = omega (arith, hb) in
    rw
      (
        low,
        mid,
        nibble,
        b,
        a,
        l,
        f,
        t,
        field_lem 16 (base % 2 ^ 24) (limit % 2 ^ 16) (omega arith),
        field_lem 40 access (base % 2 ^ 24 * 2 ^ 16 + limit % 2 ^ 16) (omega arith),
        field_lem 48 (limit / 2 ^ 16) (access * 2 ^ 40 + (base % 2 ^ 24 * 2 ^ 16 + limit % 2 ^ 16))
            (omega (arith, ha)),
        field_lem 52 (flags % 16)
            (limit / 2 ^ 16 * 2 ^ 48
              + (access * 2 ^ 40 + (base % 2 ^ 24 * 2 ^ 16 + limit % 2 ^ 16)))
            (omega (arith, ha, hl)),
      )
      (field_lem 56 (base / 2 ^ 24)
        (flags % 16 * 2 ^ 52
          + (limit / 2 ^ 16 * 2 ^ 48
              + (access * 2 ^ 40 + (base % 2 ^ 24 * 2 ^ 16 + limit % 2 ^ 16))))
        (omega (arith, ha, hl)))

-- A base below 2 ^ 32, a limit below 2 ^ 20, an access byte and the low four bits of the flags can
-- be read back from the segment descriptor at the places that the processor gives them.
pub make_segment_descriptor-fields :
    (base limit access flags : ℕ)
    → base < 2 ^ 32
    → limit < 2 ^ 20
    → access < 2 ^ 8
    → (let d = make_segment_descriptor base limit access flags in
        (d / 2 ^ 16 % 2 ^ 24 + d / 2 ^ 56 * 2 ^ 24 ≡ base)
        × (d % 2 ^ 16 + d / 2 ^ 48 % 2 ^ 4 * 2 ^ 16 ≡ limit)
        × (d / 2 ^ 40 % 2 ^ 8 ≡ access)
        × (d / 2 ^ 52 % 2 ^ 4 ≡ flags % 16))
make_segment_descriptor-fields base limit access flags hb hl ha =
    rw (make_segment_descriptor-sum base limit access flags hb hl ha) (
      omega (arith, hb, hl, ha),
      omega (arith, hb, hl, ha),
      omega (arith, hb, hl, ha),
      omega (arith, hb, hl, ha),
    )
