-- ===== src/Paging/PageTreeNode.antt =====
-- The entries of a page table, kernel/src/PageTreeNode.cpp: each operation as a function of the
-- `uint64_t` entry that it reads and writes (`entries_[index]`).
--
-- `0xffffffff` is an `unsigned int`, so `0xffffffff << 12` keeps 32 bits: the mask is 0xfffff000, and
-- `(~0xffffffff) << 12` is 0. `~(0xff)` is the `int` -256, which widens to 0xffffffffffffff00.
use dav_os.Base.{ℕ, ◌-◌, ◌*◌, ◌/◌, ◌%◌, ◌^◌, ◌<◌, ◌≡◌, ◌∙◌, arith, bit_and, bit_or}
use native.Mathlib.Nat.{mul-mod_left}
use dav_os.Base.Words.{
  u32, bit_and_field, bit_and_mask, bit_or_window, bit_or-zero, zero-bit_or, bit_and-zero,
  bit_or_mod,
}

-- `PageFlags`, by its `uint64_t` values.
abbrev pub PageFlags : Type 0
PageFlags = ℕ

abbrev pub none_flags : PageFlags
none_flags = 0

abbrev pub present : PageFlags
present = 1

abbrev pub write : PageFlags
write = 2 ^ 1

abbrev pub user : PageFlags
user = 2 ^ 2

abbrev pub write_through : PageFlags
write_through = 2 ^ 3

abbrev pub cache_disable : PageFlags
cache_disable = 2 ^ 4

abbrev pub execute_disable : PageFlags
execute_disable = 2 ^ 63

abbrev pub address_mask : ℕ
address_mask = u32 (0xffff_ffff * 2 ^ 12)

abbrev pub address_clear : ℕ
address_clear = u32 (u32 (2 ^ 32 - 1 - 0xffff_ffff) * 2 ^ 12)

abbrev pub flags_clear : ℕ
flags_clear = 2 ^ 64 - 256

unfoldable pub get_child_address : ℕ → ℕ
get_child_address entry = bit_and entry address_mask

pub set_child_address : ℕ → ℕ → ℕ
set_child_address entry address = bit_or (bit_and entry address_clear) address

pub add_child_flags : ℕ → PageFlags → ℕ
add_child_flags entry flags = bit_or entry (bit_or flags present)

pub set_child_flags : ℕ → PageFlags → ℕ
unfolding add_child_flags
set_child_flags entry flags = add_child_flags (bit_and entry flags_clear) flags

unfoldable pub get_child_flags : ℕ → PageFlags
get_child_flags entry = bit_and entry 0xff

-- No flag lies in bits 12 to 31, where the address is.
abbrev pub IsFlags : PageFlags → Type 0
IsFlags flags = flags / 2 ^ 12 % 2 ^ 20 ≡ 0

-- A frame that an entry can hold.
abbrev pub IsFrame : ℕ → Type 0
IsFrame f = (f % 0x1000 ≡ 0) × (f < 2 ^ 32)

-- `get_child_address` reads bits 12 to 31.
pub get_child_address-bits : (e : ℕ) → get_child_address e ≡ e / 2 ^ 12 % 2 ^ 20 * 2 ^ 12
unfolding get_child_address
get_child_address-bits e = bit_and_field 12 20 e

pub set_child_address-eq : (e a : ℕ) → set_child_address e a ≡ a
unfolding set_child_address
set_child_address-eq e a = rw (bit_and-zero e, zero-bit_or a)

-- Setting flags that lie outside the bits 12 to 31 leaves the child address of an entry as it is.
pub get_child_address-set_child_flags :
    (e flags : ℕ)
    → IsFlags flags
    → get_child_address (set_child_flags e flags) ≡ get_child_address e
unfolding set_child_flags
get_child_address-set_child_flags e flags h =
    rw
      (
        get_child_address-bits (bit_or (bit_and e flags_clear) (bit_or flags present)),
        get_child_address-bits e,
        bit_or_window 12 20 (bit_and e flags_clear) (bit_or flags present),
        bit_or_window 12 20 flags present,
        h,
        bit_and_field 8 56 e,
        bit_or-zero,
      )
      (omega arith)

-- An entry that `set_child_address` and `set_child_flags` wrote reads back.
pub get_child_address-set :
    (e f flags : ℕ)
    → IsFlags flags
    → IsFrame f
    → get_child_address (set_child_flags (set_child_address e f) flags) ≡ f
get_child_address-set e f flags h frame =
    get_child_address-set_child_flags (set_child_address e f) flags h
    ∙ rw (set_child_address-eq e f, get_child_address-bits f) (omega arith)

-- An address above 4 GiB reads back without its bits from 32 on.
pub get_child_address-set_low :
    (e f flags : ℕ)
    → IsFlags flags
    → f % 0x1000 ≡ 0
    → get_child_address (set_child_flags (set_child_address e f) flags) ≡ f % 2 ^ 32
get_child_address-set_low e f flags h aligned =
    get_child_address-set_child_flags (set_child_address e f) flags h
    ∙ rw (set_child_address-eq e f, get_child_address-bits f) (omega arith)

-- The flags that get_child_flags reads after set_child_flags are the low byte of those set, with
-- the present bit, whatever the entry was.
pub get_child_flags-set_child_flags :
    (e flags : ℕ) → get_child_flags (set_child_flags e flags) ≡ bit_or flags present % 2 ^ 8
unfolding get_child_flags set_child_flags
get_child_flags-set_child_flags e flags = rw (
  bit_and_mask 8 (bit_or (bit_and e flags_clear) (bit_or flags present)),
  bit_or_mod 8 (bit_and e flags_clear) (bit_or flags present),
  bit_and_field 8 56 e,
  mul-mod_left (e / 2 ^ 8 % 2 ^ 56) (2 ^ 8),
  zero-bit_or,
)
