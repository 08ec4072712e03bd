-- ===== src/Paging/Address.antt =====
-- Page arithmetic of kernel/src/paging.cpp, on `uint64_t`.
use dav_os.Base.{ℕ, ◌+◌, ◌-◌, ◌/◌, ◌%◌, ◌^◌, ◌≤◌, ◌<◌, ◌≡◌, ◌==◌, ltb, if◌then◌else◌, arith}
use dav_os.Base.Words.{add64, sub64}

abbrev pub page_size : ℕ
page_size = 0x1000

abbrev pub uint64_max : ℕ
uint64_max = 2 ^ 64 - 1

unfoldable pub page_floor : ℕ → ℕ
page_floor address = sub64 address (address % page_size)

pub page_ceil : ℕ → ℕ
unfolding page_floor
page_ceil address =
    if address % page_size == 0
    then address
    else if ltb (uint64_max - page_size) address
    then address
    else page_floor (add64 address page_size)

pub record PageRange : Type 0 where
  pub first_page : ℕ
  pub last_page : ℕ

unfoldable pub get_page_range : ℕ → ℕ → PageRange
unfolding page_floor page_ceil
get_page_range virtual_base length = record {
  first_page = page_floor virtual_base;
  last_page =
      if ltb (sub64 (page_floor uint64_max) length) virtual_base
      then page_floor uint64_max
      else page_ceil (add64 virtual_base length);
}

-- `page_floor` is the start of the page that holds the address.
pub page_floor_lem :
    (a : ℕ)
    → a < 2 ^ 64
    → (page_floor a ≤ a) × (a < page_floor a + page_size) × (page_floor a % page_size ≡ 0)
unfolding page_floor
page_floor_lem a h = ground arith

-- For an address at least one page size below 2 ^ 64 - 1, page_ceil is the first page boundary at
-- or above it.
pub page_ceil_lem :
    (a : ℕ)
    → a ≤ uint64_max - page_size
    → (a ≤ page_ceil a) × (page_ceil a < a + page_size) × (page_ceil a % page_size ≡ 0)
unfolding page_ceil
page_ceil_lem a h = ground arith

-- For an address below 2 ^ 64 and less than one page size below 2 ^ 64 - 1, page_ceil returns the
-- address as it is, also off a page boundary.
pub page_ceil_last : (a : ℕ) → uint64_max - page_size < a → a < 2 ^ 64 → page_ceil a ≡ a
unfolding page_ceil
page_ceil_last a lo hi = ground arith

-- For a region that ends at or below the last page boundary, the page range starts and ends at
-- page boundaries, covers the region, and has no page that the region does not touch.
pub get_page_range-covers :
    (base length : ℕ)
    → base + length ≤ uint64_max - (page_size - 1)
    → let r = get_page_range base length in
      (r.first_page ≤ base)
      × (base + length ≤ r.last_page)
      × (base < r.first_page + page_size)
      × (r.last_page < base + length + page_size)
      × (r.first_page % page_size ≡ 0)
      × (r.last_page % page_size ≡ 0)
unfolding get_page_range
get_page_range-covers base length h = ground arith

-- For a region that starts below 2 ^ 64, has at most the length of all pages but the last, and
-- reaches beyond the last page boundary, the page range ends at the last page, which it leaves
-- out.
pub get_page_range_top :
    (base length : ℕ)
    → base < 2 ^ 64
    → length ≤ uint64_max - (page_size - 1)
    → uint64_max - (page_size - 1) < base + length
    → let r = get_page_range base length in
      (r.last_page ≡ 2 ^ 64 - page_size) × (r.first_page ≤ r.last_page)
unfolding get_page_range
get_page_range_top base length hb hl h = ground arith

pub page_floor-aligned : (a : ℕ) → a % page_size ≡ 0 → a ≤ 2 ^ 32 → page_floor a ≡ a
unfolding page_floor
page_floor-aligned a page low = ground arith

pub first_page-number :
    (base length : ℕ)
    → base < 2 ^ 64
    → (get_page_range base length).first_page / 2 ^ 12 % 2 ^ 36 ≡ base / 2 ^ 12 % 2 ^ 36
unfolding get_page_range page_floor
first_page-number base length h = omega arith

pub first_page-aligned :
    (base length : ℕ) → base < 2 ^ 64 → (get_page_range base length).first_page % page_size ≡ 0
unfolding get_page_range page_floor
first_page-aligned base length h = omega arith

pub first_page-le :
    (base length : ℕ) → base < 2 ^ 64 → (get_page_range base length).first_page ≤ base
unfolding get_page_range page_floor
first_page-le base length h = omega arith
