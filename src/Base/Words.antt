-- ===== src/Base/Words.antt =====
-- Machine words as native numbers: casts cut by `%`, shifts multiply and divide, and `|` and `&`
-- fall apart at any bit position.
use Prim.Native.Nat.{
  ℕ, zero, suc, ◌+◌, ◌-◌, ◌*◌, ◌/◌, ◌%◌, ◌^◌, ◌≤◌, ◌<◌, min, max, digits, bit_and, bit_or,
  bit_and-bitwise, bit_or-bitwise,
}
use mathlib.Core.Path.{◌≡◌, refl, sym, ap}
use mathlib.Core.WellFounded
use dav_os.Base.Order.{lt_wf}
use native.Mathlib.Omega.{arith}
use native.Mathlib.Nat.{one-le-pow, pow-succ', div-div-eq-div-mul, div-add-mod'}
use native.Mathlib.Nat.{
  add-zero, mul-add-div_right, mul-add-mod_self_right, mul-div_cancel, mul-mod_left, div-eq_of_lt,
  mod-eq_of_lt, mod-lt,
}
use native.Mathlib.Decide.{dec_lt}

abbrev pub u8 : ℕ → ℕ
u8 n = n % 2 ^ 8

abbrev pub u16 : ℕ → ℕ
u16 n = n % 2 ^ 16

abbrev pub u32 : ℕ → ℕ
u32 n = n % 2 ^ 32

abbrev pub u64 : ℕ → ℕ
u64 n = n % 2 ^ 64

-- `a + b` and `a - b` in `uint64_t`.
abbrev pub add64 : ℕ → ℕ → ℕ
add64 a b = (a + b) % 2 ^ 64

abbrev pub sub64 : ℕ → ℕ → ℕ
sub64 a b = (a % 2 ^ 64 + 2 ^ 64 - b % 2 ^ 64) % 2 ^ 64

-- The native operations stand for `bitwise`, whose digits take fuel. Any fuel that covers the
-- first argument gives the same digits.
module _ (z : ℕ → ℕ) (f : ℕ → ℕ → ℕ) where
  digits_enough : (a n m b : ℕ) → a ≤ n → a ≤ m → digits z f n a b ≡ digits z f m a b
  digits_enough zero zero zero b h k = refl
  digits_enough zero zero (suc m) b h k = refl
  digits_enough zero (suc n) zero b h k = refl
  digits_enough zero (suc n) (suc m) b h k = refl
  digits_enough (suc a) zero m b h k = absurd (omega arith)
  digits_enough (suc a) (suc n) zero b h k = absurd (omega arith)
  digits_enough (suc a) (suc n) (suc m) b h k =
      ap (λ (d : ℕ). d * 2 + f (suc a % 2) (b % 2))
        (digits_enough (suc a / 2) n m (b / 2) (omega arith) (omega arith))

and_low : (a b : ℕ) → bit_and a b ≡ bit_and (a / 2) (b / 2) * 2 + min (a % 2) (b % 2)
and_low zero b = omega (arith, bit_and-bitwise 0 b, bit_and-bitwise (0 / 2) (b / 2))
and_low (suc a) b = omega (
  arith,
  bit_and-bitwise (suc a) b,
  bit_and-bitwise (suc a / 2) (b / 2),
  digits_enough (λ _. 0) min (suc a / 2) a (suc a / 2) (b / 2) (omega arith) (omega arith),
)

or_low : (a b : ℕ) → bit_or a b ≡ bit_or (a / 2) (b / 2) * 2 + max (a % 2) (b % 2)
or_low zero b = omega (arith, bit_or-bitwise 0 b, bit_or-bitwise (0 / 2) (b / 2))
or_low (suc a) b = omega (
  arith,
  bit_or-bitwise (suc a) b,
  bit_or-bitwise (suc a / 2) (b / 2),
  digits_enough (λ d. d) max (suc a / 2) a (suc a / 2) (b / 2) (omega arith) (omega arith),
)

-- Digits of `a` above and below position `k + 1`, from those of `a / 2`.
div-two-pow-suc : (k a : ℕ) → a / 2 ^ suc k ≡ a / 2 / 2 ^ k
div-two-pow-suc k a = rw (pow-succ' 2 k) (sym (div-div-eq-div-mul a 2 (2 ^ k)))

mod-two-pow-suc : (k a : ℕ) → a % 2 ^ suc k ≡ a / 2 % 2 ^ k * 2 + a % 2
mod-two-pow-suc k a = omega (
  arith,
  div-add-mod' a (2 ^ suc k),
  div-add-mod' (a / 2) (2 ^ k),
  ap (λ (t : ℕ). t * 2 ^ suc k) (div-two-pow-suc k a),
  ap (λ (t : ℕ). a / 2 / 2 ^ k * t) (pow-succ' 2 k),
)

-- A digitwise operation falls apart at position `k`.
module _ (op f : ℕ → ℕ → ℕ) (low : (a b : ℕ) → op a b ≡ op (a / 2) (b / 2) * 2 + f (a % 2) (b % 2))
    (op_zero : op 0 0 ≡ 0) where
  op_digit : (x y i j : ℕ) → i < 2 → j < 2 → op (x * 2 + i) (y * 2 + j) ≡ op x y * 2 + f i j
  op_digit x y i j hi hj = ground (arith, low (x * 2 + i) (y * 2 + j))

  op_split : (k a b : ℕ) → op a b ≡ op (a / 2 ^ k) (b / 2 ^ k) * 2 ^ k + op (a % 2 ^ k) (b % 2 ^ k)
  op_split zero a b = ground (arith, op_zero)
  op_split (suc k) a b =
      let ih = op_split k (a / 2) (b / 2) in
      let d =
        op_digit (a / 2 % 2 ^ k) (b / 2 % 2 ^ k) (a % 2) (b % 2) (omega arith) (omega arith) in
      rw
        (
          mod-two-pow-suc k a,
          mod-two-pow-suc k b,
          div-two-pow-suc k a,
          div-two-pow-suc k b,
          d,
          low a b,
          ih,
          pow-succ' 2 k,
        )
        (omega arith)

  op_fits :
      (f_fits : (i j : ℕ) → i < 2 → j < 2 → f i j < 2) (k a b : ℕ)
      → a < 2 ^ k
      → b < 2 ^ k
      → op a b < 2 ^ k
  op_fits f_fits zero a b ha hb = ground (arith, op_zero)
  op_fits f_fits (suc k) a b ha hb = omega (
    arith,
    low a b,
    f_fits (a % 2) (b % 2) (omega arith) (omega arith),
    op_fits f_fits k (a / 2) (b / 2) (omega (arith, pow-succ' 2 k)) (omega (arith, pow-succ' 2 k)),
    pow-succ' 2 k,
  )

pub bit_and_split :
    (k a b : ℕ)
    → bit_and a b ≡ bit_and (a / 2 ^ k) (b / 2 ^ k) * 2 ^ k + bit_and (a % 2 ^ k) (b % 2 ^ k)
bit_and_split = op_split bit_and min and_low refl

pub bit_or_split :
    (k a b : ℕ)
    → bit_or a b ≡ bit_or (a / 2 ^ k) (b / 2 ^ k) * 2 ^ k + bit_or (a % 2 ^ k) (b % 2 ^ k)
bit_or_split = op_split bit_or max or_low refl

pub bit_and-lt : (k a b : ℕ) → a < 2 ^ k → b < 2 ^ k → bit_and a b < 2 ^ k
bit_and-lt = op_fits bit_and min and_low refl (λ i j hi hj. omega arith)

pub bit_or-lt : (k a b : ℕ) → a < 2 ^ k → b < 2 ^ k → bit_or a b < 2 ^ k
bit_or-lt = op_fits bit_or max or_low refl (λ i j hi hj. omega arith)

pub bit_and-zero : (a : ℕ) → bit_and a 0 ≡ 0
bit_and-zero a =
    WellFounded.induction lt_wf {C = λ k. bit_and k 0 ≡ 0} a
      λ k ih. ground (arith, and_low k 0, ih (k / 2))

pub bit_or-zero : (a : ℕ) → bit_or a 0 ≡ a
bit_or-zero a =
    WellFounded.induction lt_wf {C = λ k. bit_or k 0 ≡ k} a
      λ k ih. ground (arith, or_low k 0, ih (k / 2))

pub zero-bit_and : (a : ℕ) → bit_and 0 a ≡ 0
zero-bit_and a = bit_and-bitwise 0 a

pub zero-bit_or : (a : ℕ) → bit_or 0 a ≡ a
zero-bit_or a = bit_or-bitwise 0 a

ones_halve : (k : ℕ) → 2 ^ suc k - 1 ≡ (2 ^ k - 1) * 2 + 1
ones_halve k = omega (arith, pow-succ' 2 k, one-le-pow k 2 (omega arith))

bit_and-ones : (k x : ℕ) → x < 2 ^ k → bit_and x (2 ^ k - 1) ≡ x
bit_and-ones zero x h = ground (arith, bit_and-zero x)
bit_and-ones (suc k) x h = ground (
  arith,
  ones_halve k,
  and_low x (2 ^ suc k - 1),
  bit_and-ones k (x / 2) (omega (arith, pow-succ' 2 k)),
)

-- A mask of `m` ones.
pub bit_and_mask : (m a : ℕ) → bit_and a (2 ^ m - 1) ≡ a % 2 ^ m
bit_and_mask m a =
    let pos = one-le-pow m 2 (omega arith) in
    rw
      (
        bit_and_split m a (2 ^ m - 1),
        div-eq_of_lt {n = 2 ^ m - 1} {m = 2 ^ m} (omega arith),
        mod-eq_of_lt {n = 2 ^ m - 1} {m = 2 ^ m} (omega arith),
        bit_and-zero,
        bit_and-ones m (a % 2 ^ m) (mod-lt a pos),
      )
      (omega arith)

-- A mask of `m` ones above position `k`.
pub bit_and_field : (k m a : ℕ) → bit_and a ((2 ^ m - 1) * 2 ^ k) ≡ a / 2 ^ k % 2 ^ m * 2 ^ k
bit_and_field k m a =
    let pos = one-le-pow k 2 (omega arith) in
    rw
      (
        bit_and_split k a ((2 ^ m - 1) * 2 ^ k),
        mul-div_cancel (2 ^ m - 1) pos,
        mul-mod_left (2 ^ m - 1) (2 ^ k),
        bit_and-zero,
        bit_and_mask m (a / 2 ^ k),
      )
      (omega arith)

-- `(q << k) | r` is a sum where `r` fits below position `k`.
pub bit_or_field : (k q r : ℕ) → r < 2 ^ k → bit_or (q * 2 ^ k) r ≡ q * 2 ^ k + r
bit_or_field k q r h =
    let pos = one-le-pow k 2 (omega arith) in
    rw
      (
        bit_or_split k (q * 2 ^ k) r,
        mul-div_cancel q pos,
        mul-mod_left q (2 ^ k),
        div-eq_of_lt h,
        mod-eq_of_lt h,
        zero-bit_or,
        bit_or-zero,
      )
      (omega arith)

pub bit_or_comm : (a b : ℕ) → bit_or a b ≡ bit_or b a
bit_or_comm a = WellFounded.induction lt_wf {C = λ k. (b : ℕ) → bit_or k b ≡ bit_or b k} a λ k ih b.
    elim (dec_lt 0 k) [
      | yes p ↦ omega (arith, or_low k b, or_low b k, ih (k / 2) (omega arith) (b / 2))
      | no p ↦ let e : k ≡ 0 = omega arith in rw (e, zero-bit_or, bit_or-zero)
    ]

-- A field of `a | b` is the fields' `|`.
pub bit_or_window :
    (k m a b : ℕ) → bit_or a b / 2 ^ k % 2 ^ m ≡ bit_or (a / 2 ^ k % 2 ^ m) (b / 2 ^ k % 2 ^ m)
bit_or_window k m a b =
    let pos = one-le-pow k 2 (omega arith) in
    let pos' = one-le-pow m 2 (omega arith) in
    let below = bit_or-lt k (a % 2 ^ k) (b % 2 ^ k) (mod-lt a pos) (mod-lt b pos) in
    let below' =
      bit_or-lt m (a / 2 ^ k % 2 ^ m) (b / 2 ^ k % 2 ^ m) (mod-lt (a / 2 ^ k) pos')
        (mod-lt (b / 2 ^ k) pos') in
    rw (
      bit_or_split k a b,
      mul-add-div_right pos,
      div-eq_of_lt below,
      add-zero,
      bit_or_split m (a / 2 ^ k) (b / 2 ^ k),
      mul-add-mod_self_right,
      mod-eq_of_lt below',
    )

pub bit_or_mod : (k a b : ℕ) → bit_or a b % 2 ^ k ≡ bit_or (a % 2 ^ k) (b % 2 ^ k)
bit_or_mod k a b =
    let pos = one-le-pow k 2 (omega arith) in
    let below = bit_or-lt k (a % 2 ^ k) (b % 2 ^ k) (mod-lt a pos) (mod-lt b pos) in
    rw (bit_or_split k a b, mul-add-mod_self_right, mod-eq_of_lt below)
