-- ===== src/Kpp/Printf/Digits.antt =====
-- Reading back the numbers that `vprintf` prints.
use dav_os.Base.{
  ℕ, zero, suc, ◌+◌, ◌-◌, ◌*◌, ◌/◌, ◌%◌, ◌^◌, ◌≤◌, ◌<◌, ◌≡◌, refl, ap, ◌∙◌, Bool, true, false, inl,
  inr, ltb, ◌==◌, if◌then◌else◌, Bool-cases, List, [], ◌∷◌, arith,
}
use dav_os.Base.Int.{ℤ, pos, negsuc, abs}
use dav_os.Base.Run.{ok}
use dav_os.Kpp.Printf.{digit_char, digits, print_number, print_int}

-- The number that a digit is, and a string of digits read from the left.
abbrev pub digit_value : ℕ → ℕ
digit_value c = if ltb c 58 then c - 48 else c - 87

abbrev pub read : ℕ → ℕ → List ℕ → ℕ
read base n [] = n
read base n (c ∷ cs) = read base (n * base + digit_value c) cs

digit_value-digit_char : (d : ℕ) → d < 16 → digit_value (digit_char d) ≡ d
unfolding digit_char
digit_value-digit_char d small = ground (arith, small)

abbrev pub is_negative : ℤ → Bool
is_negative (pos n) = false
is_negative (negsuc n) = true

-- What the bases 10 and 16 have in common.
abbrev pub IsBase : ℕ → Type 0
IsBase base =
    ((n : ℕ) → n / base + n / base ≤ n)
    × ((n : ℕ) → n / base * base + n % base ≡ n)
    × ((n : ℕ) → n % base < 16)

pub ten-IsBase : IsBase 10
ten-IsBase = (λ n. omega arith, λ n. omega arith, λ n. omega arith)

pub sixteen-IsBase : IsBase 16
sixteen-IsBase = (λ n. omega arith, λ n. omega arith, λ n. omega arith)

digits-read :
    (fuel base num : ℕ) (str : List ℕ)
    → IsBase base
    → num < 2 ^ fuel
    → (s : List ℕ) × (digits (suc fuel) base num str ≡ ok s) × (read base 0 s ≡ read base num str)
unfolding digits
digits-read zero base num str b small =
    let nil : num ≡ 0 = ground (arith, small) in
    (str, ground (arith, nil), ap (λ n. read base n str) (omega (arith, nil)))
digits-read (suc fuel) base num str b small = elim (Bool-cases (num == 0)) [
  | inl nil ↦ (str, rw nil refl, ap (λ n. read base n str) (ground (arith, nil)))
  | inr more ↦
      let half = b.0 num in
      let back : num / base * base + digit_value (digit_char (num % base)) ≡ num =
        rw (digit_value-digit_char (num % base) (b.2 num)) (b.1 num) in
      let ih =
        digits-read fuel base (num / base) (digit_char (num % base) ∷ str) b
          (ground (arith, half, small)) in
      (ih.0, rw (more, ih.1) refl, ih.2 ∙ ap (λ n. read base n str) back)
]

-- In base 10 and in base 16, the digits printed for a number below 2 ^ 64 read back as the number,
-- and the rounds given are enough for all of them.
pub print_number-read :
    (base num : ℕ)
    → IsBase base
    → num < 2 ^ 64
    → (s : List ℕ) × (print_number base num ≡ ok s) × (read base 0 s ≡ num)
unfolding print_number digit_char
print_number-read base num b small = elim (Bool-cases (num == 0)) [
  | inl nil ↦ (digit_char 0 ∷ [], rw nil refl, ground (arith, nil))
  | inr more ↦ let d = digits-read 64 base num [] b small in (d.0, rw (more, d.1) refl, d.2)
]

-- For an int whose absolute value is below 2 ^ 31, %d prints digits that read back as the number
-- if it is not negative, and prints nothing at all if it is negative.
pub print_int-read :
    (n : ℤ)
    → abs n < 2 ^ 31
    → (s : List ℕ) × (print_int n ≡ ok s)
      × (read 10 0 s ≡ (if is_negative n then 0 else abs n))
      × (is_negative n ≡ true → s ≡ [])
unfolding print_int abs
print_int-read (pos n) small =
    let p = print_number-read 10 n ten-IsBase (omega (arith, small)) in
    (p.0, p.1, p.2, λ e. absurd (ground (arith, e)))
print_int-read (negsuc n) small = ([], refl, refl, λ e. refl)
