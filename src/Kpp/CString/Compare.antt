-- ===== src/Kpp/CString/Compare.antt =====
-- `strncmp` and `strlen`.
use dav_os.Base.{ℕ, zero, suc, ◌+◌, ◌≤◌, ◌<◌, ◌≡◌, ◌≢◌, ap, ◌∙◌, inl, inr, ◌==◌, Bool-cases, arith}
use dav_os.Base.Int.{ℤ, pos}
use dav_os.Base.Run.{ok}
use dav_os.Kpp.CString.{Bytes, difference, strncmp_from, strncmp, strlen_from, strlen}

-- The first index at which the two arrays differ, as `strncmp` finds it.
pub data Comparison (mem : Bytes) (a b from size : ℕ) : ℤ → Type 0 where
  same :
      ((i : ℕ) → from ≤ i → i < from + size → mem (a + i) ≡ mem (b + i))
      → Comparison mem a b from size (pos 0)
  differ :
      (i : ℕ)
      → from ≤ i
      → i < from + size
      → ((j : ℕ) → from ≤ j → j < i → mem (a + j) ≡ mem (b + j))
      → mem (a + i) ≢ mem (b + i)
      → Comparison mem a b from size (difference (mem (a + i)) (mem (b + i)))

-- An equal character in front makes the rest of the comparison the whole.
extend-Comparison :
    (mem : Bytes) (a b from n : ℕ) (r : ℤ)
    → mem (a + from) ≡ mem (b + from)
    → Comparison mem a b (suc from) n r
    → Comparison mem a b from (suc n) r
extend-Comparison mem a b from n _ equal (same all) = same (λ i lo hi.
    elim (Bool-cases (i == from)) [
      | inl here ↦ let at : i ≡ from = ground (arith, here) in rw at equal
      | inr other ↦ all i (ground (arith, other, lo)) (omega (arith, hi))
    ])
extend-Comparison mem a b from n _ equal (differ i lo hi before apart) =
    differ i (omega (arith, lo)) (omega (arith, hi))
      (λ j lo' hi'. elim (Bool-cases (j == from)) [
        | inl here ↦ let at : j ≡ from = ground (arith, here) in rw at equal
        | inr other ↦ before j (ground (arith, other, lo')) hi'
      ])
      apart

strncmp_from-Comparison :
    (size from a b : ℕ) (mem : Bytes)
    → Comparison mem a b from size (strncmp_from size from a b mem)
unfolding strncmp_from
strncmp_from-Comparison zero from a b mem = same (λ i lo hi. absurd (omega arith))
strncmp_from-Comparison (suc n) from a b mem =
    elim (Bool-cases (mem (a + from) == mem (b + from))) [
      | inl equal ↦ rw equal (
          extend-Comparison mem a b from n _ (ground (arith, equal))
            (strncmp_from-Comparison n (suc from) a b mem))
      | inr other ↦ rw other (
          differ from (omega arith) (omega arith) (λ j lo hi. absurd (omega arith))
            (ground (arith, other)))
    ]

-- strncmp either finds the first of the given number of characters that differ, and returns the
-- difference of the two, or all of them agree and it returns 0; it does not stop at a zero byte.
pub strncmp-Comparison :
    (a b size : ℕ) (mem : Bytes) → Comparison mem a b 0 size (strncmp a b size mem)
unfolding strncmp
strncmp-Comparison a b size mem = strncmp_from-Comparison size 0 a b mem

strlen_from-ends :
    (n fuel str len : ℕ) (mem : Bytes)
    → ((i : ℕ) → len ≤ i → i < len + n → mem (str + i) ≢ 0)
    → mem (str + (len + n)) ≡ 0
    → n < fuel
    → strlen_from fuel str len mem ≡ ok (len + n)
unfolding strlen_from
strlen_from-ends n zero str len mem text end enough = absurd (omega arith)
strlen_from-ends zero (suc fuel) str len mem text end enough =
    let end' : mem (str + len) ≡ 0 = ap (λ k. mem (str + k)) (omega arith) ∙ end in
    ground (arith, end')
strlen_from-ends (suc n) (suc fuel) str len mem text end enough =
    let here : mem (str + len) ≢ 0 = text len (omega arith) (omega arith) in
    let ih =
      strlen_from-ends n fuel str (suc len) mem (λ i lo hi. text i (omega arith) (omega arith))
        (ap (λ k. mem (str + k)) (omega arith) ∙ end) (omega (arith, enough)) in
    rw ih (ground (arith, here))

-- strlen returns the index of the first zero byte of a string, given one round of fuel more than
-- that.
pub strlen-ends :
    (n fuel str : ℕ) (mem : Bytes)
    → ((i : ℕ) → i < n → mem (str + i) ≢ 0)
    → mem (str + n) ≡ 0
    → n < fuel
    → strlen fuel str mem ≡ ok n
unfolding strlen
strlen-ends n fuel str mem text end enough =
    strlen_from-ends n fuel str 0 mem (λ i lo hi. text i (omega (arith, hi)))
      (ap (λ k. mem (str + k)) (omega arith) ∙ end) enough
    ∙ ap ok (omega arith)
