-- ===== src/Kpp/CString/Copy.antt =====
-- `memcpy`, `memmove` and `memset`.
use dav_os.Base.{
  ℕ, zero, suc, ◌+◌, ◌≤◌, ◌<◌, ◌≡◌, refl, ◌∙◌, inl, inr, ◌⊎◌, ltb, ◌==◌, Bool-cases, arith,
}
use dav_os.Kpp.CString.{Bytes, put, copy_up, copy_down, memcpy, memmove}

-- The block at `dst` now holds what `src` held, and nothing else changed.
abbrev pub Copied : ℕ → ℕ → ℕ → Bytes → Bytes → Type 0
Copied dst src size mem mem' =
    ((i : ℕ) → i < size → mem' (dst + i) ≡ mem (src + i))
    × ((x : ℕ) → (x < dst) ⊎ (dst + size ≤ x) → mem' x ≡ mem x)

-- The same from index `from` on.
abbrev pub CopiedFrom : ℕ → ℕ → ℕ → ℕ → Bytes → Bytes → Type 0
CopiedFrom from dst src size mem mem' =
    ((i : ℕ) → from ≤ i → i < from + size → mem' (dst + i) ≡ mem (src + i))
    × ((x : ℕ) → (x < dst + from) ⊎ (dst + from + size ≤ x) → mem' x ≡ mem x)

-- Going up is right when `dst` is below `src`, or `src` ends before `dst`.
copy_up-Copied :
    (count from dst src : ℕ) (mem : Bytes)
    → (dst < src) ⊎ (src + from + count ≤ dst + from)
    → CopiedFrom from dst src count mem (copy_up count from dst src mem)
unfolding copy_up
copy_up-Copied zero from dst src mem apart = (λ i lo hi. absurd (omega arith), λ x out. refl)
copy_up-Copied (suc count) from dst src mem apart =
    let mem' : Bytes = put (dst + from) (mem (src + from)) mem in
    let ih = copy_up-Copied count (suc from) dst src mem' (ground (arith, apart)) in
    (
      λ i lo hi. elim (Bool-cases (i == from)) [
        | inl same ↦
            let at : i ≡ from = ground (arith, same) in
            rw at (ih.1 (dst + from) (ground arith) ∙ ground arith)
        | inr other ↦
            ih.0 i (ground (arith, other, lo)) (omega (arith, hi))
            ∙ ground (arith, other, lo, hi, apart)
      ],
      λ x out. ih.1 x (ground (arith, out)) ∙ ground (arith, out),
    )

-- Going down is right when `dst` is not below `src`.
copy_down-Copied :
    (size dst src : ℕ) (mem : Bytes)
    → src ≤ dst
    → Copied dst src size mem (copy_down size dst src mem)
unfolding copy_down
copy_down-Copied zero dst src mem above = (λ i hi. absurd (omega arith), λ x out. refl)
copy_down-Copied (suc n) dst src mem above =
    let mem' : Bytes = put (dst + n) (mem (src + n)) mem in
    let ih = copy_down-Copied n dst src mem' above in
    (
      λ i hi. elim (Bool-cases (i == n)) [
        | inl same ↦
            let at : i ≡ n = ground (arith, same) in
            rw at (ih.1 (dst + n) (ground arith) ∙ ground arith)
        | inr other ↦ ih.0 i (ground (arith, other, hi)) ∙ ground (arith, other, hi, above)
      ],
      λ x out. ih.1 x (ground (arith, out)) ∙ ground (arith, out),
    )

-- However the two blocks overlap, memmove leaves at the destination what the source held, and
-- changes nothing else.
pub memmove-Copied :
    (dst src size : ℕ) (mem : Bytes) → Copied dst src size mem (memmove dst src size mem)
unfolding memmove
memmove-Copied dst src size mem = elim (Bool-cases (ltb dst src)) [
  | inl below ↦
      let c = copy_up-Copied size 0 dst src mem (inl (ground (arith, below))) in
      rw below
        (λ i hi. c.0 i (omega arith) (omega (arith, hi)), λ x out. c.1 x (ground (arith, out)))
  | inr above ↦ rw above (copy_down-Copied size dst src mem (ground (arith, above)))
]

-- When the destination starts below the source, or the source ends before the destination starts,
-- memcpy leaves at the destination what the source held, and changes nothing else.
pub memcpy-Copied :
    (dst src size : ℕ) (mem : Bytes)
    → (dst < src) ⊎ (src + size ≤ dst)
    → Copied dst src size mem (memcpy dst src size mem)
unfolding memcpy
memcpy-Copied dst src size mem apart =
    let c = copy_up-Copied size 0 dst src mem (ground (arith, apart)) in
    (λ i hi. c.0 i (omega arith) (omega (arith, hi)), λ x out. c.1 x (ground (arith, out)))
