-- ===== src/Acpi/Tables.antt =====
-- The search for a table, `RootSDT::findSDTWithSignature`.
use dav_os.Base.{
  ℕ, zero, suc, ◌+◌, ◌*◌, ◌^◌, ◌≤◌, ◌<◌, ◌≡◌, ◌≢◌, ◌↔◌, refl, ap, sym, ◌⊎◌, inl, inr, true, false,
  arith, Bool-cases, List, [], ◌∷◌,
}
use native.Mathlib.Decide.{ℕ_discrete}
use dav_os.Kpp.CString.{Bytes, strncmp, strncmp_from, difference}
use dav_os.Acpi.{
  table_pointer, find_from, find_sdt_with_signature, num_pointers_to_other_sdts, has_signature,
  is_zero, read32, sizeof_header, header_length,
}

-- The name of a table, or the text of a signature.
abbrev pub name_at : ℕ → Bytes → List ℕ
name_at a mem = mem (a + 0) ∷ mem (a + 1) ∷ mem (a + 2) ∷ mem (a + 3) ∷ []

difference-zero : (x y : ℕ) → x ≢ y → is_zero (difference x y) ≡ false
unfolding difference
difference-zero x y h = ground arith

has_signature_iff :
    (signature sdt : ℕ) (mem : Bytes)
    → (has_signature signature sdt mem ≡ true) ↔ (name_at sdt mem ≡ name_at signature mem)
unfolding strncmp strncmp_from
has_signature_iff signature sdt mem = ground (
  arith,
  difference-zero (mem (sdt + 0)) (mem (signature + 0)),
  difference-zero (mem (sdt + 1)) (mem (signature + 1)),
  difference-zero (mem (sdt + 2)) (mem (signature + 2)),
  difference-zero (mem (sdt + 3)) (mem (signature + 3)),
)

module _ (signature revision root : ℕ) (mem : Bytes) where
  -- Entry `i` of the list leads to a table of that name.
  abbrev pub Names : ℕ → Type 0
  Names i = name_at (table_pointer revision root i mem) mem ≡ name_at signature mem

  -- The first such entry from `i` on, among `count`, or the null pointer.
  abbrev pub First : ℕ → ℕ → ℕ → Type 0
  First i count r =
      ((k : ℕ) × (i ≤ k)
        × (k < i + count)
        × (r ≡ table_pointer revision root k mem)
        × Names k
        × ((j : ℕ) → i ≤ j → j < k → ¬ Names j))
      ⊎ ((r ≡ 0) × ((j : ℕ) → i ≤ j → j < i + count → ¬ Names j))

  First-suc : (i count r : ℕ) → ¬ Names i → First (i + 1) count r → First i (suc count) r
  First-suc i count r other (inl (k, lo, hi, e, n, before)) = inl (
    k,
    omega arith,
    omega arith,
    e,
    n,
    λ j l h. elim (ℕ_discrete i j) [
      | yes same ↦ rw (sym same) other
      | no apart ↦ before j (omega (arith, apart)) h
    ],
  )
  First-suc i count r other (inr (e, before)) = inr (
    e,
    λ j l h. elim (ℕ_discrete i j) [
      | yes same ↦ rw (sym same) other
      | no apart ↦ before j (omega (arith, apart)) (omega arith)
    ],
  )

  find_from-First : (count i : ℕ) → First i count (find_from count i signature revision root mem)
  unfolding find_from
  find_from-First zero i = inr (refl, λ j l h. absurd (omega arith))
  find_from-First (suc count) i =
      let sdt = table_pointer revision root i mem in
      elim (Bool-cases (has_signature signature sdt mem)) [
        | inl here ↦ rw here (
            inl (
              i,
              omega arith,
              omega arith,
              refl,
              (has_signature_iff signature sdt mem).0 here,
              λ j l h. absurd (omega arith),
            ))
        | inr other ↦ rw other (
            First-suc i count _ (λ n. cc ((has_signature_iff signature sdt mem).1 n))
              (find_from-First count (i + 1)))
      ]

  -- The search of the root table returns the first of its entries, as the code reads them, that
  -- leads to a table whose four name bytes are the signature's, or the null pointer if there is
  -- none.
  pub find_sdt_with_signature-First :
      First 0
        (num_pointers_to_other_sdts revision root mem)
        (find_sdt_with_signature signature revision root mem)
  unfolding find_sdt_with_signature
  find_sdt_with_signature-First = find_from-First (num_pointers_to_other_sdts revision root mem) 0

-- The pointers behind the header, as ACPI lays out the table of revision 0.
abbrev pub listed : ℕ → ℕ → Bytes → ℕ
listed root i mem = read32 (root + sizeof_header + 4 * i) mem

table_pointer-listed :
    (root i : ℕ) (mem : Bytes) → table_pointer 0 root i mem ≡ listed root (i + 1) mem
unfolding table_pointer
table_pointer-listed root i mem = ap (λ (a : ℕ). read32 a mem) (omega arith)

number_of_pointers :
    (root n : ℕ) (mem : Bytes)
    → header_length root mem ≡ sizeof_header + 4 * n
    → sizeof_header + 4 * n < 2 ^ 64
    → num_pointers_to_other_sdts 0 root mem ≡ n
unfolding num_pointers_to_other_sdts
number_of_pointers root n mem e small = rw e (omega (arith, small))

none_found :
    (signature root n : ℕ) (mem : Bytes) (r : ℕ)
    → First signature 0 root mem 0 n r
    → ((i : ℕ) → i < n → name_at (listed root (i + 1) mem) mem ≢ name_at signature mem)
    → r ≡ 0
none_found signature root n mem r (inl (k, lo, hi, e, named, before)) none_named =
    absurd (none_named k (omega arith) (rw (table_pointer-listed root k mem) at named))
none_found signature root n mem r (inr (e, before)) none_named = e

-- A table of revision 0 that is named only by the first of the pointers that the root table lists is not
-- found, unless the word behind the last one leads to it.
pub find_sdt_with_signature-listed :
    (signature root n : ℕ) (mem : Bytes)
    → header_length root mem ≡ sizeof_header + 4 * n
    → sizeof_header + 4 * n < 2 ^ 64
    → ((i : ℕ) → i < n → name_at (listed root (i + 1) mem) mem ≢ name_at signature mem)
    → find_sdt_with_signature signature 0 root mem ≡ 0
find_sdt_with_signature-listed signature root n mem e small none_named =
    let f = find_sdt_with_signature-First signature 0 root mem in
    none_found signature root n mem _ (rw (number_of_pointers root n mem e small) at f) none_named
