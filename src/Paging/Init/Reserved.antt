-- ===== src/Paging/Init/Reserved.antt =====
-- The page tree while `paging_init` (kernel/src/paging.cpp) builds it: it has a root without entries, and
-- the frames of the boot loader, which come to the free stack afterwards, are kept apart from it.
use dav_os.Base.{
  ℕ, ◌+◌, ◌^◌, ◌≤◌, ◌<◌, ◌≡◌, ◌≢◌, refl, sym, ap, ◌∙◌, Bool, true, false, ◌||◌, ◌==◌, inl, inr,
  if◌then◌else◌, List, [], ◌∷◌, none, some, arith, length, Bool-cases,
}
use dav_os.Base.Words.{add64}
use dav_os.Base.Run.{ok}
use dav_os.Kpp.NonOwningStack.{NonOwningStack, IsValid, contents}
use dav_os.Frames.Init.{count}
use dav_os.Frames.Fill.{push_all}
use dav_os.Frames.Reclaim.{push_all-IsValid, count-push_all}
use dav_os.Paging.PageTreeNode.{IsFrame, get_child_address}
use dav_os.Paging.PageTree.{Nodes, Memory, new_node, get_translation}
use dav_os.Paging.PageTree.Walk.{
  index_at, upper_path, decode, entry_at_empty, address_zero, decode_zero, get_translation-entry_at,
}
use dav_os.Paging.PageTree.Grow.{Place, child_of, IsTree}

-- Free frames and others that come later: each once in all, at addresses that an entry can hold.
pub record AreApart (free later : List ℕ) : Type 0 where
  pub once : (f : ℕ) → count f free + count f later ≤ 1
  pub frame : (f : ℕ) → 0 < count f free + count f later → IsFrame f × (f ≢ 0)

module _ (hhdm_offset : ℕ) where
  -- One of the frames is reached at the address.
  abbrev pub among : List ℕ → ℕ → Bool
  among [] x = false
  among (f ∷ fs) x = add64 f hhdm_offset == x || among fs x

  among-count :
      (fs : List ℕ) (x : ℕ)
      → among fs x ≡ true
      → (f : ℕ) × (0 < count f fs) × (add64 f hhdm_offset ≡ x)
  among-count [] x h = cc
  among-count (f ∷ fs) x h = elim (Bool-cases (add64 f hhdm_offset == x)) [
    | inl here ↦ (f, ground arith, ground arith)
    | inr other ↦
        let rest = among-count fs x (rw other at h) in (rest.0, ground (arith, rest.1), rest.2)
  ]

  count-among : (f : ℕ) (fs : List ℕ) → 0 < count f fs → among fs (add64 f hhdm_offset) ≡ true
  count-among f [] h = absurd (omega arith)
  count-among f (g ∷ fs) h = elim (Bool-cases (g == f)) [
    | inl here ↦ let e : g ≡ f = ground arith in rw e (ground arith)
    | inr other ↦ let rest = count-among f fs (rw other at h) in rw rest (ground arith)
  ]

  same_frame :
      (f g : ℕ) → f < 2 ^ 32 → g < 2 ^ 32 → add64 f hhdm_offset ≡ add64 g hhdm_offset → f ≡ g
  same_frame f g a b e = omega arith

  module _ {free later : List ℕ} (apart : AreApart free later) where
    -- A free frame is not reached where a later one is.
    pub free-among : (f : ℕ) → 0 < count f free → among later (add64 f hhdm_offset) ≡ false
    free-among f h = elim (Bool-cases (among later (add64 f hhdm_offset))) [
      | inr no_later ↦ no_later
      | inl is_later ↦
          let (g, counted, e) = among-count later (add64 f hhdm_offset) is_later in
          let same : g ≡ f =
            same_frame g f (apart.frame g (omega arith)).0.1 (apart.frame f (omega arith)).0.1 e in
          absurd (omega (arith, apart.once f, (rw same at counted)))
    ]

  -- The root alone; a frame that comes later has a place that no table has.
  abbrev later_path : List ℕ
  later_path = 0 ∷ 0 ∷ 0 ∷ 0 ∷ []

  abbrev pub start_place : List ℕ → ℕ → Place
  start_place later root x =
      if x == root then some [] else if among later x then some later_path else none

  abbrev pub start_root : ℕ → ℕ
  start_root g = add64 g hhdm_offset

  abbrev pub start_memory : ℕ → Nodes → NonOwningStack → Memory
  start_memory g nodes s = record { nodes = new_node (start_root g) nodes; free = s }

  module _ (g : ℕ) (nodes : Nodes) (s : NonOwningStack) where
    root_empty : (i : ℕ) → (start_memory g nodes s).nodes (start_root g) i ≡ 0
    root_empty i = ground arith

    -- Nothing is mapped yet.
    pub start_unmapped :
        (address : ℕ)
        → get_translation hhdm_offset (start_root g) address (start_memory g nodes s)
          ≡ ok (record { physical_address = 0; flags = 0 })
    start_unmapped address =
        get_translation-entry_at hhdm_offset (start_root g) address (start_memory g nodes s)
        ∙ ap (λ e. ok (decode e))
            (entry_at_empty hhdm_offset (start_memory g nodes s).nodes (start_root g)
              (upper_path address) (index_at address 12) root_empty)
        ∙ ap ok decode_zero

  upper_is_root :
      (later : List ℕ) (root v : ℕ) (p : List ℕ)
      → start_place later root v ≡ some p
      → length p < 3
      → v ≡ root
  upper_is_root later root v p here short = elim (Bool-cases (v == root)) [
    | inl same ↦ ground arith
    | inr other ↦ elim (Bool-cases (among later v)) [
      | inl is_later ↦ absurd (
          let q : some later_path ≡ some p = rw (other, is_later) at here in
          let l : later_path ≡ p = cc in omega (arith, ap length l))
      | inr no_later ↦ absurd (let q : none ≡ some p = rw (other, no_later) at here in cc)
    ]
  ]

  module _ (g : ℕ) (free later : List ℕ) (apart : AreApart (g ∷ free) later) where
    module _ (nodes : Nodes) (s : NonOwningStack) (holds : contents s ≡ free)
        (valid : IsValid s) where
      start_apart :
          (f : ℕ)
          → 0 < count f (contents s)
          → IsFrame f × (f ≢ 0) × (start_place later (start_root g) (add64 f hhdm_offset) ≡ none)
      start_apart f counted =
          let on_free : 0 < count f free = rw holds at counted in
          let all : 0 < count f (g ∷ free) + count f later = ground arith in
          let first : 0 < count g (g ∷ free) + count g later = ground arith in
          let own = apart.frame f all in
          let first_own = apart.frame g first in
          let ne : f ≢ g = ground (arith, apart.once f) in
          let differ : (add64 f hhdm_offset == start_root g) ≡ false =
            ground (arith, same_frame f g own.0.1 first_own.0.1) in
          let one : 0 < count f (g ∷ free) = ground arith in
          (own.0, own.1, rw (differ, free-among apart f one) refl)

      pub start-IsTree :
          IsTree hhdm_offset
            (start_root g)
            (start_memory g nodes s)
            (start_place later (start_root g))
      start-IsTree = record {
        root_at = ground arith;
        child_at = λ v i p here short ne.
            let e = upper_is_root later (start_root g) v p here short in
            absurd (ne (ap get_child_address (rw e (root_empty g nodes s i)) ∙ address_zero));
        free_valid = valid;
        free_once = λ f. ground (arith, apart.once f, ap (count f) holds);
        free_apart = start_apart;
      }

    -- The later frames have kept their place, and come to the free stack.
    module _ {n : Memory} {place : Place} (t : IsTree hhdm_offset (start_root g) n place)
        (kept : (x : ℕ) (r : List ℕ)
          → start_place later (start_root g) x ≡ some r
          → place x ≡ some r)
        (shrinks : (f : ℕ) → count f (contents n.free) ≤ count f (g ∷ free)) where
      abbrev pub end_place : Place
      end_place x = if among later x then none else place x

      abbrev end_memory : Memory
      end_memory = record n { free = push_all later n.free }

      later_kept : (x : ℕ) → among later x ≡ true → place x ≡ some later_path
      later_kept x h = kept x later_path (rw (not_root x h, h) refl)
        where
          not_root : (y : ℕ) → among later y ≡ true → (y == start_root g) ≡ false
          not_root y k = elim (Bool-cases (y == start_root g)) [
            | inr other ↦ other
            | inl same ↦
                let e : y ≡ start_root g = ground arith in
                absurd (
                  let q = free-among apart g (ground arith) in
                  let q' : among later (start_root g) ≡ true = rw e at k in cc)
          ]

      not_later : (x : ℕ) (r : List ℕ) → place x ≡ some r → length r ≤ 3 → among later x ≡ false
      not_later x r here short = elim (Bool-cases (among later x)) [
        | inr no_later ↦ no_later
        | inl is_later ↦ absurd (
            let q : some later_path ≡ some r = sym (later_kept x is_later) ∙ here in
            let l : later_path ≡ r = cc in omega (arith, ap length l))
      ]

      old_place : (x : ℕ) (r : List ℕ) → end_place x ≡ some r → place x ≡ some r
      old_place x r h = elim (Bool-cases (among later x)) [
        | inl is_later ↦ absurd (let q : none ≡ some r = rw is_later at h in cc)
        | inr no_later ↦ rw no_later at h
      ]

      end_apart :
          (f : ℕ)
          → 0 < count f (contents end_memory.free)
          → IsFrame f × (f ≢ 0) × (end_place (add64 f hhdm_offset) ≡ none)
      end_apart f counted =
          let pushed = count-push_all f later t.free_valid in
          let own = apart.frame f (omega (arith, pushed, shrinks f)) in
          elim (Bool-cases (among later (add64 f hhdm_offset))) [
            | inl is_later ↦ rw is_later (own.0, own.1, refl)
            | inr no_later ↦
                let off : ¬ (0 < count f later) = λ h. (let q = count-among f later h in cc) in
                rw no_later (t.free_apart f (omega arith))
          ]

      pub end-IsTree : IsTree hhdm_offset (start_root g) end_memory end_place
      end-IsTree = record {
        root_at = rw (not_later (start_root g) [] t.root_at (omega arith)) t.root_at;
        child_at = λ v i p here short ne.
            let child = t.child_at v i p (old_place v p here) short ne in
            rw (not_later (child_of hhdm_offset n.nodes v i) (i ∷ p) child (omega arith)) child;
        free_valid = push_all-IsValid later t.free_valid;
        free_once =
            λ f. omega (arith, count-push_all f later t.free_valid, shrinks f, apart.once f);
        free_apart = end_apart;
      }
