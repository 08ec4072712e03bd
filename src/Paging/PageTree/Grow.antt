-- ===== src/Paging/PageTree/Grow.antt =====
-- One step down the page tree, with a table allocated where there is none, keeps the nodes a tree and
-- every translation as it was.
use dav_os.Base.{
  ℕ, ◌+◌, ◌≤◌, ◌<◌, ◌≡◌, ◌≢◌, sym, ap, ◌∙◌, ◌==◌, ◌&&◌, false, inl, inr, List, [], ◌∷◌, Option,
  none, some, if◌then◌else◌, arith, length, Bool-cases,
}
use dav_os.Base.Words.{add64}
use dav_os.Kpp.NonOwningStack.{NonOwningStack, IsValid, contents}
use dav_os.Frames.Init.{count}
use dav_os.Paging.PageTreeNode.{IsFrame, get_child_address}
use dav_os.Paging.PageTree.{Nodes, Memory, update_entry, new_node}
use dav_os.Paging.PageTree.Walk.{entry_at, entry_at_empty, address_zero}

-- The path of each node, its last index first; `none` for what is no node.
abbrev pub Place : Type 0
Place = ℕ → Option (List ℕ)

module _ (hhdm_offset : ℕ) where
  abbrev pub child_of : Nodes → ℕ → ℕ → ℕ
  child_of nodes node i = add64 (get_child_address (nodes node i)) hhdm_offset

  -- The nodes form a tree of tables from `root` down, and no free frame is one of them.
  pub record IsTree (root : ℕ) (m : Memory) (place : Place) : Type 0 where
    pub root_at : place root ≡ some []
    pub child_at :
        (v i : ℕ) (p : List ℕ)
        → place v ≡ some p
        → length p < 3
        → get_child_address (m.nodes v i) ≢ 0
        → place (child_of m.nodes v i) ≡ some (i ∷ p)
    pub free_valid : IsValid m.free
    pub free_once : (f : ℕ) → count f (contents m.free) ≤ 1
    pub free_apart :
        (f : ℕ)
        → 0 < count f (contents m.free)
        → IsFrame f × (f ≢ 0) × (place (add64 f hhdm_offset) ≡ none)

  -- What a step keeps of the nodes that were there.
  pub record Extends (place place' : Place) (nodes nodes' : Nodes) : Type 0 where
    pub keeps_place : (x : ℕ) (r : List ℕ) → place x ≡ some r → place' x ≡ some r
    pub keeps_child :
        (x j : ℕ) (r : List ℕ)
        → place x ≡ some r
        → get_child_address (nodes x j) ≢ 0
        → get_child_address (nodes' x j) ≡ get_child_address (nodes x j)
    pub keeps_entry :
        (x : ℕ) (r is : List ℕ) (leaf : ℕ)
        → place x ≡ some r
        → length r + length is ≡ 3
        → entry_at hhdm_offset nodes' x is leaf ≡ entry_at hhdm_offset nodes x is leaf

  module _ {root : ℕ} {m : Memory} {place : Place} (t : IsTree root m place) {v : ℕ} {p : List ℕ}
      (at : place v ≡ some p) (upper : length p < 3) (i e : ℕ) where
    module _ (same : get_child_address e ≡ get_child_address (m.nodes v i)) where
      same_child :
          (x j : ℕ)
          → get_child_address (update_entry v i e m.nodes x j) ≡ get_child_address (m.nodes x j)
      same_child x j = ground arith

      same_entry :
          (x : ℕ) (r is : List ℕ) (leaf : ℕ)
          → place x ≡ some r
          → length r + length is ≡ 3
          → entry_at hhdm_offset (update_entry v i e m.nodes) x is leaf
            ≡ entry_at hhdm_offset m.nodes x is leaf
      unfolding entry_at
      same_entry x r [] leaf here depth = elim (Bool-cases (x == v)) [
        | inl yes_v ↦ absurd (
            let q : some r ≡ some p = ground arith in
            let l : r ≡ p = cc in omega (arith, ap length l))
        | inr no_v ↦ rw no_v
      ]
      same_entry x r (j ∷ is) leaf here depth =
          rw (same_child x j) (elim (Bool-cases (get_child_address (m.nodes x j) == 0)) [
            | inl empty ↦ rw empty
            | inr child ↦ rw child (
                same_entry (child_of m.nodes x j) (j ∷ r) is leaf
                  (t.child_at x j r here (omega arith) (ground arith)) (omega arith))
          ])

      pub Extends-same : Extends place place m.nodes (update_entry v i e m.nodes)
      Extends-same = record {
        keeps_place = λ x r h. h;
        keeps_child = λ x j r h c. same_child x j;
        keeps_entry = same_entry;
      }

      pub IsTree-same : IsTree root (record m { nodes = update_entry v i e m.nodes }) place
      IsTree-same = record {
        root_at = t.root_at;
        child_at = λ x j r here short c.
            rw (same_child x j) (t.child_at x j r here short (rw (← same_child x j) c));
        free_valid = t.free_valid;
        free_once = t.free_once;
        free_apart = t.free_apart;
      }

    -- A fresh frame `f` becomes the table below entry `i` of `v`.
    module _ (f : ℕ) (s : NonOwningStack) (taken : contents m.free ≡ f ∷ contents s)
        (valid : IsValid s) (gone : get_child_address (m.nodes v i) ≡ 0)
        (linked : get_child_address e ≡ f) where
      abbrev pub fresh : ℕ
      fresh = add64 f hhdm_offset

      abbrev pub grown_nodes : Nodes
      grown_nodes = update_entry v i e (new_node fresh m.nodes)

      abbrev pub grown_place : Place
      grown_place x = if x == fresh then some (i ∷ p) else place x

      f_counted : 0 < count f (contents m.free)
      f_counted = rw taken (ground arith)

      f_nonzero : f ≢ 0
      f_nonzero = (t.free_apart f f_counted).1

      fresh_apart : place fresh ≡ none
      fresh_apart = (t.free_apart f f_counted).2

      old_ne_fresh : (x : ℕ) (r : List ℕ) → place x ≡ some r → (x == fresh) ≡ false
      old_ne_fresh x r here = elim (Bool-cases (x == fresh)) [
        | inr no_f ↦ no_f
        | inl yes_f ↦ absurd (
            let q : x ≡ fresh = ground arith in
            let b : none ≡ some r = sym fresh_apart ∙ ap place (sym q) ∙ here in cc)
      ]

      grown_child :
          (x j : ℕ) (r : List ℕ)
          → place x ≡ some r
          → get_child_address (grown_nodes x j)
            ≡ (if x == v && j == i then f else get_child_address (m.nodes x j))
      grown_child x j r here = ground (arith, old_ne_fresh x r here)

      fresh_empty : (j : ℕ) → grown_nodes fresh j ≡ 0
      fresh_empty j = ground (arith, old_ne_fresh v p at)

      grown_entry :
          (x : ℕ) (r is : List ℕ) (leaf : ℕ)
          → place x ≡ some r
          → length r + length is ≡ 3
          → entry_at hhdm_offset grown_nodes x is leaf ≡ entry_at hhdm_offset m.nodes x is leaf
      unfolding entry_at
      grown_entry x r [] leaf here depth = elim (Bool-cases (x == v)) [
        | inl yes_v ↦ absurd (
            let q : some r ≡ some p = ground arith in
            let l : r ≡ p = cc in omega (arith, ap length l))
        | inr no_v ↦ rw (no_v, old_ne_fresh x r here)
      ]
      grown_entry x r (j ∷ is) leaf here depth = elim (Bool-cases (x == v && j == i)) [
        | inl target ↦
            let none_there : get_child_address (m.nodes x j) ≡ 0 = ground arith in
            ground (
              arith,
              grown_child x j r here,
              entry_at_empty hhdm_offset grown_nodes fresh is leaf fresh_empty,
            )
        | inr other ↦
            let kept : get_child_address (grown_nodes x j) ≡ get_child_address (m.nodes x j) =
              rw (grown_child x j r here, other) in
            rw kept (elim (Bool-cases (get_child_address (m.nodes x j) == 0)) [
              | inl empty ↦ rw empty
              | inr child ↦ rw child (
                  grown_entry (child_of m.nodes x j) (j ∷ r) is leaf
                    (t.child_at x j r here (omega arith) (ground arith)) (omega arith))
            ])
      ]

      pub Extends-fresh : Extends place grown_place m.nodes grown_nodes
      Extends-fresh = record {
        keeps_place = λ x r h. rw (old_ne_fresh x r h) h;
        keeps_child = λ x j r h c. ground (arith, grown_child x j r h);
        keeps_entry = grown_entry;
      }

      grown_child_old :
          (x j : ℕ) (r : List ℕ)
          → place x ≡ some r
          → length r < 3
          → get_child_address (grown_nodes x j) ≢ 0
          → grown_place (child_of grown_nodes x j) ≡ some (j ∷ r)
      grown_child_old x j r old short c = elim (Bool-cases (x == v && j == i)) [
        | inl target ↦
            let child : get_child_address (grown_nodes x j) ≡ f =
              rw (grown_child x j r old, target) in
            let here : child_of grown_nodes x j ≡ fresh = ap (λ a. add64 a hhdm_offset) child in
            let same : some p ≡ some r =
              sym at ∙ ap place (let q : v ≡ x = ground arith in q) ∙ old in
            let ji : i ≡ j = ground arith in rw here (ground arith)
        | inr other ↦
            let child : get_child_address (grown_nodes x j) ≡ get_child_address (m.nodes x j) =
              rw (grown_child x j r old, other) in
            let below = t.child_at x j r old short (rw (← child) c) in
            rw (child, old_ne_fresh (child_of m.nodes x j) (j ∷ r) below) below
      ]

      grown_child_at :
          (x j : ℕ) (r : List ℕ)
          → grown_place x ≡ some r
          → length r < 3
          → get_child_address (grown_nodes x j) ≢ 0
          → grown_place (child_of grown_nodes x j) ≡ some (j ∷ r)
      grown_child_at x j r here short c = elim (Bool-cases (x == fresh)) [
        | inl new ↦
            let q : x ≡ fresh = ground arith in
            absurd (c (ap get_child_address (rw q (fresh_empty j)) ∙ address_zero))
        | inr old ↦ grown_child_old x j r (rw old at here) short c
      ]

      still_apart :
          (g : ℕ)
          → 0 < count g (contents s)
          → IsFrame g × (g ≢ 0) × (grown_place (add64 g hhdm_offset) ≡ none)
      still_apart g counted =
          let before : 0 < count g (contents m.free) = rw taken (ground arith) in
          let apart = t.free_apart g before in
          let frame = (t.free_apart f f_counted).0 in
          let ne : g ≢ f = ground (arith, ap (count g) taken, t.free_once g) in
          let differ : (add64 g hhdm_offset == fresh) ≡ false = ground arith in
          (apart.0, apart.1, rw differ apart.2)

      pub IsTree-fresh : IsTree root (record { nodes = grown_nodes; free = s }) grown_place
      IsTree-fresh = record {
        root_at = rw (old_ne_fresh root [] t.root_at) t.root_at;
        child_at = grown_child_at;
        free_valid = valid;
        free_once = λ g. ground (arith, ap (count g) taken, t.free_once g);
        free_apart = still_apart;
      }
