-- ===== src/Paging/PageTree/Descend.antt =====
-- The loop of `map_page_to_frame` down to the last table, and the write of a leaf entry there.
use mathlib.Core.List.{reverse_aux}
use dav_os.Base.{
  ℕ, ◌+◌, ◌/◌, ◌^◌, ◌≤◌, ◌<◌, ◌≡◌, ◌≢◌, refl, ap, sym, ◌∙◌, ◌==◌, ◌&&◌, false, inl, inr, List, [],
  ◌∷◌, some, arith, length, Bool-cases,
}
use dav_os.Base.Words.{add64, bit_and_mask}
use dav_os.Base.Run.{ok, ◌>>=◌}
use dav_os.Kpp.NonOwningStack.{contents}
use dav_os.Frames.Init.{count}
use dav_os.Paging.PageTreeNode.{PageFlags, IsFlags, get_child_address}
use dav_os.Paging.PageTree.{Nodes, Memory, update_entry, descend}
use dav_os.Paging.PageTree.Walk.{index_at, upper_path, entry_at}
use dav_os.Paging.PageTree.Grow.{Place, child_of, IsTree, Extends}
use dav_os.Paging.PageTree.Missing.{
  step_cost, missing, missing-le-length, missing-Extends, missing_head, missing_empty,
  missing_child,
}
use dav_os.Paging.PageTree.Step.{Stepped, next_node-Stepped}

module _ (hhdm_offset : ℕ) where
  Extends-trans :
      {p q r : Place} {a b c : Nodes}
      → Extends hhdm_offset p q a b
      → Extends hhdm_offset q r b c
      → Extends hhdm_offset p r a c
  Extends-trans f g = record {
    keeps_place = λ x l h. g.keeps_place x l (f.keeps_place x l h);
    keeps_child = λ x j l h ne.
        g.keeps_child x j l (f.keeps_place x l h) (rw (f.keeps_child x j l h ne) ne)
        ∙ f.keeps_child x j l h ne;
    keeps_entry = λ x l is leaf h d.
        g.keeps_entry x l is leaf (f.keeps_place x l h) d ∙ f.keeps_entry x l is leaf h d;
  }

  -- The tables lead from `v` along the indices to `w`.
  abbrev pub Reaches : Nodes → ℕ → List ℕ → ℕ → Type 0
  Reaches nodes v [] w = v ≡ w
  Reaches nodes v (i ∷ is) w =
      (get_child_address (nodes v i) ≢ 0) × Reaches nodes (child_of hhdm_offset nodes v i) is w

  pub entry_at-Reaches :
      (nodes : Nodes) (v w : ℕ) (is : List ℕ) (leaf : ℕ)
      → Reaches nodes v is w
      → entry_at hhdm_offset nodes v is leaf ≡ nodes w leaf
  unfolding entry_at
  entry_at-Reaches nodes v w [] leaf r = ap (λ x. nodes x leaf) r
  entry_at-Reaches nodes v w (i ∷ is) leaf r =
      ground (arith, entry_at-Reaches nodes (child_of hhdm_offset nodes v i) w is leaf r.1)

  pub missing-Reaches :
      (nodes : Nodes) (v w : ℕ) (is : List ℕ)
      → Reaches nodes v is w
      → missing hhdm_offset nodes v is ≡ 0
  unfolding missing
  missing-Reaches nodes v w [] r = refl
  missing-Reaches nodes v w (i ∷ is) r =
      ground (arith, missing-Reaches nodes (child_of hhdm_offset nodes v i) w is r.1)

  pub record Descended (root : ℕ) (flags : PageFlags) (m : Memory) (place : Place) (page : ℕ)
      : Type 0 where
    pub curr : ℕ
    pub after : Memory
    pub place' : Place
    pub returns : descend hhdm_offset flags page 3 0 root m ≡ ok (curr, after)
    pub tree : IsTree hhdm_offset root after place'
    pub extends : Extends hhdm_offset place place' m.nodes after.nodes
    pub at : place' curr ≡ some (reverse_aux (upper_path page) [])
    pub spent : m.free.size ≤ after.free.size + missing hhdm_offset m.nodes root (upper_path page)
    pub shrinks : (g : ℕ) → count g (contents after.free) ≤ count g (contents m.free)
    pub reached : Reaches after.nodes root (upper_path page) curr

  keep_link :
      {p q : Place} {a b : Nodes} (v w i : ℕ) (r : List ℕ)
      → Extends hhdm_offset p q a b
      → p v ≡ some r
      → get_child_address (a v i) ≢ 0
      → child_of hhdm_offset a v i ≡ w
      → (get_child_address (b v i) ≢ 0) × (child_of hhdm_offset b v i ≡ w)
  keep_link v w i r x here ne e =
      let same = x.keeps_child v i r here ne in (rw same ne, ap (λ c. add64 c hhdm_offset) same ∙ e)

  -- What a step takes and what is missing behind it were missing before it.
  step_missing :
      {root : ℕ} (flags : PageFlags) {before : Memory} {at : Place} (v i : ℕ) (p is : List ℕ)
      → IsTree hhdm_offset root before at
      → at v ≡ some p
      → length p + length (i ∷ is) ≤ 3
      → (s : Stepped hhdm_offset root flags before at v p i)
      → step_cost before.nodes v i + missing hhdm_offset s.after.nodes s.next is
        ≤ missing hhdm_offset before.nodes v (i ∷ is)
  step_missing flags {before} v i p is t here short s =
      let least = missing-le-length hhdm_offset s.after.nodes s.next is in
      elim (Bool-cases (get_child_address (before.nodes v i) == 0)) [
        | inl empty ↦
            rw (empty, missing_empty hhdm_offset before.nodes v i is empty) (omega (arith, least))
        | inr child ↦
            let ne : get_child_address (before.nodes v i) ≢ 0 = ground arith in
            let next : child_of hhdm_offset before.nodes v i ≡ s.next =
              ap (λ c. add64 c hhdm_offset) (sym (s.extends.keeps_child v i p here ne)) ∙ s.child in
            let below = t.child_at v i p here (omega arith) ne in
            let fewer =
              missing-Extends hhdm_offset t s.extends s.next (i ∷ p) is (rw (← next) below)
                (omega arith) in
            rw (child, missing_child hhdm_offset before.nodes v i is child, next)
              (omega (arith, fewer))
      ]

  module _ {root : ℕ} (flags : PageFlags) {m : Memory} {place : Place} (page : ℕ) where
    -- Three steps in a row.
    three_steps :
        IsTree hhdm_offset root m place
        → (s0 : Stepped hhdm_offset root flags m place root [] (index_at page 39))
        → (s1 : Stepped hhdm_offset root flags s0.after s0.place' s0.next
            (index_at page 39 ∷ [])
            (index_at page 30))
        → Stepped hhdm_offset root flags s1.after s1.place' s1.next
            (index_at page 30 ∷ index_at page 39 ∷ [])
            (index_at page 21)
        → Descended root flags m place page
    unfolding descend
    three_steps t s0 s1 s2 = record {
      curr = s2.next;
      after = s2.after;
      place' = s2.place';
      returns = rw (
        bit_and_mask 9 (page / 2 ^ 39),
        s0.returns,
        ◌>>=◌,
        bit_and_mask 9 (page / 2 ^ 30),
        s1.returns,
        ◌>>=◌,
        bit_and_mask 9 (page / 2 ^ 21),
        s2.returns,
      );
      tree = s2.tree;
      extends = Extends-trans s0.extends later;
      at = s2.at;
      spent = omega (
        arith,
        s0.spent,
        s1.spent,
        s2.spent,
        step_missing flags root (index_at page 39) [] (index_at page 30 ∷ index_at page 21 ∷ []) t
            t.root_at (omega arith) s0,
        step_missing flags s0.next (index_at page 30) (index_at page 39 ∷ [])
            (index_at page 21 ∷ []) s0.tree s0.at (omega arith) s1,
        step_missing flags s1.next (index_at page 21) (index_at page 30 ∷ index_at page 39 ∷ []) []
            s1.tree s1.at (omega arith) s2,
      );
      shrinks = λ g. omega (arith, s0.shrinks g, s1.shrinks g, s2.shrinks g);
      reached = (first.0, rw first.1 (second.0, rw second.1 (s2.linked, s2.child)));
    }
      where
        later : Extends hhdm_offset s0.place' s2.place' s0.after.nodes s2.after.nodes
        later = Extends-trans s1.extends s2.extends

        first :
            (get_child_address (s2.after.nodes root (index_at page 39)) ≢ 0)
            × (child_of hhdm_offset s2.after.nodes root (index_at page 39) ≡ s0.next)
        first =
            keep_link root s0.next (index_at page 39) [] later
              (s0.extends.keeps_place root [] t.root_at) s0.linked s0.child

        second :
            (get_child_address (s2.after.nodes s0.next (index_at page 30)) ≢ 0)
            × (child_of hhdm_offset s2.after.nodes s0.next (index_at page 30) ≡ s1.next)
        second =
            keep_link s0.next s1.next (index_at page 30) (index_at page 39 ∷ []) s2.extends
              (s1.extends.keeps_place s0.next (index_at page 39 ∷ []) s0.at) s1.linked s1.child

    pub descend-Descended :
        IsFlags flags
        → IsTree hhdm_offset root m place
        → missing hhdm_offset m.nodes root (upper_path page) ≤ m.free.size
        → Descended root flags m place page
    descend-Descended ok_flags t room =
        let above : List ℕ = index_at page 39 ∷ [] in
        let below : List ℕ = index_at page 21 ∷ [] in
        let c0 =
          missing_head hhdm_offset m.nodes root (index_at page 39) (index_at page 30 ∷ below) in
        let s0 =
          next_node-Stepped hhdm_offset flags ok_flags t t.root_at (omega arith) (index_at page 39)
            (omega (arith, c0)) in
        let m0 =
          step_missing flags root (index_at page 39) [] (index_at page 30 ∷ below) t t.root_at
            (omega arith) s0 in
        let c1 = missing_head hhdm_offset s0.after.nodes s0.next (index_at page 30) below in
        let s1 =
          next_node-Stepped hhdm_offset flags ok_flags s0.tree s0.at (omega arith)
            (index_at page 30) (omega (arith, s0.spent)) in
        let m1 =
          step_missing flags s0.next (index_at page 30) above below s0.tree s0.at (omega arith)
            s1 in
        let c2 = missing_head hhdm_offset s1.after.nodes s1.next (index_at page 21) [] in
        let s2 =
          next_node-Stepped hhdm_offset flags ok_flags s1.tree s1.at (omega arith)
            (index_at page 21) (omega (arith, s0.spent, s1.spent)) in
        three_steps t s0 s1 s2

  -- The write of the leaf entry `j` of the last table `w`.
  module _ {root : ℕ} {m : Memory} {place : Place} (t : IsTree hhdm_offset root m place) (w : ℕ)
      (q : List ℕ) (at : place w ≡ some q) (last : length q ≡ 3) (j e : ℕ) where
    upper_ne : (x : ℕ) (r : List ℕ) → place x ≡ some r → length r < 3 → (x == w) ≡ false
    upper_ne x r here short = elim (Bool-cases (x == w)) [
      | inr differ ↦ differ
      | inl same ↦ absurd (
          let s : some r ≡ some q = ground arith in
          let l : r ≡ q = cc in omega (arith, ap length l))
    ]

    upper_entry :
        (x i : ℕ) (r : List ℕ)
        → place x ≡ some r
        → length r < 3
        → update_entry w j e m.nodes x i ≡ m.nodes x i
    upper_entry x i r here short = rw (upper_ne x r here short)

    pub IsTree-leaf :
        IsTree hhdm_offset root (record m { nodes = update_entry w j e m.nodes }) place
    IsTree-leaf = record {
      root_at = t.root_at;
      child_at = λ x i r here short ne.
          rw (upper_entry x i r here short)
            (t.child_at x i r here short (rw (← upper_entry x i r here short) ne));
      free_valid = t.free_valid;
      free_once = t.free_once;
      free_apart = t.free_apart;
    }

    pub other_leaf :
        (x : ℕ) (r is : List ℕ) (leaf : ℕ)
        → place x ≡ some r
        → length r + length is ≡ 3
        → (reverse_aux is r ≡ q → leaf ≡ j → ⊥)
        → entry_at hhdm_offset (update_entry w j e m.nodes) x is leaf
          ≡ entry_at hhdm_offset m.nodes x is leaf
    unfolding entry_at
    other_leaf x r [] leaf here depth apart = elim (Bool-cases (x == w && leaf == j)) [
      | inr differ ↦ rw differ
      | inl same ↦ absurd (let s : some r ≡ some q = ground arith in apart (cc) (ground arith))
    ]
    other_leaf x r (i ∷ is) leaf here depth apart =
        rw (upper_entry x i r here (omega arith))
          (elim (Bool-cases (get_child_address (m.nodes x i) == 0)) [
            | inl empty ↦ rw empty
            | inr child ↦ rw child (
                other_leaf (child_of hhdm_offset m.nodes x i) (i ∷ r) is leaf
                  (t.child_at x i r here (omega arith) (ground arith)) (omega arith) apart)
          ])

    pub Reaches-leaf :
        (x : ℕ) (r is : List ℕ)
        → place x ≡ some r
        → length r + length is ≡ 3
        → Reaches m.nodes x is w
        → Reaches (update_entry w j e m.nodes) x is w
    Reaches-leaf x r [] here depth reach = reach
    Reaches-leaf x r (i ∷ is) here depth reach =
        let same = upper_entry x i r here (omega arith) in
        rw same (
          reach.0,
          Reaches-leaf (child_of hhdm_offset m.nodes x i) (i ∷ r) is
              (t.child_at x i r here (omega arith) reach.0) (omega arith) reach.1,
        )
