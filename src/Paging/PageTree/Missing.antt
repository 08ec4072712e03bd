-- ===== src/Paging/PageTree/Missing.antt =====
-- How many tables a path through the page tree still lacks, which is how many frames a call of
-- `map_page_to_frame` (kernel/src/PageTree.cpp) takes for it.
use dav_os.Base.{
  ℕ, ◌+◌, ◌-◌, ◌/◌, ◌^◌, ◌≤◌, ◌≡◌, ◌≢◌, ◌==◌, true, false, inl, inr, List, [], ◌∷◌, some,
  if◌then◌else◌, arith, length, Bool-cases,
}
use dav_os.Paging.PageTreeNode.{get_child_address}
use dav_os.Paging.PageTree.{Nodes, Memory}
use dav_os.Paging.PageTree.Walk.{index_at, upper_path}
use dav_os.Paging.PageTree.Grow.{Place, child_of, IsTree, Extends}

-- The frames that a step from entry `i` of `v` takes.
abbrev pub step_cost : Nodes → ℕ → ℕ → ℕ
step_cost nodes v i = if get_child_address (nodes v i) == 0 then 1 else 0

-- The boundaries of 2 MiB, 1 GiB and 512 GiB between two pages, each with a table of its own.
abbrev pub boundaries : ℕ → ℕ → ℕ
boundaries q p = (p / 2 ^ 21 - q / 2 ^ 21) + (p / 2 ^ 30 - q / 2 ^ 30) + (p / 2 ^ 39 - q / 2 ^ 39)

sum3 :
    (a b c d e f x y z : ℕ)
    → a + d ≡ x
    → b + e ≡ y
    → c + f ≡ z
    → (a + b + c) + (d + e + f) ≡ x + y + z
sum3 a b c d e f x y z p q r = omega arith

gap_trans : (a b c : ℕ) → a ≤ b → b ≤ c → (b - a) + (c - b) ≡ c - a
gap_trans a b c h k = omega arith

pub boundaries_trans :
    (q p r : ℕ) → q ≤ p → p ≤ r → boundaries q p + boundaries p r ≡ boundaries q r
boundaries_trans q p r h k =
    let a = gap_trans (q / 2 ^ 21) (p / 2 ^ 21) (r / 2 ^ 21) (omega arith) (omega arith) in
    let b = gap_trans (q / 2 ^ 30) (p / 2 ^ 30) (r / 2 ^ 30) (omega arith) (omega arith) in
    let c = gap_trans (q / 2 ^ 39) (p / 2 ^ 39) (r / 2 ^ 39) (omega arith) (omega arith) in
    sum3 _ _ _ _ _ _ _ _ _ a b c

module _ (hhdm_offset : ℕ) where
  unfoldable pub missing : Nodes → ℕ → List ℕ → ℕ
  missing nodes v [] = 0
  missing nodes v (i ∷ is) =
      if get_child_address (nodes v i) == 0
      then length (i ∷ is)
      else missing nodes (child_of hhdm_offset nodes v i) is

  pub missing-le-length : (nodes : Nodes) (v : ℕ) (is : List ℕ) → missing nodes v is ≤ length is
  unfolding missing
  missing-le-length nodes v [] = omega arith
  missing-le-length nodes v (i ∷ is) =
      ground (arith, missing-le-length nodes (child_of hhdm_offset nodes v i) is)

  pub missing_head :
      (nodes : Nodes) (v i : ℕ) (is : List ℕ) → step_cost nodes v i ≤ missing nodes v (i ∷ is)
  unfolding missing
  missing_head nodes v i is = ground arith

  pub missing_empty :
      (nodes : Nodes) (v i : ℕ) (is : List ℕ)
      → (get_child_address (nodes v i) == 0) ≡ true
      → missing nodes v (i ∷ is) ≡ length (i ∷ is)
  unfolding missing
  missing_empty nodes v i is e = rw e

  pub missing_child :
      (nodes : Nodes) (v i : ℕ) (is : List ℕ)
      → (get_child_address (nodes v i) == 0) ≡ false
      → missing nodes v (i ∷ is) ≡ missing nodes (child_of hhdm_offset nodes v i) is
  unfolding missing
  missing_child nodes v i is e = rw e

  -- Growing the tree adds tables and takes none away.
  pub missing-Extends :
      {root : ℕ} {m : Memory} {place place' : Place} {nodes : Nodes}
      → IsTree hhdm_offset root m place
      → Extends hhdm_offset place place' m.nodes nodes
      → (x : ℕ) (r is : List ℕ) → place x ≡ some r
      → length r + length is ≤ 3
      → missing nodes x is ≤ missing m.nodes x is
  unfolding missing
  missing-Extends t e x r [] here short = omega arith
  missing-Extends {m} {nodes} t e x r (i ∷ is) here short =
      elim (Bool-cases (get_child_address (m.nodes x i) == 0)) [
        | inl empty ↦ rw empty (missing-le-length nodes x (i ∷ is))
        | inr child ↦
            let ne : get_child_address (m.nodes x i) ≢ 0 = ground arith in
            rw (e.keeps_child x i r here ne, child)
              (missing-Extends t e (child_of hhdm_offset m.nodes x i) (i ∷ r) is
                (t.child_at x i r here (omega arith) ne) (omega arith))
      ]

  linked :
      (nodes : Nodes) (v i : ℕ) (is : List ℕ)
      → missing nodes v (i ∷ is) ≡ 0
      → ((get_child_address (nodes v i) == 0) ≡ false)
        × (missing nodes (child_of hhdm_offset nodes v i) is ≡ 0)
  unfolding missing
  linked nodes v i is all = ground arith

  -- A path that shares its first indices with one on which all tables are there.
  missing_shared :
      (nodes : Nodes) (v a b c a' b' c' : ℕ)
      → missing nodes v (a ∷ b ∷ c ∷ []) ≡ 0
      → missing nodes v (a' ∷ b' ∷ c' ∷ [])
        ≤ (if a == a' then if b == b' then if c == c' then 0 else 1 else 2 else 3)
  unfolding missing
  missing_shared nodes v a b c a' b' c' all = elim (Bool-cases (a == a')) [
    | inr differ ↦ rw differ (missing-le-length nodes v (a' ∷ b' ∷ c' ∷ []))
    | inl same ↦
        let e : a' ≡ a = ground arith in
        let there = linked nodes v a (b ∷ c ∷ []) all in
        rw (same, e, there.0)
          (elim (Bool-cases (b == b')) [
            | inr differ ↦
                rw differ (missing-le-length nodes (child_of hhdm_offset nodes v a) (b' ∷ c' ∷ []))
            | inl same_b ↦
                let e_b : b' ≡ b = ground arith in
                let there_b = linked nodes (child_of hhdm_offset nodes v a) b (c ∷ []) there.1 in
                rw (same_b, e_b, there_b.0)
                  (elim (Bool-cases (c == c')) [
                    | inr differ ↦ rw differ (
                        missing-le-length nodes
                          (child_of hhdm_offset nodes (child_of hhdm_offset nodes v a) b) (c' ∷ []))
                    | inl same_c ↦
                        let e_c : c' ≡ c = ground arith in
                        rw (same_c, e_c) (omega (arith, there_b.1))
                  ])
          ])
  ]

  shared_boundaries :
      (q p : ℕ)
      → q ≤ p
      → (if index_at q 39 == index_at p 39
          then if index_at q 30 == index_at p 30
            then if index_at q 21 == index_at p 21 then 0 else 1
            else 2
          else 3)
        ≤ boundaries q p
  shared_boundaries q p le = ground arith

  -- A page on whose path all tables are there spares the later pages the tables that they share.
  pub missing_after :
      (nodes : Nodes) (root q p : ℕ)
      → missing nodes root (upper_path q) ≡ 0
      → q ≤ p
      → missing nodes root (upper_path p) ≤ boundaries q p
  missing_after nodes root q p all le = omega (
    arith,
    missing_shared nodes root (index_at q 39) (index_at q 30) (index_at q 21) (index_at p 39)
        (index_at p 30) (index_at p 21) all,
    shared_boundaries q p le,
  )
