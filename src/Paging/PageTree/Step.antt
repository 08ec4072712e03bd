-- ===== src/Paging/PageTree/Step.antt =====
-- `next_node` as a whole: the step of Grow that the entry calls for.
use dav_os.Base.{
  ℕ, ◌+◌, ◌≤◌, ◌<◌, ◌≡◌, ◌≢◌, ap, ◌∙◌, ◌==◌, true, false, inl, inr, List, ◌∷◌, some, arith, length,
  Bool-cases,
}
use dav_os.Base.Words.{add64}
use dav_os.Base.Run.{ok, ◌>>=◌}
use dav_os.Kpp.NonOwningStack
use dav_os.Frames.Init.{count}
use dav_os.Kpp.NonOwningStack.{contents, pop-IsValid}
use dav_os.Frames.Exclusive.{allocate_frame-ok, allocate_frame-cons}
use dav_os.Paging.PageTreeNode.{
  PageFlags, IsFlags, get_child_address, set_child_address, set_child_flags,
  get_child_address-set_child_flags, get_child_address-set,
}
use dav_os.Paging.PageTree.{Memory, update_entry, new_node, next_node}
use dav_os.Paging.PageTree.Grow
use dav_os.Paging.PageTree.Grow.{Place, child_of, IsTree, Extends}
use dav_os.Paging.PageTree.Missing.{step_cost}

pub record Stepped (hhdm_offset root : ℕ) (flags : PageFlags) (m : Memory) (place : Place) (v : ℕ)
    (p : List ℕ) (i : ℕ) : Type 0 where
  pub next : ℕ
  pub after : Memory
  pub place' : Place
  pub returns : next_node hhdm_offset flags v i m ≡ ok (next, after)
  pub tree : IsTree hhdm_offset root after place'
  pub extends : Extends hhdm_offset place place' m.nodes after.nodes
  pub at : place' next ≡ some (i ∷ p)
  pub linked : get_child_address (after.nodes v i) ≢ 0
  pub child : child_of hhdm_offset after.nodes v i ≡ next
  pub spent : m.free.size ≤ after.free.size + step_cost m.nodes v i
  pub shrinks : (g : ℕ) → count g (contents after.free) ≤ count g (contents m.free)

module _ (hhdm_offset : ℕ) {root : ℕ} (flags : PageFlags) (ok_flags : IsFlags flags) {m : Memory}
    {place : Place} (t : IsTree hhdm_offset root m place) {v : ℕ} {p : List ℕ}
    (here : place v ≡ some p) (upper : length p < 3) (i : ℕ) where
  step_kept :
      (get_child_address (m.nodes v i) == 0) ≡ false → Stepped hhdm_offset root flags m place v p i
  unfolding next_node
  step_kept there =
      let e = set_child_flags (m.nodes v i) flags in
      let same = get_child_address-set_child_flags (m.nodes v i) flags ok_flags in
      let ne : get_child_address (m.nodes v i) ≢ 0 = ground arith in
      let now : update_entry v i e m.nodes v i ≡ e = ground arith in
      record {
        next = child_of hhdm_offset m.nodes v i;
        after = record m { nodes = update_entry v i e m.nodes };
        place' = place;
        returns = rw there;
        tree = Grow.IsTree-same hhdm_offset t here upper i e same;
        extends = Grow.Extends-same hhdm_offset t here upper i e same;
        at = t.child_at v i p here upper ne;
        linked = rw (now, same) ne;
        child = ap (λ a. add64 a hhdm_offset) (ap get_child_address now ∙ same);
        spent = rw there (omega arith);
        shrinks = λ g. omega arith;
      }

  step_fresh :
      (get_child_address (m.nodes v i) == 0) ≡ true
      → 0 < m.free.size
      → Stepped hhdm_offset root flags m place v p i
  unfolding next_node
  step_fresh absent some_free =
      let f = NonOwningStack.top m.free in
      let s = NonOwningStack.pop m.free in
      let (takes, size) = allocate_frame-ok m.free some_free in
      let taken : contents m.free ≡ f ∷ contents s = (allocate_frame-cons m.free takes).0 in
      let fresh = add64 f hhdm_offset in
      let linked = set_child_flags (set_child_address (new_node fresh m.nodes v i) f) flags in
      let e = set_child_flags linked flags in
      let frame = (t.free_apart f (rw taken (ground arith))).0 in
      let nonzero = (t.free_apart f (rw taken (ground arith))).1 in
      let address : get_child_address e ≡ f =
        get_child_address-set_child_flags linked flags ok_flags
        ∙ get_child_address-set (new_node fresh m.nodes v i) f flags ok_flags frame in
      let gone : get_child_address (m.nodes v i) ≡ 0 = ground arith in
      let valid = pop-IsValid t.free_valid in
      let now : update_entry v i e (new_node fresh m.nodes) v i ≡ e = ground arith in
      record {
        next = fresh;
        after = record { nodes = update_entry v i e (new_node fresh m.nodes); free = s };
        place' = Grow.grown_place hhdm_offset t here upper i e f s taken valid gone address;
        returns = rw (absent, takes, ◌>>=◌);
        tree = Grow.IsTree-fresh hhdm_offset t here upper i e f s taken valid gone address;
        extends = Grow.Extends-fresh hhdm_offset t here upper i e f s taken valid gone address;
        at = ground arith;
        linked = rw (now, address) nonzero;
        child = ap (λ a. add64 a hhdm_offset) (ap get_child_address now ∙ address);
        spent = rw absent (omega arith);
        shrinks = λ g. ground (arith, ap (count g) taken);
      }

  pub next_node-Stepped :
      step_cost m.nodes v i ≤ m.free.size → Stepped hhdm_offset root flags m place v p i
  next_node-Stepped room = elim (Bool-cases (get_child_address (m.nodes v i) == 0)) [
    | inl absent ↦ step_fresh absent (rw absent at room)
    | inr there ↦ step_kept there
  ]
