-- ===== src/Paging/Allocate/Pages.antt =====
-- One page with a frame of its own, and such a page before others, for `paging_allocate_and_map` of
-- kernel/src/paging.cpp.
use dav_os.Base.{
  ℕ, suc, ◌+◌, ◌-◌, ◌*◌, ◌%◌, ◌^◌, ◌≤◌, ◌<◌, ◌≡◌, ◌≢◌, refl, ap, sym, ◌∙◌, ◌==◌, true, false, inl,
  inr, Bool-cases, if◌then◌else◌, arith, bit_or, ◌∷◌,
}
use dav_os.Base.Run.{Run, ok, ◌>>=◌}
use dav_os.Kpp.NonOwningStack
use dav_os.Kpp.NonOwningStack.{NonOwningStack, contents, pop-IsValid}
use dav_os.Frames.{allocate_frame}
use dav_os.Frames.Init.{count}
use dav_os.Frames.Exclusive.{allocate_frame-ok, allocate_frame-cons}
use dav_os.Paging.Address.{
  page_size, page_floor, get_page_range, page_floor-aligned, first_page-number,
}
use dav_os.Paging.PageTreeNode.{PageFlags, IsFlags, present}
use dav_os.Paging.PageTree.{Memory, get_translation}
use dav_os.Paging.PageTree.Walk.{get_translation-free}
use dav_os.Paging.PageTree.Grow.{Place, IsTree}
use dav_os.Paging.PageTree.Map.{page_number}
use dav_os.Paging.Mapping.{paging_add_mapping, pages_of}
use dav_os.Paging.Mapping.Below.{paging_add_mapping-MappedRange}

-- The pages numbered from `first` on, `n` of them.
abbrev pub In : ℕ → ℕ → ℕ → Type 0
In first n q = (first ≤ q) × (q < first + n)

module _ (hhdm_offset root : ℕ) where
  -- After the call the pages numbered from `first` on have frames of the free stack, each its own and
  -- none left on the stack; all else is as before.
  pub record Allocated (first n : ℕ) (flags : PageFlags) (m : Memory) (r : Run Memory)
      : Type 0 where
    pub after : Memory
    pub place' : Place
    pub frame : ℕ → ℕ
    pub returns : r ≡ ok after
    pub tree : IsTree hhdm_offset root after place'
    pub from_stack : (q : ℕ) → In first n q → 0 < count (frame q) (contents m.free)
    pub off_stack : (q : ℕ) → In first n q → count (frame q) (contents after.free) ≡ 0
    pub own : (q s : ℕ) → In first n q → In first n s → frame q ≡ frame s → q ≡ s
    pub spent : m.free.size ≤ after.free.size + 4 * n
    pub shrinks : (g : ℕ) → count g (contents after.free) ≤ count g (contents m.free)
    pub mapped :
        (address : ℕ)
        → In first n (page_number address)
        → get_translation hhdm_offset root address after
          ≡ ok (record {
            physical_address = frame (page_number address);
            flags = bit_or flags present % 2 ^ 8;
          })
    pub others :
        (address : ℕ)
        → ¬ In first n (page_number address)
        → get_translation hhdm_offset root address after
          ≡ get_translation hhdm_offset root address m

  IsTree-pop :
      {m : Memory} {place : Place} (f : ℕ)
      → IsTree hhdm_offset root m place
      → contents m.free ≡ f ∷ contents (NonOwningStack.pop m.free)
      → IsTree hhdm_offset root (record m { free = NonOwningStack.pop m.free }) place
  IsTree-pop {m} {place} f t taken = record {
    root_at = t.root_at;
    child_at = t.child_at;
    free_valid = pop-IsValid t.free_valid;
    free_once = λ g. ground (arith, ap (count g) taken, t.free_once g);
    free_apart = λ g counted. t.free_apart g (ground (arith, ap (count g) taken));
  }

  -- One page.
  pub allocate_page :
      (page : ℕ) (flags : PageFlags) {m : Memory} {place : Place}
      → IsTree hhdm_offset root m place
      → IsFlags flags
      → page % page_size ≡ 0
      → page + page_size ≤ 2 ^ 64 - 2 * page_size
      → page_number page + 1 < 2 ^ 36
      → 4 ≤ m.free.size
      → Allocated (page_number page) 1 flags m (
          allocate_frame m.free >>= λ (frame, free').
          paging_add_mapping hhdm_offset root page frame page_size flags
            (record m { free = free' }))
  allocate_page page flags {m} {place} t f aligned top wide room =
      let frame = NonOwningStack.top m.free in
      let s = NonOwningStack.pop m.free in
      let (takes, size) = allocate_frame-ok m.free (omega arith) in
      let taken = (allocate_frame-cons m.free takes).0 in
      let counted : 0 < count frame (contents m.free) = rw taken (ground arith) in
      let is_frame = (t.free_apart frame counted).0 in
      let one : pages_of page page_size ≡ 1 = omega arith in
      let floor : page_floor frame ≡ frame =
        page_floor-aligned frame is_frame.0 (omega (arith, is_frame.1)) in
      let first : page_number (get_page_range page page_size).first_page ≡ page_number page =
        first_page-number page page_size (omega arith) in
      let r =
        paging_add_mapping-MappedRange hhdm_offset root page frame page_size flags
          (IsTree-pop frame t taken) f top (rw one wide) (rw one (omega (arith, is_frame)))
          (rw one (omega (arith, size))) in
      let gone : count frame (contents s) ≡ 0 =
        ground (arith, ap (count frame) taken, t.free_once frame) in
      record {
        after = r.after;
        place' = r.place';
        frame = λ q. frame;
        returns = rw (takes, ◌>>=◌) r.returns;
        tree = r.tree;
        from_stack = λ q h. counted;
        off_stack = λ q h. omega (arith, r.shrinks frame, gone);
        own = λ q q' h h' e. omega arith;
        spent = omega (arith, r.spent, size, one);
        shrinks = λ g. ground (arith, r.shrinks g, ap (count g) taken);
        mapped = λ address h. r.translates address ∙ rw (one, floor, first) (ground arith);
        others = λ address h.
            r.translates address
            ∙ (rw (one, first) (ground arith) ∙ get_translation-free hhdm_offset root address m s);
      }

  module _ (first n : ℕ) (flags : PageFlags) {m : Memory} {r1 r2 : Run Memory}
      (one : Allocated first 1 flags m r1) (rest : Allocated (first + 1) n flags one.after r2) where
    both_frames : ℕ → ℕ
    both_frames q = if q == first then one.frame first else rest.frame q

    at_first : (q : ℕ) → (q == first) ≡ true → both_frames q ≡ one.frame first
    unfolding both_frames
    at_first q e = rw e refl

    at_rest : (q : ℕ) → (q == first) ≡ false → both_frames q ≡ rest.frame q
    unfolding both_frames
    at_rest q e = rw e refl

    first-In : In first 1 first
    first-In = (omega arith, omega arith)

    rest-In : (q : ℕ) → In first (suc n) q → (q == first) ≡ false → In (first + 1) n q
    rest-In q h e = (ground (arith, h, e), omega (arith, h))

    -- The first page's frame is none of the others'.
    first_apart : (s : ℕ) → In (first + 1) n s → one.frame first ≢ rest.frame s
    first_apart s h e = omega (
      arith,
      ap (λ (f : ℕ). count f (contents one.after.free)) e,
      one.off_stack first first-In,
      rest.from_stack s h,
    )

    both_from : (q : ℕ) → In first (suc n) q → 0 < count (both_frames q) (contents m.free)
    both_from q h = elim (Bool-cases (q == first)) [
      | inl e ↦ rw (at_first q e) (one.from_stack first first-In)
      | inr e ↦
          rw (at_rest q e)
            (omega (arith, rest.from_stack q (rest-In q h e), one.shrinks (rest.frame q)))
    ]

    both_off : (q : ℕ) → In first (suc n) q → count (both_frames q) (contents rest.after.free) ≡ 0
    both_off q h = elim (Bool-cases (q == first)) [
      | inl e ↦
          rw (at_first q e)
            (omega (arith, one.off_stack first first-In, rest.shrinks (one.frame first)))
      | inr e ↦ rw (at_rest q e) (rest.off_stack q (rest-In q h e))
    ]

    both_own :
        (q s : ℕ) → In first (suc n) q → In first (suc n) s → both_frames q ≡ both_frames s → q ≡ s
    both_own q s hq hs e = elim (Bool-cases (q == first)) [
      | inl a ↦ elim (Bool-cases (s == first)) [
        | inl b ↦ ground (arith, a, b)
        | inr b ↦ absurd (first_apart s (rest-In s hs b) (sym (at_first q a) ∙ (e ∙ at_rest s b)))
      ]
      | inr a ↦ elim (Bool-cases (s == first)) [
        | inl b ↦
            absurd (first_apart q (rest-In q hq a) (sym (at_first s b) ∙ (sym e ∙ at_rest q a)))
        | inr b ↦
            rest.own q s (rest-In q hq a) (rest-In s hs b) (sym (at_rest q a) ∙ (e ∙ at_rest s b))
      ]
    ]

    both_mapped :
        (address : ℕ)
        → In first (suc n) (page_number address)
        → get_translation hhdm_offset root address rest.after
          ≡ ok (record {
            physical_address = both_frames (page_number address);
            flags = bit_or flags present % 2 ^ 8;
          })
    both_mapped address h = elim (Bool-cases (page_number address == first)) [
      | inl e ↦
          let same : page_number address ≡ first = ground (arith, e) in
          rest.others address (λ i. omega (arith, i, same))
          ∙ (one.mapped address (omega (arith, same), omega (arith, same))
              ∙ rw (at_first (page_number address) e, same) refl)
      | inr e ↦
          rest.mapped address (rest-In (page_number address) h e)
          ∙ rw (at_rest (page_number address) e) refl
    ]

    pub both : Allocated first (suc n) flags m r2
    both = record {
      after = rest.after;
      place' = rest.place';
      frame = both_frames;
      returns = rest.returns;
      tree = rest.tree;
      from_stack = both_from;
      off_stack = both_off;
      own = both_own;
      spent = omega (arith, rest.spent, one.spent);
      shrinks = λ g. omega (arith, rest.shrinks g, one.shrinks g);
      mapped = both_mapped;
      others = λ address h.
          rest.others address (λ i. h (omega (arith, i), omega (arith, i)))
          ∙ one.others address (λ i. h (omega (arith, i), omega (arith, i)));
    }
