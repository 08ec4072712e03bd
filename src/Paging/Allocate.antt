-- ===== src/Paging/Allocate.antt =====
-- `paging_allocate_and_map` of kernel/src/paging.cpp: every page of a range gets a frame of its own.
mod Pages
pub use Pages.{In, Allocated}
use Pages.{allocate_page, both}
use dav_os.Base.{
  ℕ, zero, suc, ◌+◌, ◌-◌, ◌*◌, ◌%◌, ◌^◌, ◌≤◌, ◌<◌, ◌≡◌, ◌≢◌, refl, ap, sym, ◌∙◌, ◌==◌, true, false,
  inl, inr, Bool-cases, if◌then◌else◌, arith, bit_or, ◌∷◌,
}
use dav_os.Base.Words.{add64}
use dav_os.Base.Run.{Run, ok, ◌>>=◌, >>=-assoc}
use dav_os.Kpp.NonOwningStack
use dav_os.Kpp.NonOwningStack.{NonOwningStack, contents, pop-IsValid}
use dav_os.Frames.{allocate_frame}
use dav_os.Frames.Init.{count}
use dav_os.Frames.Exclusive.{allocate_frame-ok, allocate_frame-cons}
use dav_os.Paging.Address.{
  page_size, page_floor, get_page_range, page_floor-aligned, first_page-number, first_page-aligned,
  first_page-le,
}
use dav_os.Paging.PageTreeNode.{PageFlags, IsFlags, present}
use dav_os.Paging.PageTree.{Memory, get_translation}
use dav_os.Paging.PageTree.Walk.{get_translation-free}
use dav_os.Paging.PageTree.Grow.{Place, IsTree}
use dav_os.Paging.PageTree.Map.{page_number}
use dav_os.Paging.Mapping.{
  paging_add_mapping, allocate_pages, paging_allocate_and_map, pages_of, range_fuel, range_pages,
}
use dav_os.Paging.Mapping.Below.{paging_add_mapping-MappedRange}

module _ (hhdm_offset root : ℕ) where
  >>=-eq :
      {A B C : Type 0} (m : Run A) (f : A → Run B) (g : B → Run C) {b : B}
      → (m >>= f) ≡ ok b
      → (m >>= λ a. f a >>= g) ≡ g b
  >>=-eq m f g e = sym (>>=-assoc m f g) ∙ ap (λ r. r >>= g) e

  allocate_pages-suc :
      (n k page last : ℕ) (flags : PageFlags) {m : Memory}
      (one : Allocated hhdm_offset root (page_number page) 1 flags m (
        allocate_frame m.free >>= λ (frame, free').
        paging_add_mapping hhdm_offset root page frame page_size flags (record m { free = free' })))
      → add64 page page_size ≡ page + page_size
      → (page == last) ≡ false
      → Allocated hhdm_offset root
          (page_number page + 1)
          n
          flags
          one.after
          (allocate_pages hhdm_offset root k (page + page_size) last flags one.after)
      → Allocated hhdm_offset root
          (page_number page)
          (suc n)
          flags
          m
          (allocate_pages hhdm_offset root (suc k) page last flags m)
  unfolding allocate_pages
  allocate_pages-suc n k page last flags {m} one next more rest =
      let r = both hhdm_offset root (page_number page) n flags one rest in
      let chain =
        >>=-eq (allocate_frame m.free)
          (λ x.
            paging_add_mapping hhdm_offset root page x.0 page_size flags (record m { free = x.1 }))
          (λ m'. allocate_pages hhdm_offset root k (add64 page page_size) last flags m')
          one.returns in
      rw (more, chain, next) r

  allocate_pages-Allocated :
      (n k page last : ℕ) (flags : PageFlags) {m : Memory} {place : Place}
      → IsTree hhdm_offset root m place
      → IsFlags flags
      → n < k
      → page % page_size ≡ 0
      → last ≡ page + n * page_size
      → last ≤ 2 ^ 64 - 2 * page_size
      → page_number page + n < 2 ^ 36
      → 4 * n ≤ m.free.size
      → Allocated hhdm_offset root
          (page_number page)
          n
          flags
          m
          (allocate_pages hhdm_offset root k page last flags m)
  unfolding allocate_pages
  allocate_pages-Allocated zero zero page last flags t f fuel aligned e top wide room =
      absurd (omega arith)
  allocate_pages-Allocated zero (suc k) page last flags {m} {place} t f fuel aligned e top wide
        room =
      let done : (page == last) ≡ true = ground (arith, e) in
      record {
        after = m;
        place' = place;
        frame = λ q. 0;
        returns = rw done refl;
        tree = t;
        from_stack = λ q h. absurd (omega (arith, h));
        off_stack = λ q h. absurd (omega (arith, h));
        own = λ q s h i e'. absurd (omega (arith, h));
        spent = omega arith;
        shrinks = λ g. omega arith;
        mapped = λ address h. absurd (omega (arith, h));
        others = λ address h. refl;
      }
  allocate_pages-Allocated (suc n) zero page last flags t f fuel aligned e top wide room =
      absurd (omega arith)
  allocate_pages-Allocated (suc n) (suc k) page last flags {m} t f fuel aligned e top wide room =
      let one =
        allocate_page hhdm_offset root page flags t f aligned (omega (arith, e, top)) (omega arith)
          (omega arith) in
      let next : add64 page page_size ≡ page + page_size = omega (arith, e, top) in
      let number : page_number (page + page_size) ≡ page_number page + 1 = omega (arith, wide) in
      let more : (page == last) ≡ false = ground (arith, e) in
      let rest =
        allocate_pages-Allocated n k (page + page_size) last flags one.tree f (omega arith)
          (omega (arith, aligned)) (omega (arith, e)) top (omega (arith, number, wide))
          (omega (arith, one.spent, room)) in
      allocate_pages-suc n k page last flags one next more (rw number at rest)

  -- In a page tree without sharing, whose free frames are on a valid stack, differ from each other
  -- and from the tables, are not 0 and lie at frame boundaries below 4 GiB, for a region that ends
  -- at least four pages below 2 ^ 64 and whose pages end before the next multiple of 2 ^ 48, flags
  -- outside the address bits and four free frames for each page touched, paging_allocate_and_map
  -- returns and keeps the nodes a tree: each page that the region touches translates to a frame
  -- that was on the free stack and is not any more, no two pages to the same one, and every other
  -- address translates as before.
  pub paging_allocate_and_map-Allocated :
      (base length : ℕ) (flags : PageFlags) {m : Memory} {place : Place}
      → IsTree hhdm_offset root m place
      → IsFlags flags
      → base + length ≤ 2 ^ 64 - 4 * page_size
      → page_number base + pages_of base length < 2 ^ 36
      → 4 * pages_of base length ≤ m.free.size
      → Allocated hhdm_offset root
          (page_number base)
          (pages_of base length)
          flags
          m
          (paging_allocate_and_map hhdm_offset root base length flags m)
  unfolding paging_allocate_and_map
  paging_allocate_and_map-Allocated base length flags t f top wide room =
      let (last, last_top, fuel, number) = range_pages base length (omega (arith, top)) in
      let page = (get_page_range base length).first_page in
      let aligned : page % page_size ≡ 0 = first_page-aligned base length (omega (arith, top)) in
      let below : page ≤ base = first_page-le base length (omega (arith, top)) in
      rw number at (
        allocate_pages-Allocated (pages_of base length) (range_fuel (get_page_range base length))
          page (get_page_range base length).last_page flags t f fuel aligned last
          (omega (arith, last, below, top)) (omega (arith, number, wide)) room)
