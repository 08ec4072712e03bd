-- ===== src/Paging/Mapping.antt =====
-- `paging_add_mapping` and `paging_allocate_and_map` of kernel/src/paging.cpp. A loop over pages runs on
-- fuel, one round more than the range has pages.
pub mod Below
use dav_os.Base.{
  ℕ, zero, suc, ◌+◌, ◌-◌, ◌*◌, ◌/◌, ◌%◌, ◌^◌, ◌≤◌, ◌<◌, ◌≡◌, ◌==◌, ◌&&◌, true, List, some, ltb, leb,
  if◌then◌else◌, arith, bit_or,
}
use dav_os.Base.Words.{add64, sub64}
use dav_os.Base.Run.{Run, ok, out_of_fuel, ◌>>=◌}
use dav_os.Frames.{allocate_frame, frame_size}
use dav_os.Paging.Address.{page_size, page_floor, PageRange, get_page_range}
use dav_os.Kpp.NonOwningStack.{contents}
use dav_os.Frames.Init.{count}
use dav_os.Paging.PageTreeNode.{PageFlags, IsFlags, present}
use dav_os.Paging.PageTree.{Nodes, Memory, PageTranslation, map_page_to_frame, get_translation}
use dav_os.Paging.PageTree.Grow.{Place, IsTree}
use dav_os.Paging.PageTree.Walk.{upper_path}
use dav_os.Paging.PageTree.Missing.{
  boundaries, missing, missing-le-length, missing_after, boundaries_trans,
}
use dav_os.Paging.PageTree.Map.{page_number, Mapped, map_page_to_frame-Mapped}

abbrev pub range_fuel : PageRange → ℕ
range_fuel r = suc (sub64 r.last_page r.first_page / page_size)

sum_le : (a b c s : ℕ) → a ≤ b → b + c ≡ s → a + c ≤ s
sum_le a b c s h k = omega arith

-- Page `a` of a range that starts at `b`: the first page, or one of the rest.
range_step :
    (b a b' n frame flags : ℕ) (old : Run PageTranslation)
    → b' ≡ b + 1
    → (if leb b' a && ltb a (b' + n)
        then ok (record {
          physical_address = (frame + frame_size + (a - b') * frame_size) % 2 ^ 32;
          flags = flags;
        })
        else if a == b
        then ok (record { physical_address = frame % 2 ^ 32; flags = flags })
        else old)
      ≡ (if leb b a && ltb a (b + suc n)
          then ok
              (record { physical_address = (frame + (a - b) * frame_size) % 2 ^ 32; flags = flags })
          else old)
range_step b a b' n frame flags old e = ground arith

-- The frames that `n` pages from `page` on take at most: three tables, and one for each boundary.
abbrev pub tables_for : ℕ → ℕ → ℕ
tables_for zero page = 0
tables_for (suc n) page = 3 + boundaries page (page + n * page_size)

pub tables_for-le : (n page : ℕ) → tables_for n page ≤ 3 * n
tables_for-le zero page = omega arith
tables_for-le (suc n) page = omega arith

-- The number of pages that a region touches.
abbrev pub pages_of : ℕ → ℕ → ℕ
pages_of base length = (base % page_size + length + (page_size - 1)) / page_size

pub range_pages :
    (base length : ℕ)
    → base + length ≤ 2 ^ 64 - 2 * page_size
    → let r = get_page_range base length in
      (r.last_page ≡ r.first_page + pages_of base length * page_size)
      × (r.last_page + page_size ≤ 2 ^ 64)
      × (pages_of base length < range_fuel r)
      × (page_number r.first_page ≡ page_number base)
unfolding get_page_range
range_pages base length h = ground arith

floor_frame :
    (a : ℕ) → a < 2 ^ 64 → (page_floor a % page_size ≡ 0) × (page_floor a ≡ a - a % page_size)
unfolding page_floor
floor_frame a h = ground arith

module _ (hhdm_offset root : ℕ) where
  pub map_pages : ℕ → ℕ → ℕ → ℕ → PageFlags → Memory → Run Memory
  map_pages zero page last_page frame flags m = out_of_fuel
  map_pages (suc k) page last_page frame flags m =
      let rest =
        (map_page_to_frame hhdm_offset root page frame flags m >>= λ m'.
        map_pages k (add64 page page_size) last_page (add64 frame frame_size) flags m') in
      if ltb page last_page then rest else ok m

  pub paging_add_mapping : ℕ → ℕ → ℕ → PageFlags → Memory → Run Memory
  paging_add_mapping virtual_base physical_base length flags m =
      let r = get_page_range virtual_base length in
      map_pages (range_fuel r) r.first_page r.last_page (page_floor physical_base) flags m

  unfoldable pub allocate_pages : ℕ → ℕ → ℕ → PageFlags → Memory → Run Memory
  allocate_pages zero page last_page flags m = out_of_fuel
  allocate_pages (suc k) page last_page flags m =
      let rest =
        (allocate_frame m.free >>= λ (frame, free').
        paging_add_mapping page frame page_size flags (record m { free = free' }) >>= λ m'.
        allocate_pages k (add64 page page_size) last_page flags m') in
      if page == last_page then ok m else rest

  unfoldable pub paging_allocate_and_map : ℕ → ℕ → PageFlags → Memory → Run Memory
  paging_allocate_and_map virtual_base length flags m =
      let r = get_page_range virtual_base length in
      allocate_pages (range_fuel r) r.first_page r.last_page flags m

  unfoldable pub paging_get_translation : ℕ → Memory → Run PageTranslation
  paging_get_translation virtual_address m = get_translation hhdm_offset root virtual_address m

  -- The same, with the tables that are there.
  abbrev need : Nodes → ℕ → ℕ → ℕ
  need nodes zero page = 0
  need nodes (suc n) page =
      missing hhdm_offset nodes root (upper_path page) + boundaries page (page + n * page_size)

  need-le : (nodes : Nodes) (n page : ℕ) → need nodes n page ≤ tables_for n page
  need-le nodes zero page = omega arith
  need-le nodes (suc n) page =
      omega (arith, missing-le-length hhdm_offset nodes root (upper_path page))

  need_after :
      (nodes : Nodes) (n page : ℕ)
      → missing hhdm_offset nodes root (upper_path page) ≡ 0
      → need nodes n (page + page_size) ≤ boundaries page (page + n * page_size)
  need_after nodes zero page complete = omega arith
  need_after nodes (suc n) page complete =
      let next = page + page_size in
      let last = page + suc n * page_size in
      let same : next + n * page_size ≡ last = omega arith in
      rw same (
        sum_le _ _ _ _ (missing_after hhdm_offset nodes root page next complete (omega arith))
          (boundaries_trans page next last (omega arith) (omega arith)))

  -- After the call the pages of the range translate to the low 32 bits of consecutive frames, all
  -- else as before.
  pub record MappedPages (page n frame : ℕ) (flags : PageFlags) (tables : ℕ) (m : Memory)
      (place : Place) (r : Run Memory) : Type 0 where
    pub after : Memory
    pub place' : Place
    pub returns : r ≡ ok after
    pub tree : IsTree hhdm_offset root after place'
    pub keeps_place : (x : ℕ) (r : List ℕ) → place x ≡ some r → place' x ≡ some r
    pub spent : m.free.size ≤ after.free.size + tables
    pub shrinks : (g : ℕ) → count g (contents after.free) ≤ count g (contents m.free)
    pub translates :
        (address : ℕ)
        → get_translation hhdm_offset root address after ≡ (
            if leb (page_number page) (page_number address)
              && ltb (page_number address) (page_number page + n)
            then ok (record {
              physical_address =
                  (frame + (page_number address - page_number page) * frame_size) % 2 ^ 32;
              flags = bit_or flags present % 2 ^ 8;
            })
            else get_translation hhdm_offset root address m)

  -- One page, then the rest of the range.
  MappedPages-suc :
      (n k page last frame : ℕ) (flags : PageFlags) {m : Memory} {place : Place}
      → last ≡ page + suc n * page_size
      → last + page_size ≤ 2 ^ 64
      → page_number page + suc n < 2 ^ 36
      → frame + suc n * frame_size < 2 ^ 64
      → (one : Mapped hhdm_offset root page frame flags m place)
      → MappedPages
          (page + page_size)
          n
          (frame + frame_size)
          flags
          (need one.after.nodes n (page + page_size))
          one.after
          one.place'
          (map_pages k (page + page_size) last (frame + frame_size) flags one.after)
      → MappedPages page
          (suc n)
          frame
          flags
          (need m.nodes (suc n) page)
          m
          place
          (map_pages (suc k) page last frame flags m)
  unfolding map_pages
  MappedPages-suc n k page last frame flags {m} e top wide low one rest =
      let next : add64 page page_size ≡ page + page_size = omega arith in
      let next_frame : add64 frame frame_size ≡ frame + frame_size = omega arith in
      let more : ltb page last ≡ true = ground arith in
      record {
        after = rest.after;
        place' = rest.place';
        returns = rw (more, one.returns, ◌>>=◌, next, next_frame) rest.returns;
        tree = rest.tree;
        keeps_place = λ x r h. rest.keeps_place x r (one.keeps_place x r h);
        spent =
            omega (arith, rest.spent, one.spent, need_after one.after.nodes n page one.complete);
        shrinks = λ g. omega (arith, rest.shrinks g, one.shrinks g);
        translates = λ address.
            rw (rest.translates address, one.translates address)
              (range_step (page_number page) (page_number address) (page_number (page + page_size))
                n frame (bit_or flags present % 2 ^ 8) (get_translation hhdm_offset root address m)
                (omega arith));
      }

  map_pages-MappedPages :
      (n k page last frame : ℕ) (flags : PageFlags) {m : Memory} {place : Place}
      → IsTree hhdm_offset root m place
      → IsFlags flags
      → n < k
      → last ≡ page + n * page_size
      → last + page_size ≤ 2 ^ 64
      → page_number page + n < 2 ^ 36
      → frame % page_size ≡ 0
      → frame + n * frame_size < 2 ^ 64
      → need m.nodes n page ≤ m.free.size
      → MappedPages page n frame flags
          (need m.nodes n page)
          m
          place
          (map_pages k page last frame flags m)
  unfolding map_pages
  map_pages-MappedPages zero zero page last frame flags t f fuel e top wide aligned low room =
      absurd (omega arith)
  map_pages-MappedPages zero (suc k) page last frame flags {m} {place} t f fuel e top wide aligned
        low room =
      record {
        after = m;
        place' = place;
        returns = ground arith;
        tree = t;
        keeps_place = λ x r h. h;
        spent = omega arith;
        shrinks = λ g. omega arith;
        translates = λ address. ground arith;
      }
  map_pages-MappedPages (suc n) zero page last frame flags t f fuel e top wide aligned low room =
      absurd (omega arith)
  map_pages-MappedPages (suc n) (suc k) page last frame flags {m} t f fuel e top wide aligned low
        room =
      let one = map_page_to_frame-Mapped page frame flags t f aligned (omega arith) in
      MappedPages-suc n k page last frame flags e top wide low one (
        map_pages-MappedPages n k (page + page_size) last (frame + frame_size) flags one.tree f
          (omega arith) (omega arith) top (omega arith) (omega arith) (omega arith)
          (omega (arith, one.spent, need_after one.after.nodes n page one.complete)))

  -- In a page tree without sharing, whose free frames are on a valid stack, differ from each other
  -- and from the tables, are not 0 and lie at frame boundaries below 4 GiB, for a region that ends
  -- at least two pages below 2 ^ 64 and whose pages end before the next multiple of 2 ^ 48, a
  -- physical region below 2 ^ 64, flags outside the address bits and as many free frames as
  -- tables_for counts, paging_add_mapping returns and keeps the nodes a tree: the pages that the
  -- region touches translate to the low 32 bits of consecutive frames from the rounded physical
  -- base on, every other address translates as before, and the free stack gains no frame and loses
  -- at most as many as tables_for counts: three, and one for each boundary of 2 MiB, of 1 GiB and
  -- of 512 GiB between the first page and the last.
  pub paging_add_mapping-MappedPages :
      (virtual_base physical_base length : ℕ) (flags : PageFlags) {m : Memory} {place : Place}
      → IsTree hhdm_offset root m place
      → IsFlags flags
      → virtual_base + length ≤ 2 ^ 64 - 2 * page_size
      → page_number virtual_base + pages_of virtual_base length < 2 ^ 36
      → physical_base + pages_of virtual_base length * frame_size < 2 ^ 64
      → let first = (get_page_range virtual_base length).first_page in
        let n = pages_of virtual_base length in
        tables_for n first ≤ m.free.size
        → MappedPages first n
            (page_floor physical_base)
            flags
            (tables_for n first)
            m
            place
            (paging_add_mapping virtual_base physical_base length flags m)
  unfolding paging_add_mapping
  paging_add_mapping-MappedPages base physical length flags {m} t f top wide low room =
      let n = pages_of base length in
      let first = (get_page_range base length).first_page in
      let (last, last_top, fuel, number) = range_pages base length top in
      let (aligned, floor) = floor_frame physical (omega arith) in
      let fewer = need-le m.nodes n first in
      let r =
        map_pages-MappedPages n (range_fuel (get_page_range base length)) first
          (get_page_range base length).last_page (page_floor physical) flags t f fuel last last_top
          (omega arith) aligned (omega arith) (omega (arith, fewer)) in
      record {
        after = r.after;
        place' = r.place';
        returns = r.returns;
        tree = r.tree;
        keeps_place = r.keeps_place;
        spent = omega (arith, r.spent, fewer);
        shrinks = r.shrinks;
        translates = r.translates;
      }
