-- ===== src/Paging/Mapping/Below.antt =====
-- `paging_add_mapping` of kernel/src/paging.cpp on physical memory below 4 GiB, with three frames for each
-- page: what most callers need.
use dav_os.Base.{
  ℕ, ◌+◌, ◌-◌, ◌*◌, ◌%◌, ◌^◌, ◌≤◌, ◌<◌, ◌≡◌, ◌∙◌, ◌&&◌, inl, inr, ltb, leb, if◌then◌else◌, arith,
  bit_or, Bool-cases,
}
use dav_os.Base.Run.{Run, ok}
use dav_os.Frames.{frame_size}
use dav_os.Paging.Address.{page_size, page_floor, get_page_range, page_floor_lem}
use dav_os.Kpp.NonOwningStack.{contents}
use dav_os.Frames.Init.{count}
use dav_os.Paging.PageTreeNode.{PageFlags, IsFlags, present}
use dav_os.Paging.PageTree.{Memory, PageTranslation, get_translation}
use dav_os.Paging.PageTree.Grow.{Place, IsTree}
use dav_os.Paging.PageTree.Map.{page_number}
use dav_os.Paging.Mapping.{
  paging_add_mapping, paging_add_mapping-MappedPages, pages_of, tables_for-le,
}

low_translation :
    (b a n frame flags : ℕ) (old : Run PageTranslation)
    → frame + n * frame_size ≤ 2 ^ 32
    → (if leb b a && ltb a (b + n)
        then ok
            (record { physical_address = (frame + (a - b) * frame_size) % 2 ^ 32; flags = flags })
        else old)
      ≡ (if leb b a && ltb a (b + n)
          then ok (record { physical_address = frame + (a - b) * frame_size; flags = flags })
          else old)
low_translation b a n frame flags old low = elim (Bool-cases (leb b a && ltb a (b + n))) [
  | inr outside ↦ rw outside
  | inl inside ↦
      let exact : (frame + (a - b) * frame_size) % 2 ^ 32 ≡ frame + (a - b) * frame_size =
        ground arith in
      rw exact
]

module _ (hhdm_offset root : ℕ) where
  -- After the call the pages of the range translate to consecutive frames, all else as before, and at
  -- most three frames for each page are taken from the free stack.
  pub record MappedRange (page n frame : ℕ) (flags : PageFlags) (m : Memory) (r : Run Memory)
      : Type 0 where
    pub after : Memory
    pub place' : Place
    pub returns : r ≡ ok after
    pub tree : IsTree hhdm_offset root after place'
    pub spent : m.free.size ≤ after.free.size + 3 * n
    pub shrinks : (g : ℕ) → count g (contents after.free) ≤ count g (contents m.free)
    pub translates :
        (address : ℕ)
        → get_translation hhdm_offset root address after ≡ (
            if leb (page_number page) (page_number address)
              && ltb (page_number address) (page_number page + n)
            then ok (record {
              physical_address = frame + (page_number address - page_number page) * frame_size;
              flags = bit_or flags present % 2 ^ 8;
            })
            else get_translation hhdm_offset root address m)

  -- The call on physical memory below 4 GiB, where the translations are the frames.
  pub paging_add_mapping-MappedRange :
      (virtual_base physical_base length : ℕ) (flags : PageFlags) {m : Memory} {place : Place}
      → IsTree hhdm_offset root m place
      → IsFlags flags
      → virtual_base + length ≤ 2 ^ 64 - 2 * page_size
      → page_number virtual_base + pages_of virtual_base length < 2 ^ 36
      → physical_base + pages_of virtual_base length * frame_size ≤ 2 ^ 32
      → 3 * pages_of virtual_base length ≤ m.free.size
      → MappedRange
          (get_page_range virtual_base length).first_page
          (pages_of virtual_base length)
          (page_floor physical_base)
          flags
          m
          (paging_add_mapping hhdm_offset root virtual_base physical_base length flags m)
  paging_add_mapping-MappedRange base physical length flags {m} t f top wide low room =
      let n = pages_of base length in
      let first = (get_page_range base length).first_page in
      let fewer = tables_for-le n first in
      let floor = page_floor_lem physical (omega arith) in
      let r =
        paging_add_mapping-MappedPages hhdm_offset root base physical length flags t f top wide
          (omega arith) (omega (arith, fewer)) in
      record {
        after = r.after;
        place' = r.place';
        returns = r.returns;
        tree = r.tree;
        spent = omega (arith, r.spent, fewer);
        shrinks = r.shrinks;
        translates = λ address.
            r.translates address
            ∙ low_translation (page_number first) (page_number address) n (page_floor physical)
                (bit_or flags present % 2 ^ 8) (get_translation hhdm_offset root address m)
                (omega (arith, floor));
      }
