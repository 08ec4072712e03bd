-- ===== src/Paging/Init/Mapped.antt =====
-- What a list of mappings, as `paging_init` adds them (kernel/src/paging.cpp), makes of the translations.
use dav_os.Base.{
  ℕ, ◌+◌, ◌-◌, ◌*◌, ◌%◌, ◌^◌, ◌≤◌, ◌<◌, ◌≡◌, refl, ◌∙◌, ap, Bool, ◌&&◌, ltb, leb, if◌then◌else◌,
  List, [], ◌∷◌, some, arith, bit_or,
}
use dav_os.Base.Run.{Run, ok, ◌>>=◌}
use dav_os.Frames.{frame_size}
use dav_os.Frames.Init.{count}
use dav_os.Kpp.NonOwningStack.{contents}
use dav_os.Paging.Address.{page_size, page_floor, get_page_range}
use dav_os.Paging.PageTreeNode.{IsFlags, present}
use dav_os.Paging.PageTree.{Memory, PageTranslation, get_translation}
use dav_os.Paging.PageTree.Grow.{Place, IsTree}
use dav_os.Paging.PageTree.Map.{page_number}
use dav_os.Paging.Mapping.{pages_of, tables_for, range_pages, paging_add_mapping-MappedPages}
use dav_os.Paging.Init.{Mapping, add_mappings}

-- The number of pages that a mapping touches, and whether it touches an address's page.
abbrev pub size_in_pages : Mapping → ℕ
size_in_pages mp = pages_of mp.from_virtual.base mp.from_virtual.size

abbrev pub holds : Mapping → ℕ → Bool
holds mp address =
    leb (page_number mp.from_virtual.base) (page_number address)
    && ltb (page_number address) (page_number mp.from_virtual.base + size_in_pages mp)

abbrev pub translated : Mapping → ℕ → Run PageTranslation
translated mp address = ok (record {
  physical_address =
      (page_floor mp.to_physical
        + (page_number address - page_number mp.from_virtual.base) * frame_size)
      % 2 ^ 32;
  flags = bit_or mp.flags present % 2 ^ 8;
})

-- The last mapping that holds an address decides; `old` is the answer where none does.
unfoldable pub look_up : List Mapping → ℕ → Run PageTranslation → Run PageTranslation
look_up [] address old = old
look_up (mp ∷ mps) address old =
    look_up mps address (if holds mp address then translated mp address else old)

-- A mapping whose addresses do not wrap round.
abbrev pub Fits : Mapping → Type 0
Fits mp =
    (mp.from_virtual.base + mp.from_virtual.size ≤ 2 ^ 64 - 2 * page_size)
    × (page_number mp.from_virtual.base + size_in_pages mp < 2 ^ 36)
    × (mp.to_physical + size_in_pages mp * frame_size < 2 ^ 64)
    × IsFlags mp.flags

abbrev pub AllFit : List Mapping → Type 0
AllFit [] = Unit {0}
AllFit (mp ∷ mps) = Fits mp × AllFit mps

-- The frames that the tables of a list of mappings take at most.
abbrev pub tables_of : List Mapping → ℕ
tables_of [] = 0
tables_of (mp ∷ mps) =
    tables_for (size_in_pages mp)
      (get_page_range mp.from_virtual.base mp.from_virtual.size).first_page
    + tables_of mps

module _ (hhdm_offset root : ℕ) where
  pub record Added (mps : List Mapping) (m : Memory) (place : Place) : Type 0 where
    pub after : Memory
    pub place' : Place
    pub returns : add_mappings hhdm_offset root mps m ≡ ok after
    pub tree : IsTree hhdm_offset root after place'
    pub keeps_place : (x : ℕ) (r : List ℕ) → place x ≡ some r → place' x ≡ some r
    pub spent : m.free.size ≤ after.free.size + tables_of mps
    pub shrinks : (g : ℕ) → count g (contents after.free) ≤ count g (contents m.free)
    pub translates :
        (address : ℕ)
        → get_translation hhdm_offset root address after
          ≡ look_up mps address (get_translation hhdm_offset root address m)

  pub add_mappings-Added :
      (mps : List Mapping) {m : Memory} {place : Place}
      → IsTree hhdm_offset root m place
      → AllFit mps
      → tables_of mps ≤ m.free.size
      → Added mps m place
  unfolding add_mappings look_up
  add_mappings-Added [] {m} {place} t fits room = record {
    after = m;
    place' = place;
    returns = refl;
    tree = t;
    keeps_place = λ x r h. h;
    spent = omega arith;
    shrinks = λ g. omega arith;
    translates = λ address. refl;
  }
  add_mappings-Added (mp ∷ mps) {m} t fits room =
      let base = mp.from_virtual.base in
      let (top, wide, low, ok_flags) = fits.0 in
      let one =
        paging_add_mapping-MappedPages hhdm_offset root base mp.to_physical mp.from_virtual.size
          mp.flags t ok_flags top wide low (omega arith) in
      let number = (range_pages base mp.from_virtual.size top).3 in
      let rest = add_mappings-Added mps one.tree fits.1 (omega (arith, one.spent)) in
      record {
        after = rest.after;
        place' = rest.place';
        returns = rw (one.returns, ◌>>=◌) rest.returns;
        tree = rest.tree;
        keeps_place = λ x r h. rest.keeps_place x r (one.keeps_place x r h);
        spent = omega (arith, one.spent, rest.spent);
        shrinks = λ g. omega (arith, one.shrinks g, rest.shrinks g);
        translates = λ address.
            rest.translates address
            ∙ ap (look_up mps address) (one.translates address ∙ rw number refl);
      }
