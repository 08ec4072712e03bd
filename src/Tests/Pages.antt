-- ===== src/Tests/Pages.antt =====
-- The page tree and the ranges of addresses at concrete inputs: an empty root table, and three free
-- frames.
use dav_os.Base.{ℕ, ◌≡◌, refl, ◌==◌, if◌then◌else◌, [], ◌∷◌, some, none, arith}
use dav_os.Paging.Address.{page_floor, get_page_range}
use dav_os.Paging.PageTreeNode.{get_child_address}
use dav_os.Paging.PageTree.{Memory}
use dav_os.Paging.PageTree.Grow.{Place, IsTree}
use dav_os.Paging.PageTree.Map.{Mapped, map_page_to_frame-Mapped}
use dav_os.Paging.Mapping.{
  paging_add_mapping, pages_of, tables_for, MappedPages, paging_add_mapping-MappedPages,
}
use dav_os.Paging.PageTree.Walk.{upper_path}
use dav_os.Paging.PageTree.Missing.{missing-le-length}

abbrev offset : ℕ
offset = 0x8000_0000_0000_0000

abbrev root_table : ℕ
root_table = 0x8000_0000_0010_0000

abbrev empty_memory : Memory
empty_memory = record {
  nodes = λ _ _. 0;
  free = record { slots = 0x1000 ∷ 0x2000 ∷ 0x3000 ∷ []; max_size = 3; size = 3 };
}

abbrev root_only : Place
root_only x = if x == root_table then some [] else none

-- An empty entry has no child.
no_child : get_child_address 0 ≡ 0
unfolding get_child_address
no_child = refl

empty_memory-IsTree : IsTree offset root_table empty_memory root_only
empty_memory-IsTree = record {
  root_at = refl;
  child_at = λ v i p h d child. absurd (child no_child);
  free_valid = record { fits = omega arith; size_in = omega arith };
  free_once = λ f. ground arith;
  free_apart = λ f h. (ground (arith, h), ground (arith, h), ground (arith, h));
}

map_page_to_frame-Mapped_example :
    Mapped offset root_table 0x40_0000 0x1_0000_7000 2 empty_memory root_only
map_page_to_frame-Mapped_example =
    map_page_to_frame-Mapped 0x40_0000 0x1_0000_7000 2 empty_memory-IsTree refl refl
      (missing-le-length offset empty_memory.nodes root_table (upper_path 0x40_0000))

-- Three pages below one table, the last on a frame above 4 GiB, and three frames for tables.
paging_add_mapping-MappedPages_example :
    let r = get_page_range 0x40_0010 0x2100 in
    MappedPages offset root_table r.first_page
      (pages_of 0x40_0010 0x2100)
      (page_floor 0xffff_e000)
      2
      (tables_for (pages_of 0x40_0010 0x2100) r.first_page)
      empty_memory
      root_only
      (paging_add_mapping offset root_table 0x40_0010 0xffff_e000 0x2100 2 empty_memory)
paging_add_mapping-MappedPages_example =
    paging_add_mapping-MappedPages offset root_table 0x40_0010 0xffff_e000 0x2100 2
      empty_memory-IsTree refl (omega arith) (omega arith) (omega arith)
      (unfold get_page_range in omega arith)
