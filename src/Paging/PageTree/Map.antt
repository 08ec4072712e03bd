-- ===== src/Paging/PageTree/Map.antt =====
-- `map_page_to_frame` against `get_translation`.
use dav_os.Base.{
  ℕ, ◌+◌, ◌/◌, ◌%◌, ◌^◌, ◌≤◌, ◌≡◌, ◌≢◌, refl, sym, ap, ◌∙◌, ◌==◌, List, inl, inr, some, [],
  if◌then◌else◌, arith, Bool-cases, bit_or,
}
use dav_os.Base.Words.{bit_and_mask}
use dav_os.Base.Run.{ok, ◌>>=◌}
use dav_os.Kpp.NonOwningStack.{contents}
use dav_os.Frames.Init.{count}
use dav_os.Paging.PageTreeNode.{
  PageFlags, IsFlags, present, set_child_address, set_child_flags, get_child_address-set_low,
  get_child_flags-set_child_flags,
}
use dav_os.Paging.PageTree.{
  Memory, update_entry, map_page_to_frame, get_translation, get_table_index,
}
use dav_os.Paging.PageTree.Walk.{index_at, upper_path, decode, entry_at, get_translation-entry_at}
use dav_os.Paging.PageTree.Grow.{Place, IsTree}
use dav_os.Paging.PageTree.Missing.{missing}
use dav_os.Paging.PageTree.Descend.{
  entry_at-Reaches, missing-Reaches, Reaches, Descended, descend-Descended, IsTree-leaf, other_leaf,
  Reaches-leaf,
}

-- The page number, the part of an address that the tables translate.
abbrev pub page_number : ℕ → ℕ
page_number address = address / 2 ^ 12 % 2 ^ 36

page_of_indices :
    (a b : ℕ)
    → index_at a 39 ≡ index_at b 39
    → index_at a 30 ≡ index_at b 30
    → index_at a 21 ≡ index_at b 21
    → index_at a 12 ≡ index_at b 12
    → page_number a ≡ page_number b
page_of_indices a b p q r s = omega arith

indices_of_page :
    (a b : ℕ)
    → page_number a ≡ page_number b
    → (index_at a 39 ≡ index_at b 39)
      × (index_at a 30 ≡ index_at b 30)
      × (index_at a 21 ≡ index_at b 21)
      × (index_at a 12 ≡ index_at b 12)
indices_of_page a b p = omega arith

-- After the call the page translates to the low 32 bits of the frame and the flags, every other address
-- as before, and no table is missing on the page's path.
pub record Mapped (hhdm_offset root page frame : ℕ) (flags : PageFlags) (m : Memory) (place : Place)
    : Type 0 where
  pub after : Memory
  pub place' : Place
  pub returns : map_page_to_frame hhdm_offset root page frame flags m ≡ ok after
  pub tree : IsTree hhdm_offset root after place'
  pub keeps_place : (x : ℕ) (r : List ℕ) → place x ≡ some r → place' x ≡ some r
  pub spent : m.free.size ≤ after.free.size + missing hhdm_offset m.nodes root (upper_path page)
  pub complete : missing hhdm_offset after.nodes root (upper_path page) ≡ 0
  pub shrinks : (g : ℕ) → count g (contents after.free) ≤ count g (contents m.free)
  pub translates :
      (address : ℕ)
      → get_translation hhdm_offset root address after ≡ (
          if page_number address == page_number page
          then ok
              (record { physical_address = frame % 2 ^ 32; flags = bit_or flags present % 2 ^ 8 })
          else get_translation hhdm_offset root address m)

module _ {hhdm_offset root : ℕ} {m : Memory} {place : Place} (page frame : ℕ) (flags : PageFlags)
    (t : IsTree hhdm_offset root m place) (ok_flags : IsFlags flags) (aligned : frame % 0x1000 ≡ 0)
    (d : Descended hhdm_offset root flags m place page) where
  written : ℕ
  written =
      set_child_flags (set_child_address (d.after.nodes d.curr (index_at page 12)) frame) flags

  abbrev result : Memory
  result = record {
    nodes = update_entry d.curr (index_at page 12) written d.after.nodes;
    free = d.after.free;
  }

  decode-written :
      decode written
      ≡ record { physical_address = frame % 2 ^ 32; flags = bit_or flags present % 2 ^ 8 }
  unfolding written
  decode-written =
      let e = d.after.nodes d.curr (index_at page 12) in
      rw (
        get_child_address-set_low e frame flags ok_flags aligned,
        get_child_flags-set_child_flags (set_child_address e frame) flags,
      )

  root_at' : d.place' root ≡ some []
  root_at' = d.tree.root_at

  still_reached : Reaches hhdm_offset result.nodes root (upper_path page) d.curr
  still_reached =
      Reaches-leaf hhdm_offset d.tree d.curr _ d.at refl (index_at page 12) written root []
        (upper_path page) root_at' refl d.reached

  entry_here : entry_at hhdm_offset result.nodes root (upper_path page) (index_at page 12) ≡ written
  entry_here =
      entry_at-Reaches hhdm_offset result.nodes root d.curr (upper_path page) (index_at page 12)
        still_reached
      ∙ ground arith

  entry_there :
      (address : ℕ)
      → page_number address ≢ page_number page
      → entry_at hhdm_offset result.nodes root (upper_path address) (index_at address 12)
        ≡ entry_at hhdm_offset m.nodes root (upper_path address) (index_at address 12)
  entry_there address other =
      other_leaf hhdm_offset d.tree d.curr _ d.at refl (index_at page 12) written root []
        (upper_path address) (index_at address 12) root_at' refl
        (λ path leaf. other (page_of_indices address page (cc) (cc) (cc) leaf))
      ∙ d.extends.keeps_entry root [] (upper_path address) (index_at address 12) t.root_at refl

  same_entry :
      (address : ℕ)
      → page_number address ≡ page_number page
      → entry_at hhdm_offset result.nodes root (upper_path address) (index_at address 12)
        ≡ entry_at hhdm_offset result.nodes root (upper_path page) (index_at page 12)
  same_entry address same = let (a, b, c, e) = indices_of_page address page same in rw (a, b, c, e)

  finish_translates :
      (address : ℕ)
      → get_translation hhdm_offset root address result ≡ (
          if page_number address == page_number page
          then ok
              (record { physical_address = frame % 2 ^ 32; flags = bit_or flags present % 2 ^ 8 })
          else get_translation hhdm_offset root address m)
  finish_translates address = elim (Bool-cases (page_number address == page_number page)) [
    | inl same ↦ rw same (
        get_translation-entry_at hhdm_offset root address result
        ∙ ap (λ e. ok (decode e)) (same_entry address (ground arith) ∙ entry_here)
        ∙ ap ok decode-written)
    | inr other ↦ rw other (
        get_translation-entry_at hhdm_offset root address result
        ∙ ap (λ e. ok (decode e)) (entry_there address (ground arith))
        ∙ sym (get_translation-entry_at hhdm_offset root address m))
  ]

  pub finish : Mapped hhdm_offset root page frame flags m place
  unfolding map_page_to_frame get_table_index written
  finish = record {
    after = result;
    place' = d.place';
    returns = rw (d.returns, ◌>>=◌, bit_and_mask 9 (page / 2 ^ 12));
    tree = IsTree-leaf hhdm_offset d.tree d.curr _ d.at refl (index_at page 12) written;
    keeps_place = d.extends.keeps_place;
    spent = d.spent;
    complete = missing-Reaches hhdm_offset result.nodes root d.curr (upper_path page) still_reached;
    shrinks = d.shrinks;
    translates = finish_translates;
  }

module _ {hhdm_offset root : ℕ} {m : Memory} {place : Place} where
  -- In a page tree without sharing, whose free frames are on a valid stack, differ from each other
  -- and from the tables, are not 0 and lie at frame boundaries below 4 GiB, and with a free frame
  -- for each table that is missing on the page's path, a call of map_page_to_frame with flags
  -- outside the address bits and a frame at a page boundary returns, keeps the nodes a tree, takes
  -- at most as many frames off the free stack as tables were missing and puts none on it, leaves
  -- no table missing on the path, and changes the translation of the given page alone: its
  -- addresses translate to the low 32 bits of the frame's address, with the low byte of the flags
  -- and the present bit, and every other address as before.
  pub map_page_to_frame-Mapped :
      (page frame : ℕ) (flags : PageFlags)
      → IsTree hhdm_offset root m place
      → IsFlags flags
      → frame % 0x1000 ≡ 0
      → missing hhdm_offset m.nodes root (upper_path page) ≤ m.free.size
      → Mapped hhdm_offset root page frame flags m place
  map_page_to_frame-Mapped page frame flags t ok_flags aligned room =
      finish page frame flags t ok_flags aligned
        (descend-Descended hhdm_offset flags page ok_flags t room)
