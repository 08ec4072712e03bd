-- ===== src/Paging/PageTree/Walk.antt =====
-- A translation reads one entry: the one at the end of a path of table indices.
use dav_os.Base.{ℕ, ◌/◌, ◌%◌, ◌^◌, ◌≡◌, refl, ap, ◌==◌, List, [], ◌∷◌, if◌then◌else◌, arith}
use dav_os.Base.Words.{add64, bit_and_mask}
use dav_os.Base.Run.{ok}
use dav_os.Paging.PageTreeNode.{get_child_address, get_child_flags}
use dav_os.Kpp.NonOwningStack.{NonOwningStack}
use dav_os.Paging.PageTree.{Nodes, Memory, PageTranslation, translate_from, get_translation}

-- Bits of an address that choose the entry at a level.
abbrev pub index_at : ℕ → ℕ → ℕ
index_at address start = address / 2 ^ start % 2 ^ 9

abbrev pub upper_path : ℕ → List ℕ
upper_path address = index_at address 39 ∷ index_at address 30 ∷ index_at address 21 ∷ []

abbrev pub decode : ℕ → PageTranslation
decode entry = record { physical_address = get_child_address entry; flags = get_child_flags entry }

pub address_zero : get_child_address 0 ≡ 0
unfolding get_child_address
address_zero = refl

pub decode_zero : decode 0 ≡ record { physical_address = 0; flags = 0 }
unfolding get_child_address get_child_flags
decode_zero = refl

module _ (hhdm_offset : ℕ) where
  -- The entry `leaf` of the table at the end of a path, 0 where the path ends early.
  unfoldable pub entry_at : Nodes → ℕ → List ℕ → ℕ → ℕ
  entry_at nodes node [] leaf = nodes node leaf
  entry_at nodes node (i ∷ is) leaf =
      if get_child_address (nodes node i) == 0
      then 0
      else entry_at nodes (add64 (get_child_address (nodes node i)) hhdm_offset) is leaf

  -- `get_translation` decodes the entry on the address's path.
  pub get_translation-entry_at :
      (root address : ℕ) (m : Memory)
      → get_translation hhdm_offset root address m
        ≡ ok (decode (entry_at m.nodes root (upper_path address) (index_at address 12)))
  unfolding get_translation entry_at
  get_translation-entry_at root address m = ground (
    arith,
    bit_and_mask 9 (address / 2 ^ 39),
    bit_and_mask 9 (address / 2 ^ 30),
    bit_and_mask 9 (address / 2 ^ 21),
    bit_and_mask 9 (address / 2 ^ 12),
    decode_zero,
  )

  -- Below an empty table there is nothing.
  pub entry_at_empty :
      (nodes : Nodes) (node : ℕ) (is : List ℕ) (leaf : ℕ)
      → ((i : ℕ) → nodes node i ≡ 0)
      → entry_at nodes node is leaf ≡ 0
  unfolding entry_at
  entry_at_empty nodes node [] leaf z = z leaf
  entry_at_empty nodes node (i ∷ is) leaf z =
      ground (arith, z i, ap get_child_address (z i), address_zero)

-- A translation reads the nodes alone.
pub get_translation-free :
    (hhdm_offset root address : ℕ) (m : Memory) (s : NonOwningStack)
    → get_translation hhdm_offset root address (record m { free = s })
      ≡ get_translation hhdm_offset root address m
unfolding get_translation translate_from
get_translation-free hhdm_offset root address m s = refl
