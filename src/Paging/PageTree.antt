-- ===== src/Paging/PageTree.antt =====
-- The four-level page tree, kernel/src/PageTree.cpp. A `PageTreeNode` is named by the virtual address
-- at which the kernel reaches it, and memory holds the entries of every such node. Physical and
-- virtual addresses differ by the HHDM offset (`kernel_physical_to_virtual`), a parameter.
pub mod Walk
pub mod Grow
pub mod Missing
pub mod Step
pub mod Descend
pub mod Map
use dav_os.Base.{ℕ, zero, suc, ◌+◌, ◌*◌, ◌/◌, ◌%◌, ◌^◌, ◌==◌, ◌&&◌, if◌then◌else◌, bit_and}
use dav_os.Base.Words.{add64}
use dav_os.Base.Run.{Run, ok, panic, ◌>>=◌}
use dav_os.Kpp.NonOwningStack.{NonOwningStack}
use dav_os.Frames.{allocate_frame, kernel_physical_to_virtual}
use dav_os.Paging.PageTreeNode.{
  PageFlags, get_child_address, set_child_address, set_child_flags, get_child_flags,
}

-- The entries of the nodes in memory: address of the node, index, entry.
abbrev pub Nodes : Type 0
Nodes = ℕ → ℕ → ℕ

abbrev pub update_entry : ℕ → ℕ → ℕ → Nodes → Nodes
update_entry node index entry nodes n i = if n == node && i == index then entry else nodes n i

-- `new(address) PageTreeNode`: all entries are zero.
abbrev pub new_node : ℕ → Nodes → Nodes
new_node address nodes n i = if n == address then 0 else nodes n i

-- What the page tree changes: the nodes, and the stack that the frame allocator keeps.
pub record Memory : Type 0 where
  pub nodes : Nodes
  pub free : NonOwningStack

pub record PageTranslation : Type 0 where
  pub physical_address : ℕ
  pub flags : PageFlags

unfoldable pub index_start : ℕ → Run ℕ
index_start zero = ok 39
index_start (suc zero) = ok 30
index_start (suc (suc zero)) = ok 21
index_start (suc (suc (suc zero))) = ok 12
index_start (suc (suc (suc (suc depth)))) = panic

unfoldable pub get_table_index : ℕ → ℕ → Run ℕ
unfolding index_start
get_table_index virtual_address depth = do
  start ← index_start depth
  ok (bit_and (virtual_address / 2 ^ start) 0x1ff)

module _ (hhdm_offset : ℕ) where
  -- The body of the loop of `map_page_to_frame`: the next node, allocated where there is none.
  pub next_node : PageFlags → ℕ → ℕ → Memory → Run (ℕ × Memory)
  next_node flags curr child_index m =
      let child_address = get_child_address (m.nodes curr child_index) in
      if child_address == 0
      then (do
        (frame, free') ← allocate_frame m.free
        let next = kernel_physical_to_virtual hhdm_offset frame
        let cleared = new_node next m.nodes
        let linked = set_child_flags (set_child_address (cleared curr child_index) frame) flags
        ok (
          next,
          record {
            nodes = update_entry curr child_index (set_child_flags linked flags) cleared;
            free = free';
          },
        ))
      else ok (
        kernel_physical_to_virtual hhdm_offset child_address,
        record m {
          nodes =
              update_entry curr child_index (set_child_flags (m.nodes curr child_index) flags)
                m.nodes;
        },
      )

  -- `rounds` rounds of that loop, from `depth` on.
  pub descend : PageFlags → ℕ → ℕ → ℕ → ℕ → Memory → Run (ℕ × Memory)
  unfolding get_table_index next_node
  descend flags page zero depth curr m = ok (curr, m)
  descend flags page (suc rounds) depth curr m = do
    child_index ← get_table_index page depth
    (next, m') ← next_node flags curr child_index m
    descend flags page rounds (depth + 1) next m'

  pub map_page_to_frame : ℕ → ℕ → ℕ → PageFlags → Memory → Run Memory
  map_page_to_frame root page frame flags m = do
    (curr, m') ← descend flags page 3 0 root m
    child_index ← get_table_index page 3
    let entry = set_child_flags (set_child_address (m'.nodes curr child_index) frame) flags
    ok (record m' { nodes = update_entry curr child_index entry m'.nodes })

  unfoldable pub translate_from : ℕ → ℕ → ℕ → ℕ → Memory → Run PageTranslation
  unfolding get_table_index
  translate_from virtual_address zero depth curr m = do
    child_index ← get_table_index virtual_address depth
    let entry = m.nodes curr child_index
    ok (record { physical_address = get_child_address entry; flags = get_child_flags entry })
  translate_from virtual_address (suc rounds) depth curr m = do
    child_index ← get_table_index virtual_address depth
    let child_address = get_child_address (m.nodes curr child_index)
    let next = kernel_physical_to_virtual hhdm_offset child_address
    let rest = translate_from virtual_address rounds (depth + 1) next m
    if child_address == 0 then ok (record { physical_address = 0; flags = 0 }) else rest

  unfoldable pub get_translation : ℕ → ℕ → Memory → Run PageTranslation
  unfolding translate_from
  get_translation root virtual_address m = translate_from virtual_address 3 0 root m
