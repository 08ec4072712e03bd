-- ===== src/Heap/Region.antt =====
-- `FreeListAllocator::add_memory`: a region of memory becomes a free block of the list.
use dav_os.Base.{ℕ, ◌+◌, ◌-◌, ◌^◌, ◌≤◌, ◌<◌, ◌≡◌, ◌≢◌, refl, List, [], ◌∷◌, ◌++◌, arith, length}
use dav_os.Base.Words.{add64}
use dav_os.Base.Run.{ok}
use dav_os.Heap.{
  Words, Heap, size_at, next_at, magic_at, sizeof_free, sizeof_used, magic_constant, new_used,
  add_memory,
}
use dav_os.Heap.List.{
  Block, block, Chain, Ordered, SameAt, Chain-SameAt, SameAt-above, lt_of_Ordered,
}
use dav_os.Heap.Merge.{join_last, Ordered-at, IsApart, Gapped}
use dav_os.Heap.Deallocate.{Freed, deallocate-Freed}

-- Writes between two parts of a list spare both.
SameAt-around :
    (fs gs : List Block) (b : Block) (lo : ℕ) (mem mem' : Words)
    → Ordered lo (fs ++ (b ∷ gs))
    → ((y : ℕ) → y < b.addr → mem' y ≡ mem y)
    → ((y : ℕ) → b.addr + sizeof_free + b.size ≤ y → y < 2 ^ 64 → mem' y ≡ mem y)
    → SameAt mem mem' (fs ++ gs)
SameAt-around [] gs b lo mem mem' o below above =
    SameAt-above mem mem' (b.addr + sizeof_free + b.size) gs o.1 above
SameAt-around (f ∷ fs) gs b lo mem mem' o below above =
    let at = Ordered-at fs b gs (f.addr + sizeof_free + f.size) o.1 in
    let top = lt_of_Ordered (b.addr + sizeof_free + b.size) gs at.1 in
    (
      below f.addr (omega (arith, at.0)),
      below (next_at f.addr) (omega (arith, at.0, top)),
      SameAt-around fs gs b (f.addr + sizeof_free + f.size) mem mem' o.1 below above,
    )

-- What a region of a given base and size becomes.
abbrev pub region_block : ℕ → ℕ → Block
region_block base size = block base (size - 8)

-- Adding a region of at least 8 bytes that overlaps no block, when its size is counted as that of a
-- block behind a free header, is like freeing that block.
pub add_memory-Freed :
    (fs gs : List Block) (base size fuel lo : ℕ) (h : Heap)
    → Chain h.mem h.head (fs ++ gs)
    → Ordered lo (fs ++ (region_block base size ∷ gs))
    → base ≢ 0
    → 8 ≤ size
    → length fs < fuel
    → (h' : Heap) × (add_memory fuel base size h ≡ ok h')
      × Freed fs (region_block base size) gs lo h'
unfolding add_memory
add_memory-Freed fs gs base size fuel lo h c o some_base big enough =
    let b = region_block base size in
    let at = Ordered-at fs b gs lo o in
    let top = lt_of_Ordered (base + sizeof_free + (size - 8)) gs at.1 in
    let exact : add64 base sizeof_used ≡ base + sizeof_used = omega (arith, top) in
    let mem' : Words = new_used base size h.mem in
    let same =
      SameAt-around fs gs b lo h.mem mem' o (λ y l. ground (arith, top))
        (λ y l t. ground (arith, top)) in
    let magic : mem' (magic_at base) ≡ magic_constant = ground arith in
    let sized : mem' (size_at base) ≡ size = ground (arith, top) in
    rw exact (
      deallocate-Freed fs gs b fuel lo (record h { mem = mem' })
        (Chain-SameAt h.mem mem' h.head (fs ++ gs) c same) o some_base magic
        (rw sized (omega arith)) enough)

-- A block that touches none before it is added at the end of the list as it is.
pub join_last-apart :
    (fs : List Block) (b : Block)
    → IsApart (fs ++ (b ∷ []))
    → join_last fs (b ∷ []) ≡ fs ++ (b ∷ [])
join_last-apart [] b a = refl
join_last-apart (f ∷ []) b a = ground (arith, a)
join_last-apart (f ∷ g ∷ fs) b a = rw (join_last-apart (g ∷ fs) b a.1)

pub Ordered-prefix : (fs gs : List Block) (lo : ℕ) → Ordered lo (fs ++ gs) → Ordered lo fs
Ordered-prefix [] gs lo o = lt_of_Ordered lo gs o
Ordered-prefix (f ∷ fs) gs lo o = (o.0, Ordered-prefix fs gs (f.addr + sizeof_free + f.size) o.1)

Gapped-prefix : (end : ℕ) (fs gs : List Block) → Gapped end (fs ++ gs) → Gapped end fs
Gapped-prefix end [] gs g = tt
Gapped-prefix end (f ∷ fs) gs g = (g.0, Gapped-prefix (f.addr + sizeof_free + f.size) fs gs g.1)

pub IsApart-prefix : (fs gs : List Block) → IsApart (fs ++ gs) → IsApart fs
IsApart-prefix [] gs a = tt
IsApart-prefix (f ∷ fs) gs a = Gapped-prefix (f.addr + sizeof_free + f.size) fs gs a
