-- ===== src/Heap/Merge.antt =====
-- The two merges of a free block with its neighbours, on a list in address order.
use dav_os.Base.{
  ℕ, ◌+◌, ◌≤◌, ◌<◌, ◌≡◌, ◌≢◌, refl, ◌∙◌, inl, inr, List, [], ◌∷◌, ◌++◌, ◌==◌, if◌then◌else◌,
  Bool-cases, arith,
}
use dav_os.Heap.{Words, next_at, prev_at, sizeof_free, real_size, coalesce_next, coalesce_prev}
use dav_os.Heap.List.{Block, block, Chain, Ordered, Chain-SameAt, SameAt-above, lt_of_Ordered}

-- A block takes in the one behind it if that one begins where it ends.
abbrev pub join : Block → List Block → List Block
join b [] = b ∷ []
join b (c ∷ cs) =
    if c.addr == b.addr + sizeof_free + b.size
    then block b.addr (b.size + (c.size + sizeof_free)) ∷ cs
    else b ∷ c ∷ cs

-- The last block of a list takes in the first block of another.
abbrev pub join_last : List Block → List Block → List Block
join_last [] bs = bs
join_last (f ∷ []) bs = join f bs
join_last (f ∷ g ∷ fs) bs = f ∷ join_last (g ∷ fs) bs

-- What an ordered list says of a block behind others.
pub Ordered-at :
    (fs : List Block) (b : Block) (rest : List Block) (lo : ℕ)
    → Ordered lo (fs ++ (b ∷ rest))
    → (lo ≤ b.addr) × Ordered (b.addr + sizeof_free + b.size) rest
Ordered-at [] b rest lo o = o
Ordered-at (f ∷ fs) b rest lo o =
    let r = Ordered-at fs b rest (f.addr + sizeof_free + f.size) o.1 in
    (omega (arith, r.0, o.0), r.1)

pub Ordered-change :
    (fs : List Block) (bs bs' : List Block) (lo : ℕ)
    → ((lo' : ℕ) → Ordered lo' bs → Ordered lo' bs')
    → Ordered lo (fs ++ bs)
    → Ordered lo (fs ++ bs')
Ordered-change [] bs bs' lo change o = change lo o
Ordered-change (f ∷ fs) bs bs' lo change o =
    (o.0, Ordered-change fs bs bs' (f.addr + sizeof_free + f.size) change o.1)

pub Ordered-lower : (bs : List Block) (lo lo' : ℕ) → Ordered lo bs → lo' ≤ lo → Ordered lo' bs
Ordered-lower [] lo lo' o h = omega arith
Ordered-lower (b ∷ bs) lo lo' o h = (omega (arith, o.0), o.1)

-- The block at `b` changes, with what follows it; writes are at `b` or above.
pub Chain-at :
    (fs : List Block) (b : Block) (rest rest' : List Block) (size lo a : ℕ) (mem mem' : Words)
    → Chain mem a (fs ++ (b ∷ rest))
    → Ordered lo (fs ++ (b ∷ rest))
    → ((y : ℕ) → y < b.addr → mem' y ≡ mem y)
    → mem' b.addr ≡ size
    → Chain mem' (mem' (next_at b.addr)) rest'
    → Chain mem' a (fs ++ (block b.addr size ∷ rest'))
Chain-at [] b rest rest' size lo a mem mem' c o same s r = (c.0, c.1, s, r)
Chain-at (f ∷ fs) b rest rest' size lo a mem mem' c o same s r =
    let at = Ordered-at fs b rest (f.addr + sizeof_free + f.size) o.1 in
    let top = lt_of_Ordered (b.addr + sizeof_free + b.size) rest at.1 in
    let next : mem' (next_at f.addr) ≡ mem (next_at f.addr) =
      same (next_at f.addr) (omega (arith, at.0, top)) in
    let size' : mem' f.addr ≡ mem f.addr = same f.addr (omega (arith, at.0)) in
    (
      c.0,
      c.1,
      size' ∙ c.2,
      rw next (
          Chain-at fs b rest rest' size (f.addr + sizeof_free + f.size) (mem (next_at f.addr)) mem
            mem' c.3 o.1 same s r),
    )

-- What follows the block at the end of `fs`.
pub Chain-behind :
    (fs : List Block) (b : Block) (rest : List Block) (a : ℕ) (mem : Words)
    → Chain mem a (fs ++ (b ∷ rest))
    → (b.addr ≢ 0) × (mem b.addr ≡ b.size) × Chain mem (mem (next_at b.addr)) rest
Chain-behind [] b rest a mem c = (c.1, c.2, c.3)
Chain-behind (f ∷ fs) b rest a mem c = Chain-behind fs b rest (mem (next_at f.addr)) mem c.3

-- `coalesce_next` merges a block of the list with its successor where they touch.
abbrev pub Joined : List Block → Block → List Block → ℕ → ℕ → Words → Words → Type 0
Joined fs b cs lo a mem mem' =
    Chain mem' a (fs ++ join b cs)
    × Ordered lo (fs ++ join b cs)
    × ((y : ℕ) → y ≢ b.addr → y ≢ next_at b.addr → mem' y ≡ mem y)

pub coalesce_next-Joined :
    (fs : List Block) (b : Block) (cs : List Block) (lo a : ℕ) (mem : Words)
    → Chain mem a (fs ++ (b ∷ cs))
    → Ordered lo (fs ++ (b ∷ cs))
    → Joined fs b cs lo a mem (coalesce_next b.addr mem)
unfolding coalesce_next real_size
coalesce_next-Joined fs b [] lo a mem c o =
    let r = Chain-behind fs b [] a mem c in
    let stays : coalesce_next b.addr mem ≡ mem = ground (arith, r.2) in
    rw stays (c, o, λ y p q. refl)
coalesce_next-Joined fs b (d ∷ cs) lo a mem c o =
    let r = Chain-behind fs b (d ∷ cs) a mem c in
    let at = Ordered-at fs b (d ∷ cs) lo o in
    let top = lt_of_Ordered (d.addr + sizeof_free + d.size) cs at.1.1 in
    elim (Bool-cases (d.addr == b.addr + sizeof_free + b.size)) [
      | inl touch ↦
          let next : mem (next_at b.addr) ≡ d.addr = r.2.0 in
          let size : coalesce_next b.addr mem b.addr ≡ b.size + (d.size + sizeof_free) =
            rw next (ground (arith, r, top, touch)) in
          let link : coalesce_next b.addr mem (next_at b.addr) ≡ mem (next_at d.addr) =
            rw next (ground (arith, r, top, touch)) in
          let same : (y : ℕ)
              → y ≢ b.addr
              → y ≢ next_at b.addr
              → coalesce_next b.addr mem y ≡ mem y =
            λ y p q. rw next (ground (arith, p, q)) in
          let spared =
            SameAt-above mem (coalesce_next b.addr mem) (d.addr + sizeof_free + d.size) cs at.1.1
              (λ y l h. same y (omega (arith, l, at.1.0)) (omega (arith, l, at.1.0, top))) in
          let behind =
            Chain-SameAt mem (coalesce_next b.addr mem) (mem (next_at d.addr)) cs r.2.3 spared in
          let edge : b.addr + sizeof_free + (b.size + (d.size + sizeof_free))
              ≡ d.addr + sizeof_free + d.size =
            ground (arith, touch) in
          rw touch (
            Chain-at fs b (d ∷ cs) cs (b.size + (d.size + sizeof_free)) lo a mem
                (coalesce_next b.addr mem) c o
                (λ y h. same y (omega arith) (omega (arith, top, at.1.0))) size (rw link behind),
            Ordered-change fs (b ∷ d ∷ cs) (block b.addr (b.size + (d.size + sizeof_free)) ∷ cs) lo
                (λ lo' o'. (o'.0, rw edge o'.1.1)) o,
            same,
          )
      | inr apart ↦
          let stays : coalesce_next b.addr mem ≡ mem = ground (arith, r, at, top, apart) in
          rw (apart, stays) (c, o, λ y p q. refl)
    ]

-- `coalesce_prev` is `coalesce_next` of the block before, where the links agree.
pub coalesce_prev-next :
    (a p : ℕ) (mem : Words)
    → mem (prev_at a) ≡ p
    → p ≢ 0
    → a ≢ 0
    → mem (next_at p) ≡ a
    → coalesce_prev a mem ≡ coalesce_next p mem
unfolding coalesce_prev coalesce_next
coalesce_prev-next a p mem e hp ha l = rw (e, l) (ground (arith, hp, ha))

pub coalesce_next-none : (a : ℕ) (mem : Words) → mem (next_at a) ≡ 0 → coalesce_next a mem ≡ mem
unfolding coalesce_next
coalesce_next-none a mem e = rw e refl

pub coalesce_prev-none : (a : ℕ) (mem : Words) → mem (prev_at a) ≡ 0 → coalesce_prev a mem ≡ mem
unfolding coalesce_prev
coalesce_prev-none a mem e = rw e refl

-- No block begins where the one before it ends.
abbrev pub Gapped : ℕ → List Block → Type 0
Gapped end [] = Unit {0}
Gapped end (b ∷ bs) = (end ≢ b.addr) × Gapped (b.addr + sizeof_free + b.size) bs

abbrev pub IsApart : List Block → Type 0
IsApart [] = Unit {0}
IsApart (b ∷ bs) = Gapped (b.addr + sizeof_free + b.size) bs

pub join-IsApart : (b : Block) (bs : List Block) → IsApart bs → IsApart (join b bs)
join-IsApart b [] g = tt
join-IsApart b (c ∷ cs) g = elim (Bool-cases (c.addr == b.addr + sizeof_free + b.size)) [
  | inl touch ↦
      let edge : b.addr + sizeof_free + (b.size + (c.size + sizeof_free))
          ≡ c.addr + sizeof_free + c.size =
        ground (arith, touch) in
      rw touch (rw edge g)
  | inr apart ↦ rw apart (ground (arith, apart), g)
]

Gapped-join :
    (end : ℕ) (b : Block) (bs : List Block)
    → end ≢ b.addr
    → IsApart (join b bs)
    → Gapped end (join b bs)
Gapped-join end b [] h g = (h, g)
Gapped-join end b (c ∷ cs) h g = elim (Bool-cases (c.addr == b.addr + sizeof_free + b.size)) [
  | inl touch ↦ rw touch (h, rw touch at g)
  | inr apart ↦ rw apart (h, rw apart at g)
]

Gapped-join_last :
    (end : ℕ) (f : Block) (fs bs : List Block)
    → end ≢ f.addr
    → IsApart (join_last (f ∷ fs) bs)
    → Gapped end (join_last (f ∷ fs) bs)
Gapped-join_last end f [] bs h g = Gapped-join end f bs h g
Gapped-join_last end f (g' ∷ fs) bs h g = (h, g)

-- Merging where blocks touch leaves none that touch.
pub join_last-IsApart :
    (fs gs bs : List Block) → IsApart (fs ++ gs) → IsApart bs → IsApart (join_last fs bs)
join_last-IsApart [] gs bs a b = b
join_last-IsApart (f ∷ []) gs bs a b = join-IsApart f bs b
join_last-IsApart (f ∷ f' ∷ fs) gs bs a b =
    Gapped-join_last (f.addr + sizeof_free + f.size) f' fs bs a.0
      (join_last-IsApart (f' ∷ fs) gs bs a.1 b)

pub IsApart-drop : (fs gs : List Block) → IsApart (fs ++ gs) → IsApart gs
IsApart-drop [] gs a = a
IsApart-drop (f ∷ []) [] a = tt
IsApart-drop (f ∷ []) (g ∷ gs) a = a.1
IsApart-drop (f ∷ f' ∷ fs) gs a = IsApart-drop (f' ∷ fs) gs a.1
