-- ===== src/Heap/RoundTrip.antt =====
-- `allocate_impl` followed by `deallocate_impl`.
use mathlib.Core.List.{append_assoc}
use dav_os.Base.{
  ℕ, suc, ◌+◌, ◌-◌, ◌^◌, ◌≤◌, ◌<◌, ◌≡◌, ◌≢◌, refl, sym, ap, ◌∙◌, List, [], ◌∷◌, ◌++◌, leb, arith,
  length, inl, inr, Bool-cases, some, length-append,
}
use dav_os.Base.Words.{sub64}
use dav_os.Base.Run.{ok, ◌>>=◌}
use dav_os.Heap.{
  Heap, size_at, next_at, magic_at, sizeof_free, sizeof_used, magic_constant, allocate, deallocate,
  find_spot, link_block, freed_size, link, prev_at,
}
use dav_os.Heap.List.{Block, block, Chain, Ordered, find_fit, find_fit-bounds}
use dav_os.Heap.Merge.{
  join, join_last, Ordered-change, IsApart, IsApart-drop, Gapped, coalesce_next-none,
  coalesce_prev-none,
}
use dav_os.Heap.Deallocate.{deallocate-Freed, join_last-snoc}
use dav_os.Heap.Allocate.{allocate-Split, cut, used_header}

abbrev rest_of : ℕ → Block → Block
rest_of request b = block b.addr (b.size - (request + sizeof_used))

record CutAt (request : ℕ) (b : Block) (bs : List Block) : Type 0 where
  before : List Block
  behind : List Block
  whole : bs ≡ before ++ (b ∷ behind)
  after : cut request bs ≡ before ++ (rest_of request b ∷ behind)

cut-CutAt :
    (bs : List Block) (request : ℕ) (b : Block) → find_fit request bs ≡ some b → CutAt request b bs
cut-CutAt [] request b e = absurd (ground (arith, e))
cut-CutAt (x ∷ xs) request b e = elim (Bool-cases (leb (request + sizeof_used) x.size)) [
  | inl fits ↦
      let same : x ≡ b = ground (arith, fits, e) in
      record { before = []; behind = xs; whole = rw same refl; after = rw fits (rw same refl) }
  | inr over ↦
      let r = cut-CutAt xs request b (ground (arith, over, e)) in
      record {
        before = x ∷ r.before;
        behind = r.behind;
        whole = ap (λ l. x ∷ l) r.whole;
        after = rw over (ap (λ l. x ∷ l) r.after);
      }
]

-- The used block as the free block that it becomes.
abbrev used_block : ℕ → Block → Block
used_block request b = block (used_header request b) (request - 8)

Ordered-split :
    (request : ℕ) (b : Block) (gs : List Block) (lo : ℕ)
    → request + sizeof_used < b.size
    → 8 ≤ request
    → Ordered lo (b ∷ gs)
    → Ordered lo (rest_of request b ∷ used_block request b ∷ gs)
Ordered-split request b gs lo room big o =
    let end : used_header request b + sizeof_free + (request - 8) ≡ b.addr + sizeof_free + b.size =
      omega arith in
    (o.0, (omega arith, rw end o.1))

join-used :
    (request : ℕ) (b : Block) (gs : List Block)
    → request + sizeof_used < b.size
    → 8 ≤ request
    → Gapped (b.addr + sizeof_free + b.size) gs
    → join (rest_of request b) (join (used_block request b) gs) ≡ b ∷ gs
join-used request b [] room big g = ground arith
join-used request b (c ∷ cs) room big g = ground (arith, g)

length-snoc : (fs : List Block) (b : Block) → length (fs ++ (b ∷ [])) ≡ suc (length fs)
length-snoc fs b = omega (arith, length-append fs (b ∷ []))

-- On a free list in address order in which no two blocks touch, with one round of fuel more than
-- it has blocks, a request of at least 8 bytes for which the first block with room is larger than
-- needed can be allocated and freed again, and the list is then the same, block by block.
pub allocate-deallocate :
    (bs : List Block) (fuel request lo : ℕ) (b : Block) (h : Heap)
    → Chain h.mem h.head bs
    → Ordered lo bs
    → IsApart bs
    → length bs < fuel
    → request + sizeof_used < 2 ^ 64
    → find_fit request bs ≡ some b
    → request + sizeof_used ≢ b.size
    → 8 ≤ request
    → (h' : Heap) × ((allocate fuel request h >>= λ (p, h1). deallocate fuel p h1) ≡ ok h')
      × Chain h'.mem h'.head bs
allocate-deallocate bs fuel request lo b h c o apart enough small e loose big =
    let in_list = find_fit-bounds bs request lo b o e in
    let room : request + sizeof_used < b.size = ground (arith, in_list, loose) in
    let k = cut-CutAt bs request b e in
    let fs = k.before in
    let gs = k.behind in
    let s = allocate-Split bs fuel request lo b h c o enough small e loose in
    let h1 = (s.0).1 in
    let b' = rest_of request b in
    let u = used_block request b in
    let fs' = fs ++ (b' ∷ []) in
    let chain : Chain h1.mem h1.head (fs' ++ gs) =
      rw (append_assoc fs (b' ∷ []) gs, sym k.after, s.2.1) s.2.3 in
    let order : Ordered lo (fs' ++ (u ∷ gs)) = rw (append_assoc fs (b' ∷ []) (u ∷ gs)) (
      Ordered-change fs (b ∷ gs) (b' ∷ u ∷ gs) lo
        (λ lo' o'. Ordered-split request b gs lo' room big o') (rw k.whole at o)) in
    let rounds : length fs' < fuel =
      omega (arith, length-snoc fs b', ap length k.whole, length-append fs (b ∷ gs)) in
    let size : h1.mem (size_at u.addr) + sizeof_used ≡ u.size + sizeof_free =
      omega (arith, s.2.2.0) in
    let d =
      deallocate-Freed fs' gs u fuel lo h1 chain order (ground (arith, room)) s.2.2.1 size rounds in
    let gap : Gapped (b.addr + sizeof_free + b.size) gs =
      IsApart-drop fs (b ∷ gs) (rw k.whole at apart) in
    let merged : join_last fs' (join u gs) ≡ bs =
      join_last-snoc fs b' (join u gs)
      ∙ (ap (λ l. fs ++ l) (join-used request b gs room big gap) ∙ sym k.whole) in
    let pointer : (s.0).0 ≡ u.addr + sizeof_used = s.2.0 ∙ omega (arith, room, in_list) in
    (d.0, rw (s.1, pointer) d.1, rw merged at d.2.0)

-- A block of its own, behind no list.
link_block-alone :
    (a : ℕ) (h : Heap)
    → a ≢ 0
    → a + sizeof_free < 2 ^ 64
    → Chain (link_block a 0 0 h).mem (link_block a 0 0 h).head (block a (freed_size a h.mem) ∷ [])
unfolding link_block link
link_block-alone a h some_block top =
    let mem' = link a 0 0 h.mem in
    let next : mem' (next_at a) ≡ 0 = ground (arith, top) in
    let prev : mem' (prev_at a) ≡ 0 = ground (arith, top) in
    let size : mem' a ≡ freed_size a h.mem = ground (arith, top) in
    rw (coalesce_next-none a mem' next, coalesce_prev-none a mem' prev)
      (refl, some_block, size, next)

-- With an empty free list, freeing a used block of fewer than 8 bytes returns a list of one block
-- whose size has wrapped round: it is 2 ^ 64 less the bytes missing to 8.
pub deallocate-small :
    (fuel a size : ℕ) (h : Heap)
    → h.head ≡ 0
    → a ≢ 0
    → a + sizeof_free < 2 ^ 64
    → h.mem (magic_at a) ≡ magic_constant
    → h.mem (size_at a) ≡ size
    → size < 8
    → (h' : Heap) × (deallocate (suc fuel) (a + sizeof_used) h ≡ ok h')
      × Chain h'.mem h'.head (block a (2 ^ 64 - (8 - size)) ∷ [])
unfolding deallocate find_spot
deallocate-small fuel a size h e some_block top magic sized small =
    let used : sub64 (a + sizeof_used) sizeof_used ≡ a = omega (arith, top) in
    let wraps : freed_size a h.mem ≡ 2 ^ 64 - (8 - size) =
      unfold freed_size in rw sized (omega (arith, small)) in
    (
      link_block a 0 0 h,
      rw (used, magic, e) refl,
      rw wraps at (link_block-alone a h some_block top),
    )
