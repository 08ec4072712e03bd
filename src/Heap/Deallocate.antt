-- ===== src/Heap/Deallocate.antt =====
-- `FreeListAllocator::deallocate_impl` on a list whose blocks are in address order.
use mathlib.Core.List.{append_assoc}
use dav_os.Base.{
  ℕ, ◌+◌, ◌<◌, ◌≡◌, ◌≢◌, refl, ap, ◌∙◌, inl, inr, ◌⊎◌, List, [], ◌∷◌, ◌++◌, ◌==◌, if◌then◌else◌,
  arith, length,
}
use dav_os.Base.Words.{sub64}
use dav_os.Base.Run.{ok}
use dav_os.Heap.{
  Heap, size_at, next_at, prev_at, magic_at, sizeof_free, sizeof_used, magic_constant,
  coalesce_next, freed_size, link, link_block, deallocate,
}
use dav_os.Heap.List.{Block, Chain, Ordered, lt_of_Ordered}
use dav_os.Heap.Merge.{
  IsApart, join-IsApart, join_last-IsApart, IsApart-drop, join, join_last, Ordered-at,
  Ordered-lower, Chain-behind, coalesce_next-Joined, coalesce_prev-next, coalesce_prev-none,
}
use dav_os.Heap.Link.{
  head_addr, last_addr, find_spot-between, Linked, link-Linked, Chain-first, Chain-head,
  Chain-between, head_fits,
}

-- What a deallocation leaves: the freed block in its place, merged with the neighbours that it touches.
abbrev pub Freed : List Block → Block → List Block → ℕ → Heap → Type 0
Freed fs b gs lo h =
    Chain h.mem h.head (join_last fs (join b gs)) × Ordered lo (join_last fs (join b gs))

-- With no block before.
link_block-first :
    (gs : List Block) (b : Block) (lo : ℕ) (h : Heap)
    → Chain h.mem h.head gs
    → Ordered lo (b ∷ gs)
    → b.addr ≢ 0
    → freed_size b.addr h.mem ≡ b.size
    → Freed [] b gs lo (link_block b.addr 0 (head_addr gs) h)
unfolding link_block
link_block-first gs b lo h c o some_block size =
    let mem' = link b.addr 0 (head_addr gs) h.mem in
    let top = lt_of_Ordered (b.addr + sizeof_free + b.size) gs o.1 in
    let l : Linked b.addr b.size 0 (head_addr gs) h.mem mem' = rw size at (
      link-Linked b.addr 0 (head_addr gs) h.mem (omega (arith, top)) (inl refl) (
        head_fits gs (b.addr + sizeof_free) (
          Ordered-lower gs (b.addr + sizeof_free + b.size) (b.addr + sizeof_free) o.1
            (omega arith)))) in
    let chain =
      Chain-first gs b h.mem mem' some_block (rw (Chain-head gs h.head h.mem c) at c) o.1 l in
    let j = coalesce_next-Joined [] b gs lo b.addr mem' chain o in
    let no_prev : coalesce_next b.addr mem' (prev_at b.addr) ≡ 0 =
      j.2 (prev_at b.addr) (omega (arith, top)) (omega (arith, top)) ∙ l.2 in
    rw (coalesce_prev-none b.addr (coalesce_next b.addr mem') no_prev) (j.0, j.1)

-- With a block before.
link_block-between :
    (fs : List Block) (p : Block) (gs : List Block) (b : Block) (lo : ℕ) (h : Heap)
    → Chain h.mem h.head (fs ++ (p ∷ gs))
    → Ordered lo (fs ++ (p ∷ b ∷ gs))
    → b.addr ≢ 0
    → freed_size b.addr h.mem ≡ b.size
    → (let h' = link_block b.addr p.addr (head_addr gs) h in
        Chain h'.mem h'.head (fs ++ join p (join b gs)) × Ordered lo (fs ++ join p (join b gs)))
unfolding link_block
link_block-between fs p gs b lo h c o some_block size =
    let mem' = link b.addr p.addr (head_addr gs) h.mem in
    let at = Ordered-at fs p (b ∷ gs) lo o in
    let top = lt_of_Ordered (b.addr + sizeof_free + b.size) gs at.1.1 in
    let some_prev : p.addr ≢ 0 = (Chain-behind fs p gs h.head h.mem c).0 in
    let l : Linked b.addr b.size p.addr (head_addr gs) h.mem mem' = rw size at (
      link-Linked b.addr p.addr (head_addr gs) h.mem (omega (arith, top))
        (inr (omega (arith, at.1.0)))
        (head_fits gs (b.addr + sizeof_free) (
          Ordered-lower gs (b.addr + sizeof_free + b.size) (b.addr + sizeof_free) at.1.1
            (omega arith)))) in
    let chain = Chain-between fs p gs b lo h.head h.mem mem' some_block c o l in
    let j =
      coalesce_next-Joined (fs ++ (p ∷ [])) b gs lo h.head mem'
        (rw (append_assoc fs (p ∷ []) (b ∷ gs)) chain) (rw (append_assoc fs (p ∷ []) (b ∷ gs)) o) in
    let mem'' = coalesce_next b.addr mem' in
    let prev : mem'' (prev_at b.addr) ≡ p.addr =
      j.2 (prev_at b.addr) (omega (arith, top)) (omega (arith, top)) ∙ l.2 in
    let next : mem'' (next_at p.addr) ≡ b.addr =
      j.2 (next_at p.addr) (omega (arith, at.1.0, top)) (omega (arith, at.1.0, top))
      ∙ l.3 some_prev in
    let k =
      coalesce_next-Joined fs p (join b gs) lo h.head mem''
        (rw (append_assoc fs (p ∷ []) (join b gs)) at j.0)
        (rw (append_assoc fs (p ∷ []) (join b gs)) at j.1) in
    let head : (if p.addr == 0 then b.addr else h.head) ≡ h.head = ground (arith, some_prev) in
    rw (coalesce_prev-next b.addr p.addr mem'' prev some_prev some_block next, head) (k.0, k.1)

last_view : (fs : List Block) → (fs ≡ []) ⊎ ((r : List Block × Block) × (fs ≡ r.0 ++ (r.1 ∷ [])))
last_view [] = inl refl
last_view (f ∷ fs) = elim (last_view fs) [
  | inl e ↦ inr (([], f), ap (λ l. f ∷ l) e)
  | inr (r, e) ↦ inr ((f ∷ r.0, r.1), ap (λ l. f ∷ l) e)
]

last_addr-snoc : (fs : List Block) (p : Block) (prev : ℕ) → last_addr prev (fs ++ (p ∷ [])) ≡ p.addr
last_addr-snoc [] p prev = refl
last_addr-snoc (f ∷ fs) p prev = last_addr-snoc fs p f.addr

pub join_last-snoc :
    (fs : List Block) (p : Block) (bs : List Block)
    → join_last (fs ++ (p ∷ [])) bs ≡ fs ++ join p bs
join_last-snoc [] p bs = refl
join_last-snoc (f ∷ []) p bs = refl
join_last-snoc (f ∷ g ∷ fs) p bs = ap (λ l. f ∷ l) (join_last-snoc (g ∷ fs) p bs)

link_block-Freed :
    (fs gs : List Block) (b : Block) (lo : ℕ) (h : Heap)
    → Chain h.mem h.head (fs ++ gs)
    → Ordered lo (fs ++ (b ∷ gs))
    → b.addr ≢ 0
    → freed_size b.addr h.mem ≡ b.size
    → Freed fs b gs lo (link_block b.addr (last_addr 0 fs) (head_addr gs) h)
link_block-Freed fs gs b lo h c o some_block size = elim (last_view fs) [
  | inl e ↦ rw e (link_block-first gs b lo h (rw e at c) (rw e at o) some_block size)
  | inr (r, e) ↦
      rw (e, last_addr-snoc r.0 r.1 0, join_last-snoc r.0 r.1 (join b gs))
        (link_block-between r.0 r.1 gs b lo h (rw (e, append_assoc r.0 (r.1 ∷ []) gs) at c)
          (rw (e, append_assoc r.0 (r.1 ∷ []) (b ∷ gs)) at o) some_block size)
]

-- On a free list in address order, with one round of fuel more than the list has blocks before it,
-- a used block of at least 8 bytes with the magic constant, which overlaps no free block and is
-- not at address 0, is freed: deallocate returns, and the list then holds the block in its place
-- in address order, its size counted as a free block's, merged with the block behind it if that
-- begins where it ends, and with the block before it if that ends where it begins.
pub deallocate-Freed :
    (fs gs : List Block) (b : Block) (fuel lo : ℕ) (h : Heap)
    → Chain h.mem h.head (fs ++ gs)
    → Ordered lo (fs ++ (b ∷ gs))
    → b.addr ≢ 0
    → h.mem (magic_at b.addr) ≡ magic_constant
    → h.mem (size_at b.addr) + sizeof_used ≡ b.size + sizeof_free
    → length fs < fuel
    → (h' : Heap) × (deallocate fuel (b.addr + sizeof_used) h ≡ ok h') × Freed fs b gs lo h'
unfolding deallocate freed_size
deallocate-Freed fs gs b fuel lo h c o some_block magic size enough =
    let at = Ordered-at fs b gs lo o in
    let top = lt_of_Ordered (b.addr + sizeof_free + b.size) gs at.1 in
    let used : sub64 (b.addr + sizeof_used) sizeof_used ≡ b.addr = omega (arith, top) in
    let spot = find_spot-between fs gs b fuel lo 0 h.head h.mem c o enough in
    let freed : freed_size b.addr h.mem ≡ b.size = rw size (omega (arith, top)) in
    (
      link_block b.addr (last_addr 0 fs) (head_addr gs) h,
      rw (used, magic, spot) refl,
      link_block-Freed fs gs b lo h c o some_block freed,
    )

-- Freeing a used block of at least 8 bytes with the magic constant, which overlaps no free block
-- and is not at address 0, with one round of fuel more than the list has blocks before it, keeps
-- the invariant of the free list: if it was a chain in address order without overlaps, in which no
-- block begins where the one before it ends, it is one afterwards.
pub deallocate-IsApart :
    (fs gs : List Block) (b : Block) (fuel lo : ℕ) (h : Heap)
    → Chain h.mem h.head (fs ++ gs)
    → Ordered lo (fs ++ (b ∷ gs))
    → IsApart (fs ++ gs)
    → b.addr ≢ 0
    → h.mem (magic_at b.addr) ≡ magic_constant
    → h.mem (size_at b.addr) + sizeof_used ≡ b.size + sizeof_free
    → length fs < fuel
    → (h' : Heap) × (bs : List Block) × (deallocate fuel (b.addr + sizeof_used) h ≡ ok h')
      × Chain h'.mem h'.head bs
      × Ordered lo bs
      × IsApart bs
deallocate-IsApart fs gs b fuel lo h c o apart some_block magic size enough =
    let r = deallocate-Freed fs gs b fuel lo h c o some_block magic size enough in
    (
      r.0,
      join_last fs (join b gs),
      r.1,
      r.2.0,
      r.2.1,
      join_last-IsApart fs gs (join b gs) apart (join-IsApart b gs (IsApart-drop fs gs apart)),
    )
