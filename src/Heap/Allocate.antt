-- ===== src/Heap/Allocate.antt =====
-- `FreeListAllocator::allocate_impl` on a list whose blocks are in address order.
use dav_os.Base.{
  ℕ, suc, ◌+◌, ◌-◌, ◌^◌, ◌≤◌, ◌<◌, ◌≡◌, ◌≢◌, refl, sym, ap, ◌∙◌, inl, inr, List, [], ◌∷◌, leb,
  if◌then◌else◌, Bool-cases, arith, length, some,
}
use dav_os.Base.Words.{add64}
use dav_os.Base.Run.{ok}
use dav_os.Heap.{
  Words, Heap, size_at, next_at, magic_at, sizeof_free, sizeof_used, magic_constant, new_used,
  can_fit, perfect_fit, reserve_end, reserve_entire, unlink, first_fit, take_block, allocate,
}
use dav_os.Heap.List.{
  Block, block, Chain, Ordered, Chain-SameAt, lt_of_Ordered, find_fit, address, first_fit-find_fit,
  find_fit-bounds, SameAt-above,
}

-- The list after `n` bytes are cut off the end of the first block with room for the request.
abbrev pub cut : ℕ → List Block → List Block
cut request [] = []
cut request (b ∷ bs) =
    if leb (request + sizeof_used) b.size
    then block b.addr (b.size - (request + sizeof_used)) ∷ bs
    else b ∷ cut request bs

-- What a split writes: the block's size, and a used header at `x`.
abbrev pub Writes : ℕ → Block → ℕ → Words → Words → Type 0
Writes request b x mem mem' =
    (mem' b.addr ≡ b.size - (request + sizeof_used))
    × ((y : ℕ) → y ≢ b.addr → y ≢ x → y ≢ magic_at x → mem' y ≡ mem y)

abbrev pub used_header : ℕ → Block → ℕ
used_header request b = b.addr + sizeof_free + b.size - (request + sizeof_used)

pub Chain-cut :
    (bs : List Block) (request lo a : ℕ) (b : Block) (mem mem' : Words)
    → Chain mem a bs
    → Ordered lo bs
    → find_fit request bs ≡ some b
    → Writes request b (used_header request b) mem mem'
    → Chain mem' a (cut request bs)
Chain-cut [] request lo a b mem mem' c o e w = absurd (ground (arith, e))
Chain-cut (x ∷ xs) request lo a b mem mem' c o e w =
    let top = lt_of_Ordered (x.addr + sizeof_free + x.size) xs o.1 in
    elim (Bool-cases (leb (request + sizeof_used) x.size)) [
      | inl fits ↦
          let same : x ≡ b = ground (arith, fits, e) in
          let room : request + sizeof_used ≤ x.size = ground (arith, fits) in
          let w' : Writes request x (used_header request x) mem mem' = rw same w in
          let next : mem' (next_at x.addr) ≡ mem (next_at x.addr) =
            w'.1 (next_at x.addr) (ground arith) (ground arith) (ground arith) in
          let rest =
            SameAt-above mem mem' (x.addr + sizeof_free + x.size) xs o.1
              (λ y l h. w'.1 y (ground arith) (ground arith) (ground arith)) in
          rw fits
            (c.0, c.1, w'.0, rw next (Chain-SameAt mem mem' (mem (next_at x.addr)) xs c.3 rest))
      | inr over ↦
          let e' : find_fit request xs ≡ some b = ground (arith, over, e) in
          let in_list = find_fit-bounds xs request (x.addr + sizeof_free + x.size) b o.1 e' in
          let size : mem' x.addr ≡ mem x.addr =
            w.1 x.addr (ground (arith, in_list)) (ground (arith, in_list))
              (ground (arith, in_list)) in
          let next : mem' (next_at x.addr) ≡ mem (next_at x.addr) =
            w.1 (next_at x.addr) (ground (arith, in_list)) (ground (arith, in_list))
              (ground (arith, in_list)) in
          let ih =
            Chain-cut xs request (x.addr + sizeof_free + x.size) (mem (next_at x.addr)) b mem mem'
              c.3 o.1 e' w in
          rw over (c.0, c.1, size ∙ c.2, rw next ih)
    ]

-- The used header of an allocation holds the size that was asked for, and the magic constant.
abbrev pub IsUsed : ℕ → ℕ → Words → Type 0
IsUsed request x mem = (mem (size_at x) ≡ request) × (mem (magic_at x) ≡ magic_constant)

abbrev pub Split : ℕ → Block → List Block → Heap → ℕ × Heap → Type 0
Split request b bs h (p, h') =
    (p ≡ b.addr + sizeof_free + b.size - request)
    × (h'.head ≡ h.head)
    × IsUsed request (used_header request b) h'.mem
    × Chain h'.mem h.head (cut request bs)
    × Writes request b (used_header request b) h.mem h'.mem

pub reserve_end-Writes :
    (request : ℕ) (b : Block) (mem : Words)
    → mem b.addr ≡ b.size
    → b.addr + sizeof_free + b.size < 2 ^ 64
    → request + sizeof_used < b.size
    → (((reserve_end request b.addr mem).0 ≡ used_header request b)
        × IsUsed request (used_header request b) (reserve_end request b.addr mem).1
        × Writes request b (used_header request b) mem (reserve_end request b.addr mem).1)
unfolding reserve_end
reserve_end-Writes request b mem size top room = (
  rw size (ground arith),
  (rw size (ground arith), rw size (ground arith)),
  (rw size (ground arith), λ y p q r. rw size (ground arith)),
)

pub find_fit-head :
    (bs : List Block) (request a : ℕ) (b : Block) (mem : Words)
    → Chain mem a bs
    → find_fit request bs ≡ some b
    → (mem b.addr ≡ b.size) × (b.addr ≢ 0)
find_fit-head [] request a b mem c e = absurd (ground (arith, e))
find_fit-head (x ∷ xs) request a b mem c e =
    elim (Bool-cases (leb (request + sizeof_used) x.size)) [
      | inl fits ↦ let same : x ≡ b = ground (arith, fits, e) in rw (sym same) (c.2, c.1)
      | inr over ↦
          find_fit-head xs request (mem (next_at x.addr)) b mem c.3 (ground (arith, over, e))
    ]

pub take_block-loose :
    (request curr : ℕ) (h : Heap)
    → curr ≢ 0
    → add64 request sizeof_used ≢ h.mem curr
    → take_block request curr h
      ≡ ok (
        add64 (reserve_end request curr h.mem).0 sizeof_used,
        record h { mem = (reserve_end request curr h.mem).1 },
      )
unfolding take_block perfect_fit
take_block-loose request curr h here loose = ground (arith, here, loose)

-- On a list of blocks in address order, with one round of fuel more than the list has blocks, a
-- request for which the first block with room is larger than needed succeeds: the memory returned
-- is the end of that block, behind a used header with the size and the magic constant, the list
-- keeps its head and its blocks but for that block, which loses what was taken, and no other word
-- changes.
pub allocate-Split :
    (bs : List Block) (fuel request lo : ℕ) (b : Block) (h : Heap)
    → Chain h.mem h.head bs
    → Ordered lo bs
    → length bs < fuel
    → request + sizeof_used < 2 ^ 64
    → find_fit request bs ≡ some b
    → request + sizeof_used ≢ b.size
    → (r : ℕ × Heap) × (allocate fuel request h ≡ ok r) × Split request b bs h r
unfolding allocate
allocate-Split bs fuel request lo b h c o enough small e loose =
    let in_list = find_fit-bounds bs request lo b o e in
    let head = find_fit-head bs request h.head b h.mem c e in
    let size : h.mem b.addr ≡ b.size = head.0 in
    let found : first_fit fuel request h.head h.mem ≡ ok b.addr =
      first_fit-find_fit bs fuel request h.head h.mem c enough small ∙ ap (λ o. ok (address o)) e in
    let writes = reserve_end-Writes request b h.mem size in_list.1 (ground (arith, in_list)) in
    let chain =
      Chain-cut bs request lo h.head b h.mem (reserve_end request b.addr h.mem).1 c o e writes.2 in
    (
      (
        add64 (reserve_end request b.addr h.mem).0 sizeof_used,
        record h { mem = (reserve_end request b.addr h.mem).1 },
      ),
      rw found (take_block-loose request b.addr h head.1 (rw size (ground (arith, small)))),
      (rw writes.0 (ground (arith, in_list)), refl, writes.1, chain, writes.2),
    )

-- When the head of the list is a 64-bit address other than null and the request fits it exactly,
-- the allocation returns the block, but the new head of the list is the magic constant of the used
-- header, whatever block followed.
pub allocate-perfect_head :
    (fuel request : ℕ) (h : Heap)
    → h.head ≢ 0
    → h.head < 2 ^ 64
    → add64 request sizeof_used ≡ h.mem h.head
    → (mem' : Words) × (allocate (suc fuel) request h
        ≡ ok (add64 h.head sizeof_used, record { head = magic_constant; mem = mem' }))
unfolding allocate take_block perfect_fit first_fit can_fit reserve_entire
allocate-perfect_head fuel request h here small exact =
    (new_used h.head request (unlink h.head h.mem), ground (arith, here, exact, small))
