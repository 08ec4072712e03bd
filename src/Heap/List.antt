-- ===== src/Heap/List.antt =====
-- The blocks of a free list, followed by their `next` fields alone.
use dav_os.Base.{
  ℕ, zero, suc, ◌+◌, ◌^◌, ◌≤◌, ◌<◌, ◌≡◌, ◌≢◌, sym, ◌∙◌, inl, inr, List, [], ◌∷◌, leb, if◌then◌else◌,
  Bool-cases, arith, length, Option, none, some,
}
use dav_os.Base.Run.{ok}
use dav_os.Heap.{Words, store, next_at, sizeof_free, sizeof_used, can_fit, first_fit}

pub record Block : Type 0 where
  pub addr : ℕ
  pub size : ℕ

abbrev pub block : ℕ → ℕ → Block
block a s = record { addr = a; size = s }

-- From `a` the `next` fields lead through the blocks to the null pointer.
abbrev pub Chain : Words → ℕ → List Block → Type 0
Chain mem a [] = a ≡ 0
Chain mem a (b ∷ bs) =
    (a ≡ b.addr) × (b.addr ≢ 0) × (mem b.addr ≡ b.size) × Chain mem (mem (next_at b.addr)) bs

-- The blocks are in address order from `lo` on, do not overlap, and end in the address space.
abbrev pub Ordered : ℕ → List Block → Type 0
Ordered lo [] = lo < 2 ^ 64
Ordered lo (b ∷ bs) = (lo ≤ b.addr) × Ordered (b.addr + sizeof_free + b.size) bs

abbrev pub SameAt : Words → Words → List Block → Type 0
SameAt mem mem' [] = Unit {0}
SameAt mem mem' (b ∷ bs) =
    (mem' b.addr ≡ mem b.addr) × (mem' (next_at b.addr) ≡ mem (next_at b.addr)) × SameAt mem mem' bs

-- A chain survives writes that spare its headers.
pub Chain-SameAt :
    (mem mem' : Words) (a : ℕ) (bs : List Block)
    → Chain mem a bs
    → SameAt mem mem' bs
    → Chain mem' a bs
Chain-SameAt mem mem' a [] c s = c
Chain-SameAt mem mem' a (b ∷ bs) c s =
    (c.0, c.1, s.0 ∙ c.2, rw s.1 (Chain-SameAt mem mem' (mem (next_at b.addr)) bs c.3 s.2))

pub lt_of_Ordered : (lo : ℕ) (bs : List Block) → Ordered lo bs → lo < 2 ^ 64
lt_of_Ordered lo [] o = o
lt_of_Ordered lo (b ∷ bs) o = omega (arith, lt_of_Ordered (b.addr + sizeof_free + b.size) bs o.1)

-- A write below the first header of a list, or inside the body of a block before it, spares it.
pub SameAt-below :
    (mem : Words) (x w lo : ℕ) (bs : List Block)
    → Ordered lo bs
    → x < lo
    → SameAt mem (store x w mem) bs
SameAt-below mem x w lo [] o h = tt
SameAt-below mem x w lo (b ∷ bs) o h =
    let top = lt_of_Ordered (b.addr + sizeof_free + b.size) bs o.1 in
    (
      ground arith,
      ground arith,
      SameAt-below mem x w (b.addr + sizeof_free + b.size) bs o.1 (omega arith),
    )

-- The first block that has room, as the specification finds it.
abbrev pub find_fit : ℕ → List Block → Option Block
find_fit request [] = none
find_fit request (b ∷ bs) =
    if leb (request + sizeof_used) b.size then some b else find_fit request bs

abbrev pub address : Option Block → ℕ
address none = 0
address (some b) = b.addr

-- On a chain of blocks, with one round of fuel more than it has blocks and a request that does not
-- wrap, the search returns the address of the first block with room for the request and its
-- header, or 0 if there is none.
pub first_fit-find_fit :
    (bs : List Block) (k request a : ℕ) (mem : Words)
    → Chain mem a bs
    → length bs < k
    → request + sizeof_used < 2 ^ 64
    → first_fit k request a mem ≡ ok (address (find_fit request bs))
unfolding first_fit can_fit
first_fit-find_fit [] zero request a mem c fuel small = absurd (omega arith)
first_fit-find_fit [] (suc k) request a mem c fuel small = ground arith
first_fit-find_fit (b ∷ bs) zero request a mem c fuel small = absurd (omega arith)
first_fit-find_fit (b ∷ bs) (suc k) request a mem c fuel small =
    let ih = first_fit-find_fit bs k request (mem (next_at b.addr)) mem c.3 (omega arith) small in
    let at : a ≡ b.addr = c.0 in
    let size : mem b.addr ≡ b.size = c.2 in
    let here : b.addr ≢ 0 = c.1 in rw (at, ih, size) (ground arith)

-- What a found block is: it has room, and it lies inside the list's addresses.
pub find_fit-bounds :
    (bs : List Block) (request lo : ℕ) (b : Block)
    → Ordered lo bs
    → find_fit request bs ≡ some b
    → (lo ≤ b.addr) × (b.addr + sizeof_free + b.size < 2 ^ 64) × (request + sizeof_used ≤ b.size)
find_fit-bounds [] request lo b o e = absurd (ground (arith, e))
find_fit-bounds (x ∷ xs) request lo b o e =
    let top = lt_of_Ordered (x.addr + sizeof_free + x.size) xs o.1 in
    elim (Bool-cases (leb (request + sizeof_used) x.size)) [
      | inl fits ↦
          let same : x ≡ b = ground (arith, fits, e) in
          rw (sym same) (o.0, top, ground (arith, fits))
      | inr over ↦
          let e' : find_fit request xs ≡ some b = ground (arith, over, e) in
          let r = find_fit-bounds xs request (x.addr + sizeof_free + x.size) b o.1 e' in
          (omega (arith, r.0, o.0), r.1, r.2)
    ]

-- Writes below a list spare it.
pub SameAt-above :
    (mem mem' : Words) (lo : ℕ) (bs : List Block)
    → Ordered lo bs
    → ((y : ℕ) → lo ≤ y → y < 2 ^ 64 → mem' y ≡ mem y)
    → SameAt mem mem' bs
SameAt-above mem mem' lo [] o same = tt
SameAt-above mem mem' lo (b ∷ bs) o same =
    let top = lt_of_Ordered (b.addr + sizeof_free + b.size) bs o.1 in
    (
      same b.addr o.0 (omega arith),
      same (next_at b.addr) (ground arith) (ground arith),
      SameAt-above mem mem' (b.addr + sizeof_free + b.size) bs o.1
          (λ y l. same y (omega (arith, o.0))),
    )
