-- ===== src/Heap/Link.antt =====
-- The search for the place of a freed block, and the links to it.
use dav_os.Base.{
  ℕ, zero, suc, ◌+◌, ◌^◌, ◌≤◌, ◌<◌, ◌≡◌, ◌≢◌, refl, ◌∙◌, inl, inr, ◌⊎◌, List, [], ◌∷◌, ◌++◌, arith,
  length,
}
use dav_os.Base.Run.{ok}
use dav_os.Heap.{Words, next_at, prev_at, sizeof_free, find_spot, freed_size, link}
use dav_os.Heap.List.{Block, Chain, Ordered, Chain-SameAt, SameAt-above, lt_of_Ordered}
use dav_os.Heap.Merge.{Ordered-at, Ordered-change, Ordered-lower, Chain-at, Chain-behind}

abbrev pub head_addr : List Block → ℕ
head_addr [] = 0
head_addr (g ∷ gs) = g.addr

abbrev pub last_addr : ℕ → List Block → ℕ
last_addr prev [] = prev
last_addr prev (f ∷ fs) = last_addr f.addr fs

-- The search for the place of a block at `used`, which lies between `fs` and `gs`.
pub find_spot-between :
    (fs gs : List Block) (b : Block) (k lo prev a : ℕ) (mem : Words)
    → Chain mem a (fs ++ gs)
    → Ordered lo (fs ++ (b ∷ gs))
    → length fs < k
    → find_spot k b.addr prev a mem ≡ ok (last_addr prev fs, head_addr gs)
unfolding find_spot
find_spot-between fs gs b zero lo prev a mem c o enough = absurd (omega arith)
find_spot-between [] [] b (suc k) lo prev a mem c o enough = ground (arith, c)
find_spot-between [] (g ∷ gs) b (suc k) lo prev a mem c o enough = ground (arith, c.0, o.1.0)
find_spot-between (f ∷ fs) gs b (suc k) lo prev a mem c o enough =
    let at = Ordered-at fs b gs (f.addr + sizeof_free + f.size) o.1 in
    let ih =
      find_spot-between fs gs b k (f.addr + sizeof_free + f.size) f.addr (mem (next_at f.addr)) mem
        c.3 o.1 (omega arith) in
    let here : a ≡ f.addr = c.0 in
    let some_block : f.addr ≢ 0 = c.1 in rw (here, ih) (ground (arith, some_block, at.0))

-- What `link` writes.
abbrev pub Linked : ℕ → ℕ → ℕ → ℕ → Words → Words → Type 0
Linked used size prev curr mem mem' =
    (mem' used ≡ size)
    × (mem' (next_at used) ≡ curr)
    × (mem' (prev_at used) ≡ prev)
    × ((prev ≢ 0) → mem' (next_at prev) ≡ used)
    × ((y : ℕ)
        → y ≢ used
        → y ≢ next_at used
        → y ≢ prev_at used
        → (prev ≡ 0) ⊎ (y ≢ next_at prev)
        → (curr ≡ 0) ⊎ (y ≢ prev_at curr)
        → mem' y ≡ mem y)

pub link-Linked :
    (used prev curr : ℕ) (mem : Words)
    → used + sizeof_free < 2 ^ 64
    → (prev ≡ 0) ⊎ (prev + sizeof_free ≤ used)
    → (curr ≡ 0) ⊎ ((used + sizeof_free ≤ curr) × (curr + sizeof_free < 2 ^ 64))
    → Linked used (freed_size used mem) prev curr mem (link used prev curr mem)
unfolding link
link-Linked used prev curr mem hu hp hc = (
  ground (arith, hp, hc),
  ground (arith, hp, hc),
  ground (arith, hp, hc),
  λ n. ground (arith, hp, hc, n),
  λ y a b c d e. ground (arith, a, b, c, d, e),
)

-- The blocks behind the freed one keep their sizes and links.
pub behind-Linked :
    (gs : List Block) (b : Block) (prev : ℕ) (mem mem' : Words)
    → Chain mem (head_addr gs) gs
    → Ordered (b.addr + sizeof_free + b.size) gs
    → (prev ≡ 0) ⊎ (prev + sizeof_free ≤ b.addr)
    → Linked b.addr b.size prev (head_addr gs) mem mem'
    → Chain mem' (head_addr gs) gs
behind-Linked [] b prev mem mem' c o hp l = c
behind-Linked (g ∷ gs) b prev mem mem' c o hp l =
    let top = lt_of_Ordered (g.addr + sizeof_free + g.size) gs o.1 in
    let same : (y : ℕ) → g.addr ≤ y → y ≢ prev_at g.addr → mem' y ≡ mem y = λ y h n.
      l.4 y (omega (arith, o.0, h)) (omega (arith, o.0, h, top)) (omega (arith, o.0, h, top))
        (ground (arith, o.0, h, hp, top)) (inr n) in
    let next : mem' (next_at g.addr) ≡ mem (next_at g.addr) =
      same (next_at g.addr) (omega (arith, top)) (omega (arith, top)) in
    (
      c.0,
      c.1,
      same g.addr (omega arith) (omega (arith, top)) ∙ c.2,
      rw next (
          Chain-SameAt mem mem' (mem (next_at g.addr)) gs c.3 (
            SameAt-above mem mem' (g.addr + sizeof_free + g.size) gs o.1
              (λ y h top'. same y (omega (arith, h)) (omega (arith, h, top))))),
    )

-- The list after the links, before the merges.
pub Chain-first :
    (gs : List Block) (b : Block) (mem mem' : Words)
    → b.addr ≢ 0
    → Chain mem (head_addr gs) gs
    → Ordered (b.addr + sizeof_free + b.size) gs
    → Linked b.addr b.size 0 (head_addr gs) mem mem'
    → Chain mem' b.addr (b ∷ gs)
Chain-first gs b mem mem' some_block c o l =
    (refl, some_block, l.0, rw l.1 (behind-Linked gs b 0 mem mem' c o (inl refl) l))

pub Chain-head : (gs : List Block) (a : ℕ) (mem : Words) → Chain mem a gs → a ≡ head_addr gs
Chain-head [] a mem c = c
Chain-head (g ∷ gs) a mem c = c.0

-- The neighbour behind is not below.
pub head_addr-above :
    (gs : List Block) (lo y : ℕ)
    → Ordered lo gs
    → y < lo
    → (head_addr gs ≡ 0) ⊎ (y ≢ prev_at (head_addr gs))
head_addr-above [] lo y o h = inl refl
head_addr-above (g ∷ gs) lo y o h =
    let top = lt_of_Ordered (g.addr + sizeof_free + g.size) gs o.1 in inr (omega (arith, o.0, top))

pub Chain-between :
    (fs : List Block) (p : Block) (gs : List Block) (b : Block) (lo a : ℕ) (mem mem' : Words)
    → b.addr ≢ 0
    → Chain mem a (fs ++ (p ∷ gs))
    → Ordered lo (fs ++ (p ∷ b ∷ gs))
    → Linked b.addr b.size p.addr (head_addr gs) mem mem'
    → Chain mem' a (fs ++ (p ∷ b ∷ gs))
Chain-between fs p gs b lo a mem mem' some_block c o l =
    let r = Chain-behind fs p gs a mem c in
    let at = Ordered-at fs p (b ∷ gs) lo o in
    let top = lt_of_Ordered (b.addr + sizeof_free + b.size) gs at.1.1 in
    let head : mem (next_at p.addr) ≡ head_addr gs = Chain-head gs (mem (next_at p.addr)) mem r.2 in
    let rest : Chain mem (head_addr gs) gs = rw head at r.2 in
    let behind = behind-Linked gs b p.addr mem mem' rest at.1.1 (inr (omega (arith, at.1.0))) l in
    let same : (y : ℕ) → y < b.addr → y ≢ next_at p.addr → mem' y ≡ mem y = λ y h n.
      l.4 y (omega arith) (omega (arith, top)) (omega (arith, top)) (inr n)
        (head_addr-above gs (b.addr + sizeof_free + b.size) y at.1.1 (omega arith)) in
    let size : mem' p.addr ≡ p.size =
      same p.addr (omega (arith, at.1.0)) (omega (arith, at.1.0, top)) ∙ r.1 in
    let next : mem' (next_at p.addr) ≡ b.addr = l.3 r.0 in
    let old : Ordered lo (fs ++ (p ∷ gs)) =
      Ordered-change fs (p ∷ b ∷ gs) (p ∷ gs) lo
        (λ lo' q. (
          q.0,
          Ordered-lower gs (b.addr + sizeof_free + b.size) (p.addr + sizeof_free + p.size) q.1.1
              (omega (arith, q.1.0)),
        ))
        o in
    Chain-at fs p gs (b ∷ gs) p.size lo a mem mem' c old
      (λ y h. same y (omega (arith, h, at.1.0)) (omega (arith, h, at.1.0, top))) size
      (rw next (refl, some_block, l.0, rw l.1 behind))

pub head_fits :
    (gs : List Block) (lo : ℕ)
    → Ordered lo gs
    → (head_addr gs ≡ 0) ⊎ ((lo ≤ head_addr gs) × (head_addr gs + sizeof_free < 2 ^ 64))
head_fits [] lo o = inl refl
head_fits (g ∷ gs) lo o =
    let top = lt_of_Ordered (g.addr + sizeof_free + g.size) gs o.1 in inr (o.0, omega (arith, top))
