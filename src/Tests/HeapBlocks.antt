-- ===== src/Tests/HeapBlocks.antt =====
-- The heap at concrete inputs: one free block of 100 bytes at 0x1000.
use dav_os.Base.{ℕ, ◌+◌, ◌-◌, ◌^◌, List, ◌≡◌, refl, ◌==◌, if◌then◌else◌, [], ◌∷◌, arith}
use dav_os.Base.Words.{add64}
use dav_os.Base.Run.{ok, ◌>>=◌}
use dav_os.Heap.{Heap, Words, sizeof_used, magic_constant, allocate, deallocate}
use dav_os.Heap.List.{Block, block, Chain, Ordered}
use dav_os.Heap.Merge.{IsApart}
use dav_os.Heap.Deallocate.{Freed, deallocate-Freed, deallocate-IsApart}
use dav_os.Heap.RoundTrip.{allocate-deallocate, deallocate-small}
use dav_os.Heap.Allocate.{Split, allocate-Split, allocate-perfect_head}

abbrev one_block : Heap
one_block = record { head = 0x1000; mem = λ x. if x == 0x1000 then 100 else 0 }

allocate-Split_example :
    (r : ℕ × Heap) × (allocate 2 20 one_block ≡ ok r)
    × Split 20 (block 0x1000 100) (block 0x1000 100 ∷ []) one_block r
allocate-Split_example =
    allocate-Split (block 0x1000 100 ∷ []) 2 20 0 (block 0x1000 100) one_block
      (refl, omega arith, refl, refl) (omega arith, omega arith) (omega arith) (omega arith) refl
      (omega arith)

allocate-perfect_head_example :
    (mem' : Words) × (allocate 1 84 one_block
      ≡ ok (add64 0x1000 sizeof_used, record { head = magic_constant; mem = mem' }))
allocate-perfect_head_example =
    allocate-perfect_head 0 84 one_block (omega arith) (omega arith) refl

-- The same free block, and a used one of 50 bytes at 0x2000.
abbrev two_blocks : Heap
two_blocks = record {
  head = 0x1000;
  mem = λ x.
      if x == 0x1000
      then 100
      else if x == 0x2000
      then 50
      else if x == 0x2008
      then magic_constant
      else 0;
}

deallocate-Freed_example :
    (h' : Heap) × (deallocate 2 (0x2000 + sizeof_used) two_blocks ≡ ok h')
    × Freed (block 0x1000 100 ∷ []) (block 0x2000 42) [] 0 h'
deallocate-Freed_example =
    deallocate-Freed (block 0x1000 100 ∷ []) [] (block 0x2000 42) 2 0 two_blocks
      (refl, omega arith, refl, refl) (omega arith) (omega arith) refl refl (omega arith)

deallocate-IsApart_example :
    (h' : Heap) × (bs : List Block) × (deallocate 2 (0x2000 + sizeof_used) two_blocks ≡ ok h')
    × Chain h'.mem h'.head bs
    × Ordered 0 bs
    × IsApart bs
deallocate-IsApart_example =
    deallocate-IsApart (block 0x1000 100 ∷ []) [] (block 0x2000 42) 2 0 two_blocks
      (refl, omega arith, refl, refl) (omega arith) tt (omega arith) refl refl (omega arith)

allocate-deallocate_example :
    (h' : Heap) × ((allocate 2 20 one_block >>= λ (p, h1). deallocate 2 p h1) ≡ ok h')
    × Chain h'.mem h'.head (block 0x1000 100 ∷ [])
allocate-deallocate_example =
    allocate-deallocate (block 0x1000 100 ∷ []) 2 20 0 (block 0x1000 100) one_block
      (refl, omega arith, refl, refl) (omega arith) tt (omega arith) (omega arith) refl
      (omega arith) (omega arith)

-- A used block of 3 bytes, and no free one.
abbrev small_block : Heap
small_block = record {
  head = 0;
  mem = λ x. if x == 0x2000 then 3 else if x == 0x2008 then magic_constant else 0;
}

deallocate-small_example :
    (h' : Heap) × (deallocate 1 (0x2000 + sizeof_used) small_block ≡ ok h')
    × Chain h'.mem h'.head (block 0x2000 (2 ^ 64 - 5) ∷ [])
deallocate-small_example =
    deallocate-small 0 0x2000 3 small_block refl (omega arith) (omega arith) refl refl (omega arith)
