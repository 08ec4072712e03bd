-- ===== src/Heap.antt =====
-- `FreeListAllocator<T>` of kernel/include/kernel/FreeListAllocator.cpp. Memory is a store of 64-bit
-- words by address, and two words that are named by different addresses are taken not to overlap, as
-- the headers of disjoint blocks do not:
--   FreeBlockHeader at a: size at a, next at a + 8, prev at a + 16 (24 bytes)
--   UsedBlockHeader at a: size at a, magic at a + 8 (16 bytes)
-- The loops along the list run on fuel, one round for each block and one more.
pub mod List
pub mod Allocate
pub mod Merge
pub mod Link
pub mod Deallocate
pub mod Region
pub mod RoundTrip
use dav_os.Base.{
  ℕ, zero, suc, ◌+◌, ◌^◌, Bool, true, false, not, ◌&&◌, ◌||◌, ltb, leb, ◌==◌, if◌then◌else◌,
}
use dav_os.Base.Words.{add64, sub64}
use dav_os.Base.Run.{Run, ok, panic, out_of_fuel, ◌>>=◌}

abbrev pub Words : Type 0
Words = ℕ → ℕ

abbrev pub store : ℕ → ℕ → Words → Words
store a w mem x = if x == a then w else mem x

-- The allocator (`head`) and the memory.
pub record Heap : Type 0 where
  pub head : ℕ
  pub mem : Words

abbrev pub sizeof_free : ℕ
sizeof_free = 24

abbrev pub sizeof_used : ℕ
sizeof_used = 16

abbrev pub magic_constant : ℕ
magic_constant = 0x1122_3344_aabb_ccdd

abbrev pub size_at : ℕ → ℕ
size_at a = a

abbrev pub next_at : ℕ → ℕ
next_at a = add64 a 8

abbrev pub prev_at : ℕ → ℕ
prev_at a = add64 a 16

abbrev pub magic_at : ℕ → ℕ
magic_at a = add64 a 8

-- `new(a) UsedBlockHeader {size}` and `new(a) FreeBlockHeader {size, next, prev}`.
abbrev pub new_used : ℕ → ℕ → Words → Words
new_used a size mem = store (magic_at a) magic_constant (store (size_at a) size mem)

abbrev pub new_free : ℕ → ℕ → ℕ → ℕ → Words → Words
new_free a size next prev mem =
    store (prev_at a) prev (store (next_at a) next (store (size_at a) size mem))

unfoldable pub can_fit : ℕ → ℕ → Words → Bool
can_fit request a mem = leb (add64 request sizeof_used) (mem (size_at a))

unfoldable pub perfect_fit : ℕ → ℕ → Words → Bool
perfect_fit request a mem = add64 request sizeof_used == mem (size_at a)

unfoldable pub real_size : ℕ → Words → ℕ
real_size a mem = add64 (mem (size_at a)) sizeof_free

unfoldable pub unlink : ℕ → Words → Words
unlink a mem =
    let prev = mem (prev_at a) in
    let mem' = if prev == 0 then mem else store (next_at prev) (mem (next_at a)) mem in
    let next = mem' (next_at a) in
    if next == 0 then mem' else store (prev_at next) (mem' (prev_at a)) mem'

unfoldable pub reserve_end : ℕ → ℕ → Words → ℕ × Words
reserve_end request a mem =
    let allocation_size = add64 request sizeof_used in
    let free_block_end = add64 (add64 a sizeof_free) (mem (size_at a)) in
    let allocated = sub64 free_block_end allocation_size in
    let mem' = new_used allocated request mem in
    (allocated, store (size_at a) (sub64 (mem' (size_at a)) allocation_size) mem')

pub reserve_entire : ℕ → ℕ → Words → ℕ × Words
reserve_entire request a mem = (a, new_used a request (unlink a mem))

unfoldable pub coalesce_next : ℕ → Words → Words
coalesce_next a mem =
    let next = mem (next_at a) in
    if not (next == 0) && next == add64 a (real_size a mem)
    then (let mem' = store (size_at a) (add64 (mem (size_at a)) (real_size next mem)) mem in
        store (next_at a) (mem' (next_at next)) mem')
    else mem

unfoldable pub coalesce_prev : ℕ → Words → Words
coalesce_prev a mem =
    let prev = mem (prev_at a) in
    if not (prev == 0) && a == add64 prev (real_size prev mem)
    then (let mem' = store (size_at prev) (add64 (mem (size_at prev)) (real_size a mem)) mem in
        store (next_at prev) (mem' (next_at a)) mem')
    else mem

-- `while (curr && !curr->can_fit(request)) curr = curr->next;`
unfoldable pub first_fit : ℕ → ℕ → ℕ → Words → Run ℕ
unfolding can_fit
first_fit zero request curr mem = out_of_fuel
first_fit (suc k) request curr mem =
    let rest = first_fit k request (mem (next_at curr)) mem in
    if curr == 0 || can_fit request curr mem then ok curr else rest

unfoldable pub take_block : ℕ → ℕ → Heap → Run (ℕ × Heap)
take_block request curr h =
    if curr == 0
    then panic
    else if perfect_fit request curr h.mem
    then (let (allocated, mem') = reserve_entire request curr h.mem in
        ok (
          add64 allocated sizeof_used,
          record { head = if curr == h.head then mem' (next_at curr) else h.head; mem = mem' },
        ))
    else (let (allocated, mem') = reserve_end request curr h.mem in
        ok (add64 allocated sizeof_used, record h { mem = mem' }))

unfoldable pub allocate : ℕ → ℕ → Heap → Run (ℕ × Heap)
allocate fuel request h = first_fit fuel request h.head h.mem >>= λ curr. take_block request curr h

-- `while (curr && curr < used_block) { prev = curr; curr = curr->next; }`
unfoldable pub find_spot : ℕ → ℕ → ℕ → ℕ → Words → Run (ℕ × ℕ)
find_spot zero used prev curr mem = out_of_fuel
find_spot (suc k) used prev curr mem =
    let rest = find_spot k used curr (mem (next_at curr)) mem in
    if not (curr == 0) && ltb curr used then rest else ok (prev, curr)

-- The size of the block that a used block becomes.
unfoldable pub freed_size : ℕ → Words → ℕ
freed_size used mem = sub64 (add64 (mem (size_at used)) sizeof_used) sizeof_free

-- The freed block's header, and its neighbours' links to it.
unfoldable pub link : ℕ → ℕ → ℕ → Words → Words
unfolding freed_size
link used prev curr mem =
    let freed = new_free used (freed_size used mem) curr prev mem in
    let linked = if prev == 0 then freed else store (next_at prev) used freed in
    if curr == 0 then linked else store (prev_at curr) used linked

-- The links, then the two merges.
unfoldable pub link_block : ℕ → ℕ → ℕ → Heap → Heap
link_block used prev curr h = record {
  head = if prev == 0 then used else h.head;
  mem = coalesce_prev used (coalesce_next used (link used prev curr h.mem));
}

unfoldable pub deallocate : ℕ → ℕ → Heap → Run Heap
deallocate fuel base h =
    let used = sub64 base sizeof_used in
    if h.mem (magic_at used) == magic_constant
    then (find_spot fuel used 0 h.head h.mem >>= λ (prev, curr). ok (link_block used prev curr h))
    else panic

unfoldable pub add_memory : ℕ → ℕ → ℕ → Heap → Run Heap
add_memory fuel base size h =
    deallocate fuel (add64 base sizeof_used) (record h { mem = new_used base size h.mem })

unfoldable pub get_size : ℕ → Heap → ℕ
get_size base h = h.mem (size_at (sub64 base sizeof_used))
