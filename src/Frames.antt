-- ===== src/Frames.antt =====
-- The frame allocator, kernel/src/frame_allocator.cpp: a stack of the physical addresses of the free
-- frames. The Limine memory map is an argument (`limine::memory_map`). A loop over the frames of one
-- entry runs on fuel, one round more than the entry has frames.
pub mod Fill
pub mod Init
pub mod Exclusive
pub mod Reclaim
pub mod Disjoint
pub mod Owner
use dav_os.Base.{
  ℕ, zero, suc, ◌+◌, ◌*◌, ◌/◌, ◌%◌, ◌^◌, Bool, true, false, not, ◌&&◌, List, [], ◌∷◌, ◌==◌, ltb,
  leb, if◌then◌else◌, replicate,
}
use dav_os.Base.Words.{add64, u64}
use dav_os.Base.Run.{Run, ok, panic, out_of_fuel, ◌>>=◌}
use dav_os.Kpp.NonOwningStack
use dav_os.Kpp.NonOwningStack.{NonOwningStack}

-- `struct limine_memmap_entry`; the kinds that the allocator looks at.
pub record MemmapEntry : Type 0 where
  pub base : ℕ
  pub length : ℕ
  pub kind : ℕ

abbrev pub memmap_usable : ℕ
memmap_usable = 0

abbrev pub memmap_bootloader_reclaimable : ℕ
memmap_bootloader_reclaimable = 5

abbrev pub frame_size : ℕ
frame_size = 0x1000

pub record FrameRange : Type 0 where
  pub begin : ℕ
  pub end : ℕ

abbrev pub is_allocatable : MemmapEntry → Bool
is_allocatable e = e.kind == memmap_usable

unfoldable pub num_allocatable_from : ℕ → List MemmapEntry → ℕ
num_allocatable_from acc [] = acc
num_allocatable_from acc (e ∷ es) =
    num_allocatable_from (if is_allocatable e then add64 acc (e.length / frame_size) else acc) es

unfoldable pub get_num_allocatable_frames : List MemmapEntry → ℕ
unfolding num_allocatable_from
get_num_allocatable_frames es = num_allocatable_from 0 es

abbrev pub ceil_div : ℕ → ℕ → ℕ
ceil_div dividend divisor = dividend / divisor + (if dividend % divisor == 0 then 0 else 1)

unfoldable pub manually_reserve_contiguous_frames : ℕ → List MemmapEntry → ℕ
manually_reserve_contiguous_frames num_frames [] = 0
manually_reserve_contiguous_frames num_frames (e ∷ es) =
    if is_allocatable e && leb (u64 (num_frames * frame_size)) e.length
    then e.base
    else manually_reserve_contiguous_frames num_frames es

unfoldable pub in_exclude_range : List FrameRange → ℕ → Bool
in_exclude_range [] frame = false
in_exclude_range (r ∷ rs) frame =
    if leb r.begin frame && ltb frame r.end then true else in_exclude_range rs frame

-- One round more than an entry has frames.
abbrev pub entry_fuel : MemmapEntry → ℕ
entry_fuel e = suc (e.length / frame_size)

-- `for (frame = base; frame < end_of_entry; frame += frameSize)`
pub fill_entry : ℕ → List FrameRange → ℕ → ℕ → NonOwningStack → Run NonOwningStack
fill_entry zero ranges frame end s = out_of_fuel
fill_entry (suc k) ranges frame end s =
    let s' = if in_exclude_range ranges frame then s else NonOwningStack.push frame s in
    let rest = fill_entry k ranges (add64 frame frame_size) end s' in
    if ltb frame end then rest else ok s

pub fill_free_stack : List FrameRange → List MemmapEntry → NonOwningStack → Run NonOwningStack
unfolding fill_entry
fill_free_stack ranges [] s = ok s
fill_free_stack ranges (e ∷ es) s = elim (is_allocatable e) [
  | false ↦ fill_free_stack ranges es s
  | true ↦ fill_entry (entry_fuel e) ranges e.base (add64 e.base e.length) s >>= λ s'.
      fill_free_stack ranges es s'
]

abbrev pub frame_pointers_per_frame : ℕ
frame_pointers_per_frame = 512

abbrev pub num_free_stack_frames : List MemmapEntry → ℕ
num_free_stack_frames es = ceil_div (get_num_allocatable_frames es) frame_pointers_per_frame

abbrev pub free_stack_begin : List MemmapEntry → ℕ
free_stack_begin es = manually_reserve_contiguous_frames (num_free_stack_frames es) es

abbrev pub free_stack_range : List MemmapEntry → FrameRange
free_stack_range es = record {
  begin = free_stack_begin es;
  end = add64 (free_stack_begin es) (num_free_stack_frames es * frame_size);
}

-- What the reserved memory held is never read: 0 stands for it.
abbrev pub empty_stack : List MemmapEntry → NonOwningStack
empty_stack es = let n = get_num_allocatable_frames es in NonOwningStack.init (replicate n 0) n

-- The allocator's state after `frame_allocator_init`, or a panic.
pub frame_allocator_init : List MemmapEntry → Run NonOwningStack
unfolding fill_free_stack
frame_allocator_init es =
    if free_stack_begin es == 0
    then panic
    else fill_free_stack (free_stack_range es ∷ []) es (empty_stack es)

pub allocate_frame : NonOwningStack → Run (ℕ × NonOwningStack)
allocate_frame s =
    if NonOwningStack.empty s then panic else ok (NonOwningStack.top s, NonOwningStack.pop s)

abbrev pub available_frames : NonOwningStack → ℕ
available_frames s = s.size

abbrev pub deallocate_frame : ℕ → NonOwningStack → NonOwningStack
deallocate_frame frame s = NonOwningStack.push frame s

abbrev pub kernel_physical_to_virtual : ℕ → ℕ → ℕ
kernel_physical_to_virtual hhdm_offset address = add64 address hhdm_offset

-- The count of reclaimed frames goes along with the stack.
pub reclaim_entry : ℕ → ℕ → ℕ → ℕ × NonOwningStack → Run (ℕ × NonOwningStack)
reclaim_entry zero frame end (n, s) = out_of_fuel
reclaim_entry (suc k) frame end (n, s) =
    let rest = reclaim_entry k (add64 frame frame_size) end (add64 n 1, deallocate_frame frame s) in
    if ltb frame end then rest else ok (n, s)

pub reclaim_entries : List MemmapEntry → ℕ × NonOwningStack → Run (ℕ × NonOwningStack)
unfolding reclaim_entry
reclaim_entries [] st = ok st
reclaim_entries (e ∷ es) st = elim (e.kind == memmap_bootloader_reclaimable) [
  | false ↦ reclaim_entries es st
  | true ↦ reclaim_entry (entry_fuel e) e.base (add64 e.base e.length) st >>= λ st'.
      reclaim_entries es st'
]

pub free_limine_bootloader_memory : List MemmapEntry → NonOwningStack → Run (ℕ × NonOwningStack)
unfolding reclaim_entries
free_limine_bootloader_memory es s = reclaim_entries es (0, s)

-- `change` is the pattern of an `int`: -1 is 2 ^ 32 - 1.
unfoldable pub update_frame_ref_count : ℕ → ℕ → NonOwningStack → NonOwningStack
update_frame_ref_count frame change s =
    if change == 0xffff_ffff then deallocate_frame frame s else s
