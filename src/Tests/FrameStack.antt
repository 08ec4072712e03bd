-- ===== src/Tests/FrameStack.antt =====
-- The frame allocator at concrete inputs: sixteen usable frames, one that is reserved, and two that
-- the bootloader gives up.
use dav_os.Base.{◌+◌, ◌*◌, ◌≤◌, ◌≡◌, List, [], ◌∷◌, length, min, arith}
use dav_os.Base.Run.{ok}
use dav_os.Kpp.NonOwningStack.{NonOwningStack, contents}
use dav_os.Frames.{
  MemmapEntry, frame_size, manually_reserve_contiguous_frames, num_allocatable_from, memmap_usable,
  memmap_bootloader_reclaimable, free_stack_begin, num_free_stack_frames,
  free_limine_bootloader_memory, available_frames, get_num_allocatable_frames,
}
use dav_os.Frames.Fill.{usable_frames}
use dav_os.Frames.Init.{count, IsReady, frame_allocator_init-IsReady}
use dav_os.Frames.Exclusive.{here, Reach-once}
use dav_os.Frames.Reclaim.{
  Covers, reclaimable_frames, available_frames-reclaim, free_stack_begin-Covers,
}

abbrev memory_map : List MemmapEntry
memory_map =
    record { base = 0x1000; length = 0x1_0000; kind = memmap_usable }
    ∷ record { base = 0x1_1000; length = 0x1000; kind = 1 }
    ∷ record { base = 0x2_0000; length = 0x2000; kind = memmap_bootloader_reclaimable }
    ∷ []

frame_allocator_init-IsReady_example : (s : NonOwningStack) × IsReady memory_map s
frame_allocator_init-IsReady_example =
    frame_allocator_init-IsReady memory_map
      (omega arith, omega arith, (omega arith, omega arith, (omega arith, omega arith, tt)))
      (omega arith)
      (unfold manually_reserve_contiguous_frames get_num_allocatable_frames num_allocatable_from in
        omega arith)

-- The allocator after the boot.
ready : (s : NonOwningStack) × IsReady memory_map s
ready =
    frame_allocator_init-IsReady memory_map
      (omega arith, omega arith, (omega arith, omega arith, (omega arith, omega arith, tt)))
      (omega arith)
      (unfold manually_reserve_contiguous_frames get_num_allocatable_frames num_allocatable_from in
        omega arith)

Reach-once_example : count 0x3000 (contents ready.0) + count 0x3000 [] ≤ 1
Reach-once_example =
    Reach-once {es = memory_map} {s = ready.0} {o = record { stack = ready.0; held = [] }} 0x3000
      ready.1 (omega arith, (omega arith, (omega arith, tt))) here

abbrev two_frames : NonOwningStack
two_frames = record { slots = 0x1000 ∷ 0x2000 ∷ 0 ∷ []; max_size = 3; size = 2 }

available_frames-reclaim_example :
    (t : NonOwningStack) × (free_limine_bootloader_memory memory_map two_frames
      ≡ ok (length (reclaimable_frames memory_map), t))
    × (available_frames t
        ≡ min (available_frames two_frames + length (reclaimable_frames memory_map)) 3)
available_frames-reclaim_example =
    available_frames-reclaim memory_map two_frames
      (omega arith, omega arith, (omega arith, omega arith, (omega arith, omega arith, tt)))
      (omega arith) (record { fits = omega arith; size_in = omega arith })

free_stack_begin-Covers_example :
    Covers (free_stack_begin memory_map) (num_free_stack_frames memory_map * frame_size) memory_map
    × (8 * length (usable_frames memory_map) ≤ num_free_stack_frames memory_map * frame_size)
free_stack_begin-Covers_example = free_stack_begin-Covers memory_map (omega arith) (
    unfold manually_reserve_contiguous_frames get_num_allocatable_frames num_allocatable_from in
    omega arith)
