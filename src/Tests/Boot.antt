-- ===== src/Tests/Boot.antt =====
-- The start of the kernel on a machine with 32 MiB that are usable.
use dav_os.Kpp.NonOwningStack.{contents}
use dav_os.Base.{◌<◌, ◌≡◌, ◌≢◌, ◌+◌, ◌∷◌, [], refl}
use dav_os.Base.Run.{ok}
use dav_os.Frames.Init.{count}
use dav_os.Paging.PageTree.{get_translation, PageTranslation}
use dav_os.Processor.{word_out}
use dav_os.Processor.LocalApic.{LocalApic}
use dav_os.Processor.PageFault.{isr_page_fault, isr_page_fault-mapped, isr_page_fault-next}
use dav_os.Base.{ℕ, ◌+◌, ◌≤◌, ◌≢◌, refl, List, [], ◌∷◌, length, arith}
use dav_os.Start.Init.Initialized.{
  HasDevices, HasTables, IsWired, Initialized, init_interrupts-Initialized,
}
use dav_os.Start.Memory.{higher_half}
use dav_os.Kpp.CString.{Bytes, strncmp, strncmp_from}
use dav_os.Processor.{Machine, has_msr, has_local_apic, has_pat}
use dav_os.Descriptors.IdtInit.{Isr}
use dav_os.Apic.{IoApic, Devices, handles_irq}
use dav_os.Apic.Madt.{MadtEntry}
use dav_os.Acpi.{find_sdt_with_signature, find_from, table_pointer, num_pointers_to_other_sdts}
use dav_os.Base.{◌==◌, if◌then◌else◌}
use native.Mathlib.Nat.{le_trans}
use dav_os.Frames.{
  MemmapEntry, memmap_usable, memmap_bootloader_reclaimable, free_stack_begin, free_stack_range,
  manually_reserve_contiguous_frames, get_num_allocatable_frames, num_allocatable_from,
  in_exclude_range,
}
use dav_os.Frames.Fill.{IsAligned, kept, usable_frames}
use dav_os.Frames.Init.{IsSmall}
use dav_os.Paging.Init.{KernelImage}
use dav_os.Start.Memory.{IsLinked}
use dav_os.Start.Memory.Started.{Started, start_memory-Started}

abbrev kernel_image : KernelImage
kernel_image = record {
  readonly_start = 0xffff_ffff_8000_0000;
  readonly_end = 0xffff_ffff_8002_0000;
  rw_start = 0xffff_ffff_8002_0000;
  rw_end = 0xffff_ffff_8004_8123;
  physical_base = 0x300_0000;
}

abbrev machine_map : List MemmapEntry
machine_map =
    record { base = 0x10_0000; length = 0x200_0000; kind = memmap_usable }
    ∷ record { base = 0x210_0000; length = 0x2000; kind = memmap_bootloader_reclaimable }
    ∷ record { base = 0x300_0000; length = 0x4_9000; kind = 6 }
    ∷ []

kernel_image-IsLinked : IsLinked kernel_image
kernel_image-IsLinked = omega arith

map-IsAligned : IsAligned machine_map
map-IsAligned =
    (omega arith, omega arith, (omega arith, omega arith, (omega arith, omega arith, tt)))

usable-IsSmall : IsSmall machine_map
usable-IsSmall = omega arith

place_found : free_stack_begin machine_map ≢ 0
unfolding manually_reserve_contiguous_frames get_num_allocatable_frames num_allocatable_from
place_found = omega arith

enough_frames : 6400 ≤ length (kept (free_stack_range machine_map ∷ []) (usable_frames machine_map))
unfolding in_exclude_range manually_reserve_contiguous_frames get_num_allocatable_frames
    num_allocatable_from
enough_frames = omega arith

more_frames : 6200 ≤ length (kept (free_stack_range machine_map ∷ []) (usable_frames machine_map))
more_frames = le_trans (omega arith) enough_frames

start_memory-Started_example : Started kernel_image machine_map (λ _ _. 0)
start_memory-Started_example =
    start_memory-Started kernel_image machine_map (λ _ _. 0) kernel_image-IsLinked map-IsAligned
      usable-IsSmall (omega arith, (omega arith, (omega arith, tt)))
      (omega arith, omega arith, (omega arith, omega arith, (omega arith, omega arith, tt)))
      (omega arith) place_found more_frames

-- The memory that is handed on.
started : Started kernel_image machine_map (λ _ _. 0)
started =
    start_memory-Started kernel_image machine_map (λ _ _. 0) kernel_image-IsLinked map-IsAligned
      usable-IsSmall (omega arith, (omega arith, (omega arith, tt)))
      (omega arith, omega arith, (omega arith, omega arith, (omega arith, omega arith, tt)))
      (omega arith) place_found more_frames

abbrev bytes : List (ℕ × ℕ) → Bytes
bytes [] x = 0
bytes ((a, v) ∷ rest) x = if x == a then v else bytes rest x

-- A root pointer at 0x100, whose root table at 0x200 in the direct map lists the MADT at 0x300 as its second
-- pointer; the MADT has one IO APIC. The tables' names are also read in the identity map. The text "APIC" stands at 0x400.
abbrev firmware : Bytes
firmware = bytes (
    (0x108, 0xfe)
    ∷ (0x111, 2)
    ∷ (higher_half + 0x204, 44)
    ∷ (higher_half + 0x229, 3)
    ∷ (0x300, b'A')
    ∷ (higher_half + 0x300, b'A')
    ∷ (0x301, b'P')
    ∷ (higher_half + 0x301, b'P')
    ∷ (0x302, b'I')
    ∷ (higher_half + 0x302, b'I')
    ∷ (0x303, b'C')
    ∷ (higher_half + 0x303, b'C')
    ∷ (higher_half + 0x304, 56)
    ∷ (higher_half + 0x32c, 1)
    ∷ (higher_half + 0x32d, 12)
    ∷ (higher_half + 0x32e, 2)
    ∷ (higher_half + 0x332, 0xc0)
    ∷ (higher_half + 0x333, 0xfe)
    ∷ (0x400, b'A')
    ∷ (0x401, b'P')
    ∷ (0x402, b'I')
    ∷ (0x403, b'C')
    ∷ [])

abbrev machine : Machine
machine = record {
  cpuid_edx = 0x1_0220;
  rdmsr = λ t msr. (0xfee0_0900, 0);
  port = λ t port. if port == 0x64 then 1 else 0;
}

-- Register 1 of every IO APIC shows 23.
abbrev devices : Devices
devices = record { selected = λ _. 0; registers = λ _ n. if n == 1 then 0x17_0011 else 0x1_0000 }

abbrev entries : List MadtEntry
entries = record { kind = 1; length = 12 } ∷ []

-- One routine for every interrupt.
abbrev routine : Isr → ℕ
routine i = 0xffff_ffff_8000_1000

abbrev io_apic : IoApic
io_apic = record {
  address = 0xfec0_0000;
  global_system_interrupt_base = 0;
  id = 2;
  num_redirection_entries = 23;
}

machine-HasDevices : HasDevices 16 machine
unfolding has_msr has_local_apic has_pat
machine-HasDevices = record {
  msr = refl;
  apic = refl;
  pat = refl;
  clear = λ t. (0, omega arith, refl);
  full = λ t. (0, omega arith, refl);
}

firmware-HasTables :
    HasTables machine started.paging.root firmware 0x400 0x100 routine 16 entries devices
unfolding find_sdt_with_signature find_from table_pointer num_pointers_to_other_sdts strncmp
    strncmp_from
firmware-HasTables = record {
  root_pointer = omega arith;
  summed = refl;
  listed = omega arith;
  laid = (refl, refl, omega arith, refl);
  top = omega arith;
  low = (λ e. omega arith, tt);
  few = omega arith;
  enough = omega arith;
}

keyboard-IsWired :
    IsWired machine started.paging.root firmware 0x400 0x100 routine entries devices io_apic
unfolding find_sdt_with_signature find_from table_pointer num_pointers_to_other_sdts strncmp
    strncmp_from handles_irq
keyboard-IsWired = record {
  handled = refl;
  entries = omega arith;
  id = omega arith;
  words = λ x n. ground arith;
}

init_interrupts-Initialized_example :
    Initialized machine started.paging.root firmware 0x400 0x100 routine 16
      (λ _. 0)
      started.paging.memory
      []
      devices
      entries
      io_apic
init_interrupts-Initialized_example =
    init_interrupts-Initialized machine started.paging.root firmware 0x400 0x100 routine 16 (λ _. 0)
      started.paging.memory started.place [] devices entries io_apic started.tree machine-HasDevices
      firmware-HasTables (omega (arith, started.left, enough_frames)) keyboard-IsWired
      (λ i. omega arith)

-- The local APIC in the identity map of the memory that is handed on.
abbrev with_apic : LocalApic
with_apic = record { base_address = 0xfee0_0000; trace = []; memory = started.paging.memory }

frames_left : 8 ≤ started.paging.memory.free.size
frames_left = omega (arith, started.left, enough_frames)

abbrev eoi_page : PageTranslation
eoi_page = record { physical_address = 0xfee0_0000; flags = 3 }

register_there :
    get_translation higher_half started.paging.root 0xfee0_00b0 started.paging.memory ≡ ok eoi_page
register_there = started.identity 0xfee0_00b0 (omega arith) (omega arith)

-- An address of the heap, inside a page.
isr_page_fault-mapped_example :
    (c' : LocalApic) × (frame : ℕ) × (isr_page_fault higher_half started.paging.root 1 0x1_0000_1010
        with_apic
      ≡ ok c')
    × (get_translation higher_half started.paging.root 0x1_0000_1010 c'.memory
        ≡ ok (record { physical_address = frame; flags = 3 }))
    × (0 < count frame (contents started.paging.memory.free))
    × (count frame (contents c'.memory.free) ≡ 0)
    × (c'.trace ≡ word_out 0xfee0_00b0 0 ∷ [])
isr_page_fault-mapped_example =
    isr_page_fault-mapped higher_half started.paging.root 0x1_0000_1010 with_apic started.tree
      (omega arith) (omega arith) frames_left 0 eoi_page register_there refl (λ i. omega (arith, i))

no_count : (n : ℕ) → ¬ (0 < n) → n ≡ 0
no_count n h = omega (arith, h)

isr_page_fault-next_example :
    (c' : LocalApic) × (frame : ℕ) × (isr_page_fault higher_half started.paging.root 1 0x1_0000_1010
        with_apic
      ≡ ok c')
    × (get_translation higher_half started.paging.root 0x1_0000_2010 c'.memory
        ≡ ok (record { physical_address = frame; flags = 3 }))
    × (frame ≢ 0)
isr_page_fault-next_example =
    isr_page_fault-next higher_half started.paging.root 0x1_0000_1010 with_apic started.tree
      (omega arith) (omega arith) frames_left 0 eoi_page register_there refl (λ i. omega (arith, i))
      (record { physical_address = 0; flags = 0 }) (omega arith)
      (started.heap_fresh 0x1_0000_2010 refl)
      (no_count (count 0 (contents started.paging.memory.free))
        (λ h. (started.tree.free_apart 0 h).1 refl))
