-- ===== src/Tests/Interrupts.antt =====
-- The processor's devices at concrete inputs.
use dav_os.Base.{ℕ, ◌≡◌, ◌∷◌, [], refl, ◌==◌, if◌then◌else◌, arith, some, none, true}
use dav_os.Base.Words.{u8}
use dav_os.Base.Run.{ok}
use dav_os.Paging.PageTreeNode.{get_child_address}
use dav_os.Paging.PageTree.{Memory}
use dav_os.Paging.PageTree.Grow.{Place, IsTree}
use dav_os.Paging.Mapping.{pages_of, paging_allocate_and_map}
use dav_os.Paging.Allocate.{Allocated, paging_allocate_and_map-Allocated}
use dav_os.Processor.{
  Trace, Machine, has_msr, has_local_apic, has_pat, remap_pic, disable_pic,
  init_keyboard_controller,
}
use dav_os.Processor.Pic.{Pic, pic, disable-remap_pic}
use dav_os.Processor.Polling.{commands}
use dav_os.Processor.KeyboardController.{enabled, init_keyboard_controller-enabled}
use dav_os.Processor.LocalApic.{LocalApic, Enabled, enable_apic-Enabled}

abbrev offset : ℕ
offset = 0x8000_0000_0000_0000

abbrev root_table : ℕ
root_table = 0x8000_0000_0010_0000

abbrev eight_frames : Memory
eight_frames = record {
  nodes = λ _ _. 0;
  free = record {
    slots = 0x1000 ∷ 0x2000 ∷ 0x3000 ∷ 0x4000 ∷ 0x5000 ∷ 0x6000 ∷ 0x7000 ∷ 0x8000 ∷ [];
    max_size = 8;
    size = 8;
  };
}

abbrev root_only : Place
root_only x = if x == root_table then some [] else none

-- An empty entry has no child.
no_child : get_child_address 0 ≡ 0
unfolding get_child_address
no_child = refl

eight_frames-IsTree : IsTree offset root_table eight_frames root_only
eight_frames-IsTree = record {
  root_at = refl;
  child_at = λ v i p h d child. absurd (child no_child);
  free_valid = record { fits = omega arith; size_in = omega arith };
  free_once = λ f. ground arith;
  free_apart = λ f h. (ground (arith, h), ground (arith, h), ground (arith, h));
}

paging_allocate_and_map-Allocated_example :
    Allocated offset root_table 0x400
      (pages_of 0x40_0000 0x1000)
      2
      eight_frames
      (paging_allocate_and_map offset root_table 0x40_0000 0x1000 2 eight_frames)
paging_allocate_and_map-Allocated_example =
    paging_allocate_and_map-Allocated offset root_table 0x40_0000 0x1000 2 eight_frames-IsTree refl
      (omega arith) (omega arith) (omega arith)

-- A processor with all features; the controllers' masks, and a keyboard controller that is ready.
abbrev first_pic : Pic
first_pic = record { stage = 0; vector_offset = 8; cascade = 4; mode = 1; mask = 0xb8 }

abbrev second_pic : Pic
second_pic = record { stage = 0; vector_offset = 0x70; cascade = 2; mode = 1; mask = 0x8e }

abbrev machine : Machine
machine = record {
  cpuid_edx = 0x1_0220;
  rdmsr = λ t msr. (0xfee0_0900, 0);
  port = λ t port.
      if port == 0x21
      then (pic 0x20 first_pic t).mask
      else if port == 0xa1
      then (pic 0xa0 second_pic t).mask
      else if port == 0x64
      then 1
      else if port == 0x60
      then 0x74
      else 0;
}

disable-remap_pic_example :
    ((pic 0x20 first_pic (remap_pic machine 0x20 0x28 (disable_pic []))).mask ≡ 0xff)
    × ((pic 0xa0 second_pic (remap_pic machine 0x20 0x28 (disable_pic []))).mask ≡ 0xff)
    × ((pic 0x20 first_pic (remap_pic machine 0x20 0x28 (disable_pic []))).vector_offset ≡ u8 0x20)
    × ((pic 0xa0 second_pic (remap_pic machine 0x20 0x28 (disable_pic []))).vector_offset ≡ u8 0x28)
disable-remap_pic_example =
    disable-remap_pic first_pic second_pic machine 0x20 0x28 [] (λ t. refl, λ t. refl) refl refl

init_keyboard_controller-enabled_example :
    (asked t' : Trace) × (init_keyboard_controller machine 2 [] ≡ ok t')
    × (commands asked ≡ (0x64, 0x20) ∷ (0x64, 0xae) ∷ [])
    × (commands t' ≡ (0x60, enabled (u8 (machine.port asked 0x60))) ∷ (0x64, 0x60) ∷ commands asked)
init_keyboard_controller-enabled_example =
    init_keyboard_controller-enabled machine 2 [] (λ t. (0, omega arith, refl))
      (λ t. (1, omega arith, refl))

abbrev at_start : LocalApic
at_start = record { base_address = 0; trace = []; memory = eight_frames }

features : (has_msr machine ≡ true) × (has_local_apic machine ≡ true) × (has_pat machine ≡ true)
unfolding has_msr has_local_apic has_pat
features = (refl, refl, refl)

enable_apic-Enabled_example : Enabled machine offset root_table at_start
enable_apic-Enabled_example =
    enable_apic-Enabled machine offset root_table at_start features.0 features.1 features.2
      eight_frames-IsTree (omega arith) (omega arith) (omega arith) (omega arith)
