-- ===== src/Tests/Faults.antt =====
-- Runs of the frame allocator's bookkeeping, the interrupt routines and an allocated mapping.
use dav_os.Base.{ℕ, suc, ◌≡◌, refl, false, [], ◌∷◌}
use dav_os.Base.Run.{ok}
use dav_os.Frames.{in_exclude_range}
use dav_os.Descriptors.Idt.{gate_type_index}
use dav_os.Descriptors.IdtInit.{page_fault, breakpoint, gate_type_of, run_isr}

in_exclude_range_run :
    in_exclude_range (record { begin = 0x1000; end = 0x3000 } ∷ []) 0x3000 ≡ false
unfolding in_exclude_range
in_exclude_range_run = refl

run_isr_run : run_isr {S = ℕ} (λ i s. ok (suc s)) (λ s. suc s) page_fault 0 ≡ ok 2
unfolding run_isr
run_isr_run = refl

gate_type_of_run : gate_type_index (gate_type_of breakpoint) ≡ 0xf
unfolding gate_type_of gate_type_index
gate_type_of_run = refl
