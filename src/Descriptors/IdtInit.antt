-- ===== src/Descriptors/IdtInit.antt =====
-- The interrupt service routines of kernel/src/idt.cpp and `idt_init`. The addresses of the routines,
-- which the linker chooses, are a parameter. The instruction `lidt` is not part of the model.
use dav_os.Base.{
  ℕ, suc, ◌+◌, ◌-◌, ◌^◌, ◌≢◌, false, ◌≤◌, ◌<◌, ◌≡◌, refl, sym, ◌∙◌, ◌==◌, if◌then◌else◌, List, [],
  ◌∷◌, length, arith, Option, none, some, Bool-cases, inl, inr,
}
use dav_os.Base.Run.{Run, ok, panic, ◌>>=◌}
use dav_os.Descriptors.Gdt.{
  global, kernel_code, kernel, to_uint16_t, segment_index, table_index, privilege_index,
}
use dav_os.Descriptors.Idt.{
  GateDescriptor, GateType, interrupt, trap, num_gates, gate_size, load_gate_descriptor, gate_byte,
  gate_address, gate_selector, load_gate_descriptor-read,
}

-- The routines, in the order of the vectors that they serve.
pub data Isr : Type 0 where
  divide_error debug_exception nmi_interrupt breakpoint overflow bound_range_exceeded invalid_opcode
        device_not_available double_fault coprocessor_segment_overrun invalid_tss
        segment_not_present stack_segment_fault general_protection page_fault math_fault
        alignment_check machine_check simd_floating_point_exception virtualization_exception
        keyboard interprocessor_interrupt :
      Isr

abbrev pub system_isrs : List Isr
system_isrs =
    divide_error ∷ debug_exception ∷ nmi_interrupt ∷ breakpoint ∷ overflow ∷ bound_range_exceeded
    ∷ invalid_opcode ∷ device_not_available ∷ double_fault ∷ coprocessor_segment_overrun
    ∷ invalid_tss ∷ segment_not_present ∷ stack_segment_fault ∷ general_protection ∷ page_fault
    ∷ math_fault ∷ alignment_check ∷ machine_check ∷ simd_floating_point_exception
    ∷ virtualization_exception ∷ []

unfoldable pub gate_type_of : Isr → GateType
gate_type_of breakpoint = trap
gate_type_of _ = interrupt

-- What a routine does in the kernel's default build: the exceptions stop the kernel, all but the page
-- fault; the other three run their handler, then signal the end of the interrupt.
unfoldable pub run_isr : {S : Type 0} → (Isr → S → Run S) → (S → S) → Isr → S → Run S
run_isr handler send_end_of_interrupt page_fault s =
    handler page_fault s >>= λ t. ok (send_end_of_interrupt t)
run_isr handler send_end_of_interrupt keyboard s =
    handler keyboard s >>= λ t. ok (send_end_of_interrupt t)
run_isr handler send_end_of_interrupt interprocessor_interrupt s =
    handler interprocessor_interrupt s >>= λ t. ok (send_end_of_interrupt t)
run_isr handler send_end_of_interrupt _ s = panic

-- The number of an interrupt: the processor's for the first fifteen exceptions, one less than the
-- processor's for the last five, and the kernel's own for the other two.
abbrev pub vector_of : Isr → ℕ
vector_of divide_error = 0
vector_of debug_exception = 1
vector_of nmi_interrupt = 2
vector_of breakpoint = 3
vector_of overflow = 4
vector_of bound_range_exceeded = 5
vector_of invalid_opcode = 6
vector_of device_not_available = 7
vector_of double_fault = 8
vector_of coprocessor_segment_overrun = 9
vector_of invalid_tss = 10
vector_of segment_not_present = 11
vector_of stack_segment_fault = 12
vector_of general_protection = 13
vector_of page_fault = 14
vector_of math_fault = 16 - 1
vector_of alignment_check = 17 - 1
vector_of machine_check = 18 - 1
vector_of simd_floating_point_exception = 19 - 1
vector_of virtualization_exception = 20 - 1
vector_of keyboard = 0x30
vector_of interprocessor_interrupt = 0xff

-- The vectors that no routine has.
abbrev pub IsFree : ℕ → Type 0
IsFree v = (20 ≤ v) × (v ≢ 0x30) × (v ≢ 0xff)

module _ (address : Isr → ℕ) where
  -- `{isr, SegmentSelector(kernel, global, kernel_code), 0, type, kernel}`
  pub gate_of : Isr → GateDescriptor
  gate_of isr = record {
    interrupt_service_routine = address isr;
    selector = record {
      requested_privilege_level = kernel;
      table_type = global;
      gdt_segment = kernel_code;
    };
    interrupt_stack_table_offset = 0;
    gate_type = gate_type_of isr;
    required_privilege = kernel;
  }

  -- `for (i = 0; i < descriptors.size(); ++i) idt.load_gate_descriptor(i + from, descriptors[i])`
  pub load_gates : ℕ → List Isr → (ℕ → ℕ) → ℕ → ℕ
  load_gates from [] bytes = bytes
  load_gates from (isr ∷ isrs) bytes =
      load_gates (suc from) isrs (load_gate_descriptor from (gate_of isr) bytes)

  pub idt_init : (ℕ → ℕ) → ℕ → ℕ
  idt_init bytes =
      load_gate_descriptor 0xff (gate_of interprocessor_interrupt)
        (load_gates 0x30 (keyboard ∷ []) (load_gates 0 system_isrs bytes))

  -- The routine that a list puts at a vector.
  abbrev pub lookup : ℕ → ℕ → List Isr → Option Isr
  lookup from v [] = none
  lookup from v (isr ∷ isrs) = if v == from then some isr else lookup (suc from) v isrs

  abbrev loaded : ℕ → Option Isr
  loaded v =
      if v == 0xff
      then some interprocessor_interrupt
      else if v == 0x30
      then some keyboard
      else lookup 0 v system_isrs

  -- A gate serves a routine, or is as it was before.
  abbrev pub Serves : (ℕ → ℕ) → (ℕ → ℕ) → ℕ → Option Isr → Type 0
  Serves before bytes v (some isr) =
      (gate_address bytes v ≡ address isr) × (gate_selector bytes v ≡ 8)
  Serves before bytes v none = (k : ℕ) → k < gate_size → gate_byte bytes v k ≡ gate_byte before v k

  -- The later gates of a table do not have a vector below its start.
  lookup-below : (isrs : List Isr) (from v : ℕ) → v < from → lookup from v isrs ≡ none
  lookup-below [] from v below = refl
  lookup-below (isr ∷ isrs) from v below =
      rw (lookup-below isrs (suc from) v (omega arith)) (ground (arith, below))

  abbrev pub or_before : Option Isr → Option Isr → Option Isr
  or_before (some isr) o = some isr
  or_before none o = o

  load_gate-Serves :
      (before bytes : ℕ → ℕ) (index v : ℕ) (isr : Isr) (o : Option Isr)
      → ((i : Isr) → address i < 2 ^ 64)
      → index < num_gates
      → Serves before bytes v o
      → Serves before
          (load_gate_descriptor index (gate_of isr) bytes)
          v
          (if v == index then some isr else o)
  unfolding gate_of to_uint16_t segment_index table_index privilege_index
  load_gate-Serves before bytes index v isr o small hi s =
      let l = load_gate_descriptor-read index (gate_of isr) bytes hi (small isr) in
      elim (Bool-cases (v == index)) [
        | inl same ↦ let at : v ≡ index = ground (arith, same) in rw same (rw at (l.0, l.1))
        | inr other ↦ rw other (keep o (λ k h. l.2 v k h (ground (arith, other))) s)
      ]
    where
      keep :
          (o' : Option Isr)
          → ((k : ℕ)
              → k < gate_size
              → gate_byte (load_gate_descriptor index (gate_of isr) bytes) v k
                ≡ gate_byte bytes v k)
          → Serves before bytes v o'
          → Serves before (load_gate_descriptor index (gate_of isr) bytes) v o'
      keep none same t = λ k h. same k h ∙ t k h
      keep (some i) same t = (
        rw
            (
              same 0 (omega arith),
              same 1 (omega arith),
              same 6 (omega arith),
              same 7 (omega arith),
              same 8 (omega arith),
              same 9 (omega arith),
              same 10 (omega arith),
              same 11 (omega arith),
            )
            t.0,
        rw (same 2 (omega arith), same 3 (omega arith)) t.1,
      )

  lookup-step :
      (isrs : List Isr) (isr : Isr) (from v : ℕ) (o : Option Isr)
      → or_before (lookup (suc from) v isrs) (if v == from then some isr else o)
        ≡ or_before (lookup from v (isr ∷ isrs)) o
  lookup-step isrs isr from v o = elim (Bool-cases (v == from)) [
    | inl same ↦
        let at : v < suc from = ground (arith, same) in
        rw (same, lookup-below isrs (suc from) v at) refl
    | inr other ↦ rw other refl
  ]

  or_before-none : (o : Option Isr) → or_before o none ≡ o
  or_before-none none = refl
  or_before-none (some i) = refl

  loaded_lem :
      (v : ℕ)
      → (if v == 0xff
          then some interprocessor_interrupt
          else or_before (lookup 0x30 v (keyboard ∷ [])) (or_before (lookup 0 v system_isrs) none))
        ≡ loaded v
  loaded_lem v =
      rw (or_before-none (lookup 0 v system_isrs))
        (elim (Bool-cases (v == 0x30)) [ inl same ↦ rw same refl | inr other ↦ rw other refl ])

  Serves-self : (v : ℕ) (bytes : ℕ → ℕ) → Serves bytes bytes v none
  Serves-self v bytes = λ k h. refl

  load_gates-Serves :
      (isrs : List Isr) (before bytes : ℕ → ℕ) (from v : ℕ) (o : Option Isr)
      → ((i : Isr) → address i < 2 ^ 64)
      → from + length isrs ≤ num_gates
      → Serves before bytes v o
      → Serves before (load_gates from isrs bytes) v (or_before (lookup from v isrs) o)
  unfolding load_gates
  load_gates-Serves [] before bytes from v o small room s = s
  load_gates-Serves (isr ∷ isrs) before bytes from v o small room s =
      let one = load_gate-Serves before bytes from v isr o small (omega arith) s in
      let ih =
        load_gates-Serves isrs before (load_gate_descriptor from (gate_of isr) bytes) (suc from) v
          (if v == from then some isr else o) small (omega arith) one in
      rw (sym (lookup-step isrs isr from v o)) ih

  idt_init-loaded :
      (v : ℕ) (bytes : ℕ → ℕ)
      → ((i : Isr) → address i < 2 ^ 64)
      → Serves bytes (idt_init bytes) v (loaded v)
  unfolding idt_init
  idt_init-loaded v bytes small =
      let system =
        load_gates-Serves system_isrs bytes bytes 0 v none small (omega arith)
          (Serves-self v bytes) in
      let user =
        load_gates-Serves (keyboard ∷ []) bytes (load_gates 0 system_isrs bytes) 0x30 v
          (or_before (lookup 0 v system_isrs) none) small (omega arith) system in
      let all =
        load_gate-Serves bytes (load_gates 0x30 (keyboard ∷ []) (load_gates 0 system_isrs bytes))
          0xff v interprocessor_interrupt
          (or_before (lookup 0x30 v (keyboard ∷ [])) (or_before (lookup 0 v system_isrs) none))
          small (omega arith) user in
      rw (sym (loaded_lem v)) all

  loaded-vector_of : (isr : Isr) → loaded (vector_of isr) ≡ some isr
  loaded-vector_of divide_error = refl
  loaded-vector_of debug_exception = refl
  loaded-vector_of nmi_interrupt = refl
  loaded-vector_of breakpoint = refl
  loaded-vector_of overflow = refl
  loaded-vector_of bound_range_exceeded = refl
  loaded-vector_of invalid_opcode = refl
  loaded-vector_of device_not_available = refl
  loaded-vector_of double_fault = refl
  loaded-vector_of coprocessor_segment_overrun = refl
  loaded-vector_of invalid_tss = refl
  loaded-vector_of segment_not_present = refl
  loaded-vector_of stack_segment_fault = refl
  loaded-vector_of general_protection = refl
  loaded-vector_of page_fault = refl
  loaded-vector_of math_fault = refl
  loaded-vector_of alignment_check = refl
  loaded-vector_of machine_check = refl
  loaded-vector_of simd_floating_point_exception = refl
  loaded-vector_of virtualization_exception = refl
  loaded-vector_of keyboard = refl
  loaded-vector_of interprocessor_interrupt = refl

  lookup-above : (isrs : List Isr) (from v : ℕ) → from + length isrs ≤ v → lookup from v isrs ≡ none
  lookup-above [] from v above = refl
  lookup-above (isr ∷ isrs) from v above =
      rw (lookup-above isrs (suc from) v (omega arith)) (ground (arith, above))

  loaded-IsFree : (v : ℕ) → IsFree v → loaded v ≡ none
  loaded-IsFree v free =
      let not_last : (v == 0xff) ≡ false = ground (arith, free) in
      let not_keyboard : (v == 0x30) ≡ false = ground (arith, free) in
      rw (not_last, not_keyboard) (lookup-above system_isrs 0 v free.0)

  -- When the routines' addresses are below 2 ^ 64, in the table that idt_init builds the gate of
  -- every routine's vector leads to the routine, with the whole address and the selector 8, and
  -- each gate from 20 on but 0x30 and 0xff has the bytes that it had. The vectors are the
  -- processor's for the first fifteen exceptions, 0 to 14, one less than the processor's for the
  -- last five, 15 to 19, 0x30 for the keyboard and 0xff for the interprocessor interrupt.
  pub idt_init-Serves :
      (isr : Isr) (v : ℕ) (bytes : ℕ → ℕ)
      → ((i : Isr) → address i < 2 ^ 64)
      → IsFree v
      → Serves bytes (idt_init bytes) (vector_of isr) (some isr)
        × Serves bytes (idt_init bytes) v none
  idt_init-Serves isr v bytes small free = (
    rw (loaded-vector_of isr) at (idt_init-loaded (vector_of isr) bytes small),
    rw (loaded-IsFree v free) at (idt_init-loaded v bytes small),
  )
