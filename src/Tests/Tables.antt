-- ===== src/Tests/Tables.antt =====
-- The descriptor tables at concrete inputs.
use dav_os.Base.{ℕ, ◌+◌, ◌*◌, ◌/◌, ◌%◌, ◌^◌, ◌≡◌, arith, some, none}
use dav_os.Descriptors.Gdt.{make_segment_descriptor, make_segment_descriptor-fields}
use dav_os.Descriptors.Idt.{GateDescriptor}
use dav_os.Descriptors.IdtInit.{Isr, page_fault, gate_of, Serves, idt_init, idt_init-Serves}

-- Every routine at the same address.
abbrev routine : Isr → ℕ
routine isr = 0xffff_ffff_8000_1234

make_segment_descriptor-fields_example :
    let d = make_segment_descriptor 0x1234_5678 0xf_ffff 0x9b 10 in
    (d / 2 ^ 16 % 2 ^ 24 + d / 2 ^ 56 * 2 ^ 24 ≡ 0x1234_5678)
    × (d % 2 ^ 16 + d / 2 ^ 48 % 2 ^ 4 * 2 ^ 16 ≡ 0xf_ffff)
    × (d / 2 ^ 40 % 2 ^ 8 ≡ 0x9b)
    × (d / 2 ^ 52 % 2 ^ 4 ≡ 10 % 16)
make_segment_descriptor-fields_example =
    make_segment_descriptor-fields 0x1234_5678 0xf_ffff 0x9b 10 (omega arith) (omega arith)
      (omega arith)

abbrev fault_gate : GateDescriptor
fault_gate = gate_of routine page_fault

idt_init-Serves_example :
    Serves routine (λ i. 0) (idt_init routine (λ i. 0)) 14 (some page_fault)
    × Serves routine (λ i. 0) (idt_init routine (λ i. 0)) 32 none
idt_init-Serves_example =
    idt_init-Serves routine page_fault 32 (λ i. 0) (λ i. omega arith)
      (omega arith, omega arith, omega arith)
