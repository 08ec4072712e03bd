-- ===== src/Descriptors.antt =====
-- The descriptor tables of the processor: kernel/src/gdt.cpp, kernel/include/kernel/SegmentSelector.h,
-- kernel/src/TableDescriptor.cpp, kernel/src/IDTStructure.cpp and `idt_init` of kernel/src/idt.cpp.
pub mod Gdt
pub mod Idt
pub mod IdtInit
