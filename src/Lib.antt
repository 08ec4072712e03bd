-- ===== src/Lib.antt =====
-- davOS, an x86-64 kernel booted by Limine, in C++ (kernel/src, kernel/include/kernel and the small
-- library kernel/lib/kpp). At boot the kernel sets up its descriptor tables and the interrupt table,
-- puts the usable physical frames on a free stack, builds a page tree of its own whose tables come
-- from that stack, and starts a heap on the free virtual regions, whose pages get frames by page faults.
-- It enables the local APIC, the keyboard controller and, from the ACPI tables, the IO APICs; then a
-- shell reads keys, which the keyboard interrupt puts into a queue, and prints to a terminal that is
-- painted into the framebuffer.
--
-- The files, the code they model, and how state and operations correspond:
--   Base            helpers; Base.Run is what a routine does (return, kernel_panic, kernel_hang, or run
--                   out of the fuel of a loop), Base.Words the arithmetic of machine words
--   Kpp             kernel/lib/kpp: CircularQueue, NonOwningStack (an object is a record, a method that
--                   changes it returns the new one), CString (memory is a function from addresses to
--                   bytes), Printf (vprintf, output as a list of characters, and the types of its
--                   arguments), Optional (slots by address, with the object that is alive in each),
--                   UniquePtr (who owns what) and Function (a pointer to an object or to a reference)
--   Frames          kernel/src/frame_allocator.cpp; the memory map is a list of entries, the free stack
--                   the state; children: Fill, Init, Exclusive (callers and who holds what), Reclaim, Owner
--                   (kernel/src/Frame.cpp)
--   Paging          kernel/src/paging.cpp, PageTree.cpp and PageTreeNode.cpp; the nodes are a function
--                   of address and index, and Memory joins them with the free stack; Mapping and
--                   Allocate are the calls on whole regions, Init is paging_init
--   Heap            kernel/include/kernel/FreeListAllocator.cpp on a memory of 64-bit words: Allocate,
--                   Merge, Link and Deallocate, Region (add_memory) and RoundTrip
--   Vmm             kernel/src/vmm.cpp, which joins Heap, Paging and Frames: Init and Free
--   Processor       kernel/src/processor.cpp; a trace of what the kernel does to the devices, and a Machine,
--                   a parameter, for what they answer; Pic, Msr, Polling, KeyboardController, LocalApic
--                   (kernel/src/LocalAPIC.cpp) and PageFault (isr_page_fault of kernel/src/idt.cpp)
--   Acpi            kernel/include/kernel/RootSystemDescriptionPointer.h, ACPISDTHeader.h and RootSDT.h
--   Apic            kernel/src/APICManager.cpp: Madt (its parsing), Initialize and Redirect
--   Start           kernel_init in kernel/src/kernel.cpp: Memory (the frames and the page tree) and Init (the
--                   local APIC, the keyboard controller and the IO APICs)
--   Terminal        kernel/src/Terminal.cpp: LineBuffer, Framebuffer, Paint
--   Keyboard        isr_keyboard of kernel/src/idt.cpp and kernel/include/kernel/KeyboardBuffer.hpp
--   Shell           the line editor and the commands of kernel/src/main.cpp; Session is its loop
--   Descriptors     kernel/src/gdt.cpp, IDTStructure.cpp, TableDescriptor.cpp and idt_init
--   Tests           the theorems at concrete inputs
--
-- Numbers are natural numbers; where the code's unsigned arithmetic can wrap, the wrap is written out,
-- and a file says so where sums stay small. Loops with a count known beforehand are structural
-- recursion. The others run on fuel: one round more than the pages of a range (Paging.Mapping), the
-- frames of an entry (Frames), the blocks of a list (Heap), the entries of the MADT (Apic), 65 rounds for
-- the digits of a 64-bit number (Kpp.Printf), 257 for the visible lines (Terminal.Paint). The waits for the
-- keyboard controller take as many rounds as the controller is given to become ready, the shell a round
-- for each line, and a page fault one more for the fault that its own write to the local APIC may cause. The tables that a mapping needs are counted, so that 6200 free frames are enough for the start.
--
-- Parameters stand for what is not code of the kernel: the memory map, the HHDM offset and the address of
-- the ACPI root pointer that Limine answers, addresses that the linker chooses, what the processor and its
-- devices answer, the firmware's tables in memory, and the bodies of interrupt routines other than the
-- keyboard's and the page fault's. Not modelled: the page faults of vmm_init's
-- writes to the heap, whose words are a store apart from the page tables, so that kernel_init is modelled before
-- vmm_init and after it, and not as one run; what kernel_init calls besides (the global constructors, the
-- terminal's start from the framebuffer that Limine answers, the loading of the segment table); the copy
-- assignment of Function, which does not compile; Array and Span of kpp, whose storage is a value in the
-- models; the privileged instructions themselves; tests and debug output. What does not return (kernel_panic,
-- kernel_hang) is an outcome of Base.Run.
pub mod Base
pub mod Kpp
pub mod Frames
pub mod Heap
pub mod Vmm
pub mod Start
pub mod Apic
pub mod Acpi
pub mod Processor
pub mod Paging
pub mod Terminal
pub mod Keyboard
pub mod Shell
pub mod Descriptors
mod Tests
