-- ===== src/Lib.antt =====
-- The GarbageOS kernel (kernel/): its memory management, which are physical frames, virtual address
-- space, kernel heap, and the boot data that they start from; its interrupts, timer and processors; and
-- its text output, the system tables of the firmware and the kernel's image.
--
-- The parts, and what models them:
-- - PhysicalMemory, BootloaderData, BubbleSort: kernel/HAL/bios/bootloader_data.c, which turns the
--   memory map of the boot loader into ranges of RAM and of free memory. The boot data, which the
--   code reads at a fixed address, is the argument of the functions; the static buffers, which are
--   filled at the first call, are an optional list.
-- - FrameAllocator: kernel/mem/frame_allocator.c, which hands out frames of the free ranges and keeps
--   returned frames on a stack in memory. Its lock is held from the first to the last line of each
--   operation, so an operation is one function.
-- - Vmm: kernel/mem/vmm.c, the ranges of an address space. Vmm/Descriptors is how a descriptor is
--   cut, Vmm/Manager the operations on the list of descriptors, with the page tables, the frame
--   allocator and the invalidation of translations as the interface Vmm/Machine. The linked list of
--   descriptors is a list, a handle is the address of a descriptor. Descriptors come from the bump
--   allocator or from `kmalloc`, whose outcomes are an argument: it may panic or return an address twice;
--   a call of it that waits for ever for the lock of the manager is not described. Vmm/Layout is the address space
--   that such a list stands for. `identity_map` is `map_identity` here. Vmm/Paging fills Vmm/Machine
--   with PageTables and a frame allocator, and has an allocation down to the frames.
-- - PageTables: kernel/HAL/x86-64/x64-memory.c, the page tables of an address space in memory. The
--   frame allocator is the interface PageTables/Tree.Supply, which PageTables/Frames fills with
--   FrameAllocator.
-- - Heap: kernel/mem/heap.c, chunks with headers and footers in memory (a function from addresses to
--   words), in 128 doubly linked buckets. The growth of the heap is `try_expand_vmem_top` of the
--   manager, an argument of the functions.
-- - Shootdown: kernel/mem/vaddr_cache_shootdown.c, the queues in which processors tell each other which
--   translations to drop, and the signals that a sender waits for. The handler is run on a queue to
--   which nothing is pushed meanwhile, with a round for each node of it. The sender is modelled on its own:
--   the steps of other processors between its loops over the queues are not.
-- - KernelData: kernel/kernel_data.c, the list of the data of the processors.
-- - LinkedList: kernel/util/linked_list.c, a list with its size; a pointer to a node is its position.
-- - CircularBuffer: kernel/util/circular_buffer.c, a ring of bytes.
-- - Psf: kernel/psf.c and kernel/display_interface.c, the glyphs of a font and the drawing of a
--   character. The font file is a function from offsets to bytes, a buffer of pixels one from indices. The
--   array of the glyphs ends at their number; a glyph behind it counts as one without pixels.
-- - Kio: kernel/kio.c, text output: Kio the characters on their way to the screen, Kio/Numbers the
--   numbers, Kio/Printf the formats. Text is a list of bytes without the 0 at its end.
-- - Acpi: kernel/acpi/acpi.c and kernel/acpi/madt.c, the system tables, in a memory of bytes.
--   Acpi/Loop is the loop over the structures of the interrupt controllers with any body.
-- - Interrupt: kernel/interrupt/. Apic is the data of the local controllers in apic.c, LocalApic and Ipi
--   are its registers and commands, over the interface Interrupt/Registers; Ioapic is ioapic.c, over an
--   interface of two places in memory for each controller; Pic is pic.c and Dispatch interrupts.c, with
--   ports and handlers as arguments. A handler acts on the state of the machine; the table of handlers
--   is read before it is called.
-- - Pit: kernel/timer/pit.c. The waits run on the values that the counter has when it is read.
-- - Mp: kernel/mp/mp_initialization.c, the start-up interrupts and the wait for the processors.
-- - Cpu: kernel/HAL/x86-64/gdt.c, idt.c and cpu.c, the entries of the descriptor tables,
--   and the loop that stores the descriptors of the processors.
-- - Elf: kernel/elf.c, the segments of the kernel's image.
-- - Base: tests, lists, 64-bit words with their wrap-around, panics and memory.
--
-- A call that stops the machine (`kpanic`, `KASSERT`) is a value with its error code. The loops of the
-- code are recursions over the list, the array or the number of pages that they run over. The search
-- of `kmalloc` has fuel: 129 rounds, since there are 128 buckets and the index that a wrapped size
-- has, and in each bucket as many rounds as the heap has chunks, which bounds the length of a list
-- of its chunks. A flush has a round for each place of its buffer, `printf` one for each character of
-- its format, and a number of 64 bits 64 rounds for its digits. The walk over the
-- structures of a table has fuel as an argument, and is none without an end, as are the waits for
-- devices; as many rounds as a table has bytes are enough for it.
--
-- Not modelled: instructions and devices themselves (the loading of descriptor tables, control registers,
-- the screen), spin locks, start-up code, the boot loader and the tools that build the disk image. A
-- locked section is one function. The contents of freed storage and the loss of a lock at a panic are
-- not modelled either.
pub mod Base
pub mod CircularBuffer
pub mod Mp
pub mod PageTables
pub mod PhysicalMemory
pub mod Pit
pub mod FrameAllocator
pub mod BubbleSort
pub mod BootloaderData
pub mod Heap
pub mod Shootdown
pub mod KernelData
pub mod Interrupt
pub mod LinkedList
pub mod Vmm
pub mod Psf
pub mod Kio
pub mod Acpi
pub mod Cpu
pub mod Elf
