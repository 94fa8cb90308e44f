-- ===== src/Interrupt.antt =====
-- kernel/interrupt: the controllers of interrupts and the dispatch of interrupts to their handlers.
pub mod Registers
pub mod Apic
pub mod LocalApic
pub mod Ipi
pub mod Ioapic
pub mod Pic
pub mod Dispatch
