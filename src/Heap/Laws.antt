-- ===== src/Heap/Laws.antt =====
-- What the heap's operations do.
pub mod Index
pub mod Search
pub mod Navigation
pub mod Overlap
pub mod Setup
mod Tests
