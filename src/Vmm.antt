-- ===== src/Vmm.antt =====
-- kernel/mem/vmm.c, the virtual memory manager. The doubly linked list of descriptors is a list in
-- the order of its links, with the head that `update_head` leaves in front; a pointer to a
-- descriptor is its `address`. What a function does under `vmm->lock` is one step.
pub mod Descriptors
pub mod Machine
pub mod Layout
pub mod Manager
pub mod Paging
