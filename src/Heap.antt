-- ===== src/Heap.antt =====
-- kernel/mem/heap.c and heap.h: the kernel heap, whose chunks lie in memory one behind the other.
pub mod Chunks
pub mod Buckets
pub mod Change
pub mod Alloc
pub mod Check
pub mod Laws
use garbage_os.Base.{ℕ, Bool, Memory}
use garbage_os.Vmm.Manager.{Handle}

-- `struct Heap`, with the memory that it manages. A pointer to a chunk is the address of its header.
pub record Heap : Type 0 where
  pub heap_vmem : Handle
  pub enable_growth : Bool
  pub start : ℕ
  pub size : ℕ
  pub number_of_chunks : ℕ
  pub wilderness_chunk : ℕ
  pub free_buckets : ℕ → ℕ
  pub memory : Memory

abbrev pub buckets_count : ℕ
buckets_count = 128
