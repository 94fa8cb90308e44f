-- ===== src/Heap/Laws/Overlap.antt =====
-- The allocations that do not take their chunk.
use garbage_os.Base.{ℕ, ◌+◌, ◌^◌, ◌≤◌, ◌<◌, ◌≡◌, ◌≢◌, true, false, null, ok}
use garbage_os.Heap.{Heap}
use garbage_os.Heap.Alloc.{request_size, search_buckets}
use garbage_os.Heap.Buckets.{get_bucket_index_from_size}
use garbage_os.Heap.Chunks.{
  get_fixed_heap_chunk_size, get_heap_chunk_flag, heap_free_chunk, heap_wilderness_chunk,
}

-- The search of a request for `size` bytes ends at the free chunk `c`, which has another size than
-- the request, and is too small to be split.
pub record FindsTight (heap : Heap) (size c : ℕ) : Type 0 where
  pub found :
      search_buckets 129 heap.number_of_chunks heap
        (request_size size)
        (get_bucket_index_from_size (request_size size))
      ≡ ok c
  pub nonnull : c ≢ null
  pub is_free : get_heap_chunk_flag heap.memory c heap_free_chunk ≡ true
  pub inner : get_heap_chunk_flag heap.memory c heap_wilderness_chunk ≡ false
  pub larger : 32 ≤ get_fixed_heap_chunk_size heap.memory c
  pub other : get_fixed_heap_chunk_size heap.memory c ≢ request_size size
  pub tight : get_fixed_heap_chunk_size heap.memory c < request_size size + 32
  pub size_small : size < 2 ^ 62
