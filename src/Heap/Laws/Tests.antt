-- ===== src/Heap/Laws/Tests.antt =====
-- Runs of the heap.
use garbage_os.Base.{
  ◌+◌, ◌⊎◌, ℕ, ◌^◌, ◌≤◌, ◌<◌, ◌≡◌, refl, Bool, false, none, [], ◌∷◌, arith, ◌==◌, if◌then◌else◌,
  Outcome, ok, ◌>>=◌, Memory, store,
}
use garbage_os.Heap.{Heap, buckets_count}
use garbage_os.Heap.Alloc.{
  kmalloc, kfree, request_size, search_bucket, search_buckets, is_suitable, take_chunk,
  take_wilderness,
}
use garbage_os.Heap.Buckets.{
  get_bucket_index_from_size, add_to_bucket_list, remove_from_bucket_list, unlink,
  get_bucket_index_from_header,
}
use garbage_os.Heap.Change.{
  initialize_heap, split_chunk_and_alloc, alloc_chunk, merge_with_next_chunk,
  merge_with_next_and_prev_chunk, try_increase_wilderness_chunk, growth_size,
}
use garbage_os.Heap.Check.{is_kheap_corrupted, are_chunks_corrupted}
use garbage_os.Heap.Chunks.{
  get_fixed_heap_chunk_size, get_heap_chunk_flag, set_heap_chunk_flag, reset_heap_chunk_flag,
  get_next_heap_chunk_header, get_prev_heap_chunk_header, get_heap_chunk_footer_from_header,
  get_heap_chunk_header_from_footer, get_fixed_heap_chunk_size_from_footer, set_bucket_list_next,
  get_bucket_list_next, set_bucket_list_prev, get_bucket_list_prev, is_heap_chunk_corrupted,
  is_last_chunk_of_heap,
}
use garbage_os.Heap.Laws.Index.{bucket_start, bucket_width, get_bucket_index_from_size-bounds}
use garbage_os.Heap.Laws.Navigation.{Navigates, is_kheap_corrupted-Navigates}
use garbage_os.Heap.Laws.Search.{Chain, first_suitable, search_bucket-Chain}
use garbage_os.Heap.Laws.Setup.{IsOneChunk, initialize_heap-IsOneChunk}
use garbage_os.Vmm.Manager.{Handle}

-- A free chunk of 40 bytes before the wilderness chunk of 8104 bytes, in 8192 bytes at 4096.
abbrev two_chunk_memory : Memory
two_chunk_memory = λ a.
    if a == 4096
    then 41
    else if a == 4144
    then 40
    else if a == 4152
    then 8123
    else if a == 12280
    then 8120
    else 0

abbrev two_chunks : Heap
two_chunks = record {
  heap_vmem = none;
  enable_growth = false;
  start = 4096;
  size = 8192;
  number_of_chunks = 2;
  wilderness_chunk = 4152;
  free_buckets = λ i. if i == 4 then 4096 else if i == 127 then 4152 else 0;
  memory = two_chunk_memory;
}

abbrev no_growth : Handle → ℕ → ℕ → Outcome (Bool × ℕ)
no_growth h size world = ok (false, world)

get_bucket_index_from_size-bounds_example :
    (get_bucket_index_from_size 600 < buckets_count)
    × (bucket_start (get_bucket_index_from_size 600) ≤ 600)
    × ((get_bucket_index_from_size 600 ≡ 127)
        ⊎ (600
            < bucket_start (get_bucket_index_from_size 600)
              + bucket_width (get_bucket_index_from_size 600)))
get_bucket_index_from_size-bounds_example =
    get_bucket_index_from_size-bounds 600 (omega arith) (omega arith)

two_chunks-Chain : Chain two_chunk_memory 4096 (4096 ∷ [])
unfolding get_heap_chunk_flag
two_chunks-Chain = (refl, omega arith, refl, refl)

search_bucket-Chain_example :
    search_bucket 2 two_chunk_memory 24 4096 ≡ ok (first_suitable two_chunk_memory 24 (4096 ∷ []))
search_bucket-Chain_example =
    search_bucket-Chain 2 two_chunk_memory 24 4096 (4096 ∷ []) two_chunks-Chain (omega arith)

two_chunks-words : (a : ℕ) → two_chunk_memory a < 2 ^ 64
two_chunks-words a = ground arith

two_chunks_consistent : is_kheap_corrupted two_chunks ≡ false
unfolding is_kheap_corrupted are_chunks_corrupted is_heap_chunk_corrupted
    get_heap_chunk_footer_from_header get_fixed_heap_chunk_size
    get_fixed_heap_chunk_size_from_footer is_last_chunk_of_heap get_heap_chunk_flag
    get_next_heap_chunk_header
two_chunks_consistent = refl

is_kheap_corrupted-Navigates_example : Navigates two_chunks 2 0 4096
is_kheap_corrupted-Navigates_example =
    is_kheap_corrupted-Navigates two_chunks 0 two_chunks-words two_chunks_consistent (omega arith)
      (omega arith)

initialize_heap-IsOneChunk_example :
    (heap : Heap) × (initialize_heap none 4096 8192 two_chunk_memory ≡ ok heap)
    × IsOneChunk 4096 8192 heap
initialize_heap-IsOneChunk_example =
    initialize_heap-IsOneChunk none 4096 8192 two_chunk_memory (omega arith) (omega arith) refl refl
      (omega arith)

-- Three allocations in a new heap, two of them freed: the first chunk is free again, and merges with
-- the second one. The heap is consistent after each step.
after_frees : Outcome (ℕ × ℕ × Bool)
unfolding kmalloc kfree request_size search_bucket search_buckets is_suitable take_chunk
    take_wilderness get_bucket_index_from_size add_to_bucket_list remove_from_bucket_list unlink
    get_bucket_index_from_header initialize_heap split_chunk_and_alloc alloc_chunk
    merge_with_next_chunk merge_with_next_and_prev_chunk try_increase_wilderness_chunk growth_size
    is_kheap_corrupted are_chunks_corrupted get_fixed_heap_chunk_size get_heap_chunk_flag
    set_heap_chunk_flag reset_heap_chunk_flag get_next_heap_chunk_header get_prev_heap_chunk_header
    get_heap_chunk_footer_from_header get_heap_chunk_header_from_footer
    get_fixed_heap_chunk_size_from_footer set_bucket_list_next get_bucket_list_next
    set_bucket_list_prev get_bucket_list_prev is_heap_chunk_corrupted is_last_chunk_of_heap
after_frees = do
  h₀ ← initialize_heap none 4096 8192 two_chunk_memory
  (p, h₁, w₁) ← kmalloc no_growth h₀ 24 0
  (q, h₂, w₂) ← kmalloc no_growth h₁ 100 w₁
  (r, h₃, w₃) ← kmalloc no_growth h₂ 16 w₂
  h₄ ← kfree h₃ p
  h₅ ← kfree h₄ q
  ok (p, h₅.number_of_chunks, is_kheap_corrupted h₅)

after_frees_run : after_frees ≡ ok (4104, 3, false)
unfolding after_frees store
after_frees_run = refl
