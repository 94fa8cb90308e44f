-- ===== src/Heap/Check.antt =====
-- The reading operations of the heap and its consistency check.
use garbage_os.Base.{
  ℕ, zero, suc, ◌%◌, ◌||◌, Bool, true, ltb, ◌==◌, ◌!=◌, null, if◌then◌else◌, add64, page_size,
}
use garbage_os.Heap.{Heap}
use garbage_os.Heap.Chunks.{
  is_heap_chunk_corrupted, is_last_chunk_of_heap, get_next_heap_chunk_header,
}

abbrev pub get_number_of_chunks_of_kheap : Heap → ℕ
get_number_of_chunks_of_kheap heap = heap.number_of_chunks

abbrev pub get_kheap_total_size : Heap → ℕ
get_kheap_total_size heap = heap.size

abbrev pub enable_kheap_growth : Heap → Heap
enable_kheap_growth heap = record heap { enable_growth = true }

-- The loop over the chunks, until the null pointer: `n` is what is left of `number_of_chunks`. The
-- upper bound is taken with the header's flags as a part of the size.
unfoldable pub are_chunks_corrupted : Heap → (n header : ℕ) → Bool
are_chunks_corrupted heap zero header = header != null
are_chunks_corrupted heap (suc n) header =
    let rest = are_chunks_corrupted heap n (get_next_heap_chunk_header heap.memory header) in
    if header == null
    then true
    else if ltb header heap.start
        || ltb (add64 heap.start heap.size) (add64 header (heap.memory header))
    then true
    else if is_heap_chunk_corrupted heap.memory header
    then true
    else if is_last_chunk_of_heap heap.memory header
    then n != 0
    else rest

-- `unsync_is_kheap_corrupted`
unfoldable pub is_kheap_corrupted : Heap → Bool
is_kheap_corrupted heap =
    if heap.size % page_size != 0
    then true
    else if heap.start % page_size != 0
    then true
    else are_chunks_corrupted heap heap.number_of_chunks heap.start
