-- ===== src/Heap/Buckets.antt =====
-- The buckets: doubly linked lists of free chunks, by their size.
use garbage_os.Base.{
  ℕ, ◌+◌, ◌-◌, ◌/◌, ◌&&◌, leb, ◌==◌, ◌!=◌, if◌then◌else◌, sub64, null, Outcome, ok, ◌>>=◌, ◌>>◌,
  kassert, Memory,
}
use garbage_os.Heap.{Heap, buckets_count}
use garbage_os.Heap.Chunks.{
  get_fixed_heap_chunk_size, get_heap_chunk_flag, set_bucket_list_next, set_bucket_list_prev,
  get_bucket_list_next, get_bucket_list_prev, heap_free_chunk, heap_wilderness_chunk,
}

-- The index for a size. A size below 8 has the index -1, here as a 64-bit word.
unfoldable pub get_bucket_index_from_size : ℕ → ℕ
get_bucket_index_from_size size =
    if leb size 512
    then sub64 (size / 8) 1
    else if leb size 2560
    then 64 + (size - 512) / 64
    else let index = 96 + (size - 2560) / 512 in
      if leb buckets_count index then buckets_count - 1 else index

unfoldable pub get_bucket_index_from_header : Memory → (header : ℕ) → ℕ
get_bucket_index_from_header m header =
    if get_heap_chunk_flag m header heap_wilderness_chunk
    then buckets_count - 1
    else get_bucket_index_from_size (get_fixed_heap_chunk_size m header)

abbrev pub set_bucket : (ℕ → ℕ) → (index header : ℕ) → ℕ → ℕ
set_bucket buckets index header i = if i == index then header else buckets i

-- Links the neighbours of an element that leaves its list.
unfoldable pub unlink : Memory → (prev next : ℕ) → Outcome Memory
unlink m prev next =
    if (prev != null) && (next != null)
    then (do m₁ ← set_bucket_list_next m prev next; set_bucket_list_prev m₁ next prev)
    else if (prev == null) && (next != null)
    then set_bucket_list_prev m next null
    else if (prev != null) && (next == null)
    then set_bucket_list_next m prev null
    else ok m

unfoldable pub remove_from_bucket_list : Heap → (header : ℕ) → Outcome Heap
remove_from_bucket_list heap header = do
  let m = heap.memory
  let index = get_bucket_index_from_header m header
  prev ← get_bucket_list_prev m header
  next ← get_bucket_list_next m header
  kassert (get_heap_chunk_flag m header heap_free_chunk)
  let buckets =
      if heap.free_buckets index == header
      then set_bucket heap.free_buckets index next
      else heap.free_buckets
  m₁ ← unlink m prev next
  m₂ ← set_bucket_list_next m₁ header null
  m₃ ← set_bucket_list_prev m₂ header null
  ok (record heap { free_buckets = buckets; memory = m₃ })

-- Puts a chunk in front of its bucket's list.
unfoldable pub add_to_bucket_list : Heap → (header : ℕ) → Outcome Heap
add_to_bucket_list heap header = do
  let index = get_bucket_index_from_header heap.memory header
  let first = heap.free_buckets index
  m₁ ← set_bucket_list_prev heap.memory header null
  m₂ ← set_bucket_list_next m₁ header first
  m₃ ← (if first != null then set_bucket_list_prev m₂ first header else ok m₂)
  ok (record heap { free_buckets = set_bucket heap.free_buckets index header; memory = m₃ })
