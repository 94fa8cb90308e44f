-- ===== src/Heap/Alloc.antt =====
-- `kmalloc` and `kfree`. Both hold the heap's lock from the first to the last line; a panic stops the
-- machine with the lock held.
use garbage_os.Base.{
  ℕ, zero, suc, ◌+◌, ◌-◌, ◌%◌, ◌^◌, ◌&&◌, ◌||◌, Bool, not, leb, ltb, ◌==◌, ◌!=◌, if◌then◌else◌,
  add64, null, Outcome, ok, panic, ◌>>=◌, ◌>>◌, check, kassert, Memory, heap_out_of_mem,
  heap_corrupted, generic_error,
}
use garbage_os.Heap.{Heap, buckets_count}
use garbage_os.Heap.Buckets.{add_to_bucket_list, get_bucket_index_from_size}
use garbage_os.Heap.Change.{
  alloc_chunk, split_chunk_and_alloc, try_increase_wilderness_chunk, merge_with_next_chunk,
  merge_with_next_and_prev_chunk, is_first_chunk_of_heap,
}
use garbage_os.Heap.Chunks.{
  get_fixed_heap_chunk_size, get_heap_chunk_flag, set_heap_chunk_flag, heap_free_chunk,
  heap_wilderness_chunk, get_next_heap_chunk_header, get_prev_heap_chunk_header,
  get_heap_chunk_user_data, get_heap_chunk_from_user_data, is_heap_chunk_corrupted,
  is_last_chunk_of_heap, heap_chunk_min_size, heap_chunk_split_overhead, get_bucket_list_next,
  set_bucket_list_next, set_bucket_list_prev,
}
use garbage_os.Vmm.Manager.{Handle}

-- The size that `kmalloc` looks for.
unfoldable pub request_size : ℕ → ℕ
request_size size =
    let least = if ltb size heap_chunk_min_size then heap_chunk_min_size else size in
    if least % 8 != 0 then add64 least (8 - least % 8) else least

-- The test of a candidate: the requested size, or one that a split could work on.
unfoldable pub is_suitable : Memory → (size candidate : ℕ) → Bool
is_suitable m size candidate =
    let candidate_size = get_fixed_heap_chunk_size m candidate in
    (candidate_size == size) || leb (heap_chunk_min_size + heap_chunk_split_overhead) candidate_size

-- The loop over one bucket, which reads the link of the candidate that it takes as well. A list of
-- more than `fuel` chunks ends the run with an error that the heap's code never raises.
unfoldable pub search_bucket : (fuel : ℕ) → Memory → (size candidate : ℕ) → Outcome ℕ
search_bucket zero m size candidate = if candidate == null then ok null else panic generic_error
search_bucket (suc n) m size candidate = if candidate == null then ok null else (do
  next ← get_bucket_list_next m candidate
  let rest = search_bucket n m size next
  (if is_suitable m size candidate then ok candidate else rest))

-- `bucket_idx < BUCKETS_COUNT` for a signed index
abbrev pub is_bucket_index : ℕ → Bool
is_bucket_index i = ltb i buckets_count || leb (2 ^ 63) i

-- The word at `free_buckets[i]`: the field before the array is the pointer to the wilderness chunk.
abbrev pub bucket_head : Heap → (i : ℕ) → ℕ
bucket_head heap i = if leb (2 ^ 63) i then heap.wilderness_chunk else heap.free_buckets i

-- The loop over the buckets, for at most `rounds` of them.
unfoldable pub search_buckets : (rounds fuel : ℕ) → Heap → (size bucket_idx : ℕ) → Outcome ℕ
search_buckets zero fuel heap size i = ok null
search_buckets (suc n) fuel heap size i = if not (is_bucket_index i) then ok null else (do
  found ← search_bucket fuel heap.memory size (bucket_head heap i)
  let rest = search_buckets n fuel heap size (add64 i 1)
  (if found != null then ok found else rest))

-- What is done with the chunk that was found, if it is not the wilderness chunk. The split may fail:
-- its result is not looked at.
unfoldable pub take_chunk : Heap → (found_chunk size : ℕ) → Outcome Heap
take_chunk heap found_chunk size =
    let found_size = get_fixed_heap_chunk_size heap.memory found_chunk in
    if found_size == size then alloc_chunk heap found_chunk else (do
      kassert (leb (heap_chunk_min_size + heap_chunk_split_overhead) found_size)
      (_done, h) ← split_chunk_and_alloc heap found_chunk size
      ok h)

-- Splits the wilderness chunk, after a growth if it is too small.
unfoldable pub take_wilderness {ℓ} :
    {World : Type ℓ}
    → (expand : Handle → ℕ → World → Outcome (Bool × World)) → Heap
    → (found_chunk size : ℕ) → World
    → Outcome (Heap × World)
take_wilderness expand heap found_chunk size world = do
  (done, h₁) ← split_chunk_and_alloc heap found_chunk size
  (if done then ok (h₁, world) else (do
    (increased, h₂, world') ← try_increase_wilderness_chunk expand h₁ size world
    check increased heap_out_of_mem
    (done_again, h₃) ← split_chunk_and_alloc h₂ found_chunk size
    check done_again heap_out_of_mem
    ok (h₃, world')))

-- There are 128 buckets and the index -1, so 129 rounds; no bucket has more chunks than the heap.
unfoldable pub kmalloc {ℓ} :
    {World : Type ℓ}
    → (expand : Handle → ℕ → World → Outcome (Bool × World)) → Heap
    → (size : ℕ) → World
    → Outcome (ℕ × Heap × World)
kmalloc expand heap size world = do
  let size' = request_size size
  found ← search_buckets 129 heap.number_of_chunks heap size' (get_bucket_index_from_size size')
  let found_chunk = if found == null then heap.wilderness_chunk else found
  (if not (get_heap_chunk_flag heap.memory found_chunk heap_wilderness_chunk)
      then (do
        h ← take_chunk heap found_chunk size'
        ok (get_heap_chunk_user_data found_chunk, h, world))
      else (do
        (h, world') ← take_wilderness expand heap found_chunk size' world
        ok (get_heap_chunk_user_data found_chunk, h, world')))

-- A neighbour that is free, or the null pointer.
abbrev pub only_free : Memory → (chunk : ℕ) → ℕ
only_free m chunk =
    if chunk != null
    then if not (get_heap_chunk_flag m chunk heap_free_chunk) then null else chunk
    else null

unfoldable pub kfree : Heap → (ptr : ℕ) → Outcome Heap
kfree heap ptr = do
  let header = get_heap_chunk_from_user_data ptr
  check (not (get_heap_chunk_flag heap.memory header heap_free_chunk)) heap_corrupted
  check (not (get_heap_chunk_flag heap.memory header heap_wilderness_chunk)) heap_corrupted
  check (not (is_heap_chunk_corrupted heap.memory header)) heap_corrupted
  m₁ ← set_bucket_list_next (set_heap_chunk_flag heap.memory header heap_free_chunk) header null
  m₂ ← set_bucket_list_prev m₁ header null
  let h = record heap { memory = m₂ }
  let prev =
      only_free m₂
        (if is_first_chunk_of_heap h header then null else get_prev_heap_chunk_header m₂ header)
  let next =
      only_free m₂
        (if is_last_chunk_of_heap m₂ header then null else get_next_heap_chunk_header m₂ header)
  (if (prev == null) && (next == null)
      then add_to_bucket_list h header
      else if (prev != null) && (next == null)
      then merge_with_next_chunk h prev
      else if (prev == null) && (next != null)
      then merge_with_next_chunk h header
      else merge_with_next_and_prev_chunk h header)
