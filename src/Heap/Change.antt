-- ===== src/Heap/Change.antt =====
-- The operations that change the chunks: setting up the heap, growth, merging and splitting.
use garbage_os.Base.{
  ℕ, ◌-◌, ◌*◌, ◌%◌, ◌^◌, ◌||◌, Bool, true, false, not, leb, ltb, ◌==◌, ◌!=◌, if◌then◌else◌, add64,
  sub64, null, page_size, mb, Outcome, ok, ◌>>=◌, ◌>>◌, kassert, Memory, store,
}
use garbage_os.Heap.{Heap}
use garbage_os.Heap.Buckets.{add_to_bucket_list, remove_from_bucket_list}
use garbage_os.Heap.Chunks.{
  get_fixed_heap_chunk_size, get_heap_chunk_flag, set_heap_chunk_flag, reset_heap_chunk_flag,
  heap_free_chunk, heap_wilderness_chunk, get_heap_chunk_footer_from_header,
  get_next_heap_chunk_header, get_prev_heap_chunk_header, is_last_chunk_of_heap, clear_flags,
  heap_chunk_min_size,
}
use garbage_os.Vmm.Manager.{Handle}

unfoldable pub initialize_heap : Handle → (start size : ℕ) → Memory → Outcome Heap
initialize_heap vmem start size memory = do
  kassert (ltb 128 size)
  kassert (start % 8 == 0)
  kassert (size % 8 == 0)
  let user_data_size = sub64 (sub64 size 8) 8
  let m₁ = store memory start user_data_size
  let m₂ = set_heap_chunk_flag m₁ start heap_wilderness_chunk
  let m₃ = set_heap_chunk_flag m₂ start heap_free_chunk
  let m₄ = store m₃ (get_heap_chunk_footer_from_header m₃ start) user_data_size
  add_to_bucket_list
      (record {
        heap_vmem = vmem;
        enable_growth = false;
        start = start;
        size = size;
        number_of_chunks = 1;
        wilderness_chunk = start;
        free_buckets = λ i. null;
        memory = m₄;
      })
      start

abbrev pub is_first_chunk_of_heap : Heap → (header : ℕ) → Bool
is_first_chunk_of_heap heap header = heap.start == header

-- What a growth by at least `min_size_increase` bytes of user data asks for.
unfoldable pub growth_size : (min_size_increase : ℕ) → ℕ
growth_size min_size_increase =
    let least = add64 min_size_increase 16 in
    let step = if ltb (16 * mb) least then least else 16 * mb in
    if step % page_size != 0 then add64 step (page_size - step % page_size) else step

-- `expand` is `try_expand_vmem_top` of the address space, whose state is a `World`.
unfoldable pub try_increase_wilderness_chunk {ℓ} :
    {World : Type ℓ}
    → (expand : Handle → ℕ → World → Outcome (Bool × World)) → Heap
    → (min_size_increase : ℕ) → World
    → Outcome (Bool × Heap × World)
try_increase_wilderness_chunk expand heap min_size_increase world = do
  let growth = growth_size min_size_increase
  kassert (growth % page_size == 0)
  (if not heap.enable_growth then ok (false, heap, world) else (do
    (expanded, world') ← expand heap.heap_vmem growth world
    (if not expanded then ok (false, heap, world') else (do
      let size' = add64 heap.size growth
      let chunk = heap.wilderness_chunk
      kassert (get_heap_chunk_flag heap.memory chunk heap_wilderness_chunk)
      let m = store heap.memory chunk (add64 (heap.memory chunk) growth)
      let new_footer = get_heap_chunk_footer_from_header m chunk
      kassert (add64 new_footer 8 == add64 heap.start size')
      ok (
        true,
        record heap { size = size'; memory = store m new_footer (clear_flags (m chunk)) },
        world',
      )))))

-- The flags of a merged chunk, which is the wilderness chunk if its last part was.
abbrev pub mark_merged : Heap → (header : ℕ) → (is_wilderness_chunk : Bool) → Heap
mark_merged heap header is_wilderness_chunk =
    let m = set_heap_chunk_flag heap.memory header heap_free_chunk in
    if is_wilderness_chunk
    then record heap {
      memory = set_heap_chunk_flag m header heap_wilderness_chunk;
      wilderness_chunk = header;
    }
    else record heap { memory = m }

unfoldable pub merge_with_next_chunk : Heap → (header : ℕ) → Outcome Heap
merge_with_next_chunk heap header = do
  kassert (not (is_last_chunk_of_heap heap.memory header))
  let next = get_next_heap_chunk_header heap.memory header
  kassert (get_heap_chunk_flag heap.memory header heap_free_chunk)
  kassert (get_heap_chunk_flag heap.memory next heap_free_chunk)
  let is_wilderness_chunk = get_heap_chunk_flag heap.memory next heap_wilderness_chunk
  let old_last_footer = get_heap_chunk_footer_from_header heap.memory next
  h₁ ← remove_from_bucket_list heap header
  h₂ ← remove_from_bucket_list h₁ next
  let next_size = get_fixed_heap_chunk_size h₂.memory next
  let header_size = get_fixed_heap_chunk_size h₂.memory header
  let new_size = add64 (add64 next_size header_size) 16
  kassert (new_size % 8 == 0)
  kassert (leb heap_chunk_min_size new_size)
  let h₃ =
      mark_merged (record h₂ { memory = store h₂.memory header new_size }) header
        is_wilderness_chunk
  let footer = get_heap_chunk_footer_from_header h₃.memory next
  let m = store h₃.memory footer new_size
  kassert (footer == old_last_footer)
  h₄ ← add_to_bucket_list (record h₃ { memory = m }) header
  ok (record h₄ { number_of_chunks = sub64 h₄.number_of_chunks 1 })

unfoldable pub merge_with_next_and_prev_chunk : Heap → (header : ℕ) → Outcome Heap
merge_with_next_and_prev_chunk heap header = do
  kassert (not (is_last_chunk_of_heap heap.memory header))
  kassert (not (is_first_chunk_of_heap heap header))
  let next = get_next_heap_chunk_header heap.memory header
  let prev = get_prev_heap_chunk_header heap.memory header
  kassert (get_heap_chunk_flag heap.memory header heap_free_chunk)
  kassert (get_heap_chunk_flag heap.memory prev heap_free_chunk)
  kassert (get_heap_chunk_flag heap.memory next heap_free_chunk)
  let old_last_footer = get_heap_chunk_footer_from_header heap.memory next
  let is_wilderness_chunk = get_heap_chunk_flag heap.memory next heap_wilderness_chunk
  h₁ ← remove_from_bucket_list heap header
  h₂ ← remove_from_bucket_list h₁ next
  h₃ ← remove_from_bucket_list h₂ prev
  let header_size = get_fixed_heap_chunk_size h₃.memory header
  let next_size = get_fixed_heap_chunk_size h₃.memory next
  let prev_size = get_fixed_heap_chunk_size h₃.memory prev
  let new_size = add64 (add64 (add64 32 header_size) next_size) prev_size
  kassert (new_size % 8 == 0)
  kassert (leb heap_chunk_min_size new_size)
  let h₄ =
      mark_merged (record h₃ { memory = store h₃.memory prev new_size }) prev is_wilderness_chunk
  let footer = get_heap_chunk_footer_from_header h₄.memory prev
  let m = store h₄.memory footer new_size
  kassert (footer == old_last_footer)
  h₅ ← add_to_bucket_list (record h₄ { memory = m }) prev
  ok (record h₅ { number_of_chunks = sub64 h₅.number_of_chunks 2 })

-- `(int64_t)n < HEAP_CHUNK_MIN_SIZE` for a 64-bit word
abbrev pub is_below_min_size : ℕ → Bool
is_below_min_size n = ltb n heap_chunk_min_size || leb (2 ^ 63) n

-- The second chunk, behind the first one, is the new wilderness chunk if `header` was the old one.
unfoldable pub split_chunk_and_alloc : Heap → (header first_chunk_size : ℕ) → Outcome (Bool × Heap)
split_chunk_and_alloc heap header first_chunk_size = do
  kassert (get_heap_chunk_flag heap.memory header heap_free_chunk)
  kassert (first_chunk_size % 8 == 0)
  kassert (leb heap_chunk_min_size first_chunk_size)
  let old_footer = get_heap_chunk_footer_from_header heap.memory header
  let second_chunk_size =
      sub64 (get_fixed_heap_chunk_size heap.memory header) (add64 first_chunk_size 16)
  (if is_below_min_size second_chunk_size then ok (false, heap) else (do
    kassert (second_chunk_size % 8 == 0)
    let is_header_wilderness_chunk = get_heap_chunk_flag heap.memory header heap_wilderness_chunk
    h₁ ← remove_from_bucket_list heap header
    let m₁ = store h₁.memory header first_chunk_size
    let m₂ = store m₁ (get_heap_chunk_footer_from_header m₁ header) first_chunk_size
    let second_chunk = get_next_heap_chunk_header m₂ header
    let m₃ = store m₂ second_chunk second_chunk_size
    let h₂ = mark_merged (record h₁ { memory = m₃ }) second_chunk is_header_wilderness_chunk
    let second_chunk_footer = get_heap_chunk_footer_from_header h₂.memory second_chunk
    let m₄ = store h₂.memory second_chunk_footer second_chunk_size
    h₃ ← add_to_bucket_list (record h₂ { memory = m₄ }) second_chunk
    kassert (second_chunk_footer == old_footer)
    ok (true, record h₃ { number_of_chunks = add64 h₃.number_of_chunks 1 })))

unfoldable pub alloc_chunk : Heap → (header : ℕ) → Outcome Heap
alloc_chunk heap header = do
  kassert (not (get_heap_chunk_flag heap.memory header heap_wilderness_chunk))
  h ← remove_from_bucket_list heap header
  ok (record h { memory = reset_heap_chunk_flag h.memory header heap_free_chunk })
