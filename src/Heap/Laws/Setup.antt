-- ===== src/Heap/Laws/Setup.antt =====
-- The heap that `initialize_heap` sets up.
use garbage_os.Base.{
  ℕ, ◌+◌, ◌-◌, ◌*◌, ◌/◌, ◌%◌, ◌^◌, ◌<◌, ◌≡◌, refl, true, false, arith, ◌==◌, ◌!=◌, if◌then◌else◌,
  add64, sub64, null, page_size, lt→ltb, ok, Memory, store, store_same, store_other, ◌∙◌,
}
use garbage_os.Heap.{Heap}
use garbage_os.Heap.Buckets.{add_to_bucket_list, set_bucket, get_bucket_index_from_header}
use garbage_os.Heap.Change.{initialize_heap}
use garbage_os.Heap.Check.{are_chunks_corrupted, is_kheap_corrupted}
use garbage_os.Heap.Chunks.{
  get_fixed_heap_chunk_size, get_fixed_heap_chunk_size_from_footer, get_heap_chunk_flag,
  set_heap_chunk_flag, get_heap_chunk_footer_from_header, is_heap_chunk_corrupted,
  is_last_chunk_of_heap, set_bucket_list_prev, set_bucket_list_next, get_bucket_list_next,
  get_bucket_list_prev,
}
use garbage_os.Vmm.Manager.{Handle}

-- The memory of a heap of `size` bytes at `start` with one chunk, which is free and the last one.
fresh_memory : (start size : ℕ) → Memory → Memory
fresh_memory start size memory =
    let user_data_size = size - 16 in
    let m₁ = store memory start user_data_size in
    let m₂ = store m₁ start (user_data_size + 2) in
    let m₃ = store m₂ start (user_data_size + 3) in
    let m₄ = store m₃ (start + size - 8) user_data_size in
    let m₅ = store m₄ (start + 16) null in store m₅ (start + 8) null

-- The flags of a header whose word is `v`.
set_heap_chunk_flag-store :
    (m : Memory) (header flag v n : ℕ)
    → m header ≡ v
    → v / flag % 2 ≡ 0
    → v + flag ≡ n
    → set_heap_chunk_flag m header flag ≡ store m header n
unfolding set_heap_chunk_flag
set_heap_chunk_flag-store m header flag v n e k l = rw (e, k, l) refl

-- A free wilderness chunk goes to the last bucket, if that is empty.
add_to_bucket_list-empty :
    (h : Heap) (header v : ℕ)
    → header + 24 < 2 ^ 64
    → h.memory header ≡ v
    → v % 8 ≡ 3
    → h.free_buckets 127 ≡ null
    → add_to_bucket_list h header
      ≡ ok (record h {
        free_buckets = set_bucket h.free_buckets 127 header;
        memory = store (store h.memory (header + 16) null) (header + 8) null;
      })
unfolding add_to_bucket_list get_bucket_index_from_header set_bucket_list_prev set_bucket_list_next
    get_heap_chunk_flag
add_to_bucket_list-empty h header v small e k empty =
    let free_bit : (v / 1 % 2 != 0) ≡ true = ground arith in
    let last_bit : (v / 2 % 2 != 0) ≡ true = ground arith in
    let a : add64 header 8 ≡ header + 8 = omega arith in
    let b : add64 (header + 8) 8 ≡ header + 16 = omega arith in
    let kept : store h.memory (header + 16) null header ≡ v =
      store_other h.memory (header + 16) null header (omega arith) ∙ e in
    rw (e, free_bit, last_bit, a, b, kept, free_bit, empty) refl

-- A free chunk whose two links are null.
bucket_list-null :
    (m : Memory) (header : ℕ)
    → get_heap_chunk_flag m header 1 ≡ true
    → header + 16 < 2 ^ 64
    → m (header + 8) ≡ null
    → m (header + 16) ≡ null
    → (get_bucket_list_next m header ≡ ok null) × (get_bucket_list_prev m header ≡ ok null)
unfolding get_bucket_list_next get_bucket_list_prev
bucket_list-null m header is_free small next prev =
    let a : add64 header 8 ≡ header + 8 = omega (arith, small) in
    let b : add64 (header + 8) 8 ≡ header + 16 = omega (arith, small) in
    (rw (is_free, a, next) refl, rw (is_free, a, b, prev) refl)

module _ (vmem : Handle) (start size : ℕ) (memory : Memory) (nonnull : 0 < start)
    (large : 128 < size) (start_whole : start % 8 ≡ 0) (size_whole : size % 8 ≡ 0)
    (small : start + size < 2 ^ 64) where
  fresh_heap : Heap
  fresh_heap = record {
    heap_vmem = vmem;
    enable_growth = false;
    start = start;
    size = size;
    number_of_chunks = 1;
    wilderness_chunk = start;
    free_buckets = set_bucket (λ i. null) 127 start;
    memory = fresh_memory start size memory;
  }

  initialize_heap-fresh : initialize_heap vmem start size memory ≡ ok fresh_heap
  unfolding initialize_heap fresh_heap fresh_memory get_heap_chunk_footer_from_header
      get_fixed_heap_chunk_size
  initialize_heap-fresh =
      let u = size - 16 in
      let m₁ = store memory start u in
      let m₂ = store m₁ start (u + 2) in
      let m₃ = store m₂ start (u + 3) in
      let m₄ = store m₃ (start + size - 8) u in
      let user : sub64 (sub64 size 8) 8 ≡ u = omega arith in
      let e₂ : set_heap_chunk_flag m₁ start 2 ≡ m₂ =
        set_heap_chunk_flag-store m₁ start 2 u (u + 2) (store_same memory start u) (omega arith)
          refl in
      let e₃ : set_heap_chunk_flag m₂ start 1 ≡ m₃ =
        set_heap_chunk_flag-store m₂ start 1 (u + 2) (u + 3) (store_same m₁ start (u + 2))
          (omega arith) (omega arith) in
      let at_start : m₃ start ≡ u + 3 = store_same m₂ start (u + 3) in
      let fixed : (u + 3) / 8 * 8 ≡ u = omega arith in
      let footer : add64 (add64 start 8) u ≡ start + size - 8 = omega arith in
      let kept : m₄ start ≡ u + 3 =
        store_other m₃ (start + size - 8) u start (omega arith) ∙ at_start in
      rw (lt→ltb _ _ large, start_whole, size_whole, user, e₂, e₃, at_start, fixed, footer)
        (add_to_bucket_list-empty _ start (u + 3) (omega arith) kept (omega arith) refl)

  fresh_start : fresh_memory start size memory start ≡ size - 16 + 3
  unfolding fresh_memory
  fresh_start =
      store_other _ (start + 8) null start (omega arith)
      ∙ store_other _ (start + 16) null start (omega arith)
      ∙ store_other _ (start + size - 8) _ start (omega arith)
      ∙ store_same _ start (size - 16 + 3)

  fresh_end : fresh_memory start size memory (start + size - 8) ≡ size - 16
  unfolding fresh_memory
  fresh_end =
      store_other _ (start + 8) null (start + size - 8) (omega arith)
      ∙ store_other _ (start + 16) null (start + size - 8) (omega arith)
      ∙ store_same _ (start + size - 8) (size - 16)

  fresh_links :
      (fresh_memory start size memory (start + 8) ≡ null)
      × (fresh_memory start size memory (start + 16) ≡ null)
  unfolding fresh_memory
  fresh_links = (
    store_same _ (start + 8) null,
    store_other _ (start + 8) null (start + 16) (omega arith) ∙ store_same _ (start + 16) null,
  )

  fresh_heap-is_kheap_corrupted :
      start % page_size ≡ 0 → size % page_size ≡ 0 → is_kheap_corrupted fresh_heap ≡ false
  unfolding is_kheap_corrupted are_chunks_corrupted fresh_heap is_heap_chunk_corrupted
      get_heap_chunk_footer_from_header get_fixed_heap_chunk_size
      get_fixed_heap_chunk_size_from_footer is_last_chunk_of_heap get_heap_chunk_flag
  fresh_heap-is_kheap_corrupted page_start page_whole =
      let u = size - 16 in
      let fixed : (u + 3) / 8 * 8 ≡ u = omega arith in
      let footer : add64 (add64 start 8) u ≡ start + size - 8 = omega arith in
      let fixed_end : u / 8 * 8 ≡ u = omega arith in
      rw (page_start, page_whole, fresh_start, fixed, footer, fresh_end, fixed_end) (ground arith)

-- A heap of `size` bytes at `start` that passes its consistency check, and consists of one chunk:
-- free, the wilderness chunk, and alone in the last bucket: its links are null, and so are the heads of
-- the other buckets.
pub record IsOneChunk (start size : ℕ) (heap : Heap) : Type 0 where
  pub consistent : is_kheap_corrupted heap ≡ false
  pub one : heap.number_of_chunks ≡ 1
  pub wilderness : heap.wilderness_chunk ≡ start
  pub chunk_size : get_fixed_heap_chunk_size heap.memory start + 16 ≡ size
  pub is_free : get_heap_chunk_flag heap.memory start 1 ≡ true
  pub is_last : get_heap_chunk_flag heap.memory start 2 ≡ true
  pub no_next : get_bucket_list_next heap.memory start ≡ ok null
  pub no_prev : get_bucket_list_prev heap.memory start ≡ ok null
  pub bucket : (i : ℕ) → heap.free_buckets i ≡ (if i == 127 then start else null)

-- In whole pages that start at an address that is not null, `initialize_heap` returns such a heap.
pub initialize_heap-IsOneChunk :
    (vmem : Handle) (start size : ℕ) (memory : Memory)
    → 0 < start
    → 0 < size
    → start % page_size ≡ 0
    → size % page_size ≡ 0
    → start + size < 2 ^ 64
    → (heap : Heap) × (initialize_heap vmem start size memory ≡ ok heap)
      × IsOneChunk start size heap
unfolding fresh_heap get_fixed_heap_chunk_size get_heap_chunk_flag
initialize_heap-IsOneChunk vmem start size memory nonnull pos page_start page_size_whole small =
    let large : 128 < size = omega arith in
    let a : start % 8 ≡ 0 = omega arith in
    let b : size % 8 ≡ 0 = omega arith in
    let first = fresh_start vmem start size memory nonnull large a b small in
    let stored = fresh_links vmem start size memory nonnull large a b small in
    let links =
      bucket_list-null (fresh_memory start size memory) start (rw first (ground arith))
        (omega (arith, small, large)) stored.0 stored.1 in
    (
      fresh_heap vmem start size memory nonnull large a b small,
      initialize_heap-fresh vmem start size memory nonnull large a b small,
      record {
        consistent =
            fresh_heap-is_kheap_corrupted vmem start size memory nonnull large a b small page_start
              page_size_whole;
        one = refl;
        wilderness = refl;
        chunk_size = rw first (omega arith);
        is_free = rw first (ground arith);
        is_last = rw first (ground arith);
        no_next = links.0;
        no_prev = links.1;
        bucket = λ i. refl;
      },
    )
