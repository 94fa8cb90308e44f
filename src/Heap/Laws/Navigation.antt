-- ===== src/Heap/Laws/Navigation.antt =====
-- The chunks of a heap that passes its consistency check.
use garbage_os.Base.{
  ℕ, zero, suc, ◌+◌, ◌*◌, ◌/◌, ◌^◌, ◌≤◌, ◌<◌, ◌≡◌, ◌≢◌, false, arith, add64, sub64, null,
}
use garbage_os.Heap.{Heap}
use garbage_os.Heap.Check.{are_chunks_corrupted, is_kheap_corrupted}
use garbage_os.Heap.Chunks.{
  get_fixed_heap_chunk_size, get_fixed_heap_chunk_size_from_footer, get_next_heap_chunk_header,
  get_prev_heap_chunk_header, get_heap_chunk_footer_from_header, get_heap_chunk_header_from_footer,
  is_heap_chunk_corrupted, is_last_chunk_of_heap,
}

-- The chunk that is `k` chunks behind `header`.
abbrev pub chunk_at : Heap → (k header : ℕ) → ℕ
chunk_at heap zero header = header
chunk_at heap (suc k) header = chunk_at heap k (get_next_heap_chunk_header heap.memory header)

-- A chunk of the heap: at least 16 bytes of user data, whose size its footer has as well.
pub record IsChunk (heap : Heap) (header : ℕ) : Type 0 where
  pub nonnull : header ≢ null
  pub above_start : heap.start ≤ header
  pub large : 16 ≤ get_fixed_heap_chunk_size heap.memory header
  pub footer_size :
      get_fixed_heap_chunk_size_from_footer heap.memory
        (get_heap_chunk_footer_from_header heap.memory header)
      ≡ get_fixed_heap_chunk_size heap.memory header

-- The header of the next chunk leads back to a chunk whose footer has its size.
prev-next :
    (heap : Heap) (header : ℕ)
    → ((a : ℕ) → heap.memory a < 2 ^ 64)
    → header < 2 ^ 64
    → IsChunk heap header
    → get_prev_heap_chunk_header heap.memory (get_next_heap_chunk_header heap.memory header)
      ≡ header
unfolding get_prev_heap_chunk_header get_heap_chunk_header_from_footer get_next_heap_chunk_header
    get_heap_chunk_footer_from_header get_fixed_heap_chunk_size_from_footer
    get_fixed_heap_chunk_size
prev-next heap header words small c =
    let s = heap.memory header / 8 * 8 in
    let same_footer : sub64 (add64 (add64 header s) 16) 8 ≡ add64 (add64 header 8) s =
      omega arith in
    let footer_size : heap.memory (add64 (add64 header 8) s) / 8 * 8 ≡ s = c.footer_size in
    let s_small : s < 2 ^ 64 = omega (arith, words header) in
    rw (same_footer, footer_size) (omega (arith, s_small))

are_chunks_corrupted-first :
    (heap : Heap) (n header : ℕ)
    → are_chunks_corrupted heap (suc n) header ≡ false
    → IsChunk heap header
      × ((0 < n)
          → (is_last_chunk_of_heap heap.memory header ≡ false)
            × (are_chunks_corrupted heap n (get_next_heap_chunk_header heap.memory header) ≡ false))
unfolding are_chunks_corrupted is_heap_chunk_corrupted
are_chunks_corrupted-first heap n header h = (
  record {
    nonnull = ground arith;
    above_start = ground arith;
    large = ground arith;
    footer_size = ground arith;
  },
  λ pos. (ground arith, ground arith),
)

-- What holds of the `k`-th chunk of `n`.
pub record Navigates (heap : Heap) (n k header : ℕ) : Type 0 where
  pub chunk : IsChunk heap (chunk_at heap k header)
  pub inner :
      k + 1 < n
      → (is_last_chunk_of_heap heap.memory (chunk_at heap k header) ≡ false)
        × (get_prev_heap_chunk_header heap.memory (chunk_at heap (suc k) header)
            ≡ chunk_at heap k header)

next_small : (heap : Heap) (header : ℕ) → get_next_heap_chunk_header heap.memory header < 2 ^ 64
unfolding get_next_heap_chunk_header
next_small heap header = omega arith

are_chunks_corrupted-Navigates :
    (heap : Heap) (n k header : ℕ)
    → ((a : ℕ) → heap.memory a < 2 ^ 64)
    → are_chunks_corrupted heap n header ≡ false
    → header < 2 ^ 64
    → k < n
    → Navigates heap n k header
are_chunks_corrupted-Navigates heap zero k header words h small less = absurd (omega (arith, less))
are_chunks_corrupted-Navigates heap (suc n) zero header words h small less =
    let f = are_chunks_corrupted-first heap n header h in
    record {
      chunk = f.0;
      inner = λ l. ((f.1 (omega (arith, l))).0, prev-next heap header words small f.0);
    }
are_chunks_corrupted-Navigates heap (suc n) (suc k) header words h small less =
    let f = (are_chunks_corrupted-first heap n header h).1 (omega (arith, less)) in
    let r =
      are_chunks_corrupted-Navigates heap n k (get_next_heap_chunk_header heap.memory header) words
        f.1 (next_small heap header) (omega (arith, less)) in
    record { chunk = r.chunk; inner = λ l. r.inner (omega (arith, l)) }

is_kheap_corrupted_chunks :
    (heap : Heap)
    → is_kheap_corrupted heap ≡ false
    → are_chunks_corrupted heap heap.number_of_chunks heap.start ≡ false
unfolding is_kheap_corrupted
is_kheap_corrupted_chunks heap h = ground arith

-- In a heap that passes the consistency check and starts at a 64-bit address, where
-- memory holds 64-bit words, each of the first
-- `number_of_chunks` chunks has a header and a footer that agree on a size of at least 16 bytes. Each
-- but the last of them is not the wilderness chunk, and the way to the next chunk and back by its
-- footer leads to it.
pub is_kheap_corrupted-Navigates :
    (heap : Heap) (k : ℕ)
    → ((a : ℕ) → heap.memory a < 2 ^ 64)
    → is_kheap_corrupted heap ≡ false
    → heap.start < 2 ^ 64
    → k < heap.number_of_chunks
    → Navigates heap heap.number_of_chunks k heap.start
is_kheap_corrupted-Navigates heap k words h small less =
    are_chunks_corrupted-Navigates heap heap.number_of_chunks k heap.start words
      (is_kheap_corrupted_chunks heap h) small less
