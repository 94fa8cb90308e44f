-- ===== src/Heap/Chunks.antt =====
-- The chunks: a header and a footer of eight bytes around the user data, each with the size of the
-- user data. The three low bits of the header are flags.
use garbage_os.Base.{
  ℕ, ◌+◌, ◌-◌, ◌*◌, ◌/◌, ◌%◌, Bool, true, ◌!=◌, ltb, if◌then◌else◌, add64, sub64, Outcome, ok, ◌>>◌,
  kassert, Memory, store,
}

abbrev pub heap_free_chunk : ℕ
heap_free_chunk = 1

abbrev pub heap_wilderness_chunk : ℕ
heap_wilderness_chunk = 2

abbrev pub heap_chunk_min_size : ℕ
heap_chunk_min_size = 16

-- `HEAP_CHUNK_SPLIT_OVERHEAD`, and `sizeof(HeapChunkHeader) + sizeof(HeapChunkFooter)`
abbrev pub heap_chunk_split_overhead : ℕ
heap_chunk_split_overhead = 16

-- `n & (~7)`
abbrev pub clear_flags : ℕ → ℕ
clear_flags n = n / 8 * 8

unfoldable pub get_fixed_heap_chunk_size : Memory → (header : ℕ) → ℕ
get_fixed_heap_chunk_size m header = clear_flags (m header)

-- The flags are powers of two.
unfoldable pub get_heap_chunk_flag : Memory → (header flag : ℕ) → Bool
get_heap_chunk_flag m header flag = m header / flag % 2 != 0

unfoldable pub set_heap_chunk_flag : Memory → (header flag : ℕ) → Memory
set_heap_chunk_flag m header flag =
    store m header (if m header / flag % 2 != 0 then m header else m header + flag)

unfoldable pub reset_heap_chunk_flag : Memory → (header flag : ℕ) → Memory
reset_heap_chunk_flag m header flag =
    store m header (if m header / flag % 2 != 0 then m header - flag else m header)

unfoldable pub get_next_heap_chunk_header : Memory → (header : ℕ) → ℕ
get_next_heap_chunk_header m header = add64 (add64 header (get_fixed_heap_chunk_size m header)) 16

unfoldable pub get_fixed_heap_chunk_size_from_footer : Memory → (footer : ℕ) → ℕ
get_fixed_heap_chunk_size_from_footer m footer = clear_flags (m footer)

unfoldable pub get_heap_chunk_header_from_footer : Memory → (footer : ℕ) → ℕ
get_heap_chunk_header_from_footer m footer =
    sub64 (sub64 footer (get_fixed_heap_chunk_size_from_footer m footer)) 8

unfoldable pub get_heap_chunk_footer_from_header : Memory → (header : ℕ) → ℕ
get_heap_chunk_footer_from_header m header =
    add64 (add64 header 8) (get_fixed_heap_chunk_size m header)

unfoldable pub get_prev_heap_chunk_header : Memory → (header : ℕ) → ℕ
get_prev_heap_chunk_header m header = get_heap_chunk_header_from_footer m (sub64 header 8)

abbrev pub get_heap_chunk_user_data : ℕ → ℕ
get_heap_chunk_user_data header = add64 header 8

abbrev pub get_heap_chunk_from_user_data : ℕ → ℕ
get_heap_chunk_from_user_data user_data = sub64 user_data 8

-- A free chunk keeps its links in its user data.
unfoldable pub set_bucket_list_next : Memory → (header next : ℕ) → Outcome Memory
set_bucket_list_next m header next = do
  kassert (get_heap_chunk_flag m header heap_free_chunk)
  ok (store m (get_heap_chunk_user_data header) next)

unfoldable pub get_bucket_list_next : Memory → (header : ℕ) → Outcome ℕ
get_bucket_list_next m header = do
  kassert (get_heap_chunk_flag m header heap_free_chunk)
  ok (m (get_heap_chunk_user_data header))

unfoldable pub set_bucket_list_prev : Memory → (header prev : ℕ) → Outcome Memory
set_bucket_list_prev m header prev = do
  kassert (get_heap_chunk_flag m header heap_free_chunk)
  ok (store m (add64 (get_heap_chunk_user_data header) 8) prev)

unfoldable pub get_bucket_list_prev : Memory → (header : ℕ) → Outcome ℕ
get_bucket_list_prev m header = do
  kassert (get_heap_chunk_flag m header heap_free_chunk)
  ok (m (add64 (get_heap_chunk_user_data header) 8))

unfoldable pub is_heap_chunk_corrupted : Memory → (header : ℕ) → Bool
is_heap_chunk_corrupted m header =
    let footer = get_heap_chunk_footer_from_header m header in
    let size1 = get_fixed_heap_chunk_size_from_footer m footer in
    if size1 != get_fixed_heap_chunk_size m header
    then true
    else if ltb size1 heap_chunk_min_size
    then true
    else m footer % 8 != 0

unfoldable pub is_last_chunk_of_heap : Memory → (header : ℕ) → Bool
is_last_chunk_of_heap m header = get_heap_chunk_flag m header heap_wilderness_chunk
