-- ===== src/Heap/Laws/Index.antt =====
-- The buckets that sizes belong to.
use garbage_os.Base.{
  ℕ, ◌-◌, ◌%◌, ◌^◌, ◌≤◌, ◌<◌, ◌≡◌, arith, ◌+◌, ◌*◌, ◌⊎◌, inl, inr, ltb, Bool-cases, if◌then◌else◌,
}
use garbage_os.Heap.{buckets_count}
use garbage_os.Heap.Alloc.{request_size}
use garbage_os.Heap.Buckets.{get_bucket_index_from_size}

-- The least size of a bucket, and how many sizes a bucket before the last one has: 64 buckets of 8
-- sizes, 32 of 64 and 32 of 512.
pub bucket_start : ℕ → ℕ
bucket_start i =
    if ltb i 64
    then 8 * (i + 1)
    else if ltb i 96
    then 512 + 64 * (i - 64)
    else 2560 + 512 * (i - 96)

pub bucket_width : ℕ → ℕ
bucket_width i = if ltb i 64 then 8 else if ltb i 96 then 64 else 512

-- A size of at least 8 bytes and of 64 bits belongs to one of the 128 buckets: it is no less than the
-- least size of the bucket and, unless that is the last one, among its sizes.
pub get_bucket_index_from_size-bounds :
    (size : ℕ)
    → 8 ≤ size
    → size < 2 ^ 64
    → (get_bucket_index_from_size size < buckets_count)
      × (bucket_start (get_bucket_index_from_size size) ≤ size)
      × ((get_bucket_index_from_size size ≡ 127)
          ⊎ (size
              < bucket_start (get_bucket_index_from_size size)
                + bucket_width (get_bucket_index_from_size size)))
unfolding get_bucket_index_from_size bucket_start bucket_width
get_bucket_index_from_size-bounds size h k = elim (Bool-cases (ltb size 18432)) [
  | inl small ↦ (ground arith, ground arith, inr (ground arith))
  | inr large ↦ (ground arith, ground arith, inl (ground arith))
]

-- The size that is looked for is the least multiple of 8 that is no less than the requested size and
-- the minimum of 16, unless the request is one of the last seven numbers of 64 bits.
pub request_size-least :
    (size : ℕ)
    → size ≤ 2 ^ 64 - 8
    → (request_size size % 8 ≡ 0)
      × (size ≤ request_size size)
      × (16 ≤ request_size size)
      × ((n : ℕ) → n % 8 ≡ 0 → size ≤ n → 16 ≤ n → request_size size ≤ n)
unfolding request_size
request_size-least size h = (ground arith, ground arith, ground arith, λ n i j k. ground arith)
