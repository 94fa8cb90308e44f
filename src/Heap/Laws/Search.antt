-- ===== src/Heap/Laws/Search.antt =====
-- The search of a bucket.
use garbage_os.Base.{
  ℕ, zero, suc, ◌≤◌, ◌≡◌, refl, ◌≢◌, true, Bool-cases, inl, inr, List, [], ◌∷◌, length, arith,
  ne→==_false, if◌then◌else◌, null, ok, Memory,
}
use garbage_os.Heap.Alloc.{search_bucket, is_suitable}
use garbage_os.Heap.Chunks.{
  get_heap_chunk_flag, get_heap_chunk_user_data, heap_free_chunk, get_bucket_list_next,
}

-- The free chunks `cs` are linked one behind the other from `first` on.
abbrev pub Chain : Memory → (first : ℕ) → List ℕ → Type 0
Chain m first [] = first ≡ null
Chain m first (c ∷ cs) =
    (first ≡ c)
    × (c ≢ null)
    × (get_heap_chunk_flag m c heap_free_chunk ≡ true)
    × Chain m (m (get_heap_chunk_user_data c)) cs

abbrev pub first_suitable : Memory → (size : ℕ) → List ℕ → ℕ
first_suitable m size [] = null
first_suitable m size (c ∷ cs) = if is_suitable m size c then c else first_suitable m size cs

-- With as much fuel as the list has chunks, the search returns the first suitable chunk of the
-- bucket's list, or the null pointer if no chunk of it is suitable.
pub search_bucket-Chain :
    (fuel : ℕ) (m : Memory) (size first : ℕ) (cs : List ℕ)
    → Chain m first cs
    → length cs ≤ fuel
    → search_bucket fuel m size first ≡ ok (first_suitable m size cs)
unfolding search_bucket get_bucket_list_next
search_bucket-Chain zero m size first [] c h = rw c refl
search_bucket-Chain zero m size first (x ∷ xs) c h = absurd (omega (arith, h))
search_bucket-Chain (suc n) m size first [] c h = rw c refl
search_bucket-Chain (suc n) m size first (x ∷ xs) (e, ne, free, rest) h =
    let ih =
      search_bucket-Chain n m size (m (get_heap_chunk_user_data x)) xs rest (omega (arith, h)) in
    elim (Bool-cases (is_suitable m size x)) [
      | inl suits ↦ rw (e, ne→==_false _ _ ne, free, suits) refl
      | inr unfit ↦ rw (e, ne→==_false _ _ ne, free, unfit, ih) refl
    ]
