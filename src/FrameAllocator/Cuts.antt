-- ===== src/FrameAllocator/Cuts.antt =====
-- Whole pages cut from the front of one range, as `init_frame_allocator` does for the stack.
use mathlib.Core.List.{Perm, append_assoc, perm_append_comm}
use mathlib.Core.List.Perm
use native.Mathlib.Nat.{zero-add}
use garbage_os.Base.{
  ℕ, zero, suc, ◌+◌, ◌-◌, ◌*◌, ◌/◌, ◌≤◌, ◌<◌, ◌≡◌, refl, ap, List, [], ◌∷◌, ◌++◌, All, length,
  get_or, arith, page_size, add64, sub64,
}
use garbage_os.PhysicalMemory.{Range}
use garbage_os.FrameAllocator.{count_frames, no_range, take_bytes}
use garbage_os.FrameAllocator.Bag.{Fits, range_frames, frames_from, first_of_range}

-- `j` frames, and then `k` more
frames_from-append :
    (j k a b : ℕ)
    → b ≡ a + j * page_size
    → frames_from a (j + k) ≡ frames_from a j ++ frames_from b k
unfolding frames_from
frames_from-append zero k a b e = rw (zero-add) (ap (λ c. frames_from c k) (omega arith))
frames_from-append (suc j) k a b e =
    let one_more : suc j + k ≡ suc (j + k) = omega arith in
    rw one_more (ap (λ xs. a ∷ xs) (frames_from-append j k (a + page_size) b (omega arith)))

-- Cutting `j` pages from the front of a range leaves the frames of the cut and of the rest.
pub record Cuts (j : ℕ) (rs : List Range) (x : ℕ) (rs' : List Range) : Type 0 where
  pub same_frames : Perm (range_frames rs) (frames_from x j ++ range_frames rs')
  pub same_count : count_frames rs ≡ j + count_frames rs'
  pub same_length : length rs' ≡ length rs
  pub still_fits : All Fits rs'

Cuts-here :
    (j : ℕ) (r : Range) (rs : List Range)
    → All Fits (r ∷ rs)
    → j * page_size ≤ r.size
    → Cuts j (r ∷ rs) r.start_address (
        record {
          start_address = add64 r.start_address (j * page_size);
          size = sub64 r.size (j * page_size);
        }
        ∷ rs)
unfolding range_frames count_frames
Cuts-here j r rs fits h =
    let start_eq : add64 r.start_address (j * page_size) ≡ r.start_address + j * page_size =
      omega (arith, fits.0) in
    let size_eq : sub64 r.size (j * page_size) ≡ r.size - j * page_size = omega (arith, fits.0) in
    let pages : r.size / page_size ≡ j + (r.size - j * page_size) / page_size = omega arith in
    rw (start_eq, size_eq)
      record {
        same_frames =
            rw
              (
                pages,
                frames_from-append j ((r.size - j * page_size) / page_size) r.start_address
                    (r.start_address + j * page_size) refl,
                append_assoc,
              )
              (Perm.refl _);
        same_count = omega (arith, pages);
        same_length = refl;
        still_fits = (omega (arith, fits.0), fits.1);
      }

Cuts-there :
    {j : ℕ} {r : Range} {rs rs' : List Range} {x : ℕ}
    → Fits r
    → Cuts j rs x rs'
    → Cuts j (r ∷ rs) x (r ∷ rs')
unfolding range_frames count_frames
Cuts-there {j} {r} {rs} {rs'} {x} fit c = record {
  same_frames =
      Perm.trans (Perm.append_left (frames_from r.start_address (r.size / page_size)) c.same_frames)
        (swap_blocks (frames_from r.start_address (r.size / page_size)) (frames_from x j)
          (range_frames rs'));
  same_count = omega (arith, c.same_count);
  same_length = ap suc c.same_length;
  still_fits = (fit, c.still_fits);
}
  where
    swap_blocks : (xs ys zs : List ℕ) → Perm (xs ++ (ys ++ zs)) (ys ++ (xs ++ zs))
    swap_blocks xs ys zs =
        rw (← append_assoc xs ys zs, ← append_assoc ys xs zs)
          (Perm.append_right zs (perm_append_comm xs ys))

pub take_bytes-Cuts :
    (j : ℕ) (rs : List Range) (i : ℕ)
    → All Fits rs
    → i < length rs
    → j * page_size ≤ (get_or rs i no_range).size
    → Cuts j rs (first_of_range rs i) (take_bytes (j * page_size) rs i).1
unfolding take_bytes
take_bytes-Cuts j [] i fits inside h = absurd (omega arith)
take_bytes-Cuts j (r ∷ rs) zero fits inside h = Cuts-here j r rs fits h
take_bytes-Cuts j (r ∷ rs) (suc i) fits inside h =
    Cuts-there fits.0 (take_bytes-Cuts j rs i fits.1 (omega arith) h)
