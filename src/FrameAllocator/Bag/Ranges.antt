-- ===== src/FrameAllocator/Bag/Ranges.antt =====
-- The frames of a list of ranges, and what it means to take one of them.
use mathlib.Core.List.{Perm, perm_middle}
use mathlib.Core.List.Perm
use garbage_os.Base.{
  ℕ, zero, suc, ◌+◌, ◌-◌, ◌/◌, ◌%◌, ◌^◌, ◌≤◌, ◌<◌, ◌≡◌, refl, ap, Bool, true, false, Option, none,
  some, List, [], ◌∷◌, ◌++◌, arith, All, All-append_right, ◌&&◌, length, get_or, page_size,
  Bool-cases, inl, inr, leb, subst,
}
use garbage_os.PhysicalMemory.{Range}
use garbage_os.FrameAllocator.{no_range, take_bytes, count_frames, find_range, is_candidate}

-- The range ends below the last address.
abbrev pub Fits : Range → Type 0
Fits r = r.start_address + r.size < 2 ^ 64

-- `n` consecutive frames
unfoldable pub frames_from : ℕ → ℕ → List ℕ
frames_from a zero = []
frames_from a (suc n) = a ∷ frames_from (a + page_size) n

unfoldable pub range_frames : List Range → List ℕ
unfolding frames_from
range_frames [] = []
range_frames (r ∷ rs) = frames_from r.start_address (r.size / page_size) ++ range_frames rs

abbrev pub rest_of : Range → Range
rest_of r = record { start_address = r.start_address + page_size; size = r.size - page_size }

-- A range that holds a frame: its first frame, and the frames of what is left.
frames_from-rest :
    (r : Range)
    → page_size ≤ r.size
    → frames_from r.start_address (r.size / page_size)
      ≡ r.start_address
        ∷ frames_from (r.start_address + page_size) ((r.size - page_size) / page_size)
unfolding frames_from
frames_from-rest r h =
    let one_less : r.size / page_size ≡ suc ((r.size - page_size) / page_size) = omega arith in
    rw one_less refl

-- Taking a page from range `i` takes one frame from the frames of the ranges.
pub record Takes (rs : List Range) (x : ℕ) (rs' : List Range) : Type 0 where
  pub same_frames : Perm (range_frames rs) (x ∷ range_frames rs')
  pub same_count : count_frames rs ≡ suc (count_frames rs')
  pub same_length : length rs' ≡ length rs
  pub still_fits : All Fits rs'

take_here :
    (r : Range) (rs : List Range)
    → All Fits (r ∷ rs)
    → page_size ≤ r.size
    → Takes (r ∷ rs) r.start_address (rest_of r ∷ rs)
unfolding range_frames count_frames
take_here r rs fits h = record {
  same_frames = rw (frames_from-rest r h) (Perm.refl _);
  same_count = omega arith;
  same_length = refl;
  still_fits = (omega arith, fits.1);
}

take_there :
    {r : Range} {rs rs' : List Range} {x : ℕ} → Fits r → Takes rs x rs' → Takes (r ∷ rs) x (r ∷ rs')
unfolding range_frames count_frames
take_there {r} {rs} {rs'} {x} fit t = record {
  same_frames =
      Perm.trans (Perm.append_left (frames_from r.start_address (r.size / page_size)) t.same_frames)
        (perm_middle _ _);
  same_count = omega (arith, t.same_count);
  same_length = ap suc t.same_length;
  still_fits = (fit, t.still_fits);
}

abbrev pub first_of_range : List Range → ℕ → ℕ
first_of_range rs i = (get_or rs i no_range).start_address

rest_eq :
    (r : Range)
    → Fits r
    → page_size ≤ r.size
    → record {
      start_address = (r.start_address + page_size) % 2 ^ 64;
      size = (r.size + 2 ^ 64 - page_size) % 2 ^ 64;
    }
      ≡ rest_of r
rest_eq r fit h = ground arith

pub take_bytes-Takes :
    (rs : List Range) (i : ℕ)
    → All Fits rs
    → i < length rs
    → page_size ≤ (get_or rs i no_range).size
    → Takes rs (first_of_range rs i) (take_bytes page_size rs i).1
unfolding take_bytes
take_bytes-Takes [] i fits inside h = absurd (omega arith)
take_bytes-Takes (r ∷ rs) zero fits inside h = rw (rest_eq r fits.0 h) (take_here r rs fits h)
take_bytes-Takes (r ∷ rs) (suc i) fits inside h =
    take_there fits.0 (take_bytes-Takes rs i fits.1 (omega arith) h)

-- What the search gives: an index that passes the test, or no range that passes it.
abbrev pub Found : (Range → Bool) → List Range → Option ℕ → Type 0
Found p rs none = All (λ r. p r ≡ false) rs
Found p rs (some i) = (i < length rs) × (p (get_or rs i no_range) ≡ true)

Found-cons :
    (p : Range → Bool) (r : Range) (rs : List Range) (o : Option ℕ)
    → p r ≡ false
    → Found p rs o
    → Found p (r ∷ rs) (elim o [ none ↦ none | some i ↦ some (suc i) ])
Found-cons p r rs none e h = (e, h)
Found-cons p r rs (some i) e h = (omega arith, h.1)

pub find_range-Found : (p : Range → Bool) (rs : List Range) → Found p rs (find_range p rs)
unfolding find_range
find_range-Found p [] = tt
find_range-Found p (r ∷ rs) = elim (Bool-cases (p r)) [
  | inl e ↦ rw e (omega arith, e)
  | inr e ↦ rw e (Found-cons p r rs (find_range p rs) e (find_range-Found p rs))
]

-- A range that passes the test holds a frame.
pub is_candidate-size : (arch : Bool) (r : Range) → is_candidate arch r ≡ true → page_size ≤ r.size
unfolding is_candidate
is_candidate-size arch r h = ground arith

-- Ranges without a candidate hold no frame, once the machine layer is set up.
pub no_candidate-range_frames :
    (rs : List Range) → All (λ r. is_candidate true r ≡ false) rs → range_frames rs ≡ []
unfolding range_frames is_candidate frames_from
no_candidate-range_frames [] h = refl
no_candidate-range_frames (r ∷ rs) h =
    let none_here : r.size / page_size ≡ 0 = small r h.0 in
    rw (none_here, no_candidate-range_frames rs h.1) refl
  where
    small : (r : Range) → (leb page_size r.size && true) ≡ false → r.size / page_size ≡ 0
    small r h = ground arith

-- The first frame of a range that holds one is among the frames.
pub first_of_range-All :
    (P : ℕ → Type 0) (rs : List Range) (i : ℕ)
    → i < length rs
    → page_size ≤ (get_or rs i no_range).size
    → All P (range_frames rs)
    → P (first_of_range rs i)
unfolding range_frames frames_from
first_of_range-All P [] i inside h all = absurd (omega arith)
first_of_range-All P (r ∷ rs) zero inside h all =
    (subst (λ xs. All P (xs ++ range_frames rs)) (frames_from-rest r h) all).0
first_of_range-All P (r ∷ rs) (suc i) inside h all =
    first_of_range-All P rs i (omega arith) h
      (All-append_right P (frames_from r.start_address (r.size / page_size)) (range_frames rs) all)
