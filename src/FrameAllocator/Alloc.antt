-- ===== src/FrameAllocator/Alloc.antt =====
-- What allocating and freeing a frame do to the bag of free frames.
use mathlib.Core.List.{Perm}
use mathlib.Core.List.Perm
use garbage_os.Base.{
  ℕ, suc, ◌-◌, ◌/◌, ◌<◌, ◌≡◌, refl, ◌∙◌, ◌≢◌, inl, inr, Bool, true, false, Option, none, some, [],
  ◌∷◌, arith, All, length, get_or, lt→ltb, ◌!=◌, Bool-cases, sub64, page_size, Outcome, ok, panic,
  ◌>>◌, check, frame_allocator_error, subst,
}
use native.Mathlib.Decide.{dec_lt, ℕ_discrete}
use garbage_os.FrameAllocator.{
  FrameAllocator, no_range, take_bytes, find_range, is_candidate, choose_range, alloc_frame,
  reuse_frame, carve_frame, frame_stack_count, is_frame_stack_valid, frame_stack_pop,
}
use garbage_os.FrameAllocator.Bag.{
  IsValid, free_list, Takes, take_bytes-Takes, Found, find_range-Found, is_candidate-size,
  no_candidate-range_frames, first_of_range, first_of_range-All, range_frames, stack_items,
}

-- A run of `alloc_frame` from `f`. The frame that it returns is taken from the free frames, which keep
-- all others, and is not null; the state stays valid. It panics with the allocator's error only, and
-- once the machine layer is set up only if there is no free frame, or a null one.
abbrev pub Allocates : Bool → FrameAllocator → Outcome (ℕ × FrameAllocator) → Type 0
Allocates arch f (ok (x, g)) = Perm (free_list f) (x ∷ free_list g) × IsValid g × (x ≢ 0)
Allocates arch f (panic e) =
    (e ≡ frame_allocator_error) × (arch ≡ true → All (λ x. x ≢ 0) (free_list f) → free_list f ≡ [])

-- The last test of `alloc_frame`.
not_null :
    (arch : Bool) (f g : FrameAllocator) (x : ℕ)
    → Perm (free_list f) (x ∷ free_list g)
    → IsValid g
    → (All (λ y. y ≢ 0) (free_list f) → x ≢ 0)
    → Allocates arch f (do check (x != 0) frame_allocator_error; ok (x, g))
not_null arch f g x p v h = elim (ℕ_discrete x 0) [
  | yes e ↦ rw e (refl, λ _ all. absurd (h all e))
  | no ne ↦ rw (ne→!= x ne) (p, v, ne)
]
  where
    ne→!= : (x : ℕ) → x ≢ 0 → (x != 0) ≡ true
    ne→!= x ne = ground arith

module _ (arch : Bool) (f : FrameAllocator) (v : IsValid f) where
  open f use {frame_stack as stack, free_ranges as ranges}

  stack_valid : is_frame_stack_valid stack ≡ true
  unfolding is_frame_stack_valid
  stack_valid = ground (arith, v)

  count_eq : frame_stack_count stack ≡ (stack.top - stack.base) / 8
  unfolding frame_stack_count
  count_eq = omega (arith, v.base_le, v.top_le, v.stack_small)

  counted : FrameAllocator
  counted = record f { free_frames = sub64 f.free_frames 1 }

  -- Below the first tests, the run is that of one of two branches.
  alloc_frame-reuse :
      0 < (stack.top - stack.base) / 8
      → {x : ℕ} {g : FrameAllocator} → reuse_frame counted ≡ ok (x, g)
      → alloc_frame arch f ≡ (do check (x != 0) frame_allocator_error; ok (x, g))
  unfolding alloc_frame counted
  alloc_frame-reuse h e = rw (stack_valid, count_eq, lt→ltb _ _ h, e) refl

  alloc_frame-carve :
      (stack.top - stack.base) / 8 ≡ 0
      → {x : ℕ} {g : FrameAllocator} → carve_frame arch counted ≡ ok (x, g)
      → alloc_frame arch f ≡ (do check (x != 0) frame_allocator_error; ok (x, g))
  unfolding alloc_frame counted
  alloc_frame-carve h e = rw (stack_valid, count_eq, h, e) refl

  alloc_frame-carve_panic :
      (stack.top - stack.base) / 8 ≡ 0
      → carve_frame arch counted ≡ panic frame_allocator_error
      → alloc_frame arch f ≡ panic frame_allocator_error
  unfolding alloc_frame counted
  alloc_frame-carve_panic h e = rw (stack_valid, count_eq, h, e) refl

  popped : FrameAllocator
  unfolding counted
  popped = record counted { frame_stack = record stack { top = stack.top - 8 } }

  reuse_frame-popped :
      0 < (stack.top - stack.base) / 8 → reuse_frame counted ≡ ok (f.memory (stack.top - 8), popped)
  unfolding reuse_frame frame_stack_pop popped
  reuse_frame-popped h =
      let top_eq : sub64 stack.top 8 ≡ stack.top - 8 =
        omega (arith, v.base_le, v.top_le, v.stack_small) in
      rw (count_eq, lt→ltb _ _ h, top_eq) refl

  popped-IsValid : 0 < (stack.top - stack.base) / 8 → IsValid popped
  unfolding popped
  popped-IsValid h = record {
    base_pos = v.base_pos;
    stack_pos = v.stack_pos;
    base_le = omega (arith, v.base_le, v.aligned);
    top_le = omega (arith, v.top_le);
    stack_small = v.stack_small;
    aligned = omega (arith, v.base_le, v.aligned);
    fits = v.fits;
    cached_in = v.cached_in;
    few = v.few;
    counted = omega (arith, v.counted, v.few, v.base_le, v.aligned, v.stack_small, v.top_le);
  }

  free_list-popped :
      0 < (stack.top - stack.base) / 8 → free_list f ≡ f.memory (stack.top - 8) ∷ free_list popped
  unfolding popped stack_items
  free_list-popped h =
      let one_less : (stack.top - stack.base) / 8 ≡ suc ((stack.top - 8 - stack.base) / 8) =
        omega (arith, v.base_le, v.aligned) in
      rw one_less refl

  from_stack : 0 < (stack.top - stack.base) / 8 → Allocates arch f (alloc_frame arch f)
  from_stack h = rw (alloc_frame-reuse h (reuse_frame-popped h)) (
      not_null arch f popped (f.memory (stack.top - 8)) (rw (free_list-popped h) (Perm.refl _))
        (popped-IsValid h) (λ all. (subst (All (λ x. x ≢ 0)) (free_list-popped h) all).0))

  -- Taking a page from the range of index `i`.
  carved : ℕ → FrameAllocator
  unfolding counted
  carved i = record counted {
    free_ranges = (take_bytes page_size ranges i).1;
    cached_memory_range_index = i;
  }

  carve_frame-carved :
      (i : ℕ)
      → choose_range arch counted ≡ ok i
      → carve_frame arch counted ≡ ok ((take_bytes page_size ranges i).0, carved i)
  unfolding carve_frame carved
  carve_frame-carved i e = rw e refl

  carved-IsValid :
      (i : ℕ)
      → i < length ranges
      → Takes ranges (first_of_range ranges i) (take_bytes page_size ranges i).1
      → IsValid (carved i)
  unfolding carved
  carved-IsValid i inside t = record {
    base_pos = v.base_pos;
    stack_pos = v.stack_pos;
    base_le = v.base_le;
    top_le = v.top_le;
    stack_small = v.stack_small;
    aligned = v.aligned;
    fits = t.still_fits;
    cached_in = omega (arith, t.same_length);
    few = omega (arith, v.few, t.same_count);
    counted = omega (arith, v.counted, v.few, t.same_count, v.base_le, v.stack_small, v.top_le);
  }

  free_list-ranges : (stack.top - stack.base) / 8 ≡ 0 → free_list f ≡ range_frames ranges
  unfolding stack_items
  free_list-ranges h = rw h refl

  free_list-carved :
      (i : ℕ)
      → (stack.top - stack.base) / 8 ≡ 0
      → free_list (carved i) ≡ range_frames (take_bytes page_size ranges i).1
  unfolding carved stack_items
  free_list-carved i h = rw h refl

  from_range :
      (i : ℕ)
      → (stack.top - stack.base) / 8 ≡ 0
      → i < length ranges
      → is_candidate arch (get_or ranges i no_range) ≡ true
      → choose_range arch counted ≡ ok i
      → Allocates arch f (alloc_frame arch f)
  unfolding take_bytes
  from_range i h inside cand e =
      let big = is_candidate-size arch (get_or ranges i no_range) cand in
      let t = take_bytes-Takes ranges i v.fits inside big in
      rw (alloc_frame-carve h (carve_frame-carved i e)) (
        not_null arch f (carved i) (first_of_range ranges i)
          (rw (free_list-ranges h, free_list-carved i h) t.same_frames) (carved-IsValid i inside t)
          (λ all.
            first_of_range-All (λ x. x ≢ 0) ranges i inside big
              (subst (All (λ x. x ≢ 0)) (free_list-ranges h) all)))

  -- The outcome of the search, by what it found.
  from_search :
      (o : Option ℕ)
      → (stack.top - stack.base) / 8 ≡ 0
      → is_candidate arch (get_or ranges f.cached_memory_range_index no_range) ≡ false
      → find_range (is_candidate arch) ranges ≡ o
      → Found (is_candidate arch) ranges o
      → Allocates arch f (alloc_frame arch f)
  unfolding choose_range counted carve_frame
  from_search none h miss e nowhere = rw (alloc_frame-carve_panic h (rw (miss, e) refl)) (
    refl,
    λ init all.
        free_list-ranges h
        ∙ no_candidate-range_frames ranges
            (subst (λ a. All (λ r. is_candidate a r ≡ false) ranges) init nowhere),
  )
  from_search (some i) h miss e (inside, cand) = from_range i h inside cand (rw (miss, e) refl)

  from_ranges : (stack.top - stack.base) / 8 ≡ 0 → Allocates arch f (alloc_frame arch f)
  unfolding choose_range counted
  from_ranges h =
      elim (Bool-cases (is_candidate arch (get_or ranges f.cached_memory_range_index no_range))) [
        | inl hit ↦ from_range f.cached_memory_range_index h v.cached_in hit (rw hit refl)
        | inr miss ↦
            from_search (find_range (is_candidate arch) ranges) h miss refl
              (find_range-Found (is_candidate arch) ranges)
      ]

  -- An allocation of a valid allocator hands out a free frame and takes it from the free frames, or
  -- panics, as `Allocates` says for the state of the start-up that `arch` stands for.
  pub alloc_frame-Allocates : Allocates arch f (alloc_frame arch f)
  alloc_frame-Allocates = elim (dec_lt 0 ((stack.top - stack.base) / 8)) [
    | yes p ↦ from_stack p
    | no p ↦ from_ranges (omega arith)
  ]
