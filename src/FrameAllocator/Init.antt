-- ===== src/FrameAllocator/Init.antt =====
-- The allocator after its initialisation: its stack is cut from the front of one range.
use mathlib.Core.List.{Perm}
use mathlib.Core.Option.{some-injective}
use garbage_os.Base.{
  ℕ, zero, suc, ◌+◌, ◌-◌, ◌*◌, ◌/◌, ◌%◌, ◌^◌, ◌≤◌, ◌<◌, ◌≡◌, refl, ap, sym, ◌∙◌, ltb, false,
  Option-cases, Bool-cases, inl, inr, List, [], ◌∷◌, ◌++◌, All, All-get_or, length, get_or, Bool,
  true, ◌&&◌, leb, Option, none, some, Outcome, ok, panic, frame_allocator_error, Memory, arith,
  page_size, gb,
}
use garbage_os.PhysicalMemory.{Range}
use garbage_os.FrameAllocator.{
  FrameAllocator, init_frame_allocator, count_frames, needed_bytes_stack_frame, find_range,
  no_range, is_usable_in_bootstage, take_bytes, make_frame_stack,
}
use garbage_os.FrameAllocator.Bag.{
  IsValid, free_list, Fits, range_frames, frames_from, Found, find_range-Found, first_of_range,
  stack_items,
}
use garbage_os.FrameAllocator.Cuts.{take_bytes-Cuts}

-- The stack has room for a word for each page of usable RAM, in whole pages.
needed_lem :
    (ram : ℕ)
    → ram < 2 ^ 60
    → let n = needed_bytes_stack_frame ram in
      (n / page_size * page_size ≡ n) × (ram / page_size * 8 < n) × (n < 2 ^ 60)
unfolding needed_bytes_stack_frame
needed_lem ram h = omega arith

-- The size of the stack: the whole pages that hold a word for each page of usable RAM, and one more or
-- two.
pub stack_size : (ram : ℕ) → ℕ
stack_size ram = (ram / page_size * 8 / page_size + 2) * page_size

-- A range can hold the stack if it is no smaller and the stack at its front ends in the memory that the
-- bootloader maps, below 1 GiB.
pub can_hold : (bytes : ℕ) → Range → Bool
can_hold bytes r = leb bytes r.size && ltb (r.start_address + bytes) (1 * gb)

-- What the initialisation gives. The stack is made of whole pages cut from the front of the first range
-- that can hold it and is empty; the free frames are all frames of the ranges but those of the stack.
-- The stack has more words than there are pages of usable RAM. With no range that can hold the stack, and
-- only then, the initialisation panics.
abbrev pub Initialized : List Range → ℕ → Outcome FrameAllocator → Type 0
Initialized ranges ram (panic e) =
    (e ≡ frame_allocator_error) × All (λ r. can_hold (stack_size ram) r ≡ false) ranges
Initialized ranges ram (ok f) =
    IsValid f
    × (f.is_initialized ≡ true)
    × Perm (range_frames ranges)
        (frames_from f.frame_stack.base (f.frame_stack.max_size_bytes / page_size) ++ free_list f)
    × (f.frame_stack.max_size_bytes ≡ stack_size ram)
    × (ram / page_size * 8 < f.frame_stack.max_size_bytes)
    × ((i : ℕ) × (i < length ranges)
        × (f.frame_stack.base ≡ (get_or ranges i no_range).start_address)
        × (can_hold (stack_size ram) (get_or ranges i no_range) ≡ true)
        × ((j : ℕ) → j < i → can_hold (stack_size ram) (get_or ranges j no_range) ≡ false))

-- The state that is built when `j` whole pages are cut from range `i`.
abbrev state : Memory → List Range → ℕ → ℕ → FrameAllocator
unfolding take_bytes make_frame_stack
state m ranges n i = record {
  is_initialized = true;
  free_ranges = (take_bytes n ranges i).1;
  frame_stack = make_frame_stack (take_bytes n ranges i).0 n;
  cached_memory_range_index = i;
  free_frames = count_frames (take_bytes n ranges i).1 % 2 ^ 64;
  memory = m;
}

-- The test on the range that the stack is cut from.
abbrev suits : ℕ → Range → Bool
suits n r = leb n r.size && is_usable_in_bootstage n r

suits-lem :
    (n : ℕ) (r : Range)
    → n < 2 ^ 60
    → Fits r
    → suits n r ≡ true
    → (n ≤ r.size) × (r.start_address + n < 1 * gb)
unfolding is_usable_in_bootstage
suits-lem n r small fit h = ground arith

suits-can_hold : (n : ℕ) (r : Range) → n < 2 ^ 60 → Fits r → suits n r ≡ can_hold n r
unfolding is_usable_in_bootstage can_hold
suits-can_hold n r small fit = ground arith

needed-stack_size : (ram : ℕ) → ram < 2 ^ 60 → needed_bytes_stack_frame ram ≡ stack_size ram
unfolding needed_bytes_stack_frame stack_size
needed-stack_size ram h = omega arith

-- The ranges before the one that is found do not pass the test.
find_range-first :
    (p : Range → Bool) (rs : List Range) (i : ℕ)
    → find_range p rs ≡ some i
    → (j : ℕ) → j < i
    → p (get_or rs j no_range) ≡ false
unfolding find_range
find_range-first p [] i found j less = absurd cc
find_range-first p (r ∷ rs) i found j less = elim (Bool-cases (p r)) [
  | inl here ↦
      let at_0 : some 0 ≡ some i = rw here at found in
      absurd (omega (arith, some-injective _ _ at_0, less))
  | inr other ↦ elim (Option-cases (find_range p rs)) [
    | inl e ↦ let nowhere : none ≡ some i = rw (other, e) at found in absurd cc
    | inr (k, e) ↦
        let later : some (suc k) ≡ some i = rw (other, e) at found in
        at_place p r rs k i j other (some-injective _ _ later) less
          (λ m h. find_range-first p rs k e m h)
  ]
]
  where
    at_place :
        (p : Range → Bool) (r : Range) (rs : List Range) (k i j : ℕ)
        → p r ≡ false
        → suc k ≡ i
        → j < i
        → ((m : ℕ) → m < k → p (get_or rs m no_range) ≡ false)
        → p (get_or (r ∷ rs) j no_range) ≡ false
    at_place p r rs k i zero other e less rest = other
    at_place p r rs k i (suc j) other e less rest = rest j (omega (arith, e, less))

module _ (ranges : List Range) (ram : ℕ) (m : Memory) (fits : All Fits ranges)
    (starts : All (λ r. 0 < r.size → 0 < r.start_address) ranges)
    (few : count_frames ranges < 2 ^ 62) (ram_small : ram < 2 ^ 60) where
  same_test :
      (i : ℕ)
      → i < length ranges
      → suits (needed_bytes_stack_frame ram) (get_or ranges i no_range)
        ≡ can_hold (stack_size ram) (get_or ranges i no_range)
  same_test i inside =
      suits-can_hold (needed_bytes_stack_frame ram) (get_or ranges i no_range)
        (needed_lem ram ram_small).2 (All-get_or Fits ranges i no_range inside fits)
      ∙ ap (λ n. can_hold n (get_or ranges i no_range)) (needed-stack_size ram ram_small)

  none_hold :
      (rs : List Range)
      → All Fits rs
      → All (λ r. suits (needed_bytes_stack_frame ram) r ≡ false) rs
      → All (λ r. can_hold (stack_size ram) r ≡ false) rs
  none_hold [] fit h = tt
  none_hold (r ∷ rs) fit h = (
    sym (
          suits-can_hold (needed_bytes_stack_frame ram) r (needed_lem ram ram_small).2 fit.0
          ∙ ap (λ n. can_hold n r) (needed-stack_size ram ram_small))
        ∙ h.0,
    none_hold rs fit.1 h.1,
  )

  state-Initialized :
      (i : ℕ)
      → i < length ranges
      → suits (needed_bytes_stack_frame ram) (get_or ranges i no_range) ≡ true
      → ((j : ℕ) → j < i → suits (needed_bytes_stack_frame ram) (get_or ranges j no_range) ≡ false)
      → Initialized ranges ram (ok (state m ranges (needed_bytes_stack_frame ram) i))
  unfolding take_bytes make_frame_stack stack_items
  state-Initialized i inside ok_range earlier =
      let n = needed_bytes_stack_frame ram in
      let (whole, room, small) = needed_lem ram ram_small in
      let (big, low) =
        suits-lem n (get_or ranges i no_range) small (All-get_or Fits ranges i no_range inside fits)
          ok_range in
      let cut =
        rw whole at
          (take_bytes-Cuts (n / page_size) ranges i fits inside (omega (arith, whole, big))) in
      let start =
        All-get_or (λ r. 0 < r.size → 0 < r.start_address) ranges i no_range inside starts
          (omega (arith, big, room)) in
      let empty : first_of_range ranges i - first_of_range ranges i ≡ 0 = omega arith in
      (
        record {
          base_pos = start;
          stack_pos = omega (arith, room);
          base_le = omega arith;
          top_le = omega arith;
          stack_small = omega (arith, low);
          aligned = rw empty refl;
          fits = cut.still_fits;
          cached_in = omega (arith, cut.same_length);
          few = omega (arith, cut.same_count, few);
          counted = rw empty (omega (arith, cut.same_count, few));
        },
        refl,
        rw empty cut.same_frames,
        needed-stack_size ram ram_small,
        room,
        (
          i,
          inside,
          refl,
          sym (same_test i inside) ∙ ok_range,
          λ j less. sym (same_test j (omega (arith, less, inside))) ∙ earlier j less,
        ),
      )

  from_search :
      (o : Option ℕ)
      → find_range (suits (needed_bytes_stack_frame ram)) ranges ≡ o
      → Found (suits (needed_bytes_stack_frame ram)) ranges o
      → Initialized ranges ram (init_frame_allocator ranges ram m)
  unfolding init_frame_allocator state make_frame_stack take_bytes
  from_search none e h = rw (e, Initialized, init_frame_allocator) (refl, none_hold ranges fits h)
  from_search (some i) e h =
      rw (e, Initialized, init_frame_allocator)
        (state-Initialized i h.0 h.1
          (find_range-first (suits (needed_bytes_stack_frame ram)) ranges i e))

  -- For ranges that do not overflow, of which only an empty one starts at 0, with fewer than 2^62 frames
  -- and with less than 2^60 bytes of usable RAM: the initialisation gives a valid allocator over the frames
  -- of the ranges less those of the stack, which is cut from the front of the first range that can hold
  -- it; it panics if and only if no range can.
  pub init_frame_allocator-Initialized : Initialized ranges ram (init_frame_allocator ranges ram m)
  init_frame_allocator-Initialized =
      from_search (find_range (suits (needed_bytes_stack_frame ram)) ranges) refl
        (find_range-Found (suits (needed_bytes_stack_frame ram)) ranges)
