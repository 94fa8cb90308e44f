-- ===== src/FrameAllocator.antt =====
-- kernel/mem/frame_allocator.c. Each function is the section between taking and releasing
-- `frame_allocator.lock`. The frame stack lies in `memory`, the ranges are an array.
pub mod Bag
pub mod Cuts
pub mod Init
pub mod Alloc
pub mod Dealloc
mod Tests
use garbage_os.Base.{
  ℕ, zero, suc, ◌+◌, ◌*◌, ◌/◌, ◌%◌, ◌^◌, Bool, true, false, ◌&&◌, Option, none, some, List, [], ◌∷◌,
  ◌!=◌, ltb, leb, if◌then◌else◌, get_or, set, add64, sub64, mul64, null, page_size, Memory, store,
  Outcome, ok, panic, ◌>>=◌, ◌>>◌, check, frame_allocator_error,
}
use garbage_os.PhysicalMemory.{Range, get_bootstage_identity_mapped_ram}

-- `struct FrameStack`
pub record FrameStack : Type 0 where
  pub base : ℕ
  pub top : ℕ
  pub max_size_bytes : ℕ

-- `struct FrameAllocatorState`, with the memory that holds the stack
pub record FrameAllocator : Type 0 where
  pub is_initialized : Bool
  pub free_ranges : List Range
  pub frame_stack : FrameStack
  pub cached_memory_range_index : ℕ
  pub free_frames : ℕ
  pub memory : Memory

pub make_frame_stack : ℕ → ℕ → FrameStack
make_frame_stack addr size = record { base = addr; top = addr; max_size_bytes = size }

pub is_frame_stack_valid : FrameStack → Bool
is_frame_stack_valid s =
    s.max_size_bytes != 0 && (s.base != null && (s.top != null && leb s.base s.top))

pub frame_stack_size_bytes : FrameStack → ℕ
frame_stack_size_bytes s = sub64 s.top s.base

pub frame_stack_count : FrameStack → ℕ
unfolding frame_stack_size_bytes
frame_stack_count s = frame_stack_size_bytes s / 8

pub frame_stack_pop : Memory → FrameStack → Outcome (ℕ × FrameStack)
unfolding frame_stack_count
frame_stack_pop m s = do
  check (ltb 0 (frame_stack_count s)) frame_allocator_error
  ok (m (sub64 s.top 8), record s { top = sub64 s.top 8 })

pub frame_stack_push : Memory → FrameStack → ℕ → Outcome (Memory × FrameStack)
unfolding frame_stack_size_bytes
frame_stack_push m s new_value = do
  check (leb (add64 (frame_stack_size_bytes s) 8) s.max_size_bytes) frame_allocator_error
  ok (store m s.top new_value, record s { top = add64 s.top 8 })

abbrev pub no_range : Range
no_range = record { start_address = 0; size = 0 }

abbrev pub first_bootstage_unusable_addr : ℕ
unfolding get_bootstage_identity_mapped_ram
first_bootstage_unusable_addr =
    add64 get_bootstage_identity_mapped_ram.start_address get_bootstage_identity_mapped_ram.size

-- `is_usable_in_bootstage`, for a block of `bytes` at the front of the range
pub is_usable_in_bootstage : ℕ → Range → Bool
unfolding get_bootstage_identity_mapped_ram
is_usable_in_bootstage bytes r =
    ltb (add64 r.start_address bytes) first_bootstage_unusable_addr
    && leb get_bootstage_identity_mapped_ram.start_address r.start_address

-- The search loops: the index of the first range that passes the test.
pub find_range : (Range → Bool) → List Range → Option ℕ
find_range p [] = none
find_range p (r ∷ rs) =
    if p r then some 0 else elim (find_range p rs) [ none ↦ none | some i ↦ some (suc i) ]

-- Takes `bytes` from the front of range `i`.
pub take_bytes : ℕ → List Range → ℕ → ℕ × List Range
take_bytes bytes rs i =
    let r = get_or rs i no_range in
    (
      r.start_address,
      set rs i (record { start_address = add64 r.start_address bytes; size = sub64 r.size bytes }),
    )

-- The tests on the range that a frame is taken from, in and after the bootstage.
pub is_candidate : (arch_initialized : Bool) → Range → Bool
unfolding is_usable_in_bootstage
is_candidate arch_initialized r =
    leb page_size r.size && (if arch_initialized then true else is_usable_in_bootstage page_size r)

-- The index of the range to use: the cached one if it will do, else the first that does.
pub choose_range : (arch_initialized : Bool) → FrameAllocator → Outcome ℕ
choose_range arch_initialized f =
    if is_candidate arch_initialized (get_or f.free_ranges f.cached_memory_range_index no_range)
    then ok f.cached_memory_range_index
    else elim (find_range (is_candidate arch_initialized) f.free_ranges) [
      | none ↦ panic frame_allocator_error
      | some i ↦ ok i
    ]

-- `new_frame = frame_stack_pop(…)`
pub reuse_frame : FrameAllocator → Outcome (ℕ × FrameAllocator)
reuse_frame f = do
  (new_frame, stack) ← frame_stack_pop f.memory f.frame_stack
  ok (new_frame, record f { frame_stack = stack })

-- Takes a page from the range that will do, and caches the range's index.
pub carve_frame : (arch_initialized : Bool) → FrameAllocator → Outcome (ℕ × FrameAllocator)
carve_frame arch_initialized f = do
  i ← choose_range arch_initialized f
  let (new_frame, ranges) = take_bytes page_size f.free_ranges i
  ok (new_frame, record f { free_ranges = ranges; cached_memory_range_index = i })

-- `arch_initialized` is `is_hal_arch_initialized()`.
pub alloc_frame : (arch_initialized : Bool) → FrameAllocator → Outcome (ℕ × FrameAllocator)
alloc_frame arch_initialized f = do
  check (is_frame_stack_valid f.frame_stack) frame_allocator_error
  let counted = record f { free_frames = sub64 f.free_frames 1 }
  (new_frame, g) ←
      if ltb 0 (frame_stack_count f.frame_stack)
      then reuse_frame counted
      else carve_frame arch_initialized counted
  check (new_frame != null) frame_allocator_error
  ok (new_frame, g)

pub dealloc_frame : ℕ → FrameAllocator → Outcome FrameAllocator
unfolding frame_stack_push
dealloc_frame paddr f = do
  (m, stack) ← frame_stack_push f.memory f.frame_stack paddr
  ok (record f { free_frames = add64 f.free_frames 1; memory = m; frame_stack = stack })

pub get_number_of_free_frames : FrameAllocator → ℕ
get_number_of_free_frames f = f.free_frames

pub get_frame_allocator_mem_overhead : FrameAllocator → Outcome ℕ
unfolding is_frame_stack_valid
get_frame_allocator_mem_overhead f = do
  check (is_frame_stack_valid f.frame_stack) frame_allocator_error
  ok f.frame_stack.max_size_bytes

-- `free_frames += free_ranges[i].size / PAGE_SIZE` over all ranges
unfoldable pub count_frames : List Range → ℕ
count_frames [] = 0
count_frames (r ∷ rs) = r.size / page_size + count_frames rs

-- The size of the frame stack: 8 bytes for each page of usable RAM and a page more, rounded up to a
-- page past.
pub needed_bytes_stack_frame : ℕ → ℕ
needed_bytes_stack_frame usable_ram_size =
    let n = add64 (mul64 (usable_ram_size / page_size) 8) page_size in
    add64 n (sub64 page_size (n % page_size))

-- `init_frame_allocator` on the zeroed global: `ranges` are those of `free_mem_bootloader`, and
-- `usable_ram_size` is `get_total_usable_RAM_size()`.
pub init_frame_allocator :
    (ranges : List Range) (usable_ram_size : ℕ) → Memory → Outcome FrameAllocator
init_frame_allocator ranges usable_ram_size m =
    let needed = needed_bytes_stack_frame usable_ram_size in
    elim (find_range (λ r. leb needed r.size && is_usable_in_bootstage needed r) ranges) [
      | none ↦ panic frame_allocator_error
      | some i ↦
          let (addr, rest) = take_bytes needed ranges i in
          ok (record {
            is_initialized = true;
            free_ranges = rest;
            frame_stack = make_frame_stack addr needed;
            cached_memory_range_index = i;
            free_frames = count_frames rest % 2 ^ 64;
            memory = m;
          })
    ]
