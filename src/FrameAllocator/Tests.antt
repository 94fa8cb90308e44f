-- ===== src/FrameAllocator/Tests.antt =====
-- Runs of the frame allocator, and its theorems at concrete states.
use garbage_os.Base.{
  ℕ, ◌+◌, ◌≤◌, ◌<◌, ◌≡◌, refl, true, false, List, [], ◌∷◌, arith, Outcome, ok, panic,
  frame_allocator_error,
}
use garbage_os.PhysicalMemory.{Range}
use garbage_os.FrameAllocator.{
  FrameAllocator, alloc_frame, dealloc_frame, init_frame_allocator, is_frame_stack_valid,
  frame_stack_count, frame_stack_pop, frame_stack_push, reuse_frame, carve_frame, choose_range,
  is_candidate, is_usable_in_bootstage, find_range, take_bytes, make_frame_stack, count_frames,
  needed_bytes_stack_frame, get_number_of_free_frames, get_frame_allocator_mem_overhead,
}
use garbage_os.FrameAllocator.Bag.{IsValid, free_list}
use garbage_os.FrameAllocator.Alloc.{Allocates, alloc_frame-Allocates}
use garbage_os.FrameAllocator.Dealloc.{dealloc_frame-free_list}
use garbage_os.FrameAllocator.Init.{Initialized, init_frame_allocator-Initialized}

-- One freed frame, 0x5000, and three pages in two ranges, of which the first is used up.
abbrev two_ranges : FrameAllocator
two_ranges = record {
  is_initialized = true;
  free_ranges =
      record { start_address = 0x9000; size = 0 }
      ∷ record { start_address = 0x40000000; size = 0x3000 }
      ∷ [];
  frame_stack = record { base = 0x1000; top = 0x1008; max_size_bytes = 0x10 };
  cached_memory_range_index = 0;
  free_frames = 4;
  memory = λ a. 0x5000;
}

two_ranges-IsValid : IsValid two_ranges
unfolding count_frames
two_ranges-IsValid = omega arith

free_list-two_ranges : free_list two_ranges ≡ 0x5000 ∷ 0x40000000 ∷ 0x40001000 ∷ 0x40002000 ∷ []
unfolding garbage_os.FrameAllocator.Bag.stack_items garbage_os.FrameAllocator.Bag.range_frames
free_list-two_ranges = refl

-- The freed frame goes first, then the second range; in the bootstage that range is out of reach.
abbrev frame_in : Outcome (ℕ × FrameAllocator) → ℕ
frame_in (ok (x, g)) = x
frame_in (panic e) = 0

abbrev state_of : Outcome (ℕ × FrameAllocator) → FrameAllocator
state_of (ok (x, g)) = g
state_of (panic e) = two_ranges

allocations :
    (frame_in (alloc_frame true two_ranges) ≡ 0x5000)
    × (frame_in (alloc_frame true (state_of (alloc_frame true two_ranges))) ≡ 0x40000000)
    × (alloc_frame false (state_of (alloc_frame true two_ranges)) ≡ panic frame_allocator_error)
unfolding alloc_frame is_frame_stack_valid frame_stack_count reuse_frame carve_frame choose_range
    is_candidate find_range take_bytes frame_stack_pop
allocations = (refl, refl, refl)

alloc_frame-Allocates_example : Allocates true two_ranges (alloc_frame true two_ranges)
alloc_frame-Allocates_example = alloc_frame-Allocates true two_ranges two_ranges-IsValid

dealloc_frame-free_list_example :
    (0x1008 + 8 ≤ 0x1000 + 0x10
      → (g : FrameAllocator) × (dealloc_frame 0x7000 two_ranges ≡ ok g)
        × (free_list g ≡ 0x7000 ∷ free_list two_ranges)
        × IsValid g)
    × (0x1000 + 0x10 < 0x1008 + 8 → dealloc_frame 0x7000 two_ranges ≡ panic frame_allocator_error)
dealloc_frame-free_list_example = dealloc_frame-free_list 0x7000 two_ranges two_ranges-IsValid

abbrev boot_ranges : List Range
boot_ranges = record { start_address = 0x100000; size = 0x6000 } ∷ []

-- Six pages of RAM: the stack takes two of them.
initial_frames :
    init_frame_allocator boot_ranges 0x6000 (λ a. 0)
    ≡ ok (record {
      is_initialized = true;
      free_ranges = record { start_address = 0x102000; size = 0x4000 } ∷ [];
      frame_stack = record { base = 0x100000; top = 0x100000; max_size_bytes = 0x2000 };
      cached_memory_range_index = 0;
      free_frames = 4;
      memory = λ a. 0;
    })
unfolding init_frame_allocator needed_bytes_stack_frame find_range is_usable_in_bootstage take_bytes
    count_frames make_frame_stack
initial_frames = refl

init_frame_allocator-Initialized_example :
    Initialized boot_ranges 0x6000 (init_frame_allocator boot_ranges 0x6000 (λ a. 0))
unfolding count_frames
init_frame_allocator-Initialized_example =
    init_frame_allocator-Initialized boot_ranges 0x6000 (λ a. 0) (omega arith)
      ((λ _. omega arith), tt) (omega arith) (omega arith)
