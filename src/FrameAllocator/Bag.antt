-- ===== src/FrameAllocator/Bag.antt =====
-- The free frames of the allocator, and its invariant.
mod Ranges
mod Stack
unfoldable pub use Ranges.*
unfoldable pub use Stack.*
use garbage_os.Base.{ℕ, ◌+◌, ◌-◌, ◌/◌, ◌%◌, ◌^◌, ◌≤◌, ◌<◌, ◌≡◌, List, ◌++◌, All, length}
use garbage_os.FrameAllocator.{FrameAllocator, count_frames}

-- The freed frames on the stack, the last one first, and then the frames of the ranges.
abbrev pub free_list : FrameAllocator → List ℕ
free_list f =
    stack_items f.memory f.frame_stack.top ((f.frame_stack.top - f.frame_stack.base) / 8)
    ++ range_frames f.free_ranges

-- The stack holds whole words inside its memory, no address sum wraps, and `free_frames` is the
-- number of frames on the stack and in the ranges.
pub record IsValid (f : FrameAllocator) : Type 0 where
  pub base_pos : 0 < f.frame_stack.base
  pub stack_pos : 0 < f.frame_stack.max_size_bytes
  pub base_le : f.frame_stack.base ≤ f.frame_stack.top
  pub top_le : f.frame_stack.top ≤ f.frame_stack.base + f.frame_stack.max_size_bytes
  pub stack_small : f.frame_stack.base + f.frame_stack.max_size_bytes < 2 ^ 63
  pub aligned : (f.frame_stack.top - f.frame_stack.base) % 8 ≡ 0
  pub fits : All Fits f.free_ranges
  pub cached_in : f.cached_memory_range_index < length f.free_ranges
  pub few : count_frames f.free_ranges < 2 ^ 62
  pub counted :
      f.free_frames ≡ (f.frame_stack.top - f.frame_stack.base) / 8 + count_frames f.free_ranges
