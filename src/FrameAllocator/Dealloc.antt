-- ===== src/FrameAllocator/Dealloc.antt =====
-- Freeing a frame.
use garbage_os.Base.{
  ℕ, ◌+◌, ◌-◌, ◌/◌, ◌≤◌, ◌<◌, ◌≡◌, refl, ap, ◌∷◌, ◌++◌, arith, leb, le→leb, lt→leb_false, false,
  suc, add64, ok, panic, frame_allocator_error, store, store_same,
}
use garbage_os.FrameAllocator.{
  FrameAllocator, dealloc_frame, frame_stack_push, frame_stack_size_bytes,
}
use garbage_os.FrameAllocator.Bag.{IsValid, free_list, stack_items, stack_items-store, range_frames}

module _ (x : ℕ) (f : FrameAllocator) (v : IsValid f) where
  open f use {frame_stack as stack}

  size_eq : frame_stack_size_bytes stack ≡ stack.top - stack.base
  unfolding frame_stack_size_bytes
  size_eq = omega (arith, v.base_le, v.top_le, v.stack_small)

  pushed : FrameAllocator
  pushed = record f {
    free_frames = f.free_frames + 1;
    memory = store f.memory stack.top x;
    frame_stack = record stack { top = stack.top + 8 };
  }

  dealloc_frame-pushed :
      stack.top + 8 ≤ stack.base + stack.max_size_bytes → dealloc_frame x f ≡ ok pushed
  unfolding dealloc_frame frame_stack_push pushed
  dealloc_frame-pushed h =
      let size_8 : add64 (stack.top - stack.base) 8 ≡ stack.top - stack.base + 8 =
        omega (arith, v.base_le, v.top_le, v.stack_small) in
      let top_8 : add64 stack.top 8 ≡ stack.top + 8 = omega (arith, v.stack_small) in
      let few : add64 f.free_frames 1 ≡ f.free_frames + 1 =
        omega (arith, v.counted, v.few, v.stack_small, v.top_le) in
      let room : stack.top - stack.base + 8 ≤ stack.max_size_bytes = omega (arith, v.base_le) in
      rw (size_eq, size_8, le→leb _ _ room, top_8, few) refl

  pushed-IsValid : stack.top + 8 ≤ stack.base + stack.max_size_bytes → IsValid pushed
  unfolding pushed
  pushed-IsValid h = record {
    base_pos = v.base_pos;
    stack_pos = v.stack_pos;
    base_le = omega (arith, v.base_le);
    top_le = h;
    stack_small = v.stack_small;
    aligned = omega (arith, v.base_le, v.aligned);
    fits = v.fits;
    cached_in = v.cached_in;
    few = v.few;
    counted = omega (arith, v.counted, v.base_le, v.aligned);
  }

  free_list-pushed : free_list pushed ≡ x ∷ free_list f
  unfolding pushed stack_items
  free_list-pushed =
      let one_more : (stack.top + 8 - stack.base) / 8 ≡ suc ((stack.top - stack.base) / 8) =
        omega (arith, v.base_le, v.aligned) in
      let back : stack.top + 8 - 8 ≡ stack.top = omega arith in
      rw (one_more, back, store_same f.memory stack.top x)
        (ap (λ xs. x ∷ (xs ++ range_frames f.free_ranges))
          (stack_items-store f.memory stack.top x stack.top ((stack.top - stack.base) / 8)
            (omega (arith, v.base_pos)) (omega arith)))

  -- Freeing a frame of a valid allocator puts it in front of the free frames and keeps the allocator
  -- valid, if the stack has room for a word; otherwise it panics with the allocator's error.
  pub dealloc_frame-free_list :
      (stack.top + 8 ≤ stack.base + stack.max_size_bytes
        → (g : FrameAllocator) × (dealloc_frame x f ≡ ok g)
          × (free_list g ≡ x ∷ free_list f)
          × IsValid g)
      × (stack.base + stack.max_size_bytes < stack.top + 8
          → dealloc_frame x f ≡ panic frame_allocator_error)
  unfolding dealloc_frame frame_stack_push
  dealloc_frame-free_list = (
    λ room. (pushed, dealloc_frame-pushed room, free_list-pushed, pushed-IsValid room),
    λ full.
        let size_8 : add64 (stack.top - stack.base) 8 ≡ stack.top - stack.base + 8 =
          omega (arith, v.base_le, v.top_le, v.stack_small) in
        let over : leb (stack.top - stack.base + 8) stack.max_size_bytes ≡ false =
          lt→leb_false _ _ (omega (arith, v.base_le)) in
        rw (size_eq, size_8, over) refl,
  )
