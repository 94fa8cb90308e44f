-- ===== src/Vmm/Manager/Pages.antt =====
-- The operations that map pages: allocation, mappings of physical memory, and the growth of a range.
use garbage_os.Base.{
  ℕ, zero, suc, ◌+◌, ◌-◌, ◌*◌, ◌/◌, ◌%◌, Bool, true, false, ◌&&◌, ◌||◌, not, none, some, ◌∷◌, ◌++◌,
  ◌==◌, ◌!=◌, ltb, leb, if◌then◌else◌, add64, sub64, page_size, Outcome, ok, panic, ◌>>=◌, ◌>>◌,
  kassert, vmm_error, unrecoverable_page_fault,
}
use garbage_os.Vmm.Descriptors.{
  Descriptor, VirtualMemoryType, free, stack, heap, general_use, identity_map_free, identity_map,
  memory_mapping, same_type, walk, cut_descriptor_start, end_vaddr, get_no_padding_size,
  get_no_padding_start_addr,
}
use garbage_os.Vmm.Machine.{Machine}
use garbage_os.Vmm.Manager.{Vmm, Handle, relink, find_descriptor}

-- `PAGE_PRESENT | PAGE_WRITABLE`
abbrev pub present_writable : ℕ
present_writable = 3

-- `flags | PAGE_PRESENT`
abbrev pub or_present : ℕ → ℕ
or_present flags = flags / 2 * 2 + 1

-- The rounds of `for(i = 0; i < size; i += PAGE_SIZE)`.
abbrev pub rounds : ℕ → ℕ
rounds size = (size + (page_size - 1)) / page_size

-- The loops' test of a free range that is large enough.
abbrev pub is_large_free : ℕ → Descriptor → Bool
is_large_free size d = leb size d.size_bytes && same_type d.type free

-- `type` may be given to a range that `allocate_kernel_virtual_memory` makes.
abbrev pub is_allocatable : VirtualMemoryType → Bool
is_allocatable t =
    not (same_type t identity_map_free)
    && (not (same_type t identity_map) && not (same_type t memory_mapping))

-- Only ranges of these types are backed by frames of the allocator, and can grow.
abbrev pub is_framed : VirtualMemoryType → Bool
is_framed t = same_type t heap || (same_type t stack || same_type t general_use)

abbrev pub memory_map_padding : ℕ
memory_map_padding = page_size * 4

-- The part of an allocation that is done under the lock: the first large enough free range, or the
-- last range of all, is cut and given its type and its paddings.
unfoldable pub take_range :
    Vmm → (size : ℕ) → VirtualMemoryType → (upper lower : ℕ) → Outcome (Descriptor × Vmm)
take_range v size t upper lower = do
  w ← walk (is_large_free size) v.descriptors
  (if same_type w.here.type free
      then (do
        c ← cut_descriptor_start v.pool w.here size
        kassert (c.cutted.start_vaddr % page_size == 0)
        let d = record c.cutted { type = t; upper_padding = upper; lower_padding = lower }
        ok (d, record v { descriptors = relink w c d; pool = c.pool }))
      else panic vmm_error)

-- What a growth rounds its size to.
abbrev pub round_up : ℕ → ℕ
round_up size =
    if size % page_size != 0 then add64 size (sub64 page_size (size % page_size)) else size

-- The lock at the end of a growth that leaves it taken or released, if it was to take it.
abbrev pub lock_after : (taken use_spinlock : Bool) → Vmm → Bool
lock_after taken use_spinlock v = if use_spinlock then taken else v.locked

module _ (m : Machine) where
  open m use {State, paging_map, alloc_frame}

  -- The static `shootdown`
  unfoldable pub shootdown : (vaddr_start size_bytes : ℕ) → State → Outcome State
  shootdown vaddr_start size_bytes s = do
    kassert (size_bytes % page_size == 0)
    m.shootdown vaddr_start size_bytes s

  -- Maps `n` pages to consecutive frames.
  unfoldable pub map_pages : (n vaddr paddr flags : ℕ) → State → Outcome State
  map_pages zero vaddr paddr flags s = ok s
  map_pages (suc n) vaddr paddr flags s = do
    t ← paging_map vaddr paddr flags s
    map_pages n (add64 vaddr page_size) (add64 paddr page_size) flags t

  -- Maps `n` pages to new frames; `inside` is the loop's assertion on the address.
  unfoldable pub map_new_frames : (inside : ℕ → Bool) (n vaddr : ℕ) → State → Outcome State
  map_new_frames inside zero vaddr s = ok s
  map_new_frames inside (suc n) vaddr s = do
    kassert (inside vaddr)
    (frame, t) ← alloc_frame s
    u ← paging_map vaddr frame present_writable t
    map_new_frames inside n (add64 vaddr page_size) u

  -- `vaddr` has been advanced past the range by the time of the shootdown.
  unfoldable pub allocate_kernel_virtual_memory :
      Vmm
      → (size : ℕ) → VirtualMemoryType
      → (upper_padding lower_padding : ℕ) → State
      → Outcome (Handle × Vmm × State)
  allocate_kernel_virtual_memory v size t upper_padding lower_padding s = do
    let total = add64 size (add64 lower_padding upper_padding)
    kassert (total % page_size == 0)
    (if is_allocatable t
        then (do
          kassert v.kernel_mode
          (d, v') ← take_range v total t upper_padding lower_padding
          let vaddr = get_no_padding_start_addr d
          let n = rounds (get_no_padding_size d)
          s₁ ← map_new_frames (λ a. true) n vaddr s
          s₂ ← shootdown (add64 vaddr (n * page_size)) (get_no_padding_size d) s₁
          ok (some d.address, v', s₂))
        else panic vmm_error)

  unfoldable pub memory_map :
      Vmm → (paddr size page_flags : ℕ) → State → Outcome (Handle × Vmm × State)
  memory_map v paddr size page_flags s = do
    kassert v.kernel_mode
    let total = add64 size (memory_map_padding * 2)
    kassert (total % page_size == 0)
    kassert (paddr % page_size == 0)
    (d, v') ← take_range v total memory_mapping memory_map_padding memory_map_padding
    let vaddr = get_no_padding_start_addr d
    let size' = get_no_padding_size d
    s₁ ← map_pages (rounds size') vaddr paddr (or_present page_flags) s
    s₂ ← shootdown vaddr size' s₁
    ok (some d.address, v', s₂)

  unfoldable pub load_identity_map_pages : Vmm → (paddr size : ℕ) → State → Outcome State
  load_identity_map_pages v paddr size s = do
    kassert (size % page_size == 0)
    kassert (paddr % page_size == 0)
    kassert v.kernel_mode
    s₁ ← map_pages (rounds size) paddr paddr present_writable s
    shootdown paddr size s₁

  -- Growth at one end, with the address of its first page and the assertion on the pages' addresses.
  -- The lock is taken if `use_spinlock` is set, and released only where the range can grow.
  unfoldable pub try_expand_vmem_top_from :
      Vmm → ℕ → (size : ℕ) → (use_spinlock : Bool) → State → Outcome (Bool × Vmm × State)
  try_expand_vmem_top_from v h size use_spinlock s =
      let size' = round_up size in
      elim (find_descriptor h v.descriptors) [
        | none ↦ panic unrecoverable_page_fault
        | some w ↦
            let d = w.here in
            let vaddr = add64 (get_no_padding_start_addr d) (get_no_padding_size d) in
            if not (is_framed d.type) || ltb d.upper_padding size'
            then ok (false, record v { locked = lock_after true use_spinlock v }, s)
            else (do
              let e = record d { upper_padding = sub64 d.upper_padding size' }
              s₁ ← map_new_frames (λ a. ltb a (end_vaddr d)) (rounds size') vaddr s
              s₂ ← shootdown (add64 vaddr (rounds size' * page_size)) size' s₁
              ok (
                true,
                record v {
                  descriptors = w.passed ++ e ∷ w.ahead;
                  locked = lock_after false use_spinlock v;
                },
                s₂,
              ))
      ]

  unfoldable pub try_expand_vmem_bottom_from :
      Vmm → ℕ → (size : ℕ) → (use_spinlock : Bool) → State → Outcome (Bool × Vmm × State)
  try_expand_vmem_bottom_from v h size use_spinlock s =
      let size' = round_up size in
      elim (find_descriptor h v.descriptors) [
        | none ↦ panic unrecoverable_page_fault
        | some w ↦
            let d = w.here in
            let vaddr = sub64 (get_no_padding_start_addr d) size' in
            if not (is_framed d.type) || ltb d.lower_padding size'
            then ok (false, record v { locked = lock_after true use_spinlock v }, s)
            else (do
              let e = record d { lower_padding = sub64 d.lower_padding size' }
              s₁ ← map_new_frames (λ a. leb d.start_vaddr a) (rounds size') vaddr s
              s₂ ← shootdown (add64 vaddr (rounds size' * page_size)) size' s₁
              ok (
                true,
                record v {
                  descriptors = w.passed ++ e ∷ w.ahead;
                  locked = lock_after false use_spinlock v;
                },
                s₂,
              ))
      ]
