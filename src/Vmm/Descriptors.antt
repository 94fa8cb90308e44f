-- ===== src/Vmm/Descriptors.antt =====
-- Descriptors of ranges of virtual memory, and how a free one is cut.
use garbage_os.Base.{
  ℕ, ◌+◌, ◌%◌, Bool, true, false, ◌&&◌, ◌||◌, List, [], ◌∷◌, ◌==◌, ltb, leb, if◌then◌else◌, add64,
  sub64, page_size, Outcome, ok, panic, ◌>>=◌, ◌>>◌, check, kassert, vmm_error,
  unrecoverable_page_fault,
}

-- `enum VirtualMemoryType`
pub data VirtualMemoryType : Type 0 where
  free stack heap general_use identity_map_free identity_map memory_mapping : VirtualMemoryType

-- The comparison of two types, by their values in the enumeration.
abbrev pub type_code : VirtualMemoryType → ℕ
type_code free = 0
type_code stack = 1
type_code heap = 2
type_code general_use = 3
type_code identity_map_free = 4
type_code identity_map = 5
type_code memory_mapping = 6

abbrev pub same_type : VirtualMemoryType → VirtualMemoryType → Bool
same_type s t = type_code s == type_code t

-- `struct VirtualMemoryDescriptor`. Its links are its place in the list.
pub record Descriptor : Type 0 where
  pub address : ℕ
  pub start_vaddr : ℕ
  pub size_bytes : ℕ
  pub upper_padding : ℕ
  pub lower_padding : ℕ
  pub type : VirtualMemoryType
  pub is_from_heap : Bool

-- Where descriptors come from: the kernel heap or, before there is one, the 64 descriptors of the bump
-- allocator. `kmalloc` says what the heap's function does at each of its calls for a descriptor, counted
-- from 0: it returns an address, which may be one that it has returned before, or it panics. A call that
-- grows the heap while the manager is locked waits for the lock for ever; such a run is not described.
pub record Pool : Type 0 where
  pub kheap_initialized : Bool
  pub next_free_descriptor : ℕ
  pub next_address : ℕ
  pub kmalloc : ℕ → Outcome ℕ
  pub kmalloc_calls : ℕ

-- `allocate_vmem_descriptor`: the address, and whether it is the heap's. The caller sets the fields
-- but the paddings, which are zero.
unfoldable pub allocate_vmem_descriptor : Pool → Outcome (ℕ × Bool × Pool)
allocate_vmem_descriptor p =
    if p.kheap_initialized
    then (do
      a ← p.kmalloc p.kmalloc_calls
      ok (a, true, record p { kmalloc_calls = p.kmalloc_calls + 1 }))
    else (do
      check (ltb p.next_free_descriptor 64) vmm_error
      ok (
        p.next_address,
        false,
        record p {
          next_free_descriptor = p.next_free_descriptor + 1;
          next_address = p.next_address + 1;
        },
      ))

-- An allocated descriptor with its fields set.
abbrev pub fresh_descriptor : ℕ → ℕ → ℕ → VirtualMemoryType → Bool → Descriptor
fresh_descriptor a start size type from_heap = record {
  address = a;
  start_vaddr = start;
  size_bytes = size;
  upper_padding = 0;
  lower_padding = 0;
  type = type;
  is_from_heap = from_heap;
}

abbrev pub is_free_type : VirtualMemoryType → Bool
is_free_type t = same_type t free || same_type t identity_map_free

-- `start_vaddr + size_bytes`
abbrev pub end_vaddr : Descriptor → ℕ
end_vaddr d = add64 d.start_vaddr d.size_bytes

unfoldable pub get_no_padding_size : Descriptor → ℕ
get_no_padding_size d = sub64 (sub64 d.size_bytes d.upper_padding) d.lower_padding

unfoldable pub get_no_padding_start_addr : Descriptor → ℕ
get_no_padding_start_addr d = add64 d.start_vaddr d.lower_padding

-- A descriptor after a cut: the pieces before and after the one that the cut returns.
pub record Cut : Type 0 where
  pub before : List Descriptor
  pub cutted : Descriptor
  pub after : List Descriptor
  pub pool : Pool

unfoldable pub cut_descriptor_start : Pool → Descriptor → ℕ → Outcome Cut
cut_descriptor_start p d size = do
  kassert (is_free_type d.type)
  kassert (leb size d.size_bytes)
  kassert (d.size_bytes % page_size == 0)
  kassert (size % page_size == 0)
  if d.size_bytes == size
      then ok (record { before = []; cutted = d; after = []; pool = p })
      else (do
        (a, from_heap, q) ← allocate_vmem_descriptor p
        let low = record d { size_bytes = size }
        let new_descriptor =
            fresh_descriptor a (end_vaddr low) (sub64 d.size_bytes size) d.type from_heap
        ok (record { before = []; cutted = low; after = new_descriptor ∷ []; pool = q }))

-- The case of `cut_descriptor` where the requested range ends with the descriptor.
unfoldable pub cut_descriptor_end : Pool → Descriptor → ℕ → ℕ → Outcome Cut
cut_descriptor_end p d start size = do
  (a, from_heap, q) ← allocate_vmem_descriptor p
  let low = record d { size_bytes = sub64 d.size_bytes size }
  kassert (end_vaddr low == start)
  let new_descriptor = fresh_descriptor a (end_vaddr low) (size) d.type from_heap
  ok (record { before = low ∷ []; cutted = new_descriptor; after = []; pool = q })

-- The case where it lies inside: the descriptor itself becomes the middle one.
unfoldable pub cut_descriptor_middle : Pool → Descriptor → ℕ → ℕ → Outcome Cut
cut_descriptor_middle p d start size = do
  kassert (ltb d.start_vaddr start)
  (a, a_from_heap, q) ← allocate_vmem_descriptor p
  (b, b_from_heap, r) ← allocate_vmem_descriptor q
  let prev_descriptor =
      fresh_descriptor a (d.start_vaddr) (sub64 start d.start_vaddr) d.type a_from_heap
  kassert (end_vaddr prev_descriptor == start)
  let mid_descriptor = record d { start_vaddr = start; size_bytes = size }
  let next_descriptor =
      fresh_descriptor b (end_vaddr mid_descriptor) (sub64 (end_vaddr d) (add64 start size)) d.type
        b_from_heap
  kassert (end_vaddr d == end_vaddr next_descriptor)
  ok (record {
    before = prev_descriptor ∷ [];
    cutted = mid_descriptor;
    after = next_descriptor ∷ [];
    pool = r;
  })

unfoldable pub cut_descriptor : Pool → Descriptor → ℕ → ℕ → Outcome Cut
cut_descriptor p d start size = do
  kassert (is_free_type d.type)
  kassert (d.size_bytes % page_size == 0)
  kassert (size % page_size == 0)
  if (d.start_vaddr == start) && (d.size_bytes == size)
      then ok (record { before = []; cutted = d; after = []; pool = p })
      else if d.start_vaddr == start
      then cut_descriptor_start p d size
      else if end_vaddr d == add64 start size
      then cut_descriptor_end p d start size
      else cut_descriptor_middle p d start size

-- A place in the list: the descriptors before and after the one a loop stopped at.
pub record Walk : Type 0 where
  pub passed : List Descriptor
  pub here : Descriptor
  pub ahead : List Descriptor

-- `while(!stop(descriptor) && descriptor->next != NULL) descriptor = descriptor->next;`
unfoldable pub walk_from : (Descriptor → Bool) → Descriptor → List Descriptor → Walk
walk_from stop d [] = record { passed = []; here = d; ahead = [] }
walk_from stop d (e ∷ es) =
    let rest = walk_from stop e es in
    if stop d
    then record { passed = []; here = d; ahead = e ∷ es }
    else record rest { passed = d ∷ rest.passed }

-- From `vm_list_head`; with no descriptor there is a read through the null pointer.
unfoldable pub walk : (Descriptor → Bool) → List Descriptor → Outcome Walk
unfolding walk_from
walk stop [] = panic unrecoverable_page_fault
walk stop (d ∷ ds) = ok (walk_from stop d ds)
