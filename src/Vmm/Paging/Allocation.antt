-- ===== src/Vmm/Paging/Allocation.antt =====
-- `allocate_kernel_virtual_memory` on the page tables: from the descriptors down to the frames.
use garbage_os.Base.{
  ℕ, ◌+◌, ◌/◌, ◌%◌, ◌^◌, ◌≤◌, ◌<◌, ◌≡◌, ◌⊎◌, true, Option, some, List, page_size, Outcome, ok,
  panic, ◌>>=◌, Memory,
}
use garbage_os.PageTables.Tree.{Supply}
use garbage_os.PageTables.Space.{AllocPanics}
use garbage_os.PageTables.Mapping.{page_of}
use garbage_os.Vmm.Descriptors.{Descriptor, VirtualMemoryType, free}
use garbage_os.Vmm.Layout.{type_at}
use garbage_os.Vmm.Layout.Allocated.{AllocFails}
use garbage_os.Vmm.Manager.{Vmm, Handle}
use garbage_os.Vmm.Manager.Laws.Relink.{Retyped}
use garbage_os.Vmm.Manager.Laws.Take.{any}
use garbage_os.Vmm.Manager.Pages.{is_allocatable, is_large_free}
use garbage_os.Vmm.Paging.Backing.{Backs}

-- The free ranges lie in the upper half of the address space, where those of the kernel are.
abbrev pub IsUpper : Vmm → Type 0
IsUpper v = (a : ℕ) → type_at v.descriptors a ≡ some free → 2 ^ 64 ≤ a + 2 ^ 47

-- What is asked for: whole pages and whole pages of padding, for which there is a free range.
pub record Requested (v : Vmm) (size : ℕ) (t : VirtualMemoryType) (upper lower : ℕ) : Type 0 where
  pub allocatable : is_allocatable t ≡ true
  pub pages : size % page_size ≡ 0
  pub some_page : 0 < size
  pub upper_pages : upper % page_size ≡ 0
  pub lower_pages : lower % page_size ≡ 0
  pub small : size + (lower + upper) < 2 ^ 64
  pub available : any (is_large_free (size + (lower + upper))) v.descriptors ≡ true

module _ {S : Type 0} (alloc_frame : S → Outcome (ℕ × S)) (dealloc_frame : ℕ → S → Outcome S)
    (supply : Supply S alloc_frame) (root : ℕ) where
  abbrev MachineState : Type 0
  MachineState = Memory × S

  -- The outcome of an allocation: a descriptor of the requested type, whose addresses were free; the
  -- pages between its paddings are backed. A panic is one of the frame allocator, of the
  -- bump allocator, which has run out of descriptors, or of the heap.
  abbrev pub AllocatesVirtual :
      Vmm
      → (size : ℕ) → VirtualMemoryType
      → (upper lower : ℕ) → Memory
      → S
      → (ℕ → Option (List ℕ))
      → Outcome (Handle × Vmm × (Memory × S))
      → Type 0
  AllocatesVirtual v size t upper lower m s own (panic e) =
      AllocPanics alloc_frame supply e ⊎ AllocFails v.pool e
  AllocatesVirtual v size t upper lower m s own (ok (h, v', (m', s'))) =
      (d : Descriptor) × (h ≡ some d.address)
      × (d.type ≡ t)
      × Retyped v v' d.start_vaddr (size + (lower + upper)) free t
      × Backs alloc_frame dealloc_frame supply m root s own (page_of (d.start_vaddr + lower))
          (size / page_size) m' s'
