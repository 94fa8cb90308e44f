-- ===== src/Vmm/Machine.antt =====
-- What the manager uses of the machine below it: the page tables of its paging structure, the frame
-- allocator, and the invalidation of translations on every processor.
use garbage_os.Base.{ℕ, Option, Outcome}

pub record Machine : Type 1 where
  pub State : Type 0
  pub paging_map : (vaddr paddr flags : ℕ) → State → Outcome State
  pub invalidate_paging_mapping : (vaddr : ℕ) → State → Outcome State
  -- The frame of a page that is present.
  pub get_physical_address : (vaddr : ℕ) → State → Option ℕ
  pub alloc_frame : State → Outcome (ℕ × State)
  pub dealloc_frame : ℕ → State → Outcome State
  pub shootdown : (vaddr_start size_bytes : ℕ) → State → Outcome State
  -- `copy_paging_structure_mapping_no_page_invalidation`, from the paging structure at `src`
  pub copy_mapping : (src vaddr size_bytes new_flags : ℕ) → State → Outcome State
  pub delete_page_translation_cache : (vaddr : ℕ) → State → Outcome State
