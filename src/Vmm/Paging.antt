-- ===== src/Vmm/Paging.antt =====
-- The page tables and the frame allocator as the machine of the manager: kernel/mem/vmm.c calls
-- kernel/HAL/x86-64/x64-memory.c on its paging structure, here by the address of the root. The words
-- of the tables and those of the frame allocator's stack lie apart. Cached translations are not part
-- of the state.
pub mod Backing
pub mod Allocation
mod Tests
use garbage_os.Base.{ℕ, Option, none, some, if◌then◌else◌, Outcome, ok, ◌>>=◌, Memory}
use garbage_os.PageTables.{
  get_physical_address, paging_map, invalidate_paging_mapping, copy_mapping,
}
use garbage_os.Vmm.Machine.{Machine}
use garbage_os.Vmm.Manager.Pages.{rounds}

module _ {S : Type 0} (alloc_frame : S → Outcome (ℕ × S)) (dealloc_frame : ℕ → S → Outcome S) where
  abbrev pub page_machine : (root : ℕ) → Machine
  page_machine root = record {
    State = Memory × S;
    paging_map = λ vaddr paddr flags st. paging_map alloc_frame root vaddr paddr flags st.0 st.1;
    invalidate_paging_mapping =
        λ vaddr st. invalidate_paging_mapping alloc_frame root vaddr st.0 st.1;
    get_physical_address = λ vaddr st.
        let found = get_physical_address st.0 root vaddr in
        if found.mmap_present then some found.paddr else none;
    alloc_frame = λ st. (do (frame, s') ← alloc_frame st.1; ok (frame, (st.0, s')));
    dealloc_frame = λ frame st. (do s' ← dealloc_frame frame st.1; ok (st.0, s'));
    shootdown = λ vaddr_start size_bytes st. ok st;
    copy_mapping = λ src vaddr size_bytes new_flags st.
        copy_mapping alloc_frame (rounds size_bytes) src root vaddr new_flags st.0 st.1;
    delete_page_translation_cache = λ vaddr st. ok st;
  }
