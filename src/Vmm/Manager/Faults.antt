-- ===== src/Vmm/Manager/Faults.antt =====
-- The page fault handler, and the copy of mappings from another paging structure.
use garbage_os.Base.{
  ℕ, zero, suc, ◌+◌, ◌*◌, ◌/◌, ◌%◌, ◌^◌, Bool, true, false, ◌&&◌, ◌||◌, not, none, some, ◌==◌, ltb,
  leb, if◌then◌else◌, add64, sub64, page_size, kb, Outcome, ok, panic, ◌>>=◌, ◌>>◌, kassert,
  unrecoverable_page_fault,
}
use garbage_os.Vmm.Descriptors.{
  free, stack, identity_map, memory_mapping, same_type, walk, cut_descriptor, end_vaddr,
  get_no_padding_start_addr,
}
use garbage_os.Vmm.Machine.{Machine}
use garbage_os.Vmm.Manager.{
  Vmm, Handle, relink, ends_after, find_descriptor, get_vmem_from_address, is_kernel_virtual_memory,
}
use garbage_os.Vmm.Manager.Pages.{
  map_pages, shootdown, present_writable, rounds, try_expand_vmem_bottom_from,
}

abbrev pub page_fault_additional_page_load : ℕ
page_fault_additional_page_load = 16

abbrev pub kernel_stack_expansion_step : ℕ
kernel_stack_expansion_step = 64 * kb

-- `remaining_padding >= MINIMUM_STACK_PADDING`, on signed 64-bit values
abbrev pub keeps_minimum_padding : ℕ → Bool
keeps_minimum_padding lower_padding =
    let remaining = sub64 lower_padding kernel_stack_expansion_step in
    ltb remaining (2 ^ 63) && leb page_size remaining

module _ (m : Machine) where
  open m use {State}

  -- Whether the fault is solved. From 8 bytes before the faulting address on, 17 pages are mapped.
  unfoldable pub page_fault_check_identity_map_load :
      Vmm
      → Handle
      → (fault_address : ℕ) → (page_not_present : Bool) → State
      → Outcome (Bool × State)
  page_fault_check_identity_map_load v none fault_address page_not_present s = ok (false, s)
  page_fault_check_identity_map_load v (some h) fault_address page_not_present s =
      elim (find_descriptor h v.descriptors) [
        | none ↦ panic unrecoverable_page_fault
        | some w ↦
            if same_type w.here.type identity_map && page_not_present
            then (do
              let to_map = sub64 fault_address (page_fault_additional_page_load / 2)
              s₁ ←
                  map_pages m (1 + page_fault_additional_page_load) to_map to_map present_writable s
              s₂ ←
                  m.shootdown (add64 to_map ((1 + page_fault_additional_page_load) * page_size)) 0
                    s₁
              ok (true, s₂))
            else ok (false, s)
      ]

  -- Whether the fault is solved. `kio_initialized` is `is_kio_initialized()`; the messages are left out.
  unfoldable pub page_fault_check_stack_overflow :
      (kio_initialized : Bool)
      → Vmm
      → Handle
      → (fault_address : ℕ) → (page_not_present : Bool) → State
      → Outcome (Bool × Vmm × State)
  page_fault_check_stack_overflow kio_initialized v none fault_address page_not_present s =
      ok (false, v, s)
  page_fault_check_stack_overflow kio_initialized v (some h) fault_address page_not_present s =
      elim (find_descriptor h v.descriptors) [
        | none ↦ panic unrecoverable_page_fault
        | some w ↦
            if same_type w.here.type stack
              && (ltb fault_address (get_no_padding_start_addr w.here) && page_not_present)
            then (if not kio_initialized
                then panic unrecoverable_page_fault
                else if keeps_minimum_padding w.here.lower_padding
                then try_expand_vmem_bottom_from m v h kernel_stack_expansion_step false s
                else ok (false, v, s))
            else ok (false, v, s)
      ]

  -- `page_fault`, for the address in CR2 and the error code. `servicing` is the flag that tells a
  -- second fault; the lock of the manager is held from the lookup on.
  unfoldable pub page_fault :
      (kio_initialized servicing : Bool)
      → Vmm
      → (fault_address error : ℕ) → State
      → Outcome (Vmm × State)
  page_fault kio_initialized servicing v fault_address error s = do
    (if is_kernel_virtual_memory fault_address && not servicing
        then (do
          h ← get_vmem_from_address v fault_address
          let page_not_present = error % 2 == 0
          (solved, s₁) ← page_fault_check_identity_map_load v h fault_address page_not_present s
          (grown, v₁, s₂) ←
              if solved
              then ok (true, v, s₁)
              else page_fault_check_stack_overflow kio_initialized v h fault_address
                  page_not_present s₁
          (if grown then ok (v₁, s₂) else panic unrecoverable_page_fault))
        else panic unrecoverable_page_fault)

  -- The translations of `n` pages are deleted.
  unfoldable pub delete_translations : (n vaddr : ℕ) → State → Outcome State
  delete_translations zero vaddr s = ok s
  delete_translations (suc n) vaddr s = do
    t ← m.delete_page_translation_cache vaddr s
    delete_translations n (add64 vaddr page_size) t

  unfoldable pub copy_memory_mapping_from_paging_structure :
      Vmm → (src vaddr size page_flags : ℕ) → State → Outcome (Handle × Vmm × State)
  copy_memory_mapping_from_paging_structure v src vaddr size page_flags s = do
    kassert (size % page_size == 0)
    kassert v.kernel_mode
    w ← walk (ends_after vaddr) v.descriptors
    let d = w.here
    if ltb vaddr d.start_vaddr || ltb (end_vaddr d) (add64 vaddr size)
        then ok (none, v, s)
        else if not (same_type d.type free)
        then ok (none, v, s)
        else (do
          c ← cut_descriptor v.pool d vaddr size
          kassert (c.cutted.start_vaddr % page_size == 0)
          let e = record c.cutted { type = memory_mapping }
          s₁ ← m.copy_mapping src vaddr size page_flags s
          s₂ ← delete_translations (rounds size) vaddr s₁
          s₃ ← shootdown m vaddr size s₂
          ok (some e.address, record v { descriptors = relink w c e; pool = c.pool }, s₃))
