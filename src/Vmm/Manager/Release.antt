-- ===== src/Vmm/Manager/Release.antt =====
-- `deallocate_kernel_virtual_memory`: a range becomes free, and is joined to its free neighbours.
use garbage_os.Base.{
  ℕ, zero, suc, Bool, true, not, none, some, List, [], ◌∷◌, ltb, if◌then◌else◌, add64, page_size,
  Outcome, ok, panic, ◌>>=◌, ◌>>◌, kassert, unrecoverable_page_fault, ◌*◌,
}
use garbage_os.Vmm.Descriptors.{
  Descriptor, VirtualMemoryType, free, identity_map_free, same_type, get_no_padding_size,
  get_no_padding_start_addr,
}
use garbage_os.Vmm.Machine.{Machine}
use garbage_os.Vmm.Manager.{Vmm, find_descriptor, identity_map_vmem_end}
use garbage_os.Vmm.Manager.Pages.{is_framed, rounds, shootdown}

-- The free type of the part of the address space that an address lies in.
abbrev pub free_type_at : ℕ → VirtualMemoryType
free_type_at start = if ltb start identity_map_vmem_end then identity_map_free else free

-- The loop over the ranges behind: the size with the leading free ranges, and the rest.
unfoldable pub absorb : VirtualMemoryType → ℕ → List Descriptor → ℕ × List Descriptor
absorb t total [] = (total, [])
absorb t total (d ∷ ds) =
    if same_type d.type t then absorb t (add64 total d.size_bytes) ds else (total, d ∷ ds)

-- Joins `d` to the free ranges that follow it; `d->next` is read without a test.
unfoldable pub join_next :
    VirtualMemoryType → Descriptor → List Descriptor → Outcome (List Descriptor)
join_next t d [] = panic unrecoverable_page_fault
join_next t d (n ∷ ns) =
    if same_type n.type t
    then (let (total, rest) = absorb t d.size_bytes (n ∷ ns) in
        ok (record d { size_bytes = total } ∷ rest))
    else ok (d ∷ n ∷ ns)

-- The same from the range before `d`, if that is free; `passed` are the ranges before `d`.
unfoldable pub join_prev :
    VirtualMemoryType
    → (passed : List Descriptor) → Descriptor
    → List Descriptor
    → Outcome (List Descriptor)
join_prev t [] d ds = join_next t d ds
join_prev t (p ∷ []) d ds =
    if same_type p.type t
    then join_next t p (d ∷ ds)
    else (do rest ← join_next t d ds; ok (p ∷ rest))
join_prev t (p ∷ q ∷ ps) d ds = do rest ← join_prev t (q ∷ ps) d ds; ok (p ∷ rest)

-- The descriptor of a range that has been freed.
abbrev pub freed : Descriptor → Descriptor
freed d = record d { type = free_type_at d.start_vaddr; lower_padding = 0; upper_padding = 0 }

module _ (m : Machine) where
  open m use {State, get_physical_address, dealloc_frame, invalidate_paging_mapping}

  -- The body of the loop over the pages.
  unfoldable pub release_page : VirtualMemoryType → (vaddr : ℕ) → State → Outcome State
  release_page t vaddr s = do
    s₁ ←
        if is_framed t
        then elim (get_physical_address vaddr s) [
          | none ↦ ok s
          | some frame ↦ dealloc_frame frame s
        ]
        else ok s
    invalidate_paging_mapping vaddr s₁

  unfoldable pub release_pages : VirtualMemoryType → (n vaddr : ℕ) → State → Outcome State
  release_pages t zero vaddr s = ok s
  release_pages t (suc n) vaddr s = do
    s₁ ← release_page t vaddr s
    release_pages t n (add64 vaddr page_size) s₁

  unfoldable pub deallocate_kernel_virtual_memory : Vmm → ℕ → State → Outcome (Bool × Vmm × State)
  deallocate_kernel_virtual_memory v h s = do
    kassert v.kernel_mode
    elim (find_descriptor h v.descriptors) [
      | none ↦ panic unrecoverable_page_fault
      | some w ↦ (do
        let d = w.here
        kassert (not (same_type d.type free))
        kassert (not (same_type d.type identity_map_free))
        let n = rounds (get_no_padding_size d)
        s₁ ← release_pages d.type n (get_no_padding_start_addr d) s
        s₂ ←
            shootdown m (add64 (get_no_padding_start_addr d) (n * page_size))
              (get_no_padding_size d) s₁
        ds ← join_prev (free_type_at d.start_vaddr) w.passed (freed d) w.ahead
        ok (true, record v { descriptors = ds }, s₂))
    ]
