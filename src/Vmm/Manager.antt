-- ===== src/Vmm/Manager.antt =====
-- The operations of the manager.
pub mod Pages
pub mod Release
pub mod Faults
pub mod Laws
use garbage_os.Base.{
  ℕ, ◌+◌, ◌-◌, ◌*◌, ◌%◌, ◌^◌, Bool, true, false, ◌&&◌, ◌||◌, not, Option, none, some, List, [], ◌∷◌,
  ◌++◌, ◌==◌, ◌!=◌, ltb, leb, if◌then◌else◌, add64, sub64, page_size, gb, null, Outcome, ok, panic,
  ◌>>=◌, ◌>>◌, kassert,
}
use garbage_os.Vmm.Descriptors.{
  Descriptor, VirtualMemoryType, free, identity_map_free, identity_map, same_type, Pool, Cut,
  cut_descriptor, Walk, walk, end_vaddr, fresh_descriptor, get_no_padding_size,
  get_no_padding_start_addr, allocate_vmem_descriptor,
}

-- `struct VirtualMemoryManager`, with the descriptors that its list reaches
pub record Vmm : Type 0 where
  pub descriptors : List Descriptor
  pub kernel_mode : Bool
  pub locked : Bool
  pub pool : Pool

-- `struct VMemHandle`: the address of the descriptor, or the invalid handle
abbrev pub Handle : Type 0
Handle = Option ℕ

abbrev pub kernel_vmem_start : ℕ
kernel_vmem_start = 0xffff800000000000

abbrev pub identity_map_vmem_end : ℕ
identity_map_vmem_end = 512 * gb

abbrev pub last_vaddr : ℕ
last_vaddr = 0xffffffffffffffff

unfoldable pub is_kernel_virtual_memory : ℕ → Bool
is_kernel_virtual_memory vaddr =
    not (leb identity_map_vmem_end vaddr && ltb vaddr kernel_vmem_start)

-- `size -= size % PAGE_SIZE`
abbrev pub round_down : ℕ → ℕ
round_down n = sub64 n (n % page_size)

-- `initialize_kernel_VMM`: the first page is left out, for the null pointer.
unfoldable pub initialize_kernel_vmm : Pool → Outcome Vmm
initialize_kernel_vmm p = do
  (a, a_from_heap, q) ← allocate_vmem_descriptor p
  (b, b_from_heap, r) ← allocate_vmem_descriptor q
  ok (record {
    descriptors =
        fresh_descriptor a page_size (round_down (sub64 identity_map_vmem_end page_size))
          identity_map_free a_from_heap
        ∷ fresh_descriptor b kernel_vmem_start
            (round_down (sub64 last_vaddr (add64 kernel_vmem_start 1))) free b_from_heap
        ∷ [];
    kernel_mode = true;
    locked = false;
    pool = r;
  })

unfoldable pub initialize_user_vmm : Pool → Outcome Vmm
initialize_user_vmm p = do
  (a, from_heap, q) ← allocate_vmem_descriptor p
  ok (record {
    descriptors =
        fresh_descriptor a identity_map_vmem_end
          (round_down (sub64 kernel_vmem_start identity_map_vmem_end)) free from_heap
        ∷ [];
    kernel_mode = false;
    locked = false;
    pool = q;
  })

-- Puts the pieces of a cut in the place of the descriptor that was cut.
abbrev pub relink : Walk → Cut → Descriptor → List Descriptor
relink w c d = w.passed ++ (c.before ++ (d ∷ (c.after ++ w.ahead)))

-- The descriptor lies before `vaddr`.
abbrev pub ends_after : ℕ → Descriptor → Bool
ends_after vaddr d = ltb vaddr (end_vaddr d)

-- `identity_map`
unfoldable pub map_identity : Vmm → (paddr size : ℕ) → Outcome (Handle × Vmm)
map_identity v paddr size = do
  kassert (paddr != null)
  kassert (size % page_size == 0)
  kassert (paddr % page_size == 0)
  kassert v.kernel_mode
  w ← walk (ends_after paddr) v.descriptors
  let d = w.here
  if ltb paddr d.start_vaddr || ltb (end_vaddr d) (add64 paddr size)
      then ok (none, v)
      else if not (same_type d.type identity_map_free)
      then ok (none, v)
      else (do
        c ← cut_descriptor v.pool d paddr size
        kassert (c.cutted.start_vaddr % page_size == 0)
        let e = record c.cutted { type = identity_map }
        ok (some e.address, record v { descriptors = relink w c e; pool = c.pool }))

-- `get_vmem_from_address`
unfoldable pub get_vmem_from_address : Vmm → ℕ → Outcome Handle
get_vmem_from_address v addr = do
  w ← walk (λ d. leb d.start_vaddr addr && ltb addr (end_vaddr d)) v.descriptors
  let d = w.here
  if leb (end_vaddr d) addr
      then ok none
      else if ltb addr d.start_vaddr
      then ok none
      else ok (some d.address)

-- The descriptor that a handle points to. A handle that is not in the list is a dangling pointer.
unfoldable pub find_descriptor : ℕ → List Descriptor → Option Walk
find_descriptor a [] = none
find_descriptor a (d ∷ ds) =
    if d.address == a
    then some (record { passed = []; here = d; ahead = ds })
    else elim (find_descriptor a ds) [
      | none ↦ none
      | some w ↦ some (record w { passed = d ∷ w.passed })
    ]
