-- ===== src/PageTables.antt =====
-- kernel/HAL/x86-64/x64-memory.c: the four levels of page tables in memory, words of eight bytes. The
-- structure with the root's address and its lock is left out: the functions take the root. A table
-- lies below 2 ^ 48, as the mask on entries says, so that no entry's address wraps.
pub mod Tree
pub mod Frames
pub mod Space
pub mod Descend
pub mod Walks
pub mod Written
pub mod Mapping
pub mod Tests
use Prim.Native.Nat.{bit_or}
use garbage_os.Base.{
  ℕ, zero, suc, ◌+◌, ◌-◌, ◌*◌, ◌/◌, ◌%◌, ◌^◌, Bool, true, false, ◌&&◌, not, List, [], ◌∷◌, ltb, leb,
  ◌==◌, ◌!=◌, if◌then◌else◌, add64, page_size, Outcome, ok, ◌>>=◌, ◌>>◌, Memory, store,
}

-- `entry & PAGE_PRESENT`
abbrev pub is_present : ℕ → Bool
is_present entry = entry % 2 == 1

-- `entry & 0x0000fffffffff000`
abbrev pub frame_of : ℕ → ℕ
frame_of entry = entry / 2 ^ 12 % 2 ^ 36 * 2 ^ 12

-- The address of an entry.
abbrev pub entry_at : (table index : ℕ) → ℕ
entry_at table index = table + 8 * index

-- `memset(frame, 0, PAGE_SIZE)`
unfoldable pub clear_frame : Memory → (frame : ℕ) → Memory
clear_frame m frame a = if leb frame a && ltb a (frame + page_size) then 0 else m a

-- `PagingMapState`
pub record PagingMapState : Type 0 where
  pub paddr : ℕ
  pub flags : ℕ
  pub mmap_present : Bool

abbrev pub mmap_not_present : PagingMapState
mmap_not_present = record { paddr = 0; flags = 0; mmap_present = false }

-- The indices of an address in the tables of the four levels, 9 bits each.
abbrev pub pml4_index : ℕ → ℕ
pml4_index vaddr = vaddr / 2 ^ 39 % 2 ^ 9

abbrev pub pdpt_index : ℕ → ℕ
pdpt_index vaddr = vaddr / 2 ^ 30 % 2 ^ 9

abbrev pub pdt_index : ℕ → ℕ
pdt_index vaddr = vaddr / 2 ^ 21 % 2 ^ 9

abbrev pub pt_index : ℕ → ℕ
pt_index vaddr = vaddr / 2 ^ 12 % 2 ^ 9

-- The physical address of an entry: if its highest bit is set, the bits above are set as well.
unfoldable pub canonical : ℕ → ℕ
canonical paddr = if paddr / 2 ^ 47 % 2 == 1 then paddr % 2 ^ 48 + 0xffff000000000000 else paddr

-- What the last part of `get_physical_address` says of an entry of the lowest level.
unfoldable pub map_state : (entry : ℕ) → PagingMapState
map_state entry = record {
  paddr = canonical (frame_of entry);
  flags = entry % 2 ^ 12;
  mmap_present = is_present entry;
}

unfoldable pub get_physical_address : Memory → (root vaddr : ℕ) → PagingMapState
get_physical_address m root vaddr =
    let pml4_entry = m (entry_at root (pml4_index vaddr)) in
    if not (is_present pml4_entry)
    then mmap_not_present
    else let pdpt_entry = m (entry_at (frame_of pml4_entry) (pdpt_index vaddr)) in
      if not (is_present pdpt_entry)
      then mmap_not_present
      else let pdt_entry = m (entry_at (frame_of pdpt_entry) (pdt_index vaddr)) in
        if not (is_present pdt_entry)
        then mmap_not_present
        else map_state (m (entry_at (frame_of pdt_entry) (pt_index vaddr)))

-- `(flags | PAGE_PRESENT) & 0xfff`, for a 16-bit number
abbrev pub page_flags : ℕ → ℕ
page_flags flags = (flags / 2 * 2 + 1) % 2 ^ 12

-- `*table_entry = paddr | flags` in `paging_map`
abbrev pub new_entry : (paddr flags : ℕ) → ℕ
new_entry paddr flags = frame_of paddr + page_flags flags

-- `entry & ~PAGE_PRESENT`
abbrev pub clear_present : ℕ → ℕ
clear_present entry = entry / 2 * 2

module _ {ℓ} {S : Type ℓ} (alloc_frame : S → Outcome (ℕ × S)) where
  -- One level of the walk: the table that an entry points to, made if the entry is not present.
  unfoldable pub descend : (table index : ℕ) → Memory → S → Outcome (ℕ × Memory × S)
  descend table index m s =
      if not (is_present (m (entry_at table index)))
      then (do
        (frame, s') ← alloc_frame s
        let new_frame = frame_of frame
        let m₁ = clear_frame m new_frame
        let m₂ = store m₁ (entry_at table index) (new_frame + 3)
        ok (frame_of (m₂ (entry_at table index)), m₂, s'))
      else ok (frame_of (m (entry_at table index)), m, s)

  -- The address of the entry of the lowest level for an address.
  unfoldable pub unsync_get_page_table_entry :
      (root vaddr : ℕ) → Memory → S → Outcome (ℕ × Memory × S)
  unsync_get_page_table_entry root vaddr m s = do
    (pdpt, m₁, s₁) ← descend root (pml4_index vaddr) m s
    (pdt, m₂, s₂) ← descend pdpt (pdpt_index vaddr) m₁ s₁
    (pt, m₃, s₃) ← descend pdt (pdt_index vaddr) m₂ s₂
    ok (entry_at pt (pt_index vaddr), m₃, s₃)

  -- The cached translation of the address is dropped as well.
  unfoldable pub paging_map : (root vaddr paddr flags : ℕ) → Memory → S → Outcome (Memory × S)
  paging_map root vaddr paddr flags m s = do
    (entry, m', s') ← unsync_get_page_table_entry root vaddr m s
    ok (store m' entry (new_entry paddr flags), s')

  unfoldable pub invalidate_paging_mapping : (root vaddr : ℕ) → Memory → S → Outcome (Memory × S)
  invalidate_paging_mapping root vaddr m s = do
    (entry, m', s') ← unsync_get_page_table_entry root vaddr m s
    ok (store m' entry (clear_present (m' entry)), s')

  -- The entry that a copy writes: that of the source, with new flags if there are any.
  abbrev pub copied_entry : (entry new_flags : ℕ) → ℕ
  copied_entry entry new_flags = if new_flags == 0 then entry else bit_or (frame_of entry) new_flags

  -- `copy_paging_structure_mapping_no_page_invalidation`, for `n` pages
  unfoldable pub copy_mapping : (n src dst vaddr new_flags : ℕ) → Memory → S → Outcome (Memory × S)
  copy_mapping zero src dst vaddr new_flags m s = ok (m, s)
  copy_mapping (suc n) src dst vaddr new_flags m s = do
    (src_entry, m₁, s₁) ← unsync_get_page_table_entry src vaddr m s
    (dst_entry, m₂, s₂) ← unsync_get_page_table_entry dst vaddr m₁ s₁
    let m₃ = store m₂ dst_entry (copied_entry (m₂ src_entry) new_flags)
    copy_mapping n src dst (add64 vaddr page_size) new_flags m₃ s₂

  -- The loop of `create_empty_kernel_paging_structure` from entry `i` on, for `n` entries.
  unfoldable pub fill_root : (n i root : ℕ) → Memory → S → Outcome (Memory × S)
  fill_root zero i root m s = ok (m, s)
  fill_root (suc n) i root m s = do
    (frame, s') ← alloc_frame s
    let new_frame = frame_of frame
    fill_root n (suc i) root (store (clear_frame m new_frame) (entry_at root i) (new_frame + 3)) s'

  -- The root of a new structure. A last frame is for the structure that holds the root and its lock.
  unfoldable pub create_empty_kernel_paging_structure : Memory → S → Outcome (ℕ × Memory × S)
  create_empty_kernel_paging_structure m s = do
    (root, s₁) ← alloc_frame s
    (m₂, s₂) ← fill_root 512 0 root (clear_frame m root) s₁
    (holder, s₃) ← alloc_frame s₂
    ok (root, m₂, s₃)

-- The sum of `f` over the tables that the `n` entries from `i` on point to.
unfoldable pub sum_present : (f : ℕ → ℕ) → Memory → (table n i : ℕ) → ℕ
sum_present f m table zero i = 0
sum_present f m table (suc n) i =
    let rest = sum_present f m table n (suc i) in
    let entry = m (entry_at table i) in if is_present entry then f (frame_of entry) + rest else rest

-- The tables of the lowest level are counted but not looked into.
unfoldable pub count_map_tables_frames : Memory → (level table : ℕ) → ℕ
count_map_tables_frames m zero table = 0
count_map_tables_frames m (suc zero) table = 1
count_map_tables_frames m (suc (suc level)) table =
    sum_present (λ t. count_map_tables_frames m (suc level) t) m table 512 0 + 1

unfoldable pub get_paging_mem_overhead : Memory → (root : ℕ) → ℕ
get_paging_mem_overhead m root = count_map_tables_frames m 4 root * page_size
