-- ===== src/PageTables/Tests.antt =====
-- Runs of the page tables, and their theorems at concrete structures.
use mathlib.Core.List.{Pairwise, Mem, Nodup}
use garbage_os.Base.{
  ℕ, ◌+◌, ◌≡◌, ◌≢◌, refl, sym, subst, true, false, inl, inr, Bool-cases, Option, none, some, List,
  [], ◌∷◌, All, All-mem, arith, if◌then◌else◌, ◌==◌, ==→eq, Outcome, ok, panic, Memory, store,
}
use garbage_os.FrameAllocator.{FrameAllocator, alloc_frame, count_frames}
use garbage_os.FrameAllocator.Bag.{IsValid, free_list, stack_items, range_frames}
use garbage_os.PageTables.{
  canonical, get_physical_address, map_state, paging_map, invalidate_paging_mapping, descend,
  unsync_get_page_table_entry, clear_frame, PagingMapState, get_paging_mem_overhead,
  count_map_tables_frames, sum_present,
}
use garbage_os.PageTables.Frames.{
  IsFrameSource, IsTableFrame, frame_supply, frame_supply-IsGood, frame_supply-IsFree,
}
use garbage_os.PageTables.Space.{IsSpace}
use garbage_os.PageTables.Mapping.{
  Remaps, invalidated, paging_map-Remaps, invalidate_paging_mapping-Remaps,
}

-- The frames one after the other.
abbrev next_frame : ℕ → Outcome (ℕ × ℕ)
next_frame next = ok (next, next + 0x1000)

-- A structure with an empty root at 0x1000.
abbrev pub empty_memory : Memory
empty_memory a = 0

abbrev mapped : Outcome (Memory × ℕ)
mapped = paging_map next_frame 0x1000 0xffff800000003000 0x7000 2 empty_memory 0x2000

abbrev translate : Outcome (Memory × ℕ) → ℕ → PagingMapState
translate (ok (m, s)) a = get_physical_address m 0x1000 a
translate (panic e) a = map_state 1

abbrev overhead : Outcome (Memory × ℕ) → ℕ
overhead (ok (m, s)) = get_paging_mem_overhead m 0x1000
overhead (panic e) = 0

-- The mapping takes three frames for tables; the last is counted with them, and the page's own is not.
translations :
    (translate mapped 0xffff800000003000
      ≡ record { paddr = 0x7000; flags = 3; mmap_present = true })
    × (translate mapped 0xffff800000004000 ≡ record { paddr = 0; flags = 0; mmap_present = false })
    × (overhead mapped ≡ 0x4000)
unfolding paging_map unsync_get_page_table_entry descend clear_frame get_physical_address map_state
    canonical get_paging_mem_overhead count_map_tables_frames sum_present store
translations = (refl, refl, refl)

-- Four free pages from 0x2000 on.
abbrev pub four_pages : FrameAllocator
four_pages = record {
  is_initialized = true;
  free_ranges = record { start_address = 0x2000; size = 0x4000 } ∷ [];
  frame_stack = record { base = 0x8000; top = 0x8000; max_size_bytes = 0x20 };
  cached_memory_range_index = 0;
  free_frames = 4;
  memory = λ a. 0;
}

four_pages-IsValid : IsValid four_pages
unfolding count_frames
four_pages-IsValid = omega arith

free_list-four_pages : free_list four_pages ≡ 0x2000 ∷ 0x3000 ∷ 0x4000 ∷ 0x5000 ∷ []
unfolding stack_items range_frames
free_list-four_pages = refl

distinct : (x : ℕ) (l : List ℕ) → All (λ y. x ≢ y) l → Nodup l → Nodup (x ∷ l)
distinct x l h rest = Pairwise.cons (λ y m. All-mem (λ z. x ≢ z) (λ z. hlevel) l h m) rest

four_pages-IsFrameSource : IsFrameSource four_pages
four_pages-IsFrameSource = record {
  valid = four_pages-IsValid;
  once = subst Nodup (sym free_list-four_pages) (
      distinct _ _ (omega arith)
        (distinct _ _ (omega arith) (distinct _ _ (omega arith) (distinct _ _ tt Pairwise.nil))));
  frames = subst (All IsTableFrame) (sym free_list-four_pages) (omega arith);
}

abbrev pub only_root : ℕ → Option (List ℕ)
only_root t = if t == 0x1000 then some [] else none

only_root_at : (t : ℕ) (p : List ℕ) → only_root t ≡ some p → t ≡ 0x1000
only_root_at t p e = elim (Bool-cases (t == 0x1000)) [
  | inl same ↦ ==→eq t 0x1000 same
  | inr other ↦ absurd cc
]

root_not_free : ¬ Mem 0x1000 (free_list four_pages)
root_not_free m =
    All-mem (λ z. z ≢ 0x1000) (λ z. hlevel) (free_list four_pages)
      (subst (All (λ z. z ≢ 0x1000)) (sym free_list-four_pages) (omega arith)) m refl

pub empty-IsSpace :
    IsSpace (alloc_frame true) (frame_supply true) empty_memory 0x1000 four_pages only_root
empty-IsSpace = record {
  tree = record {
    root_owned = refl;
    whole = λ t p e. let at_root = only_root_at t p e in omega (arith, at_root);
    child = λ t p i e len hi pres. absurd cc;
  };
  good = frame_supply-IsGood true four_pages four_pages-IsFrameSource;
  outside = λ t p e m. root_not_free (
      subst (λ x. Mem x (free_list four_pages)) (only_root_at t p e)
        (frame_supply-IsFree true four_pages t m));
}

paging_map-Remaps_example :
    Remaps
      (alloc_frame true)
      (frame_supply true)
      empty_memory
      0x1000
      0xffff800000003000
      four_pages
      only_root
      (record { paddr = 0x7000; flags = 3; mmap_present = true })
      (paging_map (alloc_frame true) 0x1000 0xffff800000003000 0x7000 2 empty_memory four_pages)
unfolding canonical
paging_map-Remaps_example =
    paging_map-Remaps (alloc_frame true) (frame_supply true) empty_memory 0x1000 0xffff800000003000
      four_pages only_root empty-IsSpace 0x7000 2

invalidate_paging_mapping-Remaps_example :
    Remaps
      (alloc_frame true)
      (frame_supply true)
      empty_memory
      0x1000
      0x5000
      four_pages
      only_root
      (invalidated (get_physical_address empty_memory 0x1000 0x5000))
      (invalidate_paging_mapping (alloc_frame true) 0x1000 0x5000 empty_memory four_pages)
invalidate_paging_mapping-Remaps_example =
    invalidate_paging_mapping-Remaps (alloc_frame true) (frame_supply true) empty_memory 0x1000
      0x5000 four_pages only_root empty-IsSpace
