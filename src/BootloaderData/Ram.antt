-- ===== src/BootloaderData/Ram.antt =====
-- `get_ram_space`: which items become ranges, and what the ranges are like.
use mathlib.Core.List.{Perm}
use native.Mathlib.Bridge.{le_prop}
use native.Mathlib.Nat.{ℕ_set, zero-add}
use garbage_os.Base.{
  ℕ, ◌+◌, ◌%◌, ◌^◌, ◌≤◌, ◌<◌, ◌≡◌, refl, List, [], ◌∷◌, map, arith, page_size, All, All-map,
  All-mono, All-perm, Bool-cases, inl, inr, leb, if◌then◌else◌, length, Outcome, ok, panic,
  free_mem_bootloader_error, Option, none, leb→le, leb_false→lt,
}
use garbage_os.PhysicalMemory.{Range}
use garbage_os.BubbleSort.{bubble_sort}
use garbage_os.BubbleSort.Sorted.{IsSorted, bubble_sort-IsSorted}
use garbage_os.BootloaderData.{
  MemoryMapItem, BootLoaderData, is_free_item, fill_ranges, align_range, make_ram_space,
  get_ram_space,
}
use garbage_os.BootloaderData.Align.{ReachesPage, align_range-AlignsTo}

-- The ranges of the free items, in order.
unfoldable pub free_item_ranges : List MemoryMapItem → List Range
free_item_ranges [] = []
free_item_ranges (i ∷ is) =
    if is_free_item i
    then record { start_address = i.base_addr; size = i.size } ∷ free_item_ranges is
    else free_item_ranges is

-- The loop gives exactly those, and panics exactly if there are more than fit.
pub fill_ranges_lem :
    (n : ℕ) (is : List MemoryMapItem)
    → n ≤ 128
    → fill_ranges n is ≡ (
        if leb (n + length (free_item_ranges is)) 128
        then ok (free_item_ranges is)
        else panic free_mem_bootloader_error)
unfolding fill_ranges free_item_ranges
fill_ranges_lem n [] h = ground arith
fill_ranges_lem n (i ∷ is) h = ground (arith, fill_ranges_lem n is h, fill_ranges_lem (n + 1) is)

-- A range that the alignment can deal with: not empty, without overflow, and reaching a page.
pub record IsAlignable (r : Range) : Type 0 where
  pub not_empty : 0 < r.size
  pub small : r.start_address + r.size < 2 ^ 63
  pub reaches : ReachesPage r

IsAlignable-prop : (r : Range) → IsProp (IsAlignable r)
IsAlignable-prop r = hlevel (le_prop, ℕ_set)

align_mono :
    {r s : Range}
    → IsAlignable r
    → IsAlignable s
    → r.start_address ≤ s.start_address
    → (align_range r).start_address ≤ (align_range s).start_address
align_mono {r} {s} g h le =
    let a = (align_range-AlignsTo r g.not_empty g.small).0 g.reaches in
    let b = (align_range-AlignsTo s h.not_empty h.small).0 h.reaches in
    omega (arith, a.start_aligned, b.start_aligned, a.start_near, b.start_le)

abbrev pub IsPageAligned : Range → Type 0
IsPageAligned r = (r.start_address % page_size ≡ 0) × (r.size % page_size ≡ 0)

map_align-IsSorted :
    (rs : List Range)
    → All IsAlignable rs
    → IsSorted (λ r. r.start_address) rs
    → IsSorted (λ r. r.start_address) (map align_range rs)
map_align-IsSorted [] good sorted = tt
map_align-IsSorted (r ∷ rs) good sorted =
    (above rs good.1 sorted.0, map_align-IsSorted rs good.1 sorted.1)
  where
    above :
        (ss : List Range)
        → All IsAlignable ss
        → All (λ s. r.start_address ≤ s.start_address) ss
        → All (λ s. (align_range r).start_address ≤ s.start_address) (map align_range ss)
    above [] g h = tt
    above (s ∷ ss) g h = (align_mono good.0 g.0 h.0, above ss g.1 h.1)

map_align-IsPageAligned :
    (rs : List Range) → All IsAlignable rs → All IsPageAligned (map align_range rs)
map_align-IsPageAligned rs good = All-map IsPageAligned align_range rs (
    All-mono IsAlignable (λ r. IsPageAligned (align_range r)) rs
      (λ r g.
        let a = (align_range-AlignsTo r g.not_empty g.small).0 g.reaches in
        (a.start_aligned, a.size_aligned))
      good)

-- What a call with an empty buffer gives: ranges sorted by their start and aligned to pages, one for
-- each free item, or a panic if there are more than 128 free items. A call with the buffer that it leaves
-- gives the same ranges again and leaves the buffer.
abbrev pub RamSpace :
    BootLoaderData → List Range → Outcome (List Range × Option (List Range)) → Type 0
RamSpace b frees (panic e) = (e ≡ free_mem_bootloader_error) × (128 < length frees)
RamSpace b frees (ok (rs, buffer)) =
    (get_ram_space b buffer ≡ ok (rs, buffer))
    × IsSorted (λ r. r.start_address) rs
    × All IsPageAligned rs
    × ((sorted : List Range) × Perm frees sorted × (rs ≡ map align_range sorted))
    × (length frees ≤ 128)

-- For free items that are not empty, end below 2^63 and reach a page, the first call gives the aligned
-- ranges of the free items sorted by their starts, and the second call gives the same again; the first
-- call panics if there are more than 128 free items.
pub get_ram_space-RamSpace :
    (b : BootLoaderData)
    → All IsAlignable (free_item_ranges b.map_items)
    → RamSpace b (free_item_ranges b.map_items) (get_ram_space b none)
unfolding get_ram_space make_ram_space
get_ram_space-RamSpace b good =
    let frees = free_item_ranges b.map_items in
    let key = λ (r : Range). r.start_address in
    let (sorted, perm) = bubble_sort-IsSorted key frees in
    let good' = All-perm IsAlignable IsAlignable-prop perm good in
    elim (Bool-cases (leb (length frees) 128)) [
      | inl e ↦
          rw (fill_ranges_lem 0 b.map_items (omega arith), zero-add, e)
            (
              refl,
              map_align-IsSorted (bubble_sort key frees) good' sorted,
              map_align-IsPageAligned (bubble_sort key frees) good',
              (bubble_sort key frees, perm, refl),
              leb→le _ _ e,
            )
      | inr e ↦
          rw (fill_ranges_lem 0 b.map_items (omega arith), zero-add, e) (refl, leb_false→lt _ _ e)
    ]
