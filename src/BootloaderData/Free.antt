-- ===== src/BootloaderData/Free.antt =====
-- `free_mem_bootloader`: the ranges that the frame allocator starts from.
use mathlib.Core.List.{Perm}
use native.Mathlib.Bridge.{le_prop}
use native.Mathlib.Decide.{dec_lt}
use native.Mathlib.Nat.{ℕ_set, zero-add}
use garbage_os.Base.{
  ℕ, ◌%◌, page_size, ◌+◌, ◌*◌, ◌^◌, ◌≤◌, ◌<◌, ◌≡◌, refl, List, [], ◌∷◌, map, arith, mb, All,
  All-perm, Bool-cases, inl, inr, leb, length, Outcome, ok, panic, free_mem_bootloader_error,
  leb→le, leb_false→lt,
}
use garbage_os.PhysicalMemory.{Range}
use garbage_os.BubbleSort.{bubble_sort}
use garbage_os.BubbleSort.Sorted.{IsSorted, bubble_sort-IsSorted}
use garbage_os.BootloaderData.{
  BootLoaderData, FrameData, align_range, make_free_mem, remove_boot_frames, remove_first_mb,
}
use garbage_os.BootloaderData.Align.{ReachesPage, align_range-AlignsTo}
use garbage_os.BootloaderData.Ram.{free_item_ranges, fill_ranges_lem, IsPageAligned}

-- The bootloader's frames and the first MiB are removed.
abbrev pub remaining : FrameData → Range → Range
remaining d r = remove_first_mb (remove_boot_frames d r)

-- A free range does not overflow, the bootloader's frames are at its front if it took them from it,
-- and what remains of it is nothing or reaches a page boundary.
pub record IsTrimmable (d : FrameData) (r : Range) : Type 0 where
  pub small : r.start_address + r.size < 2 ^ 63
  pub frames_in :
      d.memory_map_item.base_addr ≡ r.start_address
      → (r.start_address ≤ d.first_frame_address)
        × (d.first_frame_address ≤ r.start_address + r.size)
  pub reaches : 0 < (remaining d r).size → ReachesPage (remaining d r)

IsTrimmable-prop : (d : FrameData) (r : Range) → IsProp (IsTrimmable d r)
IsTrimmable-prop d r = hlevel (le_prop, ℕ_set)

-- What may be handed out of a range: the whole pages of the range that lie above the first MiB and behind
-- the frames that the bootloader used, all of them and nothing else.
pub record IsFree (d : FrameData) (r a : Range) : Type 0 where
  pub above_mb : 0 < a.size → 1 * mb ≤ a.start_address
  pub aligned : 0 < a.size → IsPageAligned a
  pub start_in : 0 < a.size → r.start_address ≤ a.start_address
  pub unused :
      0 < a.size
      → d.memory_map_item.base_addr ≡ r.start_address
      → d.first_frame_address ≤ a.start_address
  pub end_in : 0 < a.size → a.start_address + a.size ≤ r.start_address + r.size
  pub small : a.start_address + a.size < 2 ^ 63
  pub all_pages :
      (p : ℕ)
      → p % page_size ≡ 0
      → 1 * mb ≤ p
      → r.start_address ≤ p
      → (d.memory_map_item.base_addr ≡ r.start_address → d.first_frame_address ≤ p)
      → p + page_size ≤ r.start_address + r.size
      → (a.start_address ≤ p) × (p + page_size ≤ a.start_address + a.size)

-- The removals leave nothing, or the end of the range from an address on.
record Trims (d : FrameData) (r a : Range) : Type 0 where
  above_mb : 0 < a.size → 1 * mb ≤ a.start_address
  start_in : 0 < a.size → r.start_address ≤ a.start_address
  unused :
      0 < a.size
      → d.memory_map_item.base_addr ≡ r.start_address
      → d.first_frame_address ≤ a.start_address
  end_in : 0 < a.size → a.start_address + a.size ≡ r.start_address + r.size
  small : a.start_address + a.size < 2 ^ 63
  all_left :
      (x : ℕ)
      → 1 * mb ≤ x
      → r.start_address ≤ x
      → (d.memory_map_item.base_addr ≡ r.start_address → d.first_frame_address ≤ x)
      → x < r.start_address + r.size
      → (a.start_address ≤ x) × (0 < a.size)

remaining-Trims : (d : FrameData) (r : Range) → IsTrimmable d r → Trims d r (remaining d r)
unfolding remove_first_mb remove_boot_frames
remaining-Trims d r t = record {
  above_mb = ground (arith, t.small, t.frames_in);
  start_in = ground (arith, t.small, t.frames_in);
  unused = ground (arith, t.small, t.frames_in);
  end_in = ground (arith, t.small, t.frames_in);
  small = ground (arith, t.small, t.frames_in);
  all_left = λ x high inside behind below. ground (arith, t.small, t.frames_in, behind);
}

align_empty : (a : Range) → a.size ≡ 0 → align_range a ≡ a
unfolding align_range
align_empty a e = rw e refl

Trims-IsFree :
    (d : FrameData) (r a : Range)
    → Trims d r a
    → (0 < a.size → ReachesPage a)
    → IsFree d r (align_range a)
Trims-IsFree d r a t reach = elim (dec_lt 0 a.size) [
  | yes pos ↦
      let s = (align_range-AlignsTo a pos t.small).0 (reach pos) in
      record {
        above_mb = λ _. omega (arith, t.above_mb pos, s.start_le);
        aligned = λ _. (s.start_aligned, s.size_aligned);
        start_in = λ _. omega (arith, t.start_in pos, s.start_le);
        unused = λ _ e. omega (arith, t.unused pos e, s.start_le);
        end_in = λ _. omega (arith, t.end_in pos, s.end_le);
        small = omega (arith, t.small, s.end_le);
        all_pages = λ p whole high inside behind below.
            let (from, some_left) = t.all_left p high inside behind (omega (arith, below)) in
            let end = t.end_in pos in
            (
              omega (arith, from, whole, s.start_near, s.start_aligned),
              omega (arith, below, whole, end, s.end_near, s.start_aligned, s.size_aligned),
            );
      }
  | no none_left ↦ rw (align_empty a (omega arith)) record {
    above_mb = t.above_mb;
    aligned = λ pos. absurd (none_left pos);
    start_in = t.start_in;
    unused = t.unused;
    end_in = λ pos. absurd (none_left pos);
    small = t.small;
    all_pages = λ p whole high inside behind below.
        absurd (none_left (t.all_left p high inside behind (omega (arith, below))).1);
  }
]

-- Each element of the second list is what may be handed out of the one of the first at its place.
abbrev pub AllFree : FrameData → List Range → List Range → Type 0
AllFree d [] [] = Unit {0}
AllFree d [] (a ∷ ts) = ⊥
AllFree d (r ∷ rs) [] = ⊥
AllFree d (r ∷ rs) (a ∷ ts) = IsFree d r a × AllFree d rs ts

map-AllFree :
    (d : FrameData) (rs : List Range)
    → All (IsTrimmable d) rs
    → AllFree d rs (map (λ r. align_range (remaining d r)) rs)
map-AllFree d [] good = tt
map-AllFree d (r ∷ rs) good = (
  Trims-IsFree d r (remaining d r) (remaining-Trims d r good.0) good.0.reaches,
  map-AllFree d rs good.1,
)

abbrev pub FreeMem : FrameData → List Range → Outcome (List Range) → Type 0
FreeMem d frees (panic e) = (e ≡ free_mem_bootloader_error) × (128 < length frees)
FreeMem d frees (ok rs) =
    (sorted : List Range) × Perm frees sorted
    × IsSorted (λ r. r.start_address) sorted
    × AllFree d sorted rs
    × (length frees ≤ 128)

-- For free items that can be trimmed, in the order of their addresses, the function gives the whole pages
-- of each that lie above the first MiB and behind the frames of the bootloader; it panics exactly if
-- there are more than 128 free items. A free item can be trimmed if it ends below 2^63, holds the first
-- free frame if the bootloader took frames from it, and what remains of it is empty or reaches a page.
pub make_free_mem-FreeMem :
    (b : BootLoaderData)
    → All (IsTrimmable b.frame_allocator_data) (free_item_ranges b.map_items)
    → FreeMem b.frame_allocator_data (free_item_ranges b.map_items) (make_free_mem b)
unfolding make_free_mem
make_free_mem-FreeMem b good =
    let d = b.frame_allocator_data in
    let frees = free_item_ranges b.map_items in
    let key = λ (r : Range). r.start_address in
    let (sorted, perm) = bubble_sort-IsSorted key frees in
    let good' = All-perm (IsTrimmable d) (IsTrimmable-prop d) perm good in
    elim (Bool-cases (leb (length frees) 128)) [
      | inl e ↦
          rw (fill_ranges_lem 0 b.map_items (omega arith), zero-add, e)
            (
              bubble_sort key frees,
              perm,
              sorted,
              map-AllFree d (bubble_sort key frees) good',
              leb→le _ _ e,
            )
      | inr e ↦
          rw (fill_ranges_lem 0 b.map_items (omega arith), zero-add, e) (refl, leb_false→lt _ _ e)
    ]
