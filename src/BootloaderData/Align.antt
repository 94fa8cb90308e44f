-- ===== src/BootloaderData/Align.antt =====
-- The alignment of a range to pages.
use garbage_os.Base.{◌+◌, ◌%◌, ◌^◌, ◌≤◌, ◌<◌, ◌≡◌, ◌≢◌, arith, page_size}
use garbage_os.PhysicalMemory.{Range}
use garbage_os.BootloaderData.{align_range}

-- The bytes from the start of the range to the next page boundary lie in the range.
abbrev pub ReachesPage : Range → Type 0
ReachesPage r = r.start_address % page_size ≢ 0 → page_size ≤ r.size + r.start_address % page_size

-- Both ends are page boundaries in the range, and less than a page is lost at each end.
pub record AlignsTo (r a : Range) : Type 0 where
  pub start_aligned : a.start_address % page_size ≡ 0
  pub size_aligned : a.size % page_size ≡ 0
  pub start_le : r.start_address ≤ a.start_address
  pub start_near : a.start_address < r.start_address + page_size
  pub end_le : a.start_address + a.size ≤ r.start_address + r.size
  pub end_near : r.start_address + r.size < a.start_address + a.size + page_size

-- A range that is not empty and reaches a page boundary is aligned to the page boundaries in it. A
-- range that ends before the next page boundary is not emptied: its size wraps round.
pub align_range-AlignsTo :
    (r : Range)
    → 0 < r.size
    → r.start_address + r.size < 2 ^ 63
    → (ReachesPage r → AlignsTo r (align_range r))
      × (r.start_address % page_size ≢ 0
          → r.size + r.start_address % page_size < page_size
          → 2 ^ 63 < (align_range r).size)
unfolding align_range
align_range-AlignsTo r pos small = (λ reach. ground arith, λ odd short. ground arith)
