-- ===== src/BubbleSort.antt =====
-- The bubble sorts of kernel/HAL/bios/bootloader_data.c, over the key by which they compare.
pub mod Sorted
use garbage_os.Base.{ℕ, zero, suc, List, [], ◌∷◌, ltb, if◌then◌else◌, length}

module _ {A : Type 0} (key : A → ℕ) where
  -- The inner loop with `j < k`: neighbours in the wrong order are swapped.
  pub bubble_pass : ℕ → List A → List A
  bubble_pass zero xs = xs
  bubble_pass (suc k) [] = []
  bubble_pass (suc k) (a ∷ []) = a ∷ []
  bubble_pass (suc k) (a ∷ b ∷ xs) =
      if ltb (key b) (key a) then b ∷ bubble_pass k (a ∷ xs) else a ∷ bubble_pass k (b ∷ xs)

  -- The outer loop, with `k` rounds left: the inner loop of this round ends below `k - 1`.
  pub bubble_rounds : ℕ → List A → List A
  unfolding bubble_pass
  bubble_rounds zero xs = xs
  bubble_rounds (suc k) xs = bubble_rounds k (bubble_pass k xs)

  unfoldable pub bubble_sort : List A → List A
  unfolding bubble_rounds
  bubble_sort xs = bubble_rounds (length xs) xs
