-- ===== src/FrameAllocator/Bag/Stack.antt =====
-- The frames on the stack of freed frames.
use garbage_os.Base.{
  ℕ, zero, suc, ◌-◌, ◌*◌, ◌≤◌, ◌≡◌, refl, List, [], ◌∷◌, arith, Memory, store, store_other,
}
use mathlib.Core.Path.{ap₂}

-- The `n` words below `top`, from the top down.
unfoldable pub stack_items : Memory → ℕ → ℕ → List ℕ
stack_items m top zero = []
stack_items m top (suc n) = m (top - 8) ∷ stack_items m (top - 8) n

-- A word stored at or above the top is not on the stack.
pub stack_items-store :
    (m : Memory) (a v top n : ℕ)
    → n * 8 ≤ top
    → top ≤ a
    → stack_items (store m a v) top n ≡ stack_items m top n
unfolding stack_items
stack_items-store m a v top zero h k = refl
stack_items-store m a v top (suc n) h k =
    ap₂ ◌∷◌ (store_other m a v (top - 8) (omega arith))
      (stack_items-store m a v (top - 8) n (omega arith) (omega arith))
