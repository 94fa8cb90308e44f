-- ===== src/Base/Store.antt =====
-- Memory as the kernel's C code sees it: 64-bit words at (8-byte aligned) addresses.
use Prim.Native.Nat.{ℕ}
use mathlib.Core.Path.{◌≡◌}
use mathlib.Core.Logic.{◌≢◌}
use native.Mathlib.Omega.{arith}
use garbage_os.Base.Tests.{◌==◌, if◌then◌else◌}

abbrev pub Memory : Type 0
Memory = ℕ → ℕ

-- `*(uint64_t*)a = v`
unfoldable pub store : Memory → ℕ → ℕ → Memory
store m a v b = if b == a then v else m b

pub store_same : (m : Memory) (a v : ℕ) → store m a v a ≡ v
unfolding store
store_same m a v = ground arith

pub store_other : (m : Memory) (a v b : ℕ) → b ≢ a → store m a v b ≡ m b
unfolding store
store_other m a v b h = ground arith
