-- ===== src/Base/Words.antt =====
-- 64-bit unsigned arithmetic (uint64_t, size_t and pointers), with its wrap-around, and the
-- constants of kernel/kdefs.h and kernel/HAL/x86-64/memory_defs.h.
use Prim.Native.Nat.{ℕ, ◌+◌, ◌-◌, ◌*◌, ◌%◌, ◌^◌, ◌<◌, ◌≤◌}
use mathlib.Core.Path.{◌≡◌}
use native.Mathlib.Omega.{arith}

abbrev pub add64 : ℕ → ℕ → ℕ
add64 a b = (a + b) % 2 ^ 64

-- `b` is a 64-bit value. `-` on ℕ stops at 0, so the modulus is added first.
abbrev pub sub64 : ℕ → ℕ → ℕ
sub64 a b = (a + 2 ^ 64 - b) % 2 ^ 64

abbrev pub mul64 : ℕ → ℕ → ℕ
mul64 a b = (a * b) % 2 ^ 64

abbrev pub null : ℕ
null = 0

abbrev pub page_size : ℕ
page_size = 4096

abbrev pub kb : ℕ
kb = 1024

abbrev pub mb : ℕ
mb = 1024 * 1024

abbrev pub gb : ℕ
gb = 1024 * 1024 * 1024

pub add64-eq : (a b : ℕ) → a + b < 2 ^ 64 → add64 a b ≡ a + b
add64-eq a b h = omega arith

pub sub64-eq : (a b : ℕ) → b ≤ a → a < 2 ^ 64 → sub64 a b ≡ a - b
sub64-eq a b h k = omega arith
