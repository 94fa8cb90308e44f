-- ===== src/Base.antt =====
-- The names and small definitions that every module shares: the library's names, passed on, Boolean
-- tests, lists over the native numbers, 64-bit arithmetic, and panics (kernel/kdefs.h, kernel/hal.h).
pub mod Tests
pub mod Lists
pub mod Words
pub mod Panic
pub mod Store
pub mod Bits
pub use Tests.*
pub use Lists.*
pub use Words.*
pub use Panic.*
unfoldable pub use Store.*
unfoldable pub use Bits.*
pub use Prim.Native.Nat.{ℕ, zero, suc, ◌+◌, ◌-◌, ◌*◌, ◌/◌, ◌%◌, ◌^◌, ◌≤◌, ◌<◌, min}
pub use mathlib.Core.Path.{◌≡◌, refl, sym, ap, ◌∙◌, subst, fun_ext}
pub use mathlib.Core.Logic.{◌≢◌, ◌↔◌, ◌⊎◌, inl, inr}
pub use mathlib.Core.Bool.{Bool, true, false, ◌&&◌, ◌||◌, not}
pub use mathlib.Core.Option.{Option, none, some}
pub use mathlib.Core.List.{List, [], ◌∷◌, ◌++◌, map}
pub use native.Mathlib.Omega.{arith}
