-- ===== src/Vmm/Manager/Laws.antt =====
-- What the operations do to the address space.
pub mod Identity
pub mod Relink
pub mod Take
pub mod Tests
use garbage_os.Base.{ℕ, ◌≡◌, ◌≢◌, true, [], Option, some}
use garbage_os.Vmm.Descriptors.{VirtualMemoryType}
use garbage_os.Vmm.Layout.{IsLayout, type_at, within}
use garbage_os.Vmm.Manager.{Vmm}

-- A kernel manager with a layout of descriptors.
pub record IsValid (v : Vmm) : Type 0 where
  pub layout : IsLayout 0 v.descriptors
  pub some_descriptor : v.descriptors ≢ []
  pub kernel : v.kernel_mode ≡ true
