-- ===== src/Interrupt/Registers.antt =====
-- The registers of a device in memory, which the code reads and writes by an address or an offset.
use garbage_os.Base.{ℕ}

pub record Registers : Type 1 where
  pub State : Type 0
  pub write_32 : (offset value : ℕ) → State → State
  pub read_32 : (offset : ℕ) → State → ℕ × State
