-- ===== src/PhysicalMemory.antt =====
-- Physical memory ranges (kernel/hal.h) and the memory that the bootloader maps one to one
-- (`get_bootstage_indentity_mapped_RAM` of kernel/HAL/bios/bootloader_data.c).
use garbage_os.Base.{ℕ, ◌*◌, gb}

-- `struct PhysicalMemoryRange`
pub record Range : Type 0 where
  pub start_address : ℕ
  pub size : ℕ

unfoldable pub get_bootstage_identity_mapped_ram : Range
get_bootstage_identity_mapped_ram = record { start_address = 0; size = 1 * gb }
