-- ===== src/Interrupt/Apic/Tests.antt =====
-- The table with a local controller that cannot be used.
use garbage_os.Base.{◌∷◌, [], arith}
use garbage_os.Acpi.Tests.{three_structures, three_structures-IsTable}
use garbage_os.Interrupt.Apic.Counted.{FillsCounted, fill_counted_lapics-FillsCounted}
use garbage_os.Interrupt.Apic.Setup.{fill_counted_lapics}

fill_counted_lapics-FillsCounted_example :
    FillsCounted three_structures
      (0x12c ∷ 0x134 ∷ 0x13c ∷ [])
      (fill_counted_lapics three_structures 0x100 72)
fill_counted_lapics-FillsCounted_example =
    fill_counted_lapics-FillsCounted three_structures 0x100 (0x12c ∷ 0x134 ∷ 0x13c ∷ [])
      three_structures-IsTable 72 (omega arith)
