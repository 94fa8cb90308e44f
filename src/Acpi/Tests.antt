-- ===== src/Acpi/Tests.antt =====
-- Small tables of interrupt controllers.
use garbage_os.Base.{◌≡◌, refl, true, none, [], ◌∷◌, arith, get_or, leb, if◌then◌else◌, ◌-◌, ◌==◌}
use garbage_os.Acpi.{Bytes, count_from}
use garbage_os.Acpi.Walk.{IsTable, count_from-empty}

-- A table at 0x100 with two local controllers, of which the second cannot be used, and one for devices.
abbrev pub three_structures : Bytes
three_structures a =
    if a == 0x104
    then 72
    else if leb 0x12c a
    then get_or (0 ∷ 8 ∷ 0 ∷ 0 ∷ 1 ∷ 0 ∷ 0 ∷ 0 ∷ 0 ∷ 8 ∷ 1 ∷ 1 ∷ 0 ∷ 0 ∷ 0 ∷ 0 ∷ 1 ∷ 12 ∷ [])
        (a - 0x12c) 0
    else 0

pub three_structures-IsTable : IsTable three_structures 0x100 (0x12c ∷ 0x134 ∷ 0x13c ∷ [])
three_structures-IsTable = record {
  not_null = omega arith;
  fits = omega arith;
  chain = omega arith;
}

-- A table of 46 bytes with one structure, of length 0.
abbrev empty_structure : Bytes
empty_structure a = if a == 0x104 then 46 else 0

count_from-empty_example : count_from empty_structure 0x100 (λ h. true) 1000000 0x12c 0 ≡ none
count_from-empty_example =
    count_from-empty empty_structure 0x100 0x12c (omega arith) (omega arith) (omega arith)
      (omega arith) refl (λ h. true) 1000000 0
