-- ===== src/Interrupt/Apic.antt =====
-- kernel/interrupt/apic.c: the data of the local controllers, filled from the table of the firmware. A
-- structure of the table is its address, and 0 is the null pointer. A pointer to the data of a
-- controller is its index with the data there.
pub mod Fill
pub mod Nmi
pub mod Counted
pub mod Setup
mod Tests
use garbage_os.Base.{
  ℕ, zero, suc, ◌+◌, ◌*◌, ◌/◌, ◌%◌, ◌^◌, Bool, true, false, not, ◌&&◌, Option, none, some, List, [],
  ◌∷◌, map, length, set, get_or, ltb, ◌==◌, ◌!=◌, if◌then◌else◌, add64, null, Outcome, ok, panic,
  ◌>>=◌, ◌>>◌, kassert, failed_assert,
}
use garbage_os.Acpi.{Bytes, read32, read64}
use garbage_os.Acpi.Loop.{Round, continue, break, for_each_ics}
use garbage_os.Vmm.Manager.{Handle}

-- `LocalAPIC`
pub record LocalApic : Type 0 where
  pub apic_id : ℕ
  pub ics_lapic : ℕ
  pub ics_lapic_nmi : ℕ
  pub enabled : Bool

-- A controller as `memset` leaves it.
abbrev pub no_lapic : LocalApic
no_lapic = record { apic_id = 0; ics_lapic = null; ics_lapic_nmi = null; enabled = false }

-- `LAPICSubsystemData`; the array is none for a null pointer, and its size is that of the list.
pub record LapicSubsystemData : Type 0 where
  pub lapic_array : Option (List LocalApic)
  pub lapic_base_address : ℕ
  pub register_space_mapping : Handle

-- The first controller with the identifier, from index `i` on.
unfoldable pub find_lapic : (apic_id : ℕ) (lapics : List LocalApic) (i : ℕ) → Option (ℕ × LocalApic)
find_lapic apic_id [] i = none
find_lapic apic_id (l ∷ lapics) i =
    let rest = find_lapic apic_id lapics (suc i) in
    if l.apic_id == apic_id then some (i, l) else rest

unfoldable pub get_lapic_from_id :
    LapicSubsystemData → (apic_id : ℕ) → Outcome (Option (ℕ × LocalApic))
get_lapic_from_id d apic_id = elim d.lapic_array [
  | none ↦ panic failed_assert
  | some lapics ↦ ok (find_lapic apic_id lapics 0)
]

-- The loop over the buffer, of which the rest stays as it is.
abbrev pub write_ids : List LocalApic → (buffer : List ℕ) → List ℕ
write_ids [] buffer = buffer
write_ids (l ∷ lapics) [] = []
write_ids (l ∷ lapics) (b ∷ buffer) = l.apic_id ∷ write_ids lapics buffer

-- None for the result -1.
unfoldable pub get_lapic_id_array :
    (lapics : List LocalApic) (buffer : List ℕ) (buffer_size : ℕ) → Option (List ℕ)
get_lapic_id_array lapics buffer buffer_size =
    if ltb buffer_size (length lapics) then none else some (write_ids lapics buffer)

-- `get_lapic_from_processor_uid` after its first assertion; the identifier of the processor is the
-- third byte of a structure.
unfoldable pub get_lapic_from_processor_uid :
    Bytes → (lapics : List LocalApic) (processor_uid i : ℕ) → Outcome (Option (ℕ × LocalApic))
get_lapic_from_processor_uid bytes [] processor_uid i = ok none
get_lapic_from_processor_uid bytes (l ∷ lapics) processor_uid i =
    let rest = get_lapic_from_processor_uid bytes lapics processor_uid (suc i) in
    kassert (l.ics_lapic != null)
    >> (if bytes (l.ics_lapic + 2) == processor_uid then ok (some (i, l)) else rest)

-- The round for one structure: a local controller, type 0, takes the next place of the array.
unfoldable pub fill_lapic :
    Bytes → (header : ℕ) → List LocalApic × ℕ → Outcome (Round (List LocalApic × ℕ))
fill_lapic bytes header (lapics, index) =
    if bytes header == 0
    then (do
      kassert (ltb index (length lapics))
      let old = get_or lapics index no_lapic
      ok (
          continue (
            set lapics index (record {
              apic_id = bytes (header + 3);
              ics_lapic = header;
              ics_lapic_nmi = old.ics_lapic_nmi;
              enabled = old.enabled;
            }),
            index + 1,
          )))
    else ok (continue (lapics, index))

abbrev pub with_nmi : (header : ℕ) → LocalApic → LocalApic
with_nmi header l = record {
  apic_id = l.apic_id;
  ics_lapic = l.ics_lapic;
  ics_lapic_nmi = header;
  enabled = l.enabled;
}

abbrev pub nmi_of_found :
    (header : ℕ) → List LocalApic → Option (ℕ × LocalApic) → Outcome (List LocalApic)
nmi_of_found header lapics none = panic failed_assert
nmi_of_found header lapics (some (i, l)) = ok (set lapics i (with_nmi header l))

-- The round for one structure of type 4, for all controllers or for that of one processor.
unfoldable pub fill_ics_nmi :
    Bytes → (header : ℕ) → List LocalApic → Outcome (Round (List LocalApic))
fill_ics_nmi bytes header lapics =
    if bytes header != 4
    then ok (continue lapics)
    else if bytes (header + 2) == 0xff
    then ok (break (map (with_nmi header) lapics))
    else (do
      found ← get_lapic_from_processor_uid bytes lapics (bytes (header + 2)) 0
      lapics' ← nmi_of_found header lapics found
      ok (continue lapics'))

-- The second loop, after the first one has filled the array to its end.
abbrev pub fill_all_nmi :
    Bytes → (madt fuel : ℕ) → Option (List LocalApic × ℕ) → Outcome (Option (List LocalApic))
fill_all_nmi bytes madt fuel none = ok none
fill_all_nmi bytes madt fuel (some (lapics, index)) = do
  kassert (index == length lapics)
  for_each_ics (fill_ics_nmi bytes) bytes madt fuel lapics

-- None if a loop has not ended after `fuel` rounds.
unfoldable pub fill_apic_array :
    Bytes → (madt fuel : ℕ) → List LocalApic → Outcome (Option (List LocalApic))
fill_apic_array bytes madt fuel lapics = do
  kassert (madt != null)
  filled ← for_each_ics (fill_lapic bytes) bytes madt fuel (lapics, 0)
  fill_all_nmi bytes madt fuel filled

-- The address at offset 36 of the table, or that of the last structure of type 5.
unfoldable pub get_lapic_base_address_from_madt : Bytes → (madt fuel : ℕ) → Outcome (Option ℕ)
get_lapic_base_address_from_madt bytes madt fuel =
    for_each_ics
      (λ header base. ok (continue (if bytes header == 5 then read64 bytes (header + 4) else base)))
      bytes madt fuel (read32 bytes (madt + 36))
