-- ===== src/Interrupt/Ioapic.antt =====
-- kernel/interrupt/ioapic.c: the controllers of the devices' interrupts. A controller is reached through
-- two places in memory: the byte at its address selects a register, and the word 0x10 behind it is that
-- register. The lock is held for each operation.
pub mod Entry
pub mod Search
pub mod Setup
pub mod Redirect
mod Tests
use garbage_os.Base.{
  ℕ, zero, suc, ◌+◌, ◌-◌, ◌*◌, ◌/◌, ◌%◌, ◌^◌, Bool, true, false, not, ◌&&◌, Option, none, some,
  List, [], ◌∷◌, length, set, ltb, leb, ◌==◌, ◌!=◌, if◌then◌else◌, add64, sub64, null, page_size,
  Outcome, ok, panic, ◌>>=◌, ◌>>◌, kassert, failed_assert, or64,
}
use garbage_os.Acpi.{Bytes, AcpiState, read32, get_madt, count_ics_header_instances}
use garbage_os.Acpi.Loop.{Round, continue, for_each_ics}
use garbage_os.Interrupt.Apic.Setup.{◌>>?◌, register_flags}
use garbage_os.Interrupt.LocalApic.{from_bool}
use garbage_os.Interrupt.Registers.{Registers}
use garbage_os.Vmm.Manager.{Handle}

-- `IOAPIC`; `base` is the virtual address that `ioapic_mmap` gives.
pub record Ioapic : Type 0 where
  pub ics_ioapic : ℕ
  pub physical_base_address : ℕ
  pub base : ℕ
  pub ioapic_id : ℕ
  pub version : ℕ
  pub maximum_redirection_entry : ℕ

-- `IOAPICSubsystemData`; an array is none for a null pointer.
pub record IoapicSubsystemData : Type 0 where
  pub ioapic_array : List Ioapic
  pub source_override_array : Option (List ℕ)

-- `IOAPICInterruptRedirection`
pub record Redirection : Type 0 where
  pub reidirect_to_lowest_priority : Bool
  pub apic_id_to_redirect : ℕ
  pub trigger_mode : ℕ
  pub polarity : ℕ
  pub mask : Bool
  pub vector : ℕ

-- `ISA_irq_fix`
pub record IsaIrqFix : Type 0 where
  pub irq_override : Bool
  pub polarity_override : Bool
  pub trigger_override : Bool
  pub irq : ℕ
  pub polarity : ℕ
  pub trigger_mode : ℕ

abbrev pub no_fix : IsaIrqFix
no_fix = record {
  irq_override = false;
  polarity_override = false;
  trigger_override = false;
  irq = 0;
  polarity = 0;
  trigger_mode = 0;
}

-- A flag of the structure that is not the bus's own must not be reserved; then it is compared.
abbrev pub flag_value : (flag reserved set_value : ℕ) → Outcome ℕ
flag_value flag reserved set_value =
    if flag == 0 then ok 0 else kassert (flag != reserved) >> ok (from_bool (flag == set_value))

-- The fix of the first structure for the interrupt: its source is byte 3, its number at offset 4, its
-- flags at offset 8.
unfoldable pub find_isa_fix : Bytes → (overrides : List ℕ) (irq : ℕ) → Outcome IsaIrqFix
find_isa_fix bytes [] irq = ok no_fix
find_isa_fix bytes (iso ∷ overrides) irq =
    let rest = find_isa_fix bytes overrides irq in
    if bytes (iso + 3) == irq
    then (do
      polarity ← flag_value (bytes (iso + 8) % 4) 2 3
      trigger_mode ← flag_value (bytes (iso + 8) / 4 % 4 * 4) 8 12
      ok (record {
        irq_override = true;
        polarity_override = false;
        trigger_override = false;
        irq = read32 bytes (iso + 4);
        polarity = polarity;
        trigger_mode = trigger_mode;
      }))
    else rest

unfoldable pub get_isa_fix : Bytes → IoapicSubsystemData → (irq : ℕ) → Outcome IsaIrqFix
get_isa_fix bytes d irq = elim d.source_override_array [
  | none ↦ panic failed_assert
  | some overrides ↦ find_isa_fix bytes overrides irq
]

abbrev pub with_fix : IsaIrqFix → Redirection → Redirection
with_fix fix r = record {
  reidirect_to_lowest_priority = r.reidirect_to_lowest_priority;
  apic_id_to_redirect = r.apic_id_to_redirect;
  trigger_mode = if fix.trigger_override then fix.trigger_mode else r.trigger_mode;
  polarity = if fix.polarity_override then fix.polarity else r.polarity;
  mask = r.mask;
  vector = r.vector;
}

-- The entry of the redirection table.
unfoldable pub redirection_entry : Redirection → Outcome ℕ
redirection_entry r = do
  let e₁ = or64 0 r.vector
  e₂ ←
      (if r.reidirect_to_lowest_priority
        then ok (or64 e₁ (1 * 2 ^ 8))
        else kassert (r.apic_id_to_redirect % 2 ^ 4 == r.apic_id_to_redirect)
          >> ok (or64 (or64 e₁ (0 * 2 ^ 8)) (r.apic_id_to_redirect * 2 ^ 56)))
  let e₃ = or64 e₂ (r.polarity * 2 ^ 13)
  let e₄ = or64 e₃ (r.trigger_mode * 2 ^ 15)
  ok (or64 e₄ (from_bool r.mask * 2 ^ 16))

-- The number of the first interrupt is at offset 8 of the structure.
abbrev pub interrupt_base : Bytes → Ioapic → ℕ
interrupt_base bytes ioapic = read32 bytes (ioapic.ics_ioapic + 8)

-- The first controller whose range has the interrupt.
unfoldable pub find_ioapic : Bytes → List Ioapic → (irq : ℕ) → Option Ioapic
find_ioapic bytes [] irq = none
find_ioapic bytes (ioapic ∷ ioapics) irq =
    let rest = find_ioapic bytes ioapics irq in
    let starting_irq = interrupt_base bytes ioapic in
    let ending_irq = starting_irq + ioapic.maximum_redirection_entry in
    if leb starting_irq irq && ltb irq ending_irq then some ioapic else rest

-- The devices in memory: `write_8` selects a register.
pub record Window : Type 1 where
  pub State : Type 0
  pub write_8 : (address value : ℕ) → State → State
  pub write_32 : (address value : ℕ) → State → State
  pub read_32 : (address : ℕ) → State → ℕ × State

module _ (w : Window) where
  open w use {State}

  unfoldable pub write_32_ioapic_register : Ioapic → (offset value : ℕ) → State → State
  write_32_ioapic_register ioapic offset value s =
      w.write_32 (ioapic.base + 0x10) value (w.write_8 ioapic.base offset s)

  unfoldable pub read_32_ioapic_register : Ioapic → (offset : ℕ) → State → ℕ × State
  read_32_ioapic_register ioapic offset s =
      w.read_32 (ioapic.base + 0x10) (w.write_8 ioapic.base offset s)

  -- The offset is a byte.
  unfoldable pub write_64_ioapic_register : Ioapic → (offset value : ℕ) → State → State
  write_64_ioapic_register ioapic offset value s =
      let s₁ = write_32_ioapic_register ioapic offset (value % 2 ^ 32) s in
      write_32_ioapic_register ioapic ((offset + 1) % 2 ^ 8) (value / 2 ^ 32 % 2 ^ 32) s₁

  -- The write to the table of the controller that the search has found.
  unfoldable pub write_entry : Bytes → (irq entry : ℕ) → Option Ioapic → State → Outcome State
  write_entry bytes irq entry none s = panic failed_assert
  write_entry bytes irq entry (some ioapic) s =
      let interrupt_line = irq - interrupt_base bytes ioapic in
      ok (write_64_ioapic_register ioapic ((0x10 + interrupt_line * 2) % 2 ^ 8) entry s)

  unfoldable pub set_ioapic_interrupt_redirection :
      Bytes → IoapicSubsystemData → Redirection → (irq : ℕ) → State → Outcome State
  set_ioapic_interrupt_redirection bytes d redirection irq s = do
    isa_fix ← get_isa_fix bytes d irq
    let irq' = if isa_fix.irq_override then isa_fix.irq else irq
    entry ← redirection_entry (with_fix isa_fix redirection)
    write_entry bytes irq' entry (find_ioapic bytes d.ioapic_array irq') s
