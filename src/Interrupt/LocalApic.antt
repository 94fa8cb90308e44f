-- ===== src/Interrupt/LocalApic.antt =====
-- kernel/interrupt/apic.c: the registers of the local controller of the processor, by their offsets.
use garbage_os.Base.{
  ℕ, ◌+◌, ◌*◌, ◌/◌, ◌%◌, ◌^◌, Bool, true, false, not, none, some, set, ◌==◌, ◌!=◌, if◌then◌else◌,
  null, Outcome, ok, panic, ◌>>=◌, ◌>>◌, kassert, failed_assert, apic_error, bit_or, or64,
}
use garbage_os.Acpi.{Bytes}
use garbage_os.Interrupt.Registers.{Registers}
use garbage_os.Interrupt.Apic.{LocalApic, LapicSubsystemData, get_lapic_from_id}

abbrev pub from_bool : Bool → ℕ
from_bool b = if b then 1 else 0

-- `!is_vmemhandle_invalid(lapic_gdata.register_space_mapping)`
abbrev pub is_mapped : LapicSubsystemData → Bool
is_mapped d = elim d.register_space_mapping [ none ↦ false | some h ↦ true ]

abbrev pub id_register : ℕ
id_register = 0x20

abbrev pub eoi_register : ℕ
eoi_register = 0xb0

abbrev pub in_service_first : ℕ
in_service_first = 0x100

abbrev pub error_status_register : ℕ
error_status_register = 0x280

-- Delivery modes, `APICDeliveryMode`
abbrev pub fixed_mode : ℕ
fixed_mode = 0

abbrev pub nmi_mode : ℕ
nmi_mode = 4

abbrev pub init_mode : ℕ
init_mode = 5

abbrev pub start_up_mode : ℕ
start_up_mode = 6

unfoldable pub make_lvt_entry :
    (vector del_mode : ℕ) (interrupt_pin_polarity remote_irr_flag trigger_mode mask : Bool) → ℕ
make_lvt_entry vector del_mode interrupt_pin_polarity remote_irr_flag trigger_mode mask =
    let lvt₁ = bit_or 32 vector (del_mode % 8 * 2 ^ 8) in
    let lvt₂ = bit_or 32 lvt₁ (from_bool interrupt_pin_polarity * 2 ^ 13) in
    let lvt₃ = bit_or 32 lvt₂ (from_bool remote_irr_flag * 2 ^ 14) in
    let lvt₄ = bit_or 32 lvt₃ (from_bool trigger_mode * 2 ^ 15) in
    bit_or 32 lvt₄ (from_bool mask * 2 ^ 16)

module _ (apic : Registers) where
  open apic use {State, write_32, read_32}

  unfoldable pub write_32_lapic_register :
      LapicSubsystemData → (register_offset value : ℕ) → State → Outcome State
  write_32_lapic_register d register_offset value s =
      kassert (is_mapped d) >> ok (write_32 register_offset value s)

  unfoldable pub read_32_lapic_register :
      LapicSubsystemData → (register_offset : ℕ) → State → Outcome (ℕ × State)
  read_32_lapic_register d register_offset s =
      kassert (is_mapped d) >> ok (read_32 register_offset s)

  -- The lower half is written first.
  unfoldable pub write_64_lapic_register :
      LapicSubsystemData → (reg_low value : ℕ) → State → Outcome State
  write_64_lapic_register d reg_low value s = do
    s₁ ← write_32_lapic_register d reg_low (value % 2 ^ 32) s
    write_32_lapic_register d (reg_low + 0x10) (value / 2 ^ 32 % 2 ^ 32) s₁

  unfoldable pub read_64_lapic_register :
      LapicSubsystemData → (reg_low : ℕ) → State → Outcome (ℕ × State)
  read_64_lapic_register d reg_low s = do
    (low, s₁) ← read_32_lapic_register d reg_low s
    (high, s₂) ← read_32_lapic_register d (reg_low + 0x10) s₁
    ok (or64 low (high * 2 ^ 32), s₂)

  unfoldable pub get_logical_core_lapic_id : LapicSubsystemData → State → Outcome (ℕ × State)
  get_logical_core_lapic_id d s = do
    (raw_lapic_id, s₁) ← read_32_lapic_register d id_register s
    ok (raw_lapic_id / 2 ^ 24 % 2 ^ 8, s₁)

  unfoldable pub read_apic_error : LapicSubsystemData → State → Outcome (ℕ × State)
  read_apic_error d s = do
    s₁ ← write_32_lapic_register d error_status_register 0 s
    read_32_lapic_register d error_status_register s₁

  -- The data of the controller of this processor, which has to be there.
  unfoldable pub get_own_lapic : LapicSubsystemData → State → Outcome ((ℕ × LocalApic) × State)
  get_own_lapic d s = do
    (lapic_id, s₁) ← get_logical_core_lapic_id d s
    found ← get_lapic_from_id d lapic_id
    elim found [ none ↦ panic failed_assert | some l ↦ ok (l, s₁) ]

  unfoldable pub is_local_apic_initialized : LapicSubsystemData → State → Outcome (Bool × State)
  is_local_apic_initialized d s =
      if not (is_mapped d)
      then ok (false, s)
      else (do ((i, l), s₁) ← get_own_lapic d s; ok (l.enabled, s₁))

  -- The registers of the two pins, by the last byte of a structure of type 4.
  abbrev pub lint_register : (local_apic_lint : ℕ) → Outcome ℕ
  lint_register local_apic_lint =
      if local_apic_lint == 0
      then ok 0x350
      else if local_apic_lint == 1
      then ok 0x360
      else panic apic_error

  -- The flags of the structure are at offset 3.
  unfoldable pub nmi_entry : Bytes → (ics_lapic_nmi : ℕ) → ℕ
  nmi_entry bytes ics_lapic_nmi =
      let flags = bytes (ics_lapic_nmi + 3) + 2 ^ 8 * bytes (ics_lapic_nmi + 4) in
      let polarity_flag = flags % 4 in
      let trigger_mode_flag = flags / 4 % 4 * 4 in
      let polarity = if polarity_flag != 0 then polarity_flag == 3 else false in
      let trigger_mode = if polarity_flag != 0 then trigger_mode_flag == 12 else false in
      make_lvt_entry 0xff nmi_mode polarity false trigger_mode false

  unfoldable pub setup_lapic_nmi_lint : Bytes → LapicSubsystemData → State → Outcome State
  setup_lapic_nmi_lint bytes d s = do
    ((i, l), s₁) ← get_own_lapic d s
    if l.ics_lapic_nmi == null then ok s₁ else (do
      lint_reg ← lint_register (bytes (l.ics_lapic_nmi + 5))
      kassert (lint_reg != 0)
      write_32_lapic_register d lint_reg (nmi_entry bytes l.ics_lapic_nmi) s₁)

  abbrev pub with_enabled : LapicSubsystemData → (i : ℕ) → LocalApic → LapicSubsystemData
  with_enabled d i l = record {
    lapic_array = elim d.lapic_array [
      | none ↦ none
      | some lapics ↦ some (
          set lapics i (record {
            apic_id = l.apic_id;
            ics_lapic = l.ics_lapic;
            ics_lapic_nmi = l.ics_lapic_nmi;
            enabled = true;
          }))
    ];
    lapic_base_address = d.lapic_base_address;
    register_space_mapping = d.register_space_mapping;
  }

  -- The spurious vector is 0xff, and that of errors 0xf0.
  unfoldable pub init_local_apic :
      Bytes → LapicSubsystemData → State → Outcome (Bool × LapicSubsystemData × State)
  init_local_apic bytes d s = do
    s₁ ← write_32_lapic_register d 0xf0 (bit_or 32 0xff 0x100) s
    s₂ ← write_32_lapic_register d 0x80 0 s₁
    s₃ ← write_32_lapic_register d 0x370 (make_lvt_entry 0xf0 fixed_mode false false false false) s₂
    (error, s₄) ← read_apic_error d s₃
    if error != 0 then ok (false, d, s₄) else (do
      s₅ ← setup_lapic_nmi_lint bytes d s₄
      ((i, l), s₆) ← get_own_lapic d s₅
      ok (true, with_enabled d i l, s₆))

  unfoldable pub send_lapic_eoi : LapicSubsystemData → State → Outcome State
  send_lapic_eoi d s = kassert (is_mapped d) >> write_32_lapic_register d eoi_register 0 s

  -- The register of in-service interrupts has 256 bits, in eight registers 0x10 bytes apart.
  unfoldable pub is_interrupt_lapic_generated :
      LapicSubsystemData → (interrupt_vector : ℕ) → State → Outcome (Bool × State)
  is_interrupt_lapic_generated d interrupt_vector s = do
    kassert (is_mapped d)
    (isr_dword, s₁) ← read_32_lapic_register d (in_service_first + interrupt_vector / 32 * 0x10) s
    ok (isr_dword / 2 ^ (interrupt_vector % 32) % 2 == 1, s₁)
