-- ===== src/Interrupt/Ipi.antt =====
-- kernel/interrupt/apic.c: the interrupts that one processor sends to others.
pub mod Command
pub mod Sent
mod Tests
use garbage_os.Base.{
  ℕ, zero, suc, ◌+◌, ◌*◌, ◌/◌, ◌%◌, ◌^◌, Bool, true, false, Option, none, some, ◌==◌, ◌!=◌,
  if◌then◌else◌, Outcome, ok, ◌>>=◌, ◌>>◌, kassert, or64,
}
use garbage_os.Interrupt.Registers.{Registers}
use garbage_os.Interrupt.Apic.{LapicSubsystemData}
use garbage_os.Interrupt.LocalApic.{
  is_mapped, fixed_mode, init_mode, start_up_mode, read_64_lapic_register, write_64_lapic_register,
}

-- `APICDestinationShorthand`
abbrev pub no_shorthand : ℕ
no_shorthand = 0

abbrev pub all_including_self : ℕ
all_including_self = 2

abbrev pub all_excluding_self : ℕ
all_excluding_self = 3

unfoldable pub make_interrupt_command :
    (destination_id dest_sh trigger_mode level destination_mode del_mode vector : ℕ) → ℕ
make_interrupt_command destination_id dest_sh trigger_mode level destination_mode del_mode vector =
    let icr₁ = or64 (destination_id * 2 ^ 56) (dest_sh % 4 * 2 ^ 18) in
    let icr₂ = or64 icr₁ (trigger_mode % 2 * 2 ^ 15) in
    let icr₃ = or64 icr₂ (level % 2 * 2 ^ 14) in
    let icr₄ = or64 icr₃ (destination_mode % 2 * 2 ^ 11) in
    let icr₅ = or64 icr₄ (del_mode % 8 * 2 ^ 8) in or64 icr₅ vector

abbrev pub interrupt_command_low : ℕ
interrupt_command_low = 0x300

module _ (apic : Registers) (d : LapicSubsystemData) where
  open apic use {State}

  unfoldable pub is_ipi_sending_complete : State → Outcome (Bool × State)
  is_ipi_sending_complete s = do
    kassert (is_mapped d)
    (icr, s₁) ← read_64_lapic_register apic d interrupt_command_low s
    ok (icr / 2 ^ 12 % 2 == 0, s₁)

  -- The loop behind the assertion, none if it has not ended after `fuel` rounds.
  unfoldable pub wait_and_write : (fuel icr : ℕ) → State → Outcome (Option State)
  wait_and_write zero icr s = ok none
  wait_and_write (suc fuel) icr s = do
    (complete, s₁) ← is_ipi_sending_complete s
    if complete
        then (do s₂ ← write_64_lapic_register apic d interrupt_command_low icr s₁; ok (some s₂))
        else wait_and_write fuel icr s₁

  abbrev pub wait_and_write_interrupt_command_register :
      (fuel icr : ℕ) → State → Outcome (Option State)
  wait_and_write_interrupt_command_register fuel icr s =
      kassert (is_mapped d) >> wait_and_write fuel icr s

  module _ (fuel : ℕ) where
    -- The assertion on the mapping is repeated in the call.
    abbrev pub send : (icr : ℕ) → State → Outcome (Option State)
    send icr s = kassert (is_mapped d) >> wait_and_write_interrupt_command_register fuel icr s

    unfoldable pub send_ipi_by_destination_shorthand :
        (dest_sh interrupt_vector : ℕ) → State → Outcome (Option State)
    send_ipi_by_destination_shorthand dest_sh interrupt_vector s =
        kassert (dest_sh != no_shorthand)
        >> send (make_interrupt_command 0xff dest_sh 0 1 0 fixed_mode interrupt_vector) s

    -- The identifiers of controllers are cut to 8 bits by the parameter of make_interrupt_command.
    unfoldable pub send_ipi_by_lapic_id :
        (lapic_id_target interrupt_vector : ℕ) → State → Outcome (Option State)
    send_ipi_by_lapic_id lapic_id_target interrupt_vector s =
        send
          (make_interrupt_command (lapic_id_target % 2 ^ 8) no_shorthand 0 1 0 fixed_mode
            interrupt_vector)
          s

    unfoldable pub send_ipi_init_by_lapic_id :
        (lapic_id_target : ℕ) → State → Outcome (Option State)
    send_ipi_init_by_lapic_id lapic_id_target s =
        send (make_interrupt_command (lapic_id_target % 2 ^ 8) no_shorthand 0 1 0 init_mode 0) s

    unfoldable pub send_ipi_init_to_all_excluding_self : State → Outcome (Option State)
    send_ipi_init_to_all_excluding_self s =
        send (make_interrupt_command 0 all_excluding_self 0 1 0 init_mode 0) s

    unfoldable pub send_ipi_init_deassert : State → Outcome (Option State)
    send_ipi_init_deassert s =
        send (make_interrupt_command 0 all_including_self 1 0 0 init_mode 0) s

    unfoldable pub send_ipi_init_deassert_by_lapic_id :
        (apic_id : ℕ) → State → Outcome (Option State)
    send_ipi_init_deassert_by_lapic_id apic_id s =
        send (make_interrupt_command (apic_id % 2 ^ 8) no_shorthand 1 0 0 init_mode 0) s

    unfoldable pub send_startup_ipi :
        (lapic_id_target interrupt_vector : ℕ) → State → Outcome (Option State)
    send_startup_ipi lapic_id_target interrupt_vector s =
        send
          (make_interrupt_command (lapic_id_target % 2 ^ 8) no_shorthand 0 1 0 start_up_mode
            interrupt_vector)
          s

    unfoldable pub send_startup_ipi_to_all_excluding_self :
        (interrupt_vector : ℕ) → State → Outcome (Option State)
    send_startup_ipi_to_all_excluding_self interrupt_vector s =
        send (make_interrupt_command 0 all_excluding_self 0 1 0 start_up_mode interrupt_vector) s
