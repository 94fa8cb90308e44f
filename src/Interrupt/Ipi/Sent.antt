-- ===== src/Interrupt/Ipi/Sent.antt =====
-- The wait for the interrupt command register, and what is sent by the write to it. The register is that
-- of Intel's manual: a write to its lower half sends the command, with the destination that stands in
-- the upper half; bit 12 is set until a command has been sent. What a write does while the bit is set is
-- not said, since software must not write then.
use native.Mathlib.Decide.{ℕ_discrete}
use garbage_os.Base.{
  ℕ, zero, suc, ◌+◌, ◌-◌, ◌*◌, ◌/◌, ◌%◌, ◌^◌, ◌<◌, ◌≡◌, refl, ap, ◌∙◌, true, Option, some, List,
  ◌∷◌, arith, ◌==◌, eq→==, ne→==_false, if◌then◌else◌, Outcome, ok, ◌>>=◌, or64, bit_or-above,
}
use garbage_os.Interrupt.Registers.{Registers}
use garbage_os.Interrupt.Apic.{LapicSubsystemData}
use garbage_os.Interrupt.LocalApic.{
  is_mapped, start_up_mode, read_32_lapic_register, write_32_lapic_register, read_64_lapic_register,
  write_64_lapic_register,
}
use garbage_os.Interrupt.Ipi.{
  interrupt_command_low, no_shorthand, make_interrupt_command, is_ipi_sending_complete,
  wait_and_write, send, send_startup_ipi,
}
use garbage_os.Interrupt.Ipi.Command.{make_interrupt_command-fields}

-- `sent` has the last command first, each with the upper half that it was sent with; `busy` counts the
-- reads of the register that still find the last command unsent.
pub record CommandRegister (apic : Registers) : Type 0 where
  pub high : apic.State → ℕ
  pub sent : apic.State → List (ℕ × ℕ)
  pub busy : apic.State → ℕ
  pub write_low :
      (v : ℕ) (s : apic.State)
      → busy s ≡ 0
      → (sent (apic.write_32 0x300 v s) ≡ (v, high s) ∷ sent s)
        × (high (apic.write_32 0x300 v s) ≡ high s)
  pub write_high :
      (v : ℕ) (s : apic.State)
      → (sent (apic.write_32 0x310 v s) ≡ sent s) × (high (apic.write_32 0x310 v s) ≡ v)
  pub read_low :
      (s : apic.State)
      → ((apic.read_32 0x300 s).0 < 2 ^ 32)
        × ((apic.read_32 0x300 s).0 / 2 ^ 12 % 2 ≡ (if busy s == 0 then 0 else 1))
        × (busy (apic.read_32 0x300 s).1 ≡ busy s - 1)
        × (sent (apic.read_32 0x300 s).1 ≡ sent s)
        × (high (apic.read_32 0x300 s).1 ≡ high s)
  pub read_high :
      (s : apic.State)
      → ((apic.read_32 0x310 s).0 < 2 ^ 32)
        × (busy (apic.read_32 0x310 s).1 ≡ busy s)
        × (sent (apic.read_32 0x310 s).1 ≡ sent s)
        × (high (apic.read_32 0x310 s).1 ≡ high s)

module _ (apic : Registers) (register : CommandRegister apic) (d : LapicSubsystemData)
    (mapped : is_mapped d ≡ true) where
  open apic use {State, read_32, write_32}
  open register use {high, sent, busy, write_low, write_high, read_low, read_high}

  -- The state after the status has been read.
  polled : State → State
  polled s = (read_32 0x310 (read_32 0x300 s).1).1

  polled_facts :
      (s : State)
      → (busy (polled s) ≡ busy s - 1) × (sent (polled s) ≡ sent s) × (high (polled s) ≡ high s)
  unfolding polled
  polled_facts s =
      let (small, bit, less, same_sent, same_high) = read_low s in
      let (small', less', same_sent', same_high') = read_high (read_32 0x300 s).1 in
      (less' ∙ less, same_sent' ∙ same_sent, same_high' ∙ same_high)

  is_ipi_sending_complete-busy :
      (s : State) → is_ipi_sending_complete apic d s ≡ ok (busy s == 0, polled s)
  unfolding is_ipi_sending_complete read_64_lapic_register read_32_lapic_register polled
  is_ipi_sending_complete-busy s =
      let low = (read_32 0x300 s).0 in
      let high_word = (read_32 0x310 (read_32 0x300 s).1).0 in
      let facts = read_low s in
      let facts' = read_high (read_32 0x300 s).1 in
      let joined : or64 low (high_word * 2 ^ 32) ≡ low + high_word * 2 ^ 32 =
        bit_or-above 32 32 low high_word facts.0 facts'.0 in
      let bit : (low + high_word * 2 ^ 32) / 2 ^ 12 % 2 ≡ (if busy s == 0 then 0 else 1) =
        omega arith ∙ facts.1 in
      let status : (or64 low (high_word * 2 ^ 32) / 2 ^ 12 % 2 == 0) ≡ (busy s == 0) =
        rw (joined, bit) (ground arith) in
      rw mapped (ap (λ b. ok (b, polled s)) status)

  -- The command has been sent, with the upper half that stood in the register before, and the upper half
  -- of the command stands there now.
  abbrev pub Sends : (icr : ℕ) → State → Outcome (Option State) → Type 0
  Sends icr s o =
      (s' : State) × (o ≡ ok (some s'))
      × (sent s' ≡ (icr % 2 ^ 32, high s) ∷ sent s)
      × (high s' ≡ icr / 2 ^ 32 % 2 ^ 32)

  write_64-Sends :
      (icr : ℕ) (s : State)
      → busy s ≡ 0
      → Sends icr s
          (write_64_lapic_register apic d interrupt_command_low icr s >>= λ s'. ok (some s'))
  unfolding write_64_lapic_register write_32_lapic_register
  write_64-Sends icr s idle =
      let s₁ : State = write_32 0x300 (icr % 2 ^ 32) s in
      let s₂ : State = write_32 0x310 (icr / 2 ^ 32 % 2 ^ 32) s₁ in
      let low = write_low (icr % 2 ^ 32) s idle in
      let upper = write_high (icr / 2 ^ 32 % 2 ^ 32) s₁ in
      (s₂, rw mapped refl, upper.0 ∙ low.0, upper.1)

  from_polled :
      (icr : ℕ) (s : State) (o : Outcome (Option State)) → Sends icr (polled s) o → Sends icr s o
  from_polled icr s o (s', returns, sent_now, high_now) =
      let (less, same_sent, same_high) = polled_facts s in
      (s', returns, sent_now ∙ rw (same_sent, same_high) refl, high_now)

  wait_and_write-Sends :
      (fuel icr : ℕ) (s : State) → busy s < fuel → Sends icr s (wait_and_write apic d fuel icr s)
  unfolding wait_and_write
  wait_and_write-Sends zero icr s enough = absurd (omega (arith, enough))
  wait_and_write-Sends (suc fuel) icr s enough =
      let less = (polled_facts s).0 in
      elim (ℕ_discrete (busy s) 0) [
        | yes idle ↦
            rw (is_ipi_sending_complete-busy s, eq→== (busy s) 0 idle)
              (from_polled icr s _ (write_64-Sends icr (polled s) (omega (arith, less, idle))))
        | no busy_still ↦
            rw (is_ipi_sending_complete-busy s, ne→==_false (busy s) 0 busy_still)
              (from_polled icr s _ (
                wait_and_write-Sends fuel icr (polled s) (omega (arith, less, busy_still, enough))))
      ]

  send-Sends : (fuel icr : ℕ) (s : State) → busy s < fuel → Sends icr s (send apic d fuel icr s)
  send-Sends fuel icr s enough = rw mapped (wait_and_write-Sends fuel icr s enough)

  -- With the registers mapped, a target and a page of 8 bits, and more rounds than reads that find the
  -- last command unsent, the last command is waited for, and then one start-up command with the page of
  -- the start in its low byte is sent. With it
  -- goes the destination that the register had before; the destination that is asked for stands in the
  -- register afterwards.
  pub send_startup_ipi-sent :
      (fuel lapic_id_target interrupt_vector : ℕ) (s : State)
      → busy s < fuel
      → lapic_id_target < 2 ^ 8
      → interrupt_vector < 2 ^ 8
      → (s' : State) × (send_startup_ipi apic d fuel lapic_id_target interrupt_vector s
          ≡ ok (some s'))
        × (sent s' ≡ (interrupt_vector + 0x4600, high s) ∷ sent s)
        × (high s' ≡ lapic_id_target * 2 ^ 24)
  unfolding send_startup_ipi
  send_startup_ipi-sent fuel lapic_id_target interrupt_vector s enough small small_vector =
      let target = lapic_id_target % 2 ^ 8 in
      let icr = make_interrupt_command target no_shorthand 0 1 0 start_up_mode interrupt_vector in
      let fields =
        make_interrupt_command-fields target no_shorthand 0 1 0 start_up_mode interrupt_vector
          (omega arith) small_vector in
      let low : icr % 2 ^ 32 ≡ interrupt_vector + 0x4600 = omega (arith, fields, small_vector) in
      let upper : icr / 2 ^ 32 % 2 ^ 32 ≡ lapic_id_target * 2 ^ 24 =
        omega (arith, fields, small, small_vector) in
      let (s', returns, sent_now, high_now) = send-Sends fuel icr s enough in
      (s', returns, sent_now ∙ ap (λ v. (v, high s) ∷ sent s) low, high_now ∙ upper)
