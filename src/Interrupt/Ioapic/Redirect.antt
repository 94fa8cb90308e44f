-- ===== src/Interrupt/Ioapic/Redirect.antt =====
-- The write of an entry to the redirection table.
use native.Mathlib.Bridge.{le_prop}
use mathlib.Core.List.{Mem}
use garbage_os.Base.{
  ℕ, ◌+◌, ◌-◌, ◌*◌, ◌/◌, ◌%◌, ◌^◌, ◌≤◌, ◌<◌, ◌≡◌, refl, ◌∙◌, subst, ◌⊎◌, ◌&&◌, inl, inr, Option,
  none, some, List, All, All-mem, arith, ◌==◌, if◌then◌else◌, Outcome, ok, panic, Outcome-cases,
  failed_assert,
}
use garbage_os.Acpi.{Bytes}
use garbage_os.Interrupt.Ioapic.{
  Ioapic, IoapicSubsystemData, Redirection, find_isa_fix, get_isa_fix, interrupt_base, Window,
  write_32_ioapic_register, write_64_ioapic_register, write_entry, set_ioapic_interrupt_redirection,
}
use garbage_os.Interrupt.Ioapic.Entry.{IsRedirection, Encodes, redirection_entry-Encodes}
use garbage_os.Interrupt.Ioapic.Search.{
  override_of, global_irq, IsReserved, Fixes, find_isa_fix-Fixes, Covers, Finds, find_ioapic-Finds,
}

-- The registers behind the window of a controller, as its documentation has them: the word is the
-- register that the byte has selected.
pub record WindowRegisters (w : Window) : Type 0 where
  pub register : (base index : ℕ) → w.State → ℕ
  pub selected : (base : ℕ) → w.State → ℕ
  pub select :
      (base index : ℕ) (s : w.State)
      → (selected base (w.write_8 base index s) ≡ index)
        × ((b i : ℕ) → register b i (w.write_8 base index s) ≡ register b i s)
  pub write :
      (base value : ℕ) (s : w.State) (b i : ℕ)
      → register b i (w.write_32 (base + 0x10) value s)
        ≡ (if (b == base) && (i == selected base s) then value else register b i s)

module _ (w : Window) (regs : WindowRegisters w) where
  open w use {State}
  open regs use {register, selected, select, write}

  write_32_ioapic_register-register :
      (c : Ioapic) (offset value : ℕ) (s : State) (b i : ℕ)
      → register b i (write_32_ioapic_register w c offset value s)
        ≡ (if (b == c.base) && (i == offset) then value else register b i s)
  unfolding write_32_ioapic_register
  write_32_ioapic_register-register c offset value s b i =
      let chosen = select c.base offset s in
      write c.base value (w.write_8 c.base offset s) b i ∙ rw (chosen.0, chosen.1 b i) refl

  -- The two words of the entry at the index are those of `entry`, and nothing else changes.
  abbrev pub Writes : (base index entry : ℕ) → State → State → Type 0
  Writes base index entry s s' =
      (b i : ℕ)
      → register b i s' ≡ (
          if (b == base) && (i == index + 1)
          then entry / 2 ^ 32
          else if (b == base) && (i == index)
          then entry % 2 ^ 32
          else register b i s)

  write_64_ioapic_register-Writes :
      (c : Ioapic) (offset entry : ℕ) (s : State)
      → offset < 255
      → entry < 2 ^ 64
      → Writes c.base offset entry s (write_64_ioapic_register w c offset entry s)
  unfolding write_64_ioapic_register
  write_64_ioapic_register-Writes c offset entry s small fits b i =
      let next : (offset + 1) % 2 ^ 8 ≡ offset + 1 = omega (arith, small) in
      let upper : entry / 2 ^ 32 % 2 ^ 32 ≡ entry / 2 ^ 32 = omega (arith, fits) in
      let s₁ = write_32_ioapic_register w c offset (entry % 2 ^ 32) s in
      let second = write_32_ioapic_register-register c (offset + 1) (entry / 2 ^ 32) s₁ b i in
      let first = write_32_ioapic_register-register c offset (entry % 2 ^ 32) s b i in
      rw (next, upper) (second ∙ rw first refl)

  module _ (bytes : Bytes) (cs : List Ioapic) (overrides : List ℕ) (irq : ℕ) where
    -- The entry at the index of the interrupt, in the table of a controller that has it, encodes the
    -- redirection as it was given. A panic is an assertion: the interrupt has an override with a reserved
    -- flag, or no controller has it.
    abbrev pub Redirects : Redirection → State → Outcome State → Type 0
    Redirects r s (panic e) =
        (e ≡ failed_assert)
        × (IsReserved bytes (override_of bytes overrides irq)
            ⊎ All (λ c. ¬ Covers bytes (global_irq bytes (override_of bytes overrides irq) irq) c)
                cs)
    Redirects r s (ok s') =
        (c : Ioapic) × (entry : ℕ) × Mem c cs
        × Covers bytes (global_irq bytes (override_of bytes overrides irq) irq) c
        × Encodes r entry
        × Writes c.base
            (0x10
              + (global_irq bytes (override_of bytes overrides irq) irq - interrupt_base bytes c)
                * 2)
            entry s s'

    Redirects-found :
        (r : Redirection) (s : State) (entry : ℕ)
        → Encodes r entry
        → All (λ c. c.maximum_redirection_entry ≤ 119) cs
        → (found : Option Ioapic)
        → Finds bytes cs (global_irq bytes (override_of bytes overrides irq) irq) found
        → Redirects r s (
            write_entry w bytes
              (global_irq bytes (override_of bytes overrides irq) irq)
              entry
              found
              s)
    unfolding write_entry
    Redirects-found r s entry e sizes none none_covers = (refl, inr none_covers)
    Redirects-found r s entry e sizes (some c) (at_c, covers) =
        let size = All-mem (λ c. c.maximum_redirection_entry ≤ 119) (λ c. le_prop) cs sizes at_c in
        let line =
          global_irq bytes (override_of bytes overrides irq) irq - interrupt_base bytes c in
        let small : 0x10 + line * 2 < 255 = omega (arith, size, covers.0, covers.1) in
        let index : (0x10 + line * 2) % 2 ^ 8 ≡ 0x10 + line * 2 = omega (arith, small) in
        rw index (
          c,
          entry,
          at_c,
          covers,
          e,
          write_64_ioapic_register-Writes c (0x10 + line * 2) entry s small e.0,
        )

    -- Where the fields of a redirection have the widths of the entry, the controllers have at most 119
    -- entries and there is an array of overrides, a redirection writes one entry, at the index of the
    -- interrupt in the table of a controller that has it, and changes no other register. The entry
    -- encodes the redirection with the polarity and the trigger mode that it was given, whatever the
    -- firmware's override of the interrupt says of them; the override changes the number only. The
    -- assertions fail only for a reserved flag of the override and for an interrupt that no controller
    -- has.
    pub set_ioapic_interrupt_redirection-Redirects :
        (d : IoapicSubsystemData) (r : Redirection) (s : State)
        → d.ioapic_array ≡ cs
        → d.source_override_array ≡ some overrides
        → IsRedirection r
        → All (λ c. c.maximum_redirection_entry ≤ 119) cs
        → Redirects r s (set_ioapic_interrupt_redirection w bytes d r irq s)
    unfolding set_ioapic_interrupt_redirection get_isa_fix
    set_ioapic_interrupt_redirection-Redirects d r s controllers given v sizes =
        let (entry, q, e) = redirection_entry-Encodes r v in
        elim (Outcome-cases (find_isa_fix bytes overrides irq)) [
          | inr (code, p) ↦
              let (failed, reserved) =
                subst (Fixes bytes (override_of bytes overrides irq) irq) p
                  (find_isa_fix-Fixes bytes overrides irq) in
              rw (given, controllers, p) (failed, inl reserved)
          | inl (fix, p) ↦
              let (renumbered, no_polarity, no_trigger) =
                subst (Fixes bytes (override_of bytes overrides irq) irq) p
                  (find_isa_fix-Fixes bytes overrides irq) in
              rw (given, controllers, p, renumbered, no_polarity, no_trigger, q)
                (Redirects-found r s entry e sizes _ (find_ioapic-Finds bytes cs _))
        ]
