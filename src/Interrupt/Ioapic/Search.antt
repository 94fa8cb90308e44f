-- ===== src/Interrupt/Ioapic/Search.antt =====
-- The structure that overrides an interrupt, and the controller that has it.
use mathlib.Core.List.{Mem, mem-cons_self, mem-cons_of_mem}
use garbage_os.Base.{
  ℕ, ◌+◌, ◌*◌, ◌/◌, ◌%◌, ◌≤◌, ◌<◌, ◌≡◌, refl, ◌⊎◌, true, false, ◌&&◌, Bool-cases, inl, inr, Option,
  none, some, List, [], ◌∷◌, All, arith, ltb, leb, ◌==◌, ==→eq, if◌then◌else◌, Outcome, ok, panic,
  failed_assert,
}
use garbage_os.Acpi.{Bytes, read32}
use garbage_os.Interrupt.Ioapic.{
  Ioapic, IsaIrqFix, flag_value, find_isa_fix, interrupt_base, find_ioapic,
}
use garbage_os.Interrupt.LocalApic.{from_bool}

-- The first structure for the interrupt.
abbrev pub override_of : Bytes → (overrides : List ℕ) (irq : ℕ) → Option ℕ
override_of bytes [] irq = none
override_of bytes (iso ∷ overrides) irq =
    let rest = override_of bytes overrides irq in if bytes (iso + 3) == irq then some iso else rest

-- The number that an interrupt has at the controllers.
abbrev pub global_irq : Bytes → Option ℕ → (irq : ℕ) → ℕ
global_irq bytes none irq = irq
global_irq bytes (some iso) irq = read32 bytes (iso + 4)

-- A polarity or a trigger mode is the reserved one.
abbrev pub IsReserved : Bytes → Option ℕ → Type 0
IsReserved bytes none = true ≡ false
IsReserved bytes (some iso) = (bytes (iso + 8) % 4 ≡ 2) ⊎ (bytes (iso + 8) / 4 % 4 ≡ 2)

-- What the search for the fix finds: a fix never changes the polarity or the trigger mode.
abbrev pub Fixes : Bytes → Option ℕ → (irq : ℕ) → Outcome IsaIrqFix → Type 0
Fixes bytes o irq (panic e) = (e ≡ failed_assert) × IsReserved bytes o
Fixes bytes o irq (ok fix) =
    ((if fix.irq_override then fix.irq else irq) ≡ global_irq bytes o irq)
    × (fix.polarity_override ≡ false)
    × (fix.trigger_override ≡ false)

flag_value-cases :
    (flag reserved set_value : ℕ)
    → ((x : ℕ) × (flag_value flag reserved set_value ≡ ok x))
      ⊎ ((flag_value flag reserved set_value ≡ panic failed_assert) × (flag ≡ reserved))
flag_value-cases flag reserved set_value = elim (Bool-cases (flag == 0)) [
  | inl own ↦ inl (0, rw own refl)
  | inr given ↦ elim (Bool-cases (flag == reserved)) [
    | inl bad ↦ inr (ground (arith, given, bad), ==→eq flag reserved bad)
    | inr fine ↦ inl (from_bool (flag == set_value), ground (arith, given, fine))
  ]
]

pub find_isa_fix-Fixes :
    (bytes : Bytes) (overrides : List ℕ) (irq : ℕ)
    → Fixes bytes (override_of bytes overrides irq) irq (find_isa_fix bytes overrides irq)
unfolding find_isa_fix
find_isa_fix-Fixes bytes [] irq = (refl, refl, refl)
find_isa_fix-Fixes bytes (iso ∷ overrides) irq = elim (Bool-cases (bytes (iso + 3) == irq)) [
  | inr other ↦ rw other (find_isa_fix-Fixes bytes overrides irq)
  | inl here ↦ elim (flag_value-cases (bytes (iso + 8) % 4) 2 3) [
    | inr (bad, same) ↦ rw (here, bad) (refl, inl same)
    | inl (polarity, p) ↦ elim (flag_value-cases (bytes (iso + 8) / 4 % 4 * 4) 8 12) [
      | inr (bad, same) ↦ rw (here, p, bad) (refl, inr (omega (arith, same)))
      | inl (trigger_mode, t) ↦ rw (here, p, t) (refl, refl, refl)
    ]
  ]
]

-- The controller has the interrupt.
abbrev pub Covers : Bytes → (irq : ℕ) → Ioapic → Type 0
Covers bytes irq c =
    (interrupt_base bytes c ≤ irq) × (irq < interrupt_base bytes c + c.maximum_redirection_entry)

abbrev pub Finds : Bytes → List Ioapic → (irq : ℕ) → Option Ioapic → Type 0
Finds bytes cs irq none = All (λ c. ¬ Covers bytes irq c) cs
Finds bytes cs irq (some c) = Mem c cs × Covers bytes irq c

pub find_ioapic-Finds :
    (bytes : Bytes) (cs : List Ioapic) (irq : ℕ) → Finds bytes cs irq (find_ioapic bytes cs irq)
unfolding find_ioapic
find_ioapic-Finds bytes [] irq = tt
find_ioapic-Finds bytes (c ∷ cs) irq =
    let rest = find_ioapic-Finds bytes cs irq in
    let first = interrupt_base bytes c in
    elim (Bool-cases (leb first irq && ltb irq (first + c.maximum_redirection_entry))) [
      | inl here ↦ rw here (mem-cons_self, (ground (arith, here), ground (arith, here)))
      | inr other ↦
          let misses : ¬ Covers bytes irq c = λ h. ground (arith, other, h.0, h.1) in
          rw other (later (find_ioapic bytes cs irq) c cs misses rest)
    ]
  where
    later :
        (o : Option Ioapic) (c : Ioapic) (cs : List Ioapic)
        → (¬ Covers bytes irq c)
        → Finds bytes cs irq o
        → Finds bytes (c ∷ cs) irq o
    later none c cs misses all = (misses, all)
    later (some x) c cs misses (at_x, covers) = (mem-cons_of_mem c at_x, covers)
