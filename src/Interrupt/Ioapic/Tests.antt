-- ===== src/Interrupt/Ioapic/Tests.antt =====
-- Controllers whose registers lie behind their windows.
use garbage_os.Base.{ℕ, ◌+◌, ◌-◌, ◌≡◌, refl, false, ◌&&◌, some, [], ◌∷◌, arith, ◌==◌, if◌then◌else◌}
use garbage_os.Acpi.{Bytes}
use garbage_os.Interrupt.Ioapic.{
  IoapicSubsystemData, Redirection, Window, set_ioapic_interrupt_redirection,
}
use garbage_os.Interrupt.Ioapic.Redirect.{
  WindowRegisters, Redirects, set_ioapic_interrupt_redirection-Redirects,
}

pub record Controllers : Type 0 where
  pub selected : ℕ → ℕ
  pub register : ℕ → ℕ → ℕ

abbrev window : Window
window = record {
  State = Controllers;
  write_8 = λ address value s. record {
    selected = λ b. if b == address then value else s.selected b;
    register = s.register;
  };
  write_32 = λ address value s. record {
    selected = s.selected;
    register = λ b i.
        if (b + 0x10 == address) && (i == s.selected (address - 0x10))
        then value
        else s.register b i;
  };
  read_32 = λ address s. (s.register (address - 0x10) (s.selected (address - 0x10)), s);
}

window_registers : WindowRegisters window
window_registers = record {
  register = λ b i s. s.register b i;
  selected = λ b s. s.selected b;
  select = λ base index s. (ground arith, λ b i. refl);
  write = λ base value s b i.
      let back : base + 0x10 - 0x10 ≡ base = omega arith in
      let same : (b + 0x10 == base + 0x10) ≡ (b == base) = ground arith in rw (back, same) refl;
}

-- The structure at 0x10 gives interrupt 0 the number 2, with active low; that at 0x20 is of a controller
-- with the interrupts from 0 on.
abbrev override_bytes : Bytes
override_bytes a = if a == 0x14 then 2 else if a == 0x18 then 3 else if a == 0x13 then 0 else 0

abbrev one_ioapic : IoapicSubsystemData
one_ioapic = record {
  ioapic_array =
      record {
        ics_ioapic = 0x20;
        physical_base_address = 0xfec00000;
        base = 0x5000;
        ioapic_id = 0;
        version = 0x11;
        maximum_redirection_entry = 24;
      }
      ∷ [];
  source_override_array = some (0x10 ∷ []);
}

abbrev to_processor_1 : Redirection
to_processor_1 = record {
  reidirect_to_lowest_priority = false;
  apic_id_to_redirect = 1;
  trigger_mode = 0;
  polarity = 0;
  mask = false;
  vector = 0x41;
}

abbrev no_registers : Controllers
no_registers = record { selected = λ b. 0; register = λ b i. 0 }

set_ioapic_interrupt_redirection-Redirects_example :
    Redirects window window_registers override_bytes one_ioapic.ioapic_array
      (0x10 ∷ [])
      0
      to_processor_1
      no_registers
      (set_ioapic_interrupt_redirection window override_bytes one_ioapic to_processor_1 0
        no_registers)
set_ioapic_interrupt_redirection-Redirects_example =
    set_ioapic_interrupt_redirection-Redirects window window_registers override_bytes
      one_ioapic.ioapic_array (0x10 ∷ []) 0 one_ioapic to_processor_1 no_registers refl refl
      (record {
        vector = omega arith;
        apic_id = omega arith;
        polarity = omega arith;
        trigger_mode = omega arith;
      })
      (omega arith)
