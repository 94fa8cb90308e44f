-- ===== src/Interrupt/Dispatch/Tests.antt =====
-- A machine that keeps the handlers it has called.
use garbage_os.Base.{ℕ, ◌≡◌, true, inr, none, List, [], ◌∷◌, arith, ok, ◌>>=◌}
use garbage_os.Interrupt.Apic.{LapicSubsystemData}
use garbage_os.Interrupt.Dispatch.{
  Interrupts, Platform, acknowledge, install_interrupt_handler, set_interrupt_handler_extra_data,
  interrupt_routine,
}
use garbage_os.Interrupt.Dispatch.Installed.{install-interrupt_routine}

abbrev machine : Platform
machine = record {
  State = List ℕ;
  outb = λ port value s. s;
  inb = λ port s. (0, s);
  io_wait = λ s. s;
  write_32 = λ offset value s. s;
  read_32 = λ offset s. (0, s);
  call = λ handler info s. ok (handler ∷ info.extra_data ∷ s);
}

abbrev no_lapic_data : LapicSubsystemData
no_lapic_data = record { lapic_array = none; lapic_base_address = 0; register_space_mapping = none }

abbrev no_handlers : Interrupts
no_handlers = record {
  pic_present = true;
  handlers = λ i. 0;
  extra_data_array = λ i. 0;
  default_handler = 0;
}

install-interrupt_routine_example :
    (do
      t₁ ← install_interrupt_handler 0x41 0x7000 no_handlers
      t₂ ← set_interrupt_handler_extra_data 0x41 0x9000 t₁
      interrupt_routine machine no_lapic_data t₂ 0x41 0 0x100 [])
    ≡ (ok (0x7000 ∷ 0x9000 ∷ []) >>= acknowledge machine no_lapic_data 0x41)
install-interrupt_routine_example =
    install-interrupt_routine machine no_lapic_data no_handlers 0x41 0x7000 0x9000
      (omega arith, inr (inr (omega arith))) (λ e. absurd (omega (arith, e))) 0x41 0 0x100 []
