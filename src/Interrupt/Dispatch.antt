-- ===== src/Interrupt/Dispatch.antt =====
-- kernel/interrupt/interrupts.c: the table of handlers and the routine that every interrupt runs. A
-- handler is its address, and 0 is the null pointer. What a handler does is a parameter.
pub mod Installed
mod Tests
use garbage_os.Base.{
  ℕ, Bool, true, false, ltb, ◌==◌, ◌!=◌, if◌then◌else◌, sub64, null, Outcome, ok, ◌>>=◌, ◌>>◌,
  kassert,
}
use garbage_os.Interrupt.Registers.{Registers}
use garbage_os.Interrupt.Apic.{LapicSubsystemData}
use garbage_os.Interrupt.LocalApic.{
  is_local_apic_initialized, is_interrupt_lapic_generated, send_lapic_eoi,
}
use garbage_os.Interrupt.Pic.{
  pic_idt_start, pic_idt_size, is_pic_interrupt_spurious, pic_ack_interrupt,
}

-- `InterruptInfo`
pub record InterruptInfo : Type 0 where
  pub error : ℕ
  pub interrupt_number : ℕ
  pub extra_data : ℕ
  pub saved_context : ℕ

-- The static variables.
pub record Interrupts : Type 0 where
  pub pic_present : Bool
  pub handlers : ℕ → ℕ
  pub extra_data_array : ℕ → ℕ
  pub default_handler : ℕ

abbrev pub max_interrupts : ℕ
max_interrupts = 256

abbrev pub apic_spurious_interrupts_vector : ℕ
apic_spurious_interrupts_vector = 0xff

-- `pic_present` is not changed.
unfoldable pub init_interrupts : Interrupts → Interrupts
init_interrupts t = record {
  pic_present = t.pic_present;
  handlers = λ i. null;
  extra_data_array = λ i. null;
  default_handler = null;
}

-- The array with `v` at `i`.
abbrev pub update : (ℕ → ℕ) → (i v : ℕ) → ℕ → ℕ
update f i v j = if j == i then v else f j

unfoldable pub install_interrupt_handler :
    (interrupt_number handler : ℕ) → Interrupts → Outcome Interrupts
install_interrupt_handler interrupt_number handler t = do
  kassert (ltb interrupt_number max_interrupts)
  ok (record {
    pic_present = t.pic_present;
    handlers = update t.handlers interrupt_number handler;
    extra_data_array = t.extra_data_array;
    default_handler = t.default_handler;
  })

unfoldable pub install_default_interrupt_handler : (handler : ℕ) → Interrupts → Interrupts
install_default_interrupt_handler handler t = record {
  pic_present = t.pic_present;
  handlers = t.handlers;
  extra_data_array = t.extra_data_array;
  default_handler = handler;
}

unfoldable pub set_interrupt_handler_extra_data :
    (interrupt_number extra_data : ℕ) → Interrupts → Outcome Interrupts
set_interrupt_handler_extra_data interrupt_number extra_data t = do
  kassert (ltb interrupt_number max_interrupts)
  ok (record {
    pic_present = t.pic_present;
    handlers = t.handlers;
    extra_data_array = update t.extra_data_array interrupt_number extra_data;
    default_handler = t.default_handler;
  })

-- The handler of the interrupt, or the default one, or none.
abbrev pub handler_of : Interrupts → (interrupt_number : ℕ) → ℕ
handler_of t interrupt_number =
    if t.handlers interrupt_number != null then t.handlers interrupt_number else t.default_handler

abbrev pub info_of :
    Interrupts → (interrupt_number error interrupt_savedcontext : ℕ) → InterruptInfo
info_of t interrupt_number error interrupt_savedcontext = record {
  error = error;
  interrupt_number = interrupt_number;
  extra_data = t.extra_data_array interrupt_number;
  saved_context = interrupt_savedcontext;
}

-- The devices and the handlers.
pub record Platform : Type 1 where
  pub State : Type 0
  pub outb : (port value : ℕ) → State → State
  pub inb : (port : ℕ) → State → ℕ × State
  pub io_wait : State → State
  pub write_32 : (offset value : ℕ) → State → State
  pub read_32 : (offset : ℕ) → State → ℕ × State
  pub call : (handler : ℕ) → InterruptInfo → State → Outcome State

abbrev pub lapic_registers : Platform → Registers
lapic_registers p = record { State = p.State; write_32 = p.write_32; read_32 = p.read_32 }

module _ (p : Platform) (d : LapicSubsystemData) where
  -- The end of the routine: an interrupt of the local controller is acknowledged.
  unfoldable pub acknowledge : (interrupt_number : ℕ) → p.State → Outcome p.State
  acknowledge interrupt_number s = do
    (initialized, s₁) ← is_local_apic_initialized (lapic_registers p) d s
    if initialized
        then (do
          (generated, s₂) ← is_interrupt_lapic_generated (lapic_registers p) d interrupt_number s₁
          if generated then send_lapic_eoi (lapic_registers p) d s₂ else ok s₂)
        else ok s₁

  -- The handler is taken from the table under the lock and called without it.
  unfoldable pub handle :
      Interrupts → (interrupt_number error interrupt_savedcontext : ℕ) → p.State → Outcome p.State
  handle t interrupt_number error interrupt_savedcontext s = do
    let info = info_of t interrupt_number error interrupt_savedcontext
    let handler = handler_of t interrupt_number
    s₁ ← (if handler != null then p.call handler info s else ok s)
    acknowledge interrupt_number s₁

  -- An interrupt in the range of the old controllers, if they are present.
  abbrev pub is_pic_interrupt : Interrupts → (interrupt_number : ℕ) → Bool
  is_pic_interrupt t interrupt_number =
      if t.pic_present then ltb (sub64 interrupt_number pic_idt_start) pic_idt_size else false

  abbrev pub acknowledge_pic : (interrupt_number : ℕ) → p.State → p.State
  acknowledge_pic interrupt_number s =
      let spurious = is_pic_interrupt_spurious p.outb p.inb p.io_wait interrupt_number s in
      pic_ack_interrupt p.outb p.inb p.io_wait interrupt_number spurious.0 spurious.1

  unfoldable pub interrupt_routine :
      Interrupts → (interrupt_number error interrupt_savedcontext : ℕ) → p.State → Outcome p.State
  interrupt_routine t interrupt_number error interrupt_savedcontext s = do
    kassert (ltb interrupt_number max_interrupts)
    if is_pic_interrupt t interrupt_number
        then ok (acknowledge_pic interrupt_number s)
        else (if interrupt_number == apic_spurious_interrupts_vector
            then ok s
            else handle t interrupt_number error interrupt_savedcontext s)
