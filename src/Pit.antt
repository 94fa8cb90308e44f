-- ===== src/Pit.antt =====
-- kernel/timer/pit.c: the timer. What is written to its ports is a parameter, as are the table of
-- handlers, the controller of the processor and that of the devices.
pub mod Frequency
pub mod Waits
mod Tests
use garbage_os.Base.{
  ℕ, zero, suc, ◌+◌, ◌*◌, ◌/◌, ◌%◌, ◌^◌, Bool, true, false, Option, none, some, ltb, leb, ◌==◌,
  ◌!=◌, if◌then◌else◌, add64, sub64, mul64, Outcome, ok, ◌>>=◌, ◌>>◌, kassert,
}
use garbage_os.Interrupt.Ioapic.{Redirection}

-- `PIT`; a lock stands for each operation.
pub record Pit : Type 0 where
  pub tick_counter : ℕ
  pub interrupt_frequency : ℕ
  pub interrupt_vector : ℕ
  pub interrupt_receiver_apic_id : ℕ
  pub channel_0_initialized : Bool
  pub channel_2_initialized : Bool

abbrev pub new_pit : (interrupt_frequency interrupt_vector interrupt_receiver_apic_id : ℕ) → Pit
new_pit interrupt_frequency interrupt_vector interrupt_receiver_apic_id = record {
  tick_counter = 0;
  interrupt_frequency = interrupt_frequency;
  interrupt_vector = interrupt_vector;
  interrupt_receiver_apic_id = interrupt_receiver_apic_id;
  channel_0_initialized = false;
  channel_2_initialized = false;
}

abbrev pub with_ticks : Pit → (tick_counter : ℕ) → Pit
with_ticks pit tick_counter = record {
  tick_counter = tick_counter;
  interrupt_frequency = pit.interrupt_frequency;
  interrupt_vector = pit.interrupt_vector;
  interrupt_receiver_apic_id = pit.interrupt_receiver_apic_id;
  channel_0_initialized = pit.channel_0_initialized;
  channel_2_initialized = pit.channel_2_initialized;
}

abbrev pub pit_freq_hz : ℕ
pit_freq_hz = 1193182

abbrev pub channel_0_data_port : ℕ
channel_0_data_port = 0x40

-- `PIT_MODE_COMMAND_PORT`
abbrev pub mode_command_port : ℕ
mode_command_port = 0x42

abbrev pub lsb_first_msb_then : ℕ
lsb_first_msb_then = 3

-- Each assignment replaces the one before it.
unfoldable pub make_control_word : (select_counter read_write mode : ℕ) → Outcome ℕ
make_control_word select_counter read_write mode = do
  kassert (leb mode 5)
  kassert (leb select_counter 4)
  let control_word₁ = mode % 8 * 2
  let control_word₂ = read_write % 4 * 2 ^ 4
  ok (select_counter % 4 * 2 ^ 6)

-- A frequency that is not 0, since it is divided by; the division by 0 traps.
unfoldable pub get_counter_value_from_frequency : (target_frequency_hz : ℕ) → ℕ
get_counter_value_from_frequency target_frequency_hz =
    let counter_value = pit_freq_hz / target_frequency_hz in
    let remainder = pit_freq_hz % target_frequency_hz in
    let rounded = if ltb (pit_freq_hz / 2) remainder then counter_value + 1 else counter_value in
    if ltb 0xffff rounded then 0xffff else rounded

unfoldable pub get_frequency_hz_from_counter_value : (counter_value : ℕ) → ℕ
get_frequency_hz_from_counter_value counter_value =
    let freq = pit_freq_hz / counter_value in
    let remainder = pit_freq_hz % counter_value in
    if ltb (pit_freq_hz / 2) remainder then freq + 1 else freq

abbrev pub get_ms_from_tick_count : Pit → (tick : ℕ) → ℕ
get_ms_from_tick_count pit tick = mul64 tick 1000 / pit.interrupt_frequency

abbrev pub get_us_from_tick_count : Pit → (tick : ℕ) → ℕ
get_us_from_tick_count pit tick = mul64 tick 1000000 / pit.interrupt_frequency

-- What the redirection of the timer's interrupt is, for the processor that enables it.
abbrev pub pit_redirection : (interrupt_vector lapic_id : ℕ) → Redirection
pit_redirection interrupt_vector lapic_id = record {
  reidirect_to_lowest_priority = false;
  apic_id_to_redirect = lapic_id % 2 ^ 8;
  trigger_mode = 0;
  polarity = 0;
  mask = false;
  vector = interrupt_vector;
}

abbrev pub pit_irq : ℕ
pit_irq = 0

pub record Platform : Type 1 where
  pub State : Type 0
  pub outb : (port value : ℕ) → State → State
  pub outw : (port value : ℕ) → State → State
  pub get_logical_core_lapic_id : State → Outcome (ℕ × State)
  pub set_ioapic_interrupt_redirection : Redirection → (irq : ℕ) → State → Outcome State
  -- The handler of the timer, with the timer as its extra data.
  pub install_pit_handler : (interrupt_number : ℕ) → State → Outcome State
  -- To all processors but the one that sends.
  pub send_ipi_to_others : (interrupt_vector : ℕ) → State → Outcome State

module _ (p : Platform) where
  unfoldable pub enable_pit_irq : Pit → p.State → Outcome p.State
  enable_pit_irq pit s = do
    (lapic_id, s₁) ← p.get_logical_core_lapic_id s
    p.set_ioapic_interrupt_redirection (pit_redirection pit.interrupt_vector lapic_id) pit_irq s₁

  unfoldable pub set_mode0_on_channel0 : (counter_value : ℕ) → p.State → Outcome p.State
  set_mode0_on_channel0 counter_value s = do
    control_word ← make_control_word 0 lsb_first_msb_then 0
    ok (p.outw channel_0_data_port counter_value (p.outb mode_command_port control_word s))

  unfoldable pub set_mode2_on_channel0 : (counter_value : ℕ) → p.State → Outcome p.State
  set_mode2_on_channel0 counter_value s = do
    control_word ← make_control_word 0 lsb_first_msb_then 2
    let s₁ = p.outb mode_command_port control_word s
    let s₂ = p.outb channel_0_data_port (counter_value % 2 ^ 8) s₁
    ok (p.outb channel_0_data_port (counter_value / 2 ^ 8 % 2 ^ 8) s₂)

  -- The frequency that is returned is that of the timer.
  unfoldable pub initialize_pit_timer :
      (target_frequency_hz interrupt_vector : ℕ) → p.State → Outcome (Pit × p.State)
  initialize_pit_timer target_frequency_hz interrupt_vector s = do
    s₁ ← p.install_pit_handler interrupt_vector s
    let counter_value = get_counter_value_from_frequency target_frequency_hz
    s₂ ← set_mode2_on_channel0 counter_value s₁
    (lapic_id, s₃) ← p.get_logical_core_lapic_id s₂
    let pit = new_pit (get_frequency_hz_from_counter_value counter_value) interrupt_vector lapic_id
    s₄ ← enable_pit_irq pit s₃
    ok (pit, s₄)

  -- The timer's interrupt, on a processor whose controller has the identifier `lapic_id`.
  unfoldable pub pit_interrupt_handler : Pit → p.State → Outcome (Pit × p.State)
  pit_interrupt_handler pit s = do
    (lapic_id, s₁) ← p.get_logical_core_lapic_id s
    if lapic_id != pit.interrupt_receiver_apic_id then ok (pit, s₁) else (do
      s₂ ← p.send_ipi_to_others pit.interrupt_vector s₁
      ok (with_ticks pit (add64 pit.tick_counter 1), s₂))

-- The loop that waits, on the values that the counter has when it is read, one after the other; none if
-- the time has not passed by the last one. The elapsed time is `elapsed` of the ticks since the start.
unfoldable pub wait_until :
    (elapsed : ℕ → ℕ) (starting_ticks time : ℕ) (fuel : ℕ) (reads : ℕ → ℕ) → Option ℕ
wait_until elapsed starting_ticks time zero reads = none
wait_until elapsed starting_ticks time (suc fuel) reads =
    let rest = wait_until elapsed starting_ticks time fuel (λ i. reads (suc i)) in
    if ltb (elapsed (sub64 (reads 0) starting_ticks)) time then rest else some (reads 0)

-- `reads 0` is the start; the result is the last value that is read.
unfoldable pub pit_wait_ms :
    Pit → (are_interrupts_enabled : Bool) (ms fuel : ℕ) (reads : ℕ → ℕ) → Outcome (Option ℕ)
pit_wait_ms pit are_interrupts_enabled ms fuel reads = do
  kassert are_interrupts_enabled
  ok (wait_until (get_ms_from_tick_count pit) (reads 0) ms fuel (λ i. reads (suc i)))

unfoldable pub pit_wait_us :
    Pit → (are_interrupts_enabled : Bool) (us fuel : ℕ) (reads : ℕ → ℕ) → Outcome (Option ℕ)
pit_wait_us pit are_interrupts_enabled us fuel reads = do
  kassert are_interrupts_enabled
  ok (wait_until (get_us_from_tick_count pit) (reads 0) us fuel (λ i. reads (suc i)))
