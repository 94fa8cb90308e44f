-- ===== src/Interrupt/Pic.antt =====
-- kernel/interrupt/pic.c: the two old controllers, by the ports that the code reads and writes. The lock
-- is held for each operation.
use garbage_os.Base.{
  ℕ, ◌+◌, ◌-◌, ◌*◌, ◌/◌, ◌%◌, ◌^◌, Bool, false, ltb, leb, ◌==◌, if◌then◌else◌, sub64, bit_or,
}

abbrev pub master_command_port : ℕ
master_command_port = 0x20

abbrev pub master_data_port : ℕ
master_data_port = 0x21

abbrev pub slave_command_port : ℕ
slave_command_port = 0xa0

abbrev pub slave_data_port : ℕ
slave_data_port = 0xa1

abbrev pub pic_idt_start : ℕ
pic_idt_start = 0x20

abbrev pub pic_idt_size : ℕ
pic_idt_size = 16

-- End of interrupt
abbrev pub pic_eoi : ℕ
pic_eoi = 0x20

-- The port and the line at the controller of the port; `irq_line` is a byte.
abbrev pub mask_line : (irq_line : ℕ) → ℕ × ℕ
mask_line irq_line =
    let line = (irq_line + 2 ^ 8 - pic_idt_start) % 2 ^ 8 in
    if ltb line 8 then (master_data_port, line) else (slave_data_port, line - 8)

-- `value | (1 << line)` and `value & ~(1 << line)`, as bytes
abbrev pub with_bit : (value line : ℕ) → ℕ
with_bit value line = bit_or 32 value (2 ^ line) % 2 ^ 8

abbrev pub without_bit : (value line : ℕ) → ℕ
without_bit value line = if value / 2 ^ line % 2 == 1 then value - 2 ^ line else value

module _ {S : Type 0} (outb : (port value : ℕ) → S → S) (inb : (port : ℕ) → S → ℕ × S)
    (io_wait : S → S) where
  unfoldable pub pic_ack_interrupt : (interrupt_number : ℕ) (spurious : Bool) → S → S
  pic_ack_interrupt interrupt_number spurious s =
      let irq = sub64 interrupt_number pic_idt_start in
      if spurious
      then (if irq == 15 then outb master_command_port pic_eoi s else s)
      else (let s₁ = if leb 8 irq then outb slave_command_port pic_eoi s else s in
          outb master_command_port pic_eoi s₁)

  -- A write and the wait after it.
  abbrev pub out_wait : (port value : ℕ) → S → S
  out_wait port value s = io_wait (outb port value s)

  unfoldable pub disable_pic : S → S
  disable_pic s = outb master_data_port 0xff (outb slave_data_port 0xff s)

  unfoldable pub init_pic : S → S
  init_pic s =
      let s₁ = out_wait slave_command_port 0x11 (out_wait master_command_port 0x11 s) in
      let s₂ = out_wait slave_data_port 0x28 (out_wait master_data_port 0x20 s₁) in
      let s₃ = out_wait slave_data_port 2 (out_wait master_data_port 4 (io_wait s₂)) in
      let s₄ = out_wait slave_data_port 1 (out_wait master_data_port 1 s₃) in disable_pic s₄

  unfoldable pub set_pic_irq_mask : (irq_line : ℕ) → S → S
  set_pic_irq_mask irq_line s =
      let place = mask_line irq_line in
      let value = inb place.0 s in outb place.0 (with_bit value.0 place.1) value.1

  unfoldable pub clear_pic_irq_mask : (irq_line : ℕ) → S → S
  clear_pic_irq_mask irq_line s =
      let place = mask_line irq_line in
      let value = inb place.0 s in outb place.0 (without_bit value.0 place.1) value.1

  -- Both bytes are read from the slave.
  unfoldable pub get_pic_isr : S → ℕ × S
  get_pic_isr s =
      let s₁ = outb slave_command_port 0x0b (outb master_command_port 0x0b s) in
      let high = inb slave_command_port s₁ in
      let low = inb slave_command_port high.1 in (bit_or 16 (high.0 * 2 ^ 8) low.0, low.1)

  unfoldable pub is_pic_interrupt_spurious : (interrupt_number : ℕ) → S → Bool × S
  is_pic_interrupt_spurious interrupt_number s =
      let irq = (interrupt_number + 2 ^ 8 - pic_idt_start) % 2 ^ 8 in
      if irq == 7
      then (let isr = get_pic_isr s in (isr.0 / 2 ^ irq % 2 == 0, isr.1))
      else (false, s)
