-- ===== src/Interrupt/Ipi/Tests.antt =====
-- A command register, and a processor that is started through it.
use garbage_os.Base.{
  ℕ, ◌-◌, ◌*◌, ◌%◌, ◌^◌, ◌≡◌, refl, Bool-cases, inl, inr, none, some, List, [], ◌∷◌, arith, ◌==◌,
  if◌then◌else◌, ok,
}
use garbage_os.Interrupt.Registers.{Registers}
use garbage_os.Interrupt.Apic.{LapicSubsystemData}
use garbage_os.Interrupt.Ipi.{send_startup_ipi}
use garbage_os.Interrupt.Ipi.Sent.{CommandRegister, send_startup_ipi-sent}

pub record Latch : Type 0 where
  pub high : ℕ
  pub sent : List (ℕ × ℕ)
  pub busy : ℕ

-- A controller with the command register alone.
abbrev latch : Registers
latch = record {
  State = Latch;
  write_32 = λ offset value s.
      if offset == 0x300
      then record { high = s.high; sent = (value, s.high) ∷ s.sent; busy = 3 }
      else record { high = value; sent = s.sent; busy = s.busy };
  read_32 = λ offset s.
      if offset == 0x300
      then (
        (if s.busy == 0 then 0 else 2 ^ 12),
        record { high = s.high; sent = s.sent; busy = s.busy - 1 },
      )
      else (s.high % 2 ^ 32, s);
}

latch_register : CommandRegister latch
latch_register = record {
  high = λ s. s.high;
  sent = λ s. s.sent;
  busy = λ s. s.busy;
  write_low = λ v s idle. (refl, refl);
  write_high = λ v s. (refl, refl);
  read_low = λ s. elim (Bool-cases (s.busy == 0)) [
    | inl idle ↦ rw idle (omega arith, refl, refl, refl, refl)
    | inr still ↦ rw still (omega arith, refl, refl, refl, refl)
  ];
  read_high = λ s. (omega arith, refl, refl, refl);
}

abbrev lapic_data : LapicSubsystemData
lapic_data = record {
  lapic_array = none;
  lapic_base_address = 0xfee00000;
  register_space_mapping = some 0x100;
}

-- The last command went to controller 1; processor 2 is started at page 8.
abbrev before : Latch
before = record { high = 2 ^ 24; sent = []; busy = 2 }

send_startup_ipi-sent_example :
    (s' : Latch) × (send_startup_ipi latch lapic_data 5 2 8 before ≡ ok (some s'))
    × (s'.sent ≡ (0x4608, 2 ^ 24) ∷ [])
    × (s'.high ≡ 2 * 2 ^ 24)
unfolding latch_register
send_startup_ipi-sent_example =
    send_startup_ipi-sent latch latch_register lapic_data refl 5 2 8 before (omega arith)
      (omega arith) (omega arith)
