-- ===== src/Mp/Tests.antt =====
-- A processor that reports itself late.
use garbage_os.Base.{ℕ, suc, ◌≡◌, refl, none, some, arith, ltb, if◌then◌else◌, ok}
use garbage_os.Mp.{error_mp_ok, Platform, wait_for_aps}
use garbage_os.Mp.Waits.{wait_for_aps-first}

-- The state is the time in milliseconds; the processor is ready after 40.
abbrev machine : Platform
machine = record {
  State = ℕ;
  send_ipi_init_to_all_excluding_self = λ s. ok s;
  send_startup_ipi = λ lapic_id_target interrupt_vector s. ok s;
  pit_wait_ms = λ ms s. ok (suc s);
  pit_wait_us = λ us s. ok s;
  get_logical_core_lapic_id = λ s. ok (0, s);
  set_up_trampoline = λ s. ok (0x8000, s);
  load_initialized_aps = λ s. (if ltb s 40 then 0 else 1, s);
}

wait_for_aps-first_example :
    wait_for_aps machine 1 50 0 ≡ ok (if ltb 40 50 then some (error_mp_ok, 40) else none)
wait_for_aps-first_example =
    wait_for_aps-first machine (λ i. i) (λ i. if ltb i 40 then 0 else 1) 1 50 40
      (record { loads = λ i. refl; waits = λ i. refl }) (λ i h. ground (arith, h)) refl
