-- ===== src/Mp.antt =====
-- kernel/mp/mp_initialization.c: the start of the other processors. The trampoline, the stacks and the
-- timer are parameters, and so is each processor's own entry.
pub mod Waits
mod Tests
use garbage_os.Base.{
  ℕ, zero, suc, ◌+◌, ◌-◌, ◌/◌, ◌%◌, ◌^◌, Option, none, some, List, [], ◌∷◌, length, ltb, ◌==◌, ◌!=◌,
  if◌then◌else◌, Outcome, ok, panic, generic_error, ◌>>=◌, ◌>>◌,
}

-- `MPInitError`
pub data MpInitError : Type 0 where
  error_mp_ok error_mp_partial_startup error_mp_startup_failed : MpInitError

-- What the start uses of the machine. The waits are those of the timer.
pub record Platform : Type 1 where
  pub State : Type 0
  pub send_ipi_init_to_all_excluding_self : State → Outcome State
  pub send_startup_ipi : (lapic_id_target interrupt_vector : ℕ) → State → Outcome State
  pub pit_wait_ms : (ms : ℕ) → State → Outcome State
  pub pit_wait_us : (us : ℕ) → State → Outcome State
  pub get_logical_core_lapic_id : State → Outcome (ℕ × State)
  -- The physical address of the code that the processors start with, in the first megabyte.
  pub set_up_trampoline : State → Outcome (ℕ × State)
  -- `atomic_load(&mp_gdata.initialized_APs)`
  pub load_initialized_aps : State → ℕ × State

module _ (p : Platform) where
  -- One processor is started twice.
  unfoldable pub start_up : (lapic_id vector_addr : ℕ) → p.State → Outcome p.State
  start_up lapic_id vector_addr s = do
    s₁ ← p.send_startup_ipi lapic_id vector_addr s
    s₂ ← p.pit_wait_us 200 s₁
    s₃ ← p.send_startup_ipi lapic_id vector_addr s₂
    p.pit_wait_us 200 s₃

  -- The loop over the identifiers, without that of this processor.
  unfoldable pub start_each :
      (lapic_ids : List ℕ) (bsp_lapic_id vector_addr : ℕ) → p.State → Outcome p.State
  start_each [] bsp_lapic_id vector_addr s = ok s
  start_each (id ∷ lapic_ids) bsp_lapic_id vector_addr s = do
    s₁ ← (if id == bsp_lapic_id then ok s else start_up id vector_addr s)
    start_each lapic_ids bsp_lapic_id vector_addr s₁

  -- The loop for the processors. `attempts_count` is not changed in it, so that the loop is left by its
  -- results only; none if it has not ended after `fuel` rounds.
  unfoldable pub wait_for_aps :
      (number_of_aps fuel : ℕ) → p.State → Outcome (Option (MpInitError × p.State))
  wait_for_aps number_of_aps zero s = ok none
  wait_for_aps number_of_aps (suc fuel) s =
      let initialized = p.load_initialized_aps s in
      if ltb initialized.0 number_of_aps
      then (p.pit_wait_ms 1 initialized.1 >>= λ s₁. wait_for_aps number_of_aps fuel s₁)
      else (if ltb number_of_aps initialized.0
          then panic generic_error
          else ok (some (error_mp_ok, initialized.1)))

  -- `lapic_ids` is none for the result -1 of get_lapic_id_array.
  unfoldable pub init_aps :
      (number_of_logical_cores : ℕ) (lapic_ids : Option (List ℕ)) (fuel : ℕ)
      → p.State
      → Outcome (Option (MpInitError × p.State))
  init_aps number_of_logical_cores lapic_ids fuel s =
      if number_of_logical_cores == 1 then ok (some (error_mp_ok, s)) else (do
        (startup_frame, s₁) ← p.set_up_trampoline s
        ids ← elim lapic_ids [ none ↦ panic generic_error | some ids ↦ ok ids ]
        s₂ ←
            (if length ids != number_of_logical_cores
              then panic generic_error
              else p.send_ipi_init_to_all_excluding_self s₁)
        s₃ ← p.pit_wait_ms 10 s₂
        (bsp_lapic_id, s₄) ← p.get_logical_core_lapic_id s₃
        s₅ ← start_each ids bsp_lapic_id (startup_frame / 2 ^ 12 % 2 ^ 8) s₄
        wait_for_aps (number_of_logical_cores - 1) fuel s₅)
