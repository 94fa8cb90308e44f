-- ===== src/Pit/Waits.antt =====
-- The loops that wait for the timer.
use native.Mathlib.Nat.{le-div_iff_mul-le}
use garbage_os.Base.{
  ℕ, zero, suc, ◌-◌, ◌*◌, ◌^◌, ◌≤◌, ◌<◌, ◌≡◌, refl, true, false, Bool-cases, inl, inr, Option, some,
  arith, ltb, ltb→lt, ltb_false→le, sub64, mul64, ok,
}
use garbage_os.Pit.{Pit, wait_until, get_ms_from_tick_count, pit_wait_ms}

-- The wait ends with the first read that finds the time elapsed, which is read `k` or one before it.
pub record Ends (elapsed : ℕ → ℕ) (starting_ticks time k : ℕ) (reads : ℕ → ℕ) (o : Option ℕ)
    : Type 0 where
  pub last : ℕ
  pub in_time : last ≤ k
  pub result : o ≡ some (reads last)
  pub over : time ≤ elapsed (sub64 (reads last) starting_ticks)
  pub not_before : (i : ℕ) → i < last → elapsed (sub64 (reads i) starting_ticks) < time

-- A read before the others finds the time not elapsed.
Ends-later :
    (elapsed : ℕ → ℕ) (starting_ticks time k : ℕ) (reads : ℕ → ℕ) (o : Option ℕ)
    → elapsed (sub64 (reads 0) starting_ticks) < time
    → Ends elapsed starting_ticks time k (λ i. reads (suc i)) o
    → Ends elapsed starting_ticks time (suc k) reads o
Ends-later elapsed start time k reads o early e = record {
  last = suc e.last;
  in_time = omega (arith, e.in_time);
  result = e.result;
  over = e.over;
  not_before = before;
}
  where
    before : (i : ℕ) → i < suc e.last → elapsed (sub64 (reads i) start) < time
    before zero h = early
    before (suc i) h = e.not_before i (omega (arith, h))

Ends-now :
    (elapsed : ℕ → ℕ) (starting_ticks time k : ℕ) (reads : ℕ → ℕ)
    → time ≤ elapsed (sub64 (reads 0) starting_ticks)
    → Ends elapsed starting_ticks time k reads (some (reads 0))
Ends-now elapsed start time k reads over = record {
  last = 0;
  in_time = omega arith;
  result = refl;
  over = over;
  not_before = λ i h. absurd (omega (arith, h));
}

wait_until-Ends :
    (elapsed : ℕ → ℕ) (starting_ticks time fuel k : ℕ) (reads : ℕ → ℕ)
    → k < fuel
    → time ≤ elapsed (sub64 (reads k) starting_ticks)
    → Ends elapsed starting_ticks time k reads (wait_until elapsed starting_ticks time fuel reads)
unfolding wait_until
wait_until-Ends elapsed start time zero k reads enough over = absurd (omega (arith, enough))
wait_until-Ends elapsed start time (suc fuel) zero reads enough over =
    let now : ltb (elapsed (sub64 (reads 0) start)) time ≡ false = ground (arith, over) in
    rw now (Ends-now elapsed start time 0 reads over)
wait_until-Ends elapsed start time (suc fuel) (suc k) reads enough over =
    elim (Bool-cases (ltb (elapsed (sub64 (reads 0) start)) time)) [
      | inr now ↦ rw now (Ends-now elapsed start time (suc k) reads (ltb_false→le _ time now))
      | inl early ↦ rw early (
          Ends-later elapsed start time k reads _ (ltb→lt _ time early) (
            wait_until-Ends elapsed start time fuel k (λ i. reads (suc i)) (omega (arith, enough))
              over))
    ]

-- With interrupts enabled, a wait in milliseconds ends if one of the reads of the counter finds enough
-- ticks since the start, which times 1000 have 64 bits: it ends with the first read after which the
-- time has passed.
pub pit_wait_ms-Ends :
    (pit : Pit) (ms fuel k : ℕ) (reads : ℕ → ℕ)
    → 0 < pit.interrupt_frequency
    → k < fuel
    → reads 0 ≤ reads (suc k)
    → (reads (suc k) - reads 0) * 1000 < 2 ^ 64
    → ms * pit.interrupt_frequency ≤ (reads (suc k) - reads 0) * 1000
    → reads (suc k) < 2 ^ 64
    → (v : Option ℕ) × (pit_wait_ms pit true ms fuel reads ≡ ok v)
      × Ends (get_ms_from_tick_count pit) (reads 0) ms k (λ i. reads (suc i)) v
unfolding pit_wait_ms
pit_wait_ms-Ends pit ms fuel k reads runs enough forward fits passed small =
    let ticks : mul64 (sub64 (reads (suc k)) (reads 0)) 1000 ≡ (reads (suc k) - reads 0) * 1000 =
      omega (arith, forward, fits, small) in
    let over : ms ≤ get_ms_from_tick_count pit (sub64 (reads (suc k)) (reads 0)) =
      rw ticks ((le-div_iff_mul-le runs).1 passed) in
    (
      _,
      refl,
      wait_until-Ends (get_ms_from_tick_count pit) (reads 0) ms fuel k (λ i. reads (suc i)) enough
          over,
    )
