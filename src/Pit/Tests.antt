-- ===== src/Pit/Tests.antt =====
-- A timer of 1000 Hz.
use garbage_os.Base.{ℕ, ◌+◌, ◌≤◌, ◌≡◌, ◌⊎◌, true, Option, suc, arith, ok}
use garbage_os.Pit.{Pit, new_pit, pit_freq_hz, get_ms_from_tick_count, pit_wait_ms}
use garbage_os.Pit.Frequency.{real_frequency, real_frequency-bounds}
use garbage_os.Pit.Waits.{Ends, pit_wait_ms-Ends}

real_frequency-bounds_example :
    (18 ≤ real_frequency 1000)
    × (real_frequency 1000 ≤ pit_freq_hz)
    × ((1000 ≤ real_frequency 1000) ⊎ (real_frequency 1000 ≡ pit_freq_hz))
real_frequency-bounds_example = real_frequency-bounds 1000 (omega arith)

abbrev pit_1000_hz : Pit
pit_1000_hz = new_pit 1000 0x41 0

-- Every read finds one more tick.
pit_wait_ms-Ends_example :
    (v : Option ℕ) × (pit_wait_ms pit_1000_hz true 10 100 (λ i. 7 + i) ≡ ok v)
    × Ends (get_ms_from_tick_count pit_1000_hz) 7 10 9 (λ i. 7 + suc i) v
pit_wait_ms-Ends_example =
    pit_wait_ms-Ends pit_1000_hz 10 100 9 (λ i. 7 + i) (omega arith) (omega arith) (omega arith)
      (omega arith) (omega arith) (omega arith)
