-- ===== src/Pit/Frequency.antt =====
-- The counter of the timer and its frequency.
use native.Mathlib.Nat.{
  mod-lt, div-add-mod, div-mul-le_self, le-div_iff_mul-le, div-le_self, mul-le-mul_right, mul_comm,
}
use garbage_os.Base.{
  ℕ, ◌+◌, ◌*◌, ◌/◌, ◌%◌, ◌≤◌, ◌<◌, ◌≡◌, refl, subst, ◌⊎◌, inl, inr, false, Bool-cases, arith, ltb,
  ltb→lt,
}
use garbage_os.Pit.{
  pit_freq_hz, get_counter_value_from_frequency, get_frequency_hz_from_counter_value,
}

-- A remainder is too small to round up a frequency.
get_frequency_hz_from_counter_value-quotient :
    (c : ℕ) → 0 < c → c ≤ 0xffff → get_frequency_hz_from_counter_value c ≡ pit_freq_hz / c
unfolding get_frequency_hz_from_counter_value
get_frequency_hz_from_counter_value-quotient c pos small =
    let below = mod-lt pit_freq_hz pos in
    let down : ltb (pit_freq_hz / 2) (pit_freq_hz % c) ≡ false = ground (arith, below, small) in
    rw down refl

-- The frequency of the counter that is chosen for one, which initialize_PIT_timer returns.
abbrev pub real_frequency : (target_frequency_hz : ℕ) → ℕ
real_frequency target_frequency_hz =
    get_frequency_hz_from_counter_value (get_counter_value_from_frequency target_frequency_hz)

-- The counter for a frequency, which is rounded up only above that of the timer.
abbrev Counts : (t c : ℕ) → Type 0
Counts t c = (0 < c) × (c ≤ 0xffff) × ((c ≡ 1) ⊎ (c * t ≤ pit_freq_hz))

get_counter_value_from_frequency-Counts :
    (t : ℕ) → 0 < t → Counts t (get_counter_value_from_frequency t)
unfolding get_counter_value_from_frequency
get_counter_value_from_frequency-Counts t pos =
    let q = pit_freq_hz / t in
    let r = pit_freq_hz % t in
    let whole : t * q + r ≡ pit_freq_hz = div-add-mod pit_freq_hz t in
    let fits : q * t ≤ pit_freq_hz = div-mul-le_self pit_freq_hz t in
    let swap : q * t ≡ t * q = mul_comm q t in
    let below : r < t = mod-lt pit_freq_hz pos in
    elim (Bool-cases (ltb 0 q)) [
      | inr none_whole ↦
          let no_quotient : q ≡ 0 = ground (arith, none_whole) in
          let all : r ≡ pit_freq_hz =
            omega (arith, subst (λ x. t * x + r ≡ pit_freq_hz) no_quotient whole) in
          rw (no_quotient, all) (omega arith, omega arith, inl refl)
      | inl some_whole ↦
          let once : 1 * t ≤ q * t = mul-le-mul_right t (ltb→lt 0 q some_whole) in
          let down : ltb (pit_freq_hz / 2) r ≡ false = ground (arith, once, whole, swap, below) in
          elim (Bool-cases (ltb 0xffff q)) [
            | inl large ↦
                let less : 0xffff * t ≤ q * t =
                  mul-le-mul_right t (omega (arith, ltb→lt 0xffff q large)) in
                rw (down, large) (omega arith, omega arith, inr (omega (arith, less, fits)))
            | inr small ↦
                rw (down, small) (ground (arith, some_whole), ground (arith, small), inr fits)
          ]
    ]

-- The frequency that the timer gets for one that is not 0 is between 18 Hz and its own, and at least the one that is asked for
-- unless that is above its own.
pub real_frequency-bounds :
    (target_frequency_hz : ℕ)
    → 0 < target_frequency_hz
    → (18 ≤ real_frequency target_frequency_hz)
      × (real_frequency target_frequency_hz ≤ pit_freq_hz)
      × ((target_frequency_hz ≤ real_frequency target_frequency_hz)
          ⊎ (real_frequency target_frequency_hz ≡ pit_freq_hz))
real_frequency-bounds t pos =
    let c = get_counter_value_from_frequency t in
    let counts : Counts t c = get_counter_value_from_frequency-Counts t pos in
    let exact : real_frequency t ≡ pit_freq_hz / c =
      get_frequency_hz_from_counter_value-quotient c counts.0 counts.1 in
    rw exact (
      (le-div_iff_mul-le counts.0).1 (omega (arith, counts.1)),
      div-le_self pit_freq_hz c,
      elim counts.2 [
        | inl one ↦ inr (rw one refl)
        | inr fits ↦
            inl ((le-div_iff_mul-le counts.0).1 (subst (λ x. x ≤ pit_freq_hz) (mul_comm c t) fits))
      ],
    )
