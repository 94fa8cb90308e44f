-- ===== src/Mp/Waits.antt =====
-- The wait for the processors that have been started.
use garbage_os.Base.{
  ℕ, zero, suc, ◌<◌, ◌≡◌, refl, true, false, none, some, arith, ltb, if◌then◌else◌, ok,
}
use garbage_os.Mp.{error_mp_ok, Platform, wait_for_aps}

-- Where the state of the counter is read, `i` rounds after `s`; a wait of a millisecond lies between.
pub record Reads (p : Platform) (s : ℕ → p.State) (counts : ℕ → ℕ) : Type 0 where
  pub loads : (i : ℕ) → (p.load_initialized_aps (s i)).0 ≡ counts i
  pub waits : (i : ℕ) → p.pit_wait_ms 1 (p.load_initialized_aps (s i)).1 ≡ ok (s (suc i))

-- If round `k` is the first one that reads the number of the processors, and the rounds before read
-- less, the wait ends in that round with success, however late it is; with fewer rounds it does not end.
pub wait_for_aps-first :
    (p : Platform) (s : ℕ → p.State) (counts : ℕ → ℕ) (number_of_aps fuel k : ℕ)
    → Reads p s counts
    → ((i : ℕ) → i < k → counts i < number_of_aps)
    → counts k ≡ number_of_aps
    → wait_for_aps p number_of_aps fuel (s 0)
      ≡ ok (if ltb k fuel then some (error_mp_ok, (p.load_initialized_aps (s k)).1) else none)
unfolding wait_for_aps
wait_for_aps-first p s counts n zero k r less all =
    let never : ltb k 0 ≡ false = ground arith in rw never refl
wait_for_aps-first p s counts n (suc fuel) zero r less all =
    let now : ltb (p.load_initialized_aps (s 0)).0 n ≡ false = ground (arith, r.loads 0, all) in
    let no_more : ltb n (p.load_initialized_aps (s 0)).0 ≡ false = ground (arith, r.loads 0, all) in
    let ends : ltb 0 (suc fuel) ≡ true = ground arith in rw (now, no_more, ends) refl
wait_for_aps-first p s counts n (suc fuel) (suc k) r less all =
    let early : ltb (p.load_initialized_aps (s 0)).0 n ≡ true =
      ground (arith, r.loads 0, less 0 (omega arith)) in
    let shorter : ltb (suc k) (suc fuel) ≡ ltb k fuel = ground arith in
    rw (early, r.waits 0, shorter)
      (wait_for_aps-first p (λ i. s (suc i)) (λ i. counts (suc i)) n fuel k
        (record { loads = λ i. r.loads (suc i); waits = λ i. r.waits (suc i) })
        (λ i h. less (suc i) (omega (arith, h))) all)
