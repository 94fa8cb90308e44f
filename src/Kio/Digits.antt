-- ===== src/Kio/Digits.antt =====
-- The digits of a number in the buffer, and the value that they have.
use native.Mathlib.Decide.{ℕ_discrete}
use native.Mathlib.Nat.{mod-add-div, div-lt_iff_lt-mul, mod-lt, pow-zero, pow-suc}
use garbage_os.Base.{
  ℕ, zero, suc, ◌+◌, ◌-◌, ◌*◌, ◌/◌, ◌%◌, ◌^◌, ◌≤◌, ◌<◌, ◌≡◌, refl, sym, ap, ◌∙◌, subst, true, List,
  [], ◌∷◌, ◌++◌, All, length, length-append, set, arith, ltb, ◌==◌, eq→==, ne→==_false,
  if◌then◌else◌, Outcome, ok,
}
use garbage_os.Kio.Numbers.{fill_digits, fill_digit_buffer, cleared}

-- The digits of `n`, the lowest first, at most `k` of them.
unfoldable pub digits : (k base n : ℕ) → List ℕ
digits zero base n = []
digits (suc k) base n = if n == 0 then [] else n % base ∷ digits k base (n / base)

-- The value of digits, the lowest first.
abbrev pub value : (base : ℕ) → List ℕ → ℕ
value base [] = 0
value base (d ∷ ds) = d + base * value base ds

pub length-cleared : (n : ℕ) → length (cleared n) ≡ n
length-cleared zero = refl
length-cleared (suc n) = ap suc (length-cleared n)

module _ (base : ℕ) (two : 1 < base) where
  pub quotient-lt : (k n : ℕ) → n < base ^ suc k → n / base < base ^ k
  quotient-lt k n h =
      (div-lt_iff_lt-mul (omega (arith, two))).1 (subst (λ p. n < p) (pow-suc base k) h)

  pub value-digits : (k n : ℕ) → n < base ^ k → value base (digits k base n) ≡ n
  unfolding digits
  value-digits zero n h = omega (arith, subst (λ p. n < p) (pow-zero base) h)
  value-digits (suc k) n h = elim (ℕ_discrete n 0) [
    | yes e ↦ rw (eq→== n 0 e) (sym e)
    | no ne ↦
        rw (ne→==_false n 0 ne, value-digits k (n / base) (quotient-lt k n h)) (mod-add-div n base)
  ]

  pub digits-All : (k n : ℕ) → All (λ d. d < base) (digits k base n)
  unfolding digits
  digits-All zero n = tt
  digits-All (suc k) n = elim (ℕ_discrete n 0) [
    | yes e ↦ rw (eq→== n 0 e) tt
    | no ne ↦ rw (ne→==_false n 0 ne) (mod-lt n (omega (arith, two)), digits-All k (n / base))
  ]

  pub length-digits : (k n : ℕ) → length (digits k base n) ≤ k
  unfolding digits
  length-digits zero n = omega arith
  length-digits (suc k) n = elim (ℕ_discrete n 0) [
    | yes e ↦ rw (eq→== n 0 e) (omega arith)
    | no ne ↦ let rest = length-digits k (n / base) in rw (ne→==_false n 0 ne) (omega (arith, rest))
  ]

  set-append :
      (done zs : List ℕ) (d : ℕ) → set (done ++ 0 ∷ zs) (length done) d ≡ (done ++ d ∷ []) ++ zs
  set-append [] zs d = refl
  set-append (x ∷ done) zs d = ap (λ l. x ∷ l) (set-append done zs d)

  append_assoc : (xs ys zs : List ℕ) → (xs ++ ys) ++ zs ≡ xs ++ (ys ++ zs)
  append_assoc [] ys zs = refl
  append_assoc (x ∷ xs) ys zs = ap (λ l. x ∷ l) (append_assoc xs ys zs)

  fill_digits-zero :
      (fuel counter : ℕ) (buffer : List ℕ)
      → fill_digits fuel 0 base counter buffer ≡ ok (counter, buffer)
  unfolding fill_digits
  fill_digits-zero zero counter buffer = refl
  fill_digits-zero (suc fuel) counter buffer = refl

  pub digits-zero : (k : ℕ) → digits k base 0 ≡ []
  unfolding digits
  digits-zero zero = refl
  digits-zero (suc k) = refl

  abbrev Filled : (done ds : List ℕ) (room : ℕ) → Outcome (ℕ × List ℕ)
  Filled done ds room = ok (length done + length ds, done ++ (ds ++ cleared (room - length ds)))

  Filled-none :
      (done : List ℕ) (room : ℕ) → Filled done [] room ≡ ok (length done, done ++ cleared room)
  Filled-none done room =
      let count : length done + 0 ≡ length done = omega arith in
      let left : room - 0 ≡ room = omega arith in
      ap (λ n. ok (n, done ++ cleared (room - 0))) count
      ∙ ap (λ n. ok (length done, done ++ cleared n)) left

  Filled-append :
      (done ds : List ℕ) (d room : ℕ)
      → Filled (done ++ d ∷ []) ds room ≡ Filled done (d ∷ ds) (suc room)
  Filled-append done ds d room =
      let count : length (done ++ d ∷ []) + length ds ≡ length done + suc (length ds) =
        omega (arith, length-append done (d ∷ [])) in
      let left : room - length ds ≡ suc room - suc (length ds) = omega arith in
      ap (λ n. ok (n, (done ++ d ∷ []) ++ (ds ++ cleared (room - length ds)))) count
      ∙ ap (λ n. ok (length done + suc (length ds), (done ++ d ∷ []) ++ (ds ++ cleared n))) left
      ∙ ap (λ l. ok (length done + suc (length ds), l))
          (append_assoc done (d ∷ []) (ds ++ cleared (suc room - suc (length ds))))

  -- The digits of `n` follow the ones that are done.
  fill_digits-Filled :
      (k n room fuel : ℕ) (done : List ℕ)
      → n < base ^ k
      → k ≤ fuel
      → k ≤ room
      → length done + room < 2 ^ 8
      → fill_digits fuel n base (length done) (done ++ cleared room)
        ≡ Filled done (digits k base n) room
  unfolding fill_digits digits
  fill_digits-Filled zero n room fuel done h enough fits small =
      let none : n ≡ 0 = omega (arith, subst (λ p. n < p) (pow-zero base) h) in
      rw none
        (fill_digits-zero fuel (length done) (done ++ cleared room) ∙ sym (Filled-none done room))
  fill_digits-Filled (suc k) n room zero done h enough fits small = absurd (omega (arith, enough))
  fill_digits-Filled (suc k) n zero (suc fuel) done h enough fits small =
      absurd (omega (arith, fits))
  fill_digits-Filled (suc k) n (suc room) (suc fuel) done h enough fits small =
      elim (ℕ_discrete n 0) [
        | yes e ↦ rw (eq→== n 0 e) (sym (Filled-none done (suc room)))
        | no ne ↦
            let d = n % base in
            let inside : ltb (length done) (length (done ++ cleared (suc room))) ≡ true =
              ground (arith, length-append done (cleared (suc room))) in
            let count : (length done + 1) % 2 ^ 8 ≡ length (done ++ d ∷ []) =
              omega (arith, length-append done (d ∷ []), small) in
            rw (ne→==_false n 0 ne, inside, count, set-append done (cleared room) d)
              (fill_digits-Filled k (n / base) room fuel (done ++ d ∷ []) (quotient-lt k n h)
                  (omega (arith, enough)) (omega (arith, fits))
                  (omega (arith, length-append done (d ∷ []), small))
                ∙ Filled-append done (digits k base (n / base)) d room)
      ]

  -- The buffer holds the digits of the number, and then zeros.
  pub fill_digit_buffer-digits :
      (k n buffer_size : ℕ)
      → n < base ^ k
      → k ≤ 64
      → k ≤ buffer_size
      → buffer_size < 2 ^ 8
      → fill_digit_buffer n base buffer_size
        ≡ ok (
          length (digits k base n),
          digits k base n ++ cleared (buffer_size - length (digits k base n)),
        )
  unfolding fill_digit_buffer
  fill_digit_buffer-digits k n buffer_size h enough fits small =
      let count : 0 + length (digits k base n) ≡ length (digits k base n) = omega arith in
      fill_digits-Filled k n buffer_size 64 [] h enough fits (omega (arith, small))
      ∙ ap (λ c. ok (c, digits k base n ++ cleared (buffer_size - length (digits k base n)))) count
