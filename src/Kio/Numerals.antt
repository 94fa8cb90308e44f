-- ===== src/Kio/Numerals.antt =====
-- The text that a number is printed as, read back.
use native.Mathlib.Decide.{ℕ_discrete}
use native.Mathlib.Nat.{pow-zero}
use garbage_os.Base.{
  ℕ, zero, suc, ◌-◌, ◌*◌, ◌/◌, ◌^◌, ◌≤◌, ◌<◌, ◌≡◌, refl, ◌≢◌, ◌⊎◌, inl, inr, sym, ap, ◌∙◌, subst,
  true, List, All, [], ◌∷◌, ◌++◌, length, length-append, arith, leb, ne→==_false, ok,
}
use garbage_os.Kio.{KioState, put, puts}
use garbage_os.Kio.Numbers.{
  cleared, hex_char, dec_char, unsync_print_uintmax_hex, unsync_print_uintmax_hex_not_padded,
  unsync_print_uintmax_dec,
}
use garbage_os.Kio.Digits.{
  digits, length-cleared, digits-zero, value-digits, digits-All, length-digits,
  fill_digit_buffer-digits,
}
use garbage_os.Kio.Text.{
  is_digit, text-is_digit, digit_of, parse, first, text, put_digits-text, length-text,
  value-append_cleared, All-append_cleared, parse-text, parse-text_low, first-text,
}

-- `t` consists of digits of the base, reads as `n`, is not empty, and starts with `'0'` only for the number 0.
pub record IsNumeral (base n : ℕ) (t : List ℕ) : Type 0 where
  pub characters : All (λ c. is_digit base c ≡ true) t
  pub reads : parse base 0 t ≡ n
  pub nonempty : 0 < length t
  pub leading : n ≢ 0 → digit_of (first t) ≢ 0

hex_reads : (d : ℕ) → d < 16 → digit_of (hex_char d) ≡ d
hex_reads d h = ground (arith, h)

dec_reads : (d : ℕ) → d < 10 → digit_of (dec_char d) ≡ d
dec_reads d h = ground (arith, h)

hex_is_digit : (d : ℕ) → d < 16 → is_digit 16 (hex_char d) ≡ true
hex_is_digit d h = ground (arith, h)

dec_is_digit : (d : ℕ) → d < 10 → is_digit 10 (dec_char d) ≡ true
dec_is_digit d h = ground (arith, h)

digits-nonempty : (k base n : ℕ) → n < base ^ k → n ≢ 0 → 0 < length (digits k base n)
unfolding digits
digits-nonempty zero base n h ne = absurd (omega (arith, subst (λ p. n < p) (pow-zero base) h, ne))
digits-nonempty (suc k) base n h ne = rw (ne→==_false n 0 ne) (omega arith)

module _ {ℓ} {D : Type ℓ} where
  -- A 64-bit number is printed in decimal as the characters '0' to '9' that read as it, without leading
  -- zeros.
  pub unsync_print_uintmax_dec-IsNumeral :
      (n : ℕ) (s : KioState D)
      → n < 2 ^ 64
      → (t : List ℕ) × (unsync_print_uintmax_dec n s ≡ ok (puts t s)) × IsNumeral 10 n t
  unfolding unsync_print_uintmax_dec
  unsync_print_uintmax_dec-IsNumeral n s h =
      let ds = digits 20 10 n in
      let zs = cleared (128 - length ds) in
      let bound : n < 10 ^ 20 = omega (arith, h) in
      let filled =
        fill_digit_buffer-digits 10 (omega arith) 20 n 128 bound (omega arith) (omega arith)
          (omega arith) in
      elim (ℕ_discrete n 0) [
        | yes e ↦ (
          48 ∷ [],
          rw (filled, e, digits-zero 10 (omega arith) 20)
              (ap ok (put_digits-text dec_char 0 0 _ (put 48 s))),
          record {
            characters = (refl, tt);
            reads = sym e;
            nonempty = omega arith;
            leading = λ ne. absurd (ne e);
          },
        )
        | no ne ↦ (
          text dec_char (length ds) 0 (ds ++ zs),
          rw (filled, ne→==_false n 0 ne)
              (ap ok (put_digits-text dec_char (length ds) 0 (ds ++ zs) s)),
          record {
            characters =
                text-is_digit 10 dec_char (omega arith) dec_is_digit (length ds) 0 (ds ++ zs) (
                  All-append_cleared 10 (omega arith) (128 - length ds) ds
                    (digits-All 10 (omega arith) 20 n));
            reads =
                parse-text 10 dec_char (omega arith) dec_reads ds zs
                  (digits-All 10 (omega arith) 20 n)
                ∙ value-digits 10 (omega arith) 20 n bound;
            nonempty = omega (
              arith,
              length-text dec_char (length ds) 0 (ds ++ zs),
              digits-nonempty 20 10 n bound ne,
            );
            leading = λ ne'. first-text 10 dec_char (omega arith) dec_reads 20 n zs bound ne;
          },
        )
      ]

  -- With at most 8 bytes, a 64-bit number is printed in hexadecimal as `0x` and `2 * size_bytes` digits,
  -- from '0' to '9' and 'A' to 'F', which are the highest ones of the 16: the text reads as the quotient by
  -- a power of 16.
  pub unsync_print_uintmax_hex-reads :
      (n size_bytes : ℕ) (s : KioState D)
      → n < 2 ^ 64
      → size_bytes ≤ 8
      → (t : List ℕ) × (unsync_print_uintmax_hex n size_bytes s ≡ ok (puts (48 ∷ 120 ∷ t) s))
        × All (λ c. is_digit 16 c ≡ true) t
        × (length t ≡ 2 * size_bytes)
        × (parse 16 0 t ≡ n / 16 ^ (16 - size_bytes * 2))
  unfolding unsync_print_uintmax_hex
  unsync_print_uintmax_hex-reads n size_bytes s h small =
      let ds = digits 16 16 n in
      let zs = cleared (16 - length ds) in
      let bound : n < 16 ^ 16 = omega (arith, h) in
      let filled =
        fill_digit_buffer-digits 16 (omega arith) 16 n 16 bound (omega arith) (omega arith)
          (omega arith) in
      let guard : leb size_bytes 8 ≡ true = ground (arith, small) in
      let guard' : leb (size_bytes * 2) 16 ≡ true = ground (arith, small) in
      let full : length (ds ++ zs) ≡ 16 = omega (
        arith,
        length-append ds zs,
        length-cleared (16 - length ds),
        length-digits 16 (omega arith) 16 n,
      ) in
      (
        text hex_char (size_bytes * 2) (16 - size_bytes * 2) (ds ++ zs),
        rw (guard, filled, guard')
            (ap ok (
              put_digits-text hex_char (size_bytes * 2) (16 - size_bytes * 2) (ds ++ zs)
                (put 120 (put 48 s)))),
        text-is_digit 16 hex_char (omega arith) hex_is_digit (size_bytes * 2) (16 - size_bytes * 2)
            (ds ++ zs)
            (All-append_cleared 16 (omega arith) (16 - length ds) ds
              (digits-All 16 (omega arith) 16 n)),
        omega (arith, length-text hex_char (size_bytes * 2) (16 - size_bytes * 2) (ds ++ zs)),
        parse-text_low 16 hex_char (omega arith) hex_reads (16 - size_bytes * 2) (size_bytes * 2)
              (ds ++ zs)
              (All-append_cleared 16 (omega arith) (16 - length ds) ds
                (digits-All 16 (omega arith) 16 n))
              (omega (arith, full, small))
            ∙ ap (λ v. v / 16 ^ (16 - size_bytes * 2))
                (value-append_cleared 16 (16 - length ds) ds
                  ∙ value-digits 16 (omega arith) 16 n bound),
      )

  -- Without padding, a 64-bit number is printed in hexadecimal without leading zeros; the number 0 has
  -- no digit at all.
  unsync_print_uintmax_hex_not_padded-reads :
      (n size_bytes : ℕ) (s : KioState D)
      → n < 2 ^ 64
      → size_bytes ≤ 8
      → (t : List ℕ) × (unsync_print_uintmax_hex_not_padded n size_bytes s
          ≡ ok (puts (48 ∷ 120 ∷ t) s))
        × (((n ≡ 0) × (t ≡ [])) ⊎ ((n ≢ 0) × IsNumeral 16 n t))
  unfolding unsync_print_uintmax_hex_not_padded
  unsync_print_uintmax_hex_not_padded-reads n size_bytes s h small =
      let ds = digits 16 16 n in
      let zs = cleared (16 - length ds) in
      let bound : n < 16 ^ 16 = omega (arith, h) in
      let filled =
        fill_digit_buffer-digits 16 (omega arith) 16 n 16 bound (omega arith) (omega arith)
          (omega arith) in
      let guard : leb size_bytes 8 ≡ true = ground (arith, small) in
      (
        text hex_char (length ds) 0 (ds ++ zs),
        rw (guard, filled)
            (ap ok (put_digits-text hex_char (length ds) 0 (ds ++ zs) (put 120 (put 48 s)))),
        elim (ℕ_discrete n 0) [
          | yes e ↦ inl (
            e,
            ap (λ l. text hex_char (length l) 0 (l ++ cleared (16 - length l)))
                (ap (digits 16 16) e ∙ digits-zero 16 (omega arith) 16),
          )
          | no ne ↦ inr (
            ne,
            record {
              characters =
                  text-is_digit 16 hex_char (omega arith) hex_is_digit (length ds) 0 (ds ++ zs) (
                    All-append_cleared 16 (omega arith) (16 - length ds) ds
                      (digits-All 16 (omega arith) 16 n));
              reads =
                  parse-text 16 hex_char (omega arith) hex_reads ds zs
                    (digits-All 16 (omega arith) 16 n)
                  ∙ value-digits 16 (omega arith) 16 n bound;
              nonempty = omega (
                arith,
                length-text hex_char (length ds) 0 (ds ++ zs),
                digits-nonempty 16 16 n bound ne,
              );
              leading = λ ne'. first-text 16 hex_char (omega arith) hex_reads 16 n zs bound ne;
            },
          )
        ],
      )
