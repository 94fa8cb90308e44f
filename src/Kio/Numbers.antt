-- ===== src/Kio/Numbers.antt =====
-- kernel/kio.c: numbers as text. A character is a byte: 48 is `'0'`, 65 is `'A'`, 120 is `'x'`.
use garbage_os.Base.{
  ℕ, zero, suc, ◌+◌, ◌-◌, ◌*◌, ◌/◌, ◌%◌, ◌^◌, List, [], ◌∷◌, ltb, leb, ◌==◌, if◌then◌else◌, set,
  get_or, length, Outcome, ok, ◌>>=◌, ◌>>◌, kassert,
}
use garbage_os.Psf.{Pixel}
use garbage_os.Kio.{KioState, put, unsync_opt_flush}

-- The loop of `fill_digit_buffer`. The counter is a byte. 64 rounds are enough for a 64-bit number.
unfoldable pub fill_digits : (fuel n base counter : ℕ) (buffer : List ℕ) → Outcome (ℕ × List ℕ)
fill_digits zero n base counter buffer = ok (counter, buffer)
fill_digits (suc fuel) n base counter buffer = if n == 0 then ok (counter, buffer) else (do
  kassert (ltb counter (length buffer))
  fill_digits fuel (n / base) base ((counter + 1) % 2 ^ 8) (set buffer counter (n % base)))

-- The digits before the `n` ones that are left are cleared.
abbrev pub cleared : (n : ℕ) → List ℕ
cleared zero = []
cleared (suc n) = 0 ∷ cleared n

unfoldable pub fill_digit_buffer : (n base buffer_size : ℕ) → Outcome (ℕ × List ℕ)
fill_digit_buffer n base buffer_size = fill_digits 64 n base 0 (cleared buffer_size)

abbrev pub hex_char : ℕ → ℕ
hex_char digit = if leb 10 digit then 65 + digit - 10 else 48 + digit

abbrev pub dec_char : ℕ → ℕ
dec_char digit = 48 + digit

module _ {ℓ} {D : Type ℓ} where
  -- The `n` digits from index `low` on, the highest first.
  unfoldable pub put_digits : (char : ℕ → ℕ) (n low : ℕ) (buffer : List ℕ) → KioState D → KioState D
  put_digits char zero low buffer s = s
  put_digits char (suc n) low buffer s =
      put_digits char n low buffer (put (char (get_or buffer (low + n) 0)) s)

  unfoldable pub unsync_print_uintmax_hex :
      (number size_bytes : ℕ) → KioState D → Outcome (KioState D)
  unsync_print_uintmax_hex number size_bytes s = do
    kassert (leb size_bytes 8)
    (count, buffer) ← fill_digit_buffer number 16 16
    let s' = put 120 (put 48 s)
    kassert (leb (size_bytes * 2) 16)
    ok (put_digits hex_char (size_bytes * 2) (16 - size_bytes * 2) buffer s')

  unfoldable pub unsync_print_uintmax_hex_not_padded :
      (number size_bytes : ℕ) → KioState D → Outcome (KioState D)
  unsync_print_uintmax_hex_not_padded number size_bytes s = do
    kassert (leb size_bytes 8)
    (count, buffer) ← fill_digit_buffer number 16 16
    ok (put_digits hex_char count 0 buffer (put 120 (put 48 s)))

  unfoldable pub unsync_print_uintmax_dec : (n : ℕ) → KioState D → Outcome (KioState D)
  unsync_print_uintmax_dec n s = do
    (count, buffer) ← fill_digit_buffer n 10 128
    ok (put_digits dec_char count 0 buffer (if n == 0 then put 48 s else s))

  module _ (write_pixels : (pixels : ℕ → Pixel) (size : ℕ) → D → D) where
    unfoldable pub print_uint64_hex : (number : ℕ) → KioState D → Outcome (KioState D)
    print_uint64_hex number s = do
      (count, buffer) ← fill_digit_buffer number 16 16
      unsync_opt_flush write_pixels (put_digits hex_char 16 0 buffer (put 120 (put 48 s)))

    unfoldable pub print_uint64_dec : (n : ℕ) → KioState D → Outcome (KioState D)
    print_uint64_dec n s = do
      (count, buffer) ← fill_digit_buffer n 10 128
      unsync_opt_flush write_pixels
          (put_digits dec_char count 0 buffer (if n == 0 then put 48 s else s))
