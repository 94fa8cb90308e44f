-- ===== src/Kio/Printf.antt =====
-- kernel/kio.c: `printf`. The arguments are 64-bit words; `string_at` gives the characters of a string in
-- memory up to its end. Past the last argument the code reads whatever is there, here 0.
use garbage_os.Base.{
  ℕ, zero, suc, ◌%◌, ◌^◌, Bool, true, false, List, [], ◌∷◌, length, ◌==◌, if◌then◌else◌, Outcome,
  ok, ◌>>=◌,
}
use garbage_os.Psf.{Pixel}
use garbage_os.Kio.{KioState, put, puts, unsync_opt_flush}
use garbage_os.Kio.Numbers.{
  unsync_print_uintmax_dec, unsync_print_uintmax_hex, unsync_print_uintmax_hex_not_padded,
}

-- The string starts with the other one.
abbrev pub substr_cmp : (string substr : List ℕ) → Bool
substr_cmp string [] = true
substr_cmp [] (d ∷ substr) = false
substr_cmp (c ∷ string) (d ∷ substr) = if c == d then substr_cmp string substr else false

-- `"u64"` and the other tokens
abbrev pub u64 : List ℕ
u64 = 117 ∷ 54 ∷ 52 ∷ []

abbrev pub h64 : List ℕ
h64 = 104 ∷ 54 ∷ 52 ∷ []

abbrev pub x64 : List ℕ
x64 = 120 ∷ 54 ∷ 52 ∷ []

abbrev pub u32 : List ℕ
u32 = 117 ∷ 51 ∷ 50 ∷ []

abbrev pub h32 : List ℕ
h32 = 104 ∷ 51 ∷ 50 ∷ []

abbrev pub x32 : List ℕ
x32 = 120 ∷ 51 ∷ 50 ∷ []

abbrev pub string_token : List ℕ
string_token = 115 ∷ []

abbrev pub drop : ℕ → List ℕ → List ℕ
drop zero xs = xs
drop (suc n) [] = []
drop (suc n) (x ∷ xs) = drop n xs

-- `va_arg`
abbrev pub va_arg : List ℕ → ℕ
va_arg [] = 0
va_arg (x ∷ xs) = x

-- What is left of the format and of the arguments, with the state.
abbrev pub Progress {ℓ} : Type ℓ → Type ℓ
Progress D = List ℕ × List ℕ × KioState D

module _ {ℓ} {D : Type ℓ} where
  -- A number is printed, and the format moves on by two characters.
  abbrev pub number_token :
      (print_number : ℕ → KioState D → Outcome (KioState D)) (value : ℕ)
      → Progress D
      → Outcome (Progress D)
  number_token print_number value (format, args, s) = do
    s' ← print_number value s
    ok (drop 2 format, drop 1 args, s')

  -- The first chain of tests. The next one follows it without an `else`.
  unfoldable pub token_64 : Progress D → Outcome (Progress D)
  token_64 (format, args, s) =
      if substr_cmp format u64
      then number_token unsync_print_uintmax_dec (va_arg args) (format, args, s)
      else if substr_cmp format h64
      then number_token (λ n. unsync_print_uintmax_hex n 8) (va_arg args) (format, args, s)
      else if substr_cmp format x64
      then number_token (λ n. unsync_print_uintmax_hex_not_padded n 8) (va_arg args)
          (format, args, s)
      else ok (format, args, s)

  module _ (string_at : ℕ → List ℕ) where
    unfoldable pub token_32 : Progress D → Outcome (Progress D)
    token_32 (format, args, s) =
        let low = va_arg args % 2 ^ 32 in
        if substr_cmp format u32
        then number_token unsync_print_uintmax_dec low (format, args, s)
        else if substr_cmp format h32
        then number_token (λ n. unsync_print_uintmax_hex n 4) low (format, args, s)
        else if substr_cmp format x32
        then number_token (λ n. unsync_print_uintmax_hex_not_padded n 4) low (format, args, s)
        else if substr_cmp format string_token
        then ok (format, drop 1 args, puts (string_at (va_arg args)) s)
        else ok (format, args, s)

    -- The character behind a `'%'`, which is 37.
    unfoldable pub elaborate_token : (c : ℕ) → Progress D → Outcome (Progress D)
    elaborate_token c (format, args, s) =
        if c == 37
        then ok (format, args, put 37 s)
        else token_64 (format, args, s) >>= λ p. token_32 p

    -- The loop over the format, at most one round for each of its characters.
    unfoldable pub printf_loop :
        (fuel : ℕ) (token_found : Bool) (format args : List ℕ) → KioState D → Outcome (KioState D)
    printf_loop zero token_found format args s = ok s
    printf_loop (suc fuel) token_found [] args s = ok s
    printf_loop (suc fuel) true (c ∷ format) args s = do
      (format', args', s') ← elaborate_token c (c ∷ format, args, s)
      printf_loop fuel false (drop 1 format') args' s'
    printf_loop (suc fuel) false (c ∷ format) args s =
        let token_found = c == 37 in
        printf_loop fuel token_found format args (if token_found then s else put c s)

    module _ (write_pixels : (pixels : ℕ → Pixel) (size : ℕ) → D → D) where
      unfoldable pub printf : (format args : List ℕ) → KioState D → Outcome (KioState D)
      printf format args s = do
        s' ← printf_loop (length format) false format args s
        unsync_opt_flush write_pixels s'
