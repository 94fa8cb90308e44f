-- ===== src/Kio/Format.antt =====
-- What `printf` prints for a format that is put together from its tokens.
use garbage_os.Base.{
  ℕ, zero, suc, ◌+◌, ◌%◌, ◌^◌, ◌≤◌, ◌≡◌, ◌≢◌, refl, sym, ap, ◌∙◌, subst, false, ◌⊎◌, inl, inr, List,
  [], ◌∷◌, All, length, arith, ne→==_false, Outcome, ok, panic, fun_ext, ◌-◌, ◌>>=◌,
}
use garbage_os.Psf.{Pixel}
use garbage_os.Kio.{KioState, put, puts, unsync_opt_flush}
use garbage_os.Kio.Numbers.{
  unsync_print_uintmax_dec, unsync_print_uintmax_hex, unsync_print_uintmax_hex_not_padded,
}
use garbage_os.Kio.Printf.{token_64, token_32, elaborate_token, printf_loop, printf}

-- The pieces of a format with their arguments.
pub data Piece : Type 0 where
  plain : (c : ℕ) → Piece
  percent : Piece
  dec64 hex64 short64 dec32 hex32 short32 : (word : ℕ) → Piece
  string : (pointer : ℕ) → Piece

-- A plain character is not `'%'`.
abbrev pub IsPiece : Piece → Type 0
IsPiece (plain c) = c ≢ 37
IsPiece _ = Unit

abbrev pub format_of : List Piece → List ℕ
format_of [] = []
format_of (plain c ∷ ps) = c ∷ format_of ps
format_of (percent ∷ ps) = 37 ∷ 37 ∷ format_of ps
format_of (dec64 w ∷ ps) = 37 ∷ 117 ∷ 54 ∷ 52 ∷ format_of ps
format_of (hex64 w ∷ ps) = 37 ∷ 104 ∷ 54 ∷ 52 ∷ format_of ps
format_of (short64 w ∷ ps) = 37 ∷ 120 ∷ 54 ∷ 52 ∷ format_of ps
format_of (dec32 w ∷ ps) = 37 ∷ 117 ∷ 51 ∷ 50 ∷ format_of ps
format_of (hex32 w ∷ ps) = 37 ∷ 104 ∷ 51 ∷ 50 ∷ format_of ps
format_of (short32 w ∷ ps) = 37 ∷ 120 ∷ 51 ∷ 50 ∷ format_of ps
format_of (string p ∷ ps) = 37 ∷ 115 ∷ format_of ps

abbrev pub args_of : List Piece → List ℕ
args_of [] = []
args_of (plain c ∷ ps) = args_of ps
args_of (percent ∷ ps) = args_of ps
args_of (dec64 w ∷ ps) = w ∷ args_of ps
args_of (hex64 w ∷ ps) = w ∷ args_of ps
args_of (short64 w ∷ ps) = w ∷ args_of ps
args_of (dec32 w ∷ ps) = w ∷ args_of ps
args_of (hex32 w ∷ ps) = w ∷ args_of ps
args_of (short32 w ∷ ps) = w ∷ args_of ps
args_of (string p ∷ ps) = p ∷ args_of ps

-- A piece that is no plain character takes at least two characters of the format.
piece-cases :
    (p : Piece) (ps : List Piece)
    → ((c : ℕ) × (p ≡ plain c))
      ⊎ (((c : ℕ) → p ≢ plain c) × (length (format_of ps) + 2 ≤ length (format_of (p ∷ ps))))
piece-cases (plain c) ps = inl (c, refl)
piece-cases percent ps = inr (λ c e. absurd cc, omega arith)
piece-cases (dec64 w) ps = inr (λ c e. absurd cc, omega arith)
piece-cases (hex64 w) ps = inr (λ c e. absurd cc, omega arith)
piece-cases (short64 w) ps = inr (λ c e. absurd cc, omega arith)
piece-cases (dec32 w) ps = inr (λ c e. absurd cc, omega arith)
piece-cases (hex32 w) ps = inr (λ c e. absurd cc, omega arith)
piece-cases (short32 w) ps = inr (λ c e. absurd cc, omega arith)
piece-cases (string p) ps = inr (λ c e. absurd cc, omega arith)

module _ {ℓ} {D : Type ℓ} (string_at : ℕ → List ℕ) where
  abbrev pub print_piece : Piece → KioState D → Outcome (KioState D)
  print_piece (plain c) s = ok (put c s)
  print_piece percent s = ok (put 37 s)
  print_piece (dec64 w) s = unsync_print_uintmax_dec w s
  print_piece (hex64 w) s = unsync_print_uintmax_hex w 8 s
  print_piece (short64 w) s = unsync_print_uintmax_hex_not_padded w 8 s
  print_piece (dec32 w) s = unsync_print_uintmax_dec (w % 2 ^ 32) s
  print_piece (hex32 w) s = unsync_print_uintmax_hex (w % 2 ^ 32) 4 s
  print_piece (short32 w) s = unsync_print_uintmax_hex_not_padded (w % 2 ^ 32) 4 s
  print_piece (string p) s = ok (puts (string_at p) s)

  abbrev pub print_pieces : List Piece → KioState D → Outcome (KioState D)
  print_pieces [] s = ok s
  print_pieces (p ∷ ps) s = print_piece p s >>= λ s'. print_pieces ps s'

  end_of_format :
      (fuel : ℕ) (args : List ℕ) (s : KioState D)
      → printf_loop string_at fuel false [] args s ≡ ok s
  unfolding printf_loop
  end_of_format zero args s = refl
  end_of_format (suc fuel) args s = refl

  -- A number is printed before the rest of the second round, whichever of the two chains it is in.
  number_round {κ μ} :
      {A : Type κ} {B : Type μ} (printed : Outcome (KioState D)) (f : KioState D → Outcome A)
      (g : A → Outcome B) (h : B → Outcome (KioState D))
      → (((printed >>= f) >>= g) >>= h) ≡ (printed >>= λ s'. (f s' >>= g) >>= h)
  number_round (ok s') f g h = refl
  number_round (panic e) f g h = refl

  number_round_32 {κ} :
      {A : Type κ} (printed : Outcome (KioState D)) (f : KioState D → Outcome A)
      (h : A → Outcome (KioState D))
      → ((printed >>= f) >>= h) ≡ (printed >>= λ s'. f s' >>= h)
  number_round_32 (ok s') f h = refl
  number_round_32 (panic e) f h = refl

  -- The two rounds for a piece that starts with `'%'`.
  token_rounds :
      (p : Piece) (ps : List Piece) (fuel : ℕ) (s : KioState D)
      → ((c : ℕ) → p ≢ plain c)
      → printf_loop string_at (suc (suc fuel)) false (format_of (p ∷ ps)) (args_of (p ∷ ps)) s ≡ (
          print_piece p s >>= λ s'. printf_loop string_at fuel false (format_of ps) (args_of ps) s')
  unfolding printf_loop elaborate_token token_64 token_32
  token_rounds (plain c) ps fuel s h = absurd (h c refl)
  token_rounds percent ps fuel s h = refl
  token_rounds (dec64 w) ps fuel s h = number_round (unsync_print_uintmax_dec w s) _ _ _
  token_rounds (hex64 w) ps fuel s h = number_round (unsync_print_uintmax_hex w 8 s) _ _ _
  token_rounds (short64 w) ps fuel s h =
      number_round (unsync_print_uintmax_hex_not_padded w 8 s) _ _ _
  token_rounds (dec32 w) ps fuel s h = number_round_32 (unsync_print_uintmax_dec (w % 2 ^ 32) s) _ _
  token_rounds (hex32 w) ps fuel s h =
      number_round_32 (unsync_print_uintmax_hex (w % 2 ^ 32) 4 s) _ _
  token_rounds (short32 w) ps fuel s h =
      number_round_32 (unsync_print_uintmax_hex_not_padded (w % 2 ^ 32) 4 s) _ _
  token_rounds (string p) ps fuel s h = refl

  plain_round :
      (c : ℕ) (ps : List Piece) (fuel : ℕ) (s : KioState D)
      → c ≢ 37
      → printf_loop string_at (suc fuel) false (format_of (plain c ∷ ps)) (args_of (plain c ∷ ps)) s
        ≡ printf_loop string_at fuel false (format_of ps) (args_of ps) (put c s)
  unfolding printf_loop
  plain_round c ps fuel s h = rw (ne→==_false c 37 h) refl

  -- Enough rounds print a piece and leave enough for the others.
  Rounds : (p : Piece) (ps : List Piece) (fuel : ℕ) → KioState D → Type ℓ
  Rounds p ps fuel s =
      (fuel' : ℕ) × (length (format_of ps) ≤ fuel')
      × (printf_loop string_at fuel false (format_of (p ∷ ps)) (args_of (p ∷ ps)) s ≡ (
          print_piece p s >>= λ s'.
          printf_loop string_at fuel' false (format_of ps) (args_of ps) s'))

  plain-Rounds :
      (c : ℕ) (ps : List Piece) (fuel : ℕ) (s : KioState D)
      → c ≢ 37
      → length (format_of (plain c ∷ ps)) ≤ fuel
      → Rounds (plain c) ps fuel s
  unfolding Rounds
  plain-Rounds c ps zero s h enough = absurd (omega (arith, enough))
  plain-Rounds c ps (suc fuel) s h enough = (fuel, omega (arith, enough), plain_round c ps fuel s h)

  piece-Rounds :
      (p : Piece) (ps : List Piece) (fuel : ℕ) (s : KioState D)
      → IsPiece p
      → length (format_of (p ∷ ps)) ≤ fuel
      → Rounds p ps fuel s
  unfolding Rounds
  piece-Rounds p ps fuel s h enough = elim (piece-cases p ps) [
    | inl (c, e) ↦
        subst (λ q. Rounds q ps fuel s) (sym e)
          (plain-Rounds c ps fuel s (subst IsPiece e h)
            (subst (λ q. length (format_of (q ∷ ps)) ≤ fuel) e enough))
    | inr (token, two) ↦ (
      fuel - 2,
      omega (arith, two, enough),
      let rounds : fuel ≡ suc (suc (fuel - 2)) = omega (arith, two, enough) in
          ap (λ n. printf_loop string_at n false (format_of (p ∷ ps)) (args_of (p ∷ ps)) s) rounds
          ∙ token_rounds p ps (fuel - 2) s token,
    )
  ]

  printf_loop-print_pieces :
      (ps : List Piece) (fuel : ℕ) (s : KioState D)
      → All IsPiece ps
      → length (format_of ps) ≤ fuel
      → printf_loop string_at fuel false (format_of ps) (args_of ps) s ≡ print_pieces ps s
  unfolding Rounds
  printf_loop-print_pieces [] fuel s h enough = end_of_format fuel [] s
  printf_loop-print_pieces (p ∷ ps) fuel s h enough =
      let (fuel', enough', rounds) = piece-Rounds p ps fuel s h.0 enough in
      rounds
      ∙ ap (λ f. print_piece p s >>= f)
          (fun_ext (λ s'. printf_loop-print_pieces ps fuel' s' h.1 enough'))

  -- A format that is put together from plain characters, `%%` and the tokens prints its pieces one
  -- after the other, each with its argument, and is then displayed if enough characters wait.
  pub printf-print_pieces :
      (write_pixels : (ℕ → Pixel) → ℕ → D → D) (ps : List Piece) (s : KioState D)
      → All IsPiece ps
      → printf string_at write_pixels (format_of ps) (args_of ps) s
        ≡ (print_pieces ps s >>= λ s'. unsync_opt_flush write_pixels s')
  unfolding printf
  printf-print_pieces write_pixels ps s h =
      ap (λ o. o >>= λ s'. unsync_opt_flush write_pixels s')
        (printf_loop-print_pieces ps (length (format_of ps)) s h (omega arith))
