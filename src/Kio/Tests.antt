-- ===== src/Kio/Tests.antt =====
-- Text on small screens.
use garbage_os.Kio.Text.{is_digit, parse}
use garbage_os.Psf.{unicode_of}
use garbage_os.Base.{
  ltb, if◌then◌else◌, none, ℕ, ◌/◌, ◌-◌, ◌*◌, ◌^◌, length, All, ◌≡◌, refl, true, false, some, List,
  [], ◌∷◌, arith, ok, ◌>>=◌,
}
use garbage_os.CircularBuffer.Contents.{IsValid}
use garbage_os.Psf.{Pixel, Color, color_to_pixel}
use garbage_os.Kio.{KioState, puts, unsync_flush, unsync_opt_flush}
use garbage_os.Kio.Cursor.{IsOnScreen}
use garbage_os.Kio.Flush.{Flushed, unsync_flush-Flushed}
use garbage_os.Kio.Numbers.{unsync_print_uintmax_dec, unsync_print_uintmax_hex}
use garbage_os.Kio.Numerals.{
  IsNumeral, unsync_print_uintmax_hex-reads, unsync_print_uintmax_dec-IsNumeral,
}
use garbage_os.Kio.Printf.{printf}
use garbage_os.Kio.Format.{
  Piece, plain, percent, dec64, hex32, string, format_of, args_of, print_pieces,
  printf-print_pieces,
}

abbrev white : Color
white = record { r = 255; g = 255; b = 255; a = 0 }

abbrev black : Color
black = record { r = 0; g = 0; b = 0; a = 0 }

-- Two columns and two lines of characters of 2 by 2 pixels; the display keeps what it is shown.
abbrev small_screen : KioState (ℕ → Pixel)
small_screen = record {
  char_buffer = record {
    buffer = 104 ∷ 10 ∷ 105 ∷ 0 ∷ [];
    buffer_size = 4;
    read_idx = 0;
    old_write_idx = 2;
    write_idx = 3;
    data_lost = false;
  };
  device = λ a. color_to_pixel black;
  width = 5;
  height = 4;
  next_x = 0;
  next_y = 2;
  screen_size = 20;
  background_color = black;
  font_color = white;
  font = record {
    header = record {
      magic = 0x864ab572;
      headersize = 32;
      flags = 1;
      numglyph = 128;
      bytesperglyph = 2;
      height = 2;
      width = 2;
    };
    ascii_table = [];
    is_valid = true;
    has_table = false;
    glyphs = some (λ i. if ltb i 128 then some (λ a. true) else none);
  };
  buffer = λ a. color_to_pixel black;
}

abbrev show : (ℕ → Pixel) → ℕ → (ℕ → Pixel) → ℕ → Pixel
show pixels size shown = pixels

on_small_screen : IsOnScreen small_screen
unfolding unicode_of
on_small_screen = record {
  glyphs = λ i. if ltb i 128 then some (λ a. true) else none;
  loaded = refl;
  in_font =
      λ c h. let inside : ltb c 128 ≡ true = ground (arith, h) in ((λ a. true), rw inside refl);
  wide = omega arith;
  tall = omega arith;
  pixels = omega arith;
  size = refl;
  font_width = omega arith;
  font_height = omega arith;
  column = omega arith;
  row = omega arith;
}

waiting_IsValid : IsValid small_screen.char_buffer
waiting_IsValid = record {
  storage = refl;
  small = omega arith;
  read_in = omega arith;
  write_in = omega arith;
}

unsync_flush-Flushed_example :
    (s' : KioState (ℕ → Pixel)) × (unsync_flush show small_screen ≡ ok s')
    × Flushed show small_screen s'
unsync_flush-Flushed_example =
    unsync_flush-Flushed show small_screen on_small_screen waiting_IsValid

unsync_print_uintmax_dec-IsNumeral_example :
    (t : List ℕ) × (unsync_print_uintmax_dec 1204 small_screen ≡ ok (puts t small_screen))
    × IsNumeral 10 1204 t
unsync_print_uintmax_dec-IsNumeral_example =
    unsync_print_uintmax_dec-IsNumeral 1204 small_screen (omega arith)

-- `"a%%%u64%h32%s"`
abbrev pieces : List Piece
pieces = plain 97 ∷ percent ∷ dec64 7 ∷ hex32 9 ∷ string 1 ∷ []

printf-print_pieces_example :
    printf (λ p. 111 ∷ 107 ∷ []) show (format_of pieces) (args_of pieces) small_screen
    ≡ (print_pieces (λ p. 111 ∷ 107 ∷ []) pieces small_screen >>= λ s'. unsync_opt_flush show s')
printf-print_pieces_example =
    printf-print_pieces (λ p. 111 ∷ 107 ∷ []) show pieces small_screen (omega arith)

-- The highest 8 of the 16 digits.
unsync_print_uintmax_hex-reads_example :
    (t : List ℕ) × (unsync_print_uintmax_hex 0x1234567890abcdef 4 small_screen
      ≡ ok (puts (48 ∷ 120 ∷ t) small_screen))
    × All (λ c. is_digit 16 c ≡ true) t
    × (length t ≡ 2 * 4)
    × (parse 16 0 t ≡ 0x1234567890abcdef / 16 ^ (16 - 4 * 2))
unsync_print_uintmax_hex-reads_example =
    unsync_print_uintmax_hex-reads 0x1234567890abcdef 4 small_screen (omega arith) (omega arith)
