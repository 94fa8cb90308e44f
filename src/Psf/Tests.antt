-- ===== src/Psf/Tests.antt =====
-- Characters of small fonts.
use garbage_os.Base.{ℕ, ◌≡◌, refl, true, false, some, [], ◌∷◌, if◌then◌else◌, get_or, ◌==◌, ok}
use garbage_os.Psf.{Color, PsfHeader, PsfFont, is_font_pixel, calc_glyphs_caches, read_table}

-- Two glyphs of one byte: the line 10 of two pixels, then the line 01.
abbrev small_header : PsfHeader
small_header = record {
  magic = 0x864ab572;
  headersize = 0;
  flags = 1;
  numglyph = 2;
  bytesperglyph = 1;
  height = 1;
  width = 2;
}

abbrev small_file : ℕ → ℕ
small_file a = if a == 0 then 0x80 else 0x40

abbrev white : Color
white = record { r = 255; g = 255; b = 255; a = 0 }

abbrev black : Color
black = record { r = 0; g = 0; b = 0; a = 0 }

abbrev small_font : PsfFont
small_font = record {
  header = small_header;
  ascii_table = [];
  is_valid = true;
  has_table = false;
  glyphs = some (calc_glyphs_caches small_file (λ i a. false) small_header);
}

bits :
    (is_font_pixel small_file 0 0 ≡ true)
    × (is_font_pixel small_file 0 1 ≡ false)
    × (is_font_pixel small_file 1 0 ≡ false)
    × (is_font_pixel small_file 1 1 ≡ true)
unfolding is_font_pixel
bits = (refl, refl, refl, refl)

-- The character 0, 0xff, the character 1, the two-byte sequence 0xc2 0xa0, 0xff
abbrev table_file : ℕ → ℕ
table_file a = get_or (0 ∷ 0xff ∷ 1 ∷ 0xc2 ∷ 0xa0 ∷ 0xff ∷ []) a 0

table : read_table 6 table_file 0 6 4 (7 ∷ 8 ∷ []) ≡ ok (4 ∷ 5 ∷ [])
unfolding read_table
table = refl
