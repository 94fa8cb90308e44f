-- ===== src/Psf.antt =====
-- kernel/psf.c: the glyphs of a font file, and how a character is drawn; kernel/display_interface.c: the
-- pixels. The font file is a function from offsets to bytes, and the screen one from indices to pixels.
pub mod Glyphs
pub mod Draw
mod Tests
use garbage_os.Base.{
  ℕ, zero, suc, ◌+◌, ◌-◌, ◌*◌, ◌/◌, ◌%◌, ◌^◌, Bool, true, false, not, ◌||◌, List, [], ◌∷◌, Option,
  none, some, add64, ltb, leb, ◌==◌, ◌!=◌, if◌then◌else◌, set, get_or, length, Outcome, ok, ◌>>=◌,
  ◌>>◌, kassert,
}

-- `Pixel`
pub record Pixel : Type 0 where
  pub b : ℕ
  pub g : ℕ
  pub r : ℕ
  pub a : ℕ

-- `Color`
pub record Color : Type 0 where
  pub r : ℕ
  pub g : ℕ
  pub b : ℕ
  pub a : ℕ

abbrev pub color_to_pixel : Color → Pixel
color_to_pixel c = record { b = c.b; g = c.g; r = c.r; a = c.a }

abbrev pub pixel_to_color : Pixel → Color
pixel_to_color p = record { r = p.r; g = p.g; b = p.b; a = p.a }

-- `PSFHeader`
pub record PsfHeader : Type 0 where
  pub magic : ℕ
  pub headersize : ℕ
  pub flags : ℕ
  pub numglyph : ℕ
  pub bytesperglyph : ℕ
  pub height : ℕ
  pub width : ℕ

-- The pixels of a glyph by their index.
abbrev pub CachedGlyph : Type 0
CachedGlyph = ℕ → Bool

-- `PSFFont`; the array of glyphs is none for a null pointer, and gives none for an index behind its end.
pub record PsfFont : Type 0 where
  pub header : PsfHeader
  pub ascii_table : List ℕ
  pub is_valid : Bool
  pub has_table : Bool
  pub glyphs : Option (ℕ → Option CachedGlyph)

abbrev pub psf2_magic_number : ℕ
psf2_magic_number = 0x864ab572

abbrev pub ascii_table_size : ℕ
ascii_table_size = 128

-- `(glyph[x/8] << (x%8)) & 0x80`, where `glyph` is the offset of the glyph's line
unfoldable pub is_font_pixel : (file : ℕ → ℕ) (glyph x : ℕ) → Bool
is_font_pixel file glyph x = (file (glyph + x / 8) * 2 ^ (x % 8)) / 0x80 % 2 == 1

module _ {ℓ} {A : Type ℓ} where
  -- `array[i] = value`
  unfoldable pub assign : (ℕ → A) → (i : ℕ) → A → ℕ → A
  assign array i value a = if a == i then value else array a

  -- The loop over a line from column `x` on, for `n` columns.
  unfoldable pub fill_line : (value : ℕ → A) (offset x n : ℕ) → (ℕ → A) → ℕ → A
  fill_line value offset x zero array = array
  fill_line value offset x (suc n) array =
      fill_line value offset (suc x) n (assign array (offset + x) (value x))

  -- The loop over the lines from line `y` on, for `n` lines of `width` columns.
  unfoldable pub fill_lines : (value : ℕ → ℕ → A) (width stride offset y n : ℕ) → (ℕ → A) → ℕ → A
  fill_lines value width stride offset y zero array = array
  fill_lines value width stride offset y (suc n) array =
      fill_lines value width stride (offset + stride) (suc y) n
        (fill_line (value y) offset 0 width array)

-- The offset of line `y` of glyph `i`.
abbrev pub line_at : PsfHeader → (i y : ℕ) → ℕ
line_at h i y = h.headersize + i * h.bytesperglyph + y * ((h.width + 7) / 8)

-- The loop over the display, from line `y` on, for `n` lines of `width` columns; the offset and the
-- indices are 64-bit numbers.
unfoldable pub draw_line {ℓ} : {A : Type ℓ} → (value : ℕ → A) (offset x n : ℕ) → (ℕ → A) → ℕ → A
unfolding assign
draw_line value offset x zero array = array
draw_line value offset x (suc n) array =
    draw_line value offset (suc x) n (assign array (add64 offset x) (value x))

unfoldable pub draw_lines {ℓ} :
    {A : Type ℓ} → (value : ℕ → ℕ → A) (width stride offset y n : ℕ) → (ℕ → A) → ℕ → A
draw_lines value width stride offset y zero array = array
draw_lines value width stride offset y (suc n) array =
    draw_lines value width stride (add64 offset stride) (suc y) n
      (draw_line (value y) offset 0 width array)

-- The pixels of glyph `i`: the sizes are 32-bit numbers, so that no index wraps.
unfoldable pub calc_glyph : (file : ℕ → ℕ) (fresh : ℕ → CachedGlyph) → PsfHeader → ℕ → CachedGlyph
calc_glyph file fresh h i =
    fill_lines (λ y x. is_font_pixel file (line_at h i y) x) h.width h.width 0 0 h.height (fresh i)

-- The array of the glyphs that `calc_glyphs_caches` reads, one for each `i` below `numglyph`; `fresh` is
-- what `kmalloc` returned for glyph `i`.
unfoldable pub calc_glyphs_caches :
    (file : ℕ → ℕ) (fresh : ℕ → CachedGlyph) → PsfHeader → ℕ → Option CachedGlyph
calc_glyphs_caches file fresh h i =
    if ltb i h.numglyph then some (calc_glyph file fresh h i) else none

-- The length of the UTF-8 sequence that starts with the byte `uc`, less one; an invalid one is a byte.
abbrev pub utf8_skip : ℕ → ℕ
utf8_skip uc =
    if uc / 32 % 2 == 0 then 1 else if uc / 16 % 2 == 0 then 2 else if uc / 8 % 2 == 0 then 3 else 0

-- The loop over the table of characters between `s` and `end`: 0xff ends the characters of a glyph.
unfoldable pub read_table : (fuel : ℕ) (file : ℕ → ℕ) (s end glyph : ℕ) → List ℕ → Outcome (List ℕ)
read_table zero file s end glyph table = ok table
read_table (suc fuel) file s end glyph table =
    let uc = file s in
    let multibyte = uc / 128 % 2 == 1 in
    let skip = if uc == 0xff then 0 else if multibyte then utf8_skip uc else 0 in
    let glyph' = if uc == 0xff then (glyph + 1) % 2 ^ 16 else glyph in
    let table' = if uc == 0xff then table else if multibyte then table else set table uc glyph in
    if not (ltb s end) then ok table else (do
      kassert (multibyte || ltb uc ascii_table_size)
      read_table fuel file (s + skip + 1) end glyph' table')

-- `0, 1, …` for `n` entries from `i` on
abbrev pub count_up : (i n : ℕ) → List ℕ
count_up i zero = []
count_up i (suc n) = i ∷ count_up (suc i) n

abbrev pub zeros : ℕ → List ℕ
zeros zero = []
zeros (suc n) = 0 ∷ zeros n

abbrev pub invalid_font : PsfHeader → PsfFont
invalid_font h = record {
  header = h;
  ascii_table = zeros ascii_table_size;
  is_valid = false;
  has_table = false;
  glyphs = none;
}

-- The font of a file whose header is `h`. The product of the sizes is a 32-bit number. The header of
-- an invalid font is a null pointer in the code.
unfoldable pub get_default_psf_font :
    (file : ℕ → ℕ) (file_end : ℕ) (fresh : ℕ → CachedGlyph) → PsfHeader → Outcome PsfFont
get_default_psf_font file file_end fresh h =
    let glyphs = calc_glyphs_caches file fresh h in
    let start = h.bytesperglyph * h.numglyph % 2 ^ 32 + h.headersize in
    if h.magic != psf2_magic_number
    then ok (invalid_font h)
    else if h.flags != 0
    then ok (record {
      header = h;
      ascii_table = count_up 0 ascii_table_size;
      is_valid = true;
      has_table = false;
      glyphs = some glyphs;
    })
    else (do
      table ← read_table file_end file start file_end 0 (zeros ascii_table_size)
      ok (record {
        header = h;
        ascii_table = table;
        is_valid = true;
        has_table = true;
        glyphs = some glyphs;
      }))

-- The index of the glyph of a character.
unfoldable pub unicode_of : PsfFont → (c : ℕ) → ℕ
unicode_of font c = if font.has_table then get_or font.ascii_table c 0 else c

-- `x` and `y` are the position, `size_x` is the width of the buffer. The assertion on the pixels of the
-- glyph, for each pixel that is drawn, fails for a null pointer; a glyph behind the end of the array, which
-- the code does not test for, counts as one.
unfoldable pub write_psf_char :
    PsfFont
    → (c x y size_x : ℕ) (background_color font_color : Color) → (ℕ → Pixel)
    → Outcome (Bool × (ℕ → Pixel))
write_psf_char font c x y size_x background_color font_color buffer =
    if leb 128 c then ok (false, buffer) else draw font.glyphs
  where
    pixel_of : Bool → Pixel
    pixel_of bit = if bit then color_to_pixel font_color else color_to_pixel background_color

    width : ℕ
    width = font.header.width

    height : ℕ
    height = font.header.height

    draw_glyph : Option CachedGlyph → Outcome (Bool × (ℕ → Pixel))
    draw_glyph none = kassert ((height == 0) || (width == 0)) >> ok (true, buffer)
    draw_glyph (some pixels) = ok (
      true,
      draw_lines (λ line column. pixel_of (pixels (line * width + column))) width size_x
          (add64 (y * size_x % 2 ^ 64) x) 0 height buffer,
    )

    draw : Option (ℕ → Option CachedGlyph) → Outcome (Bool × (ℕ → Pixel))
    draw none = kassert false >> ok (false, buffer)
    draw (some glyphs) = draw_glyph (glyphs (unicode_of font c))
