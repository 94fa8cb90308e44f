-- ===== src/Psf/Draw.antt =====
-- How a character of a font is drawn on a buffer of pixels.
use garbage_os.Base.{
  ℕ, ◌+◌, ◌*◌, ◌%◌, ◌^◌, add64, Option, ◌<◌, ◌≡◌, ◌≢◌, refl, ap, ◌∙◌, Bool, true, false, Bool-cases,
  inl, inr, some, arith, if◌then◌else◌, leb, ok,
}
use garbage_os.Psf.{
  Pixel, Color, color_to_pixel, PsfHeader, PsfFont, CachedGlyph, is_font_pixel, fill_lines, line_at,
  calc_glyph, unicode_of, write_psf_char,
}
use garbage_os.Psf.Glyphs.{draw_lines-fill_lines, fill_lines_outside, fill_lines_inside}

-- The pixel of a cached glyph is the bit of the font file.
pub calc_glyph-bits :
    (file : ℕ → ℕ) (fresh : ℕ → CachedGlyph) (h : PsfHeader) (i line column : ℕ)
    → line < h.height
    → column < h.width
    → calc_glyph file fresh h i (line * h.width + column)
      ≡ is_font_pixel file (line_at h i line) column
unfolding calc_glyph
calc_glyph-bits file fresh h i line column hl hc =
    let place : line * h.width + column ≡ 0 + line * h.width + column = omega arith in
    let start : 0 + line ≡ line = omega arith in
    ap
      (fill_lines (λ y x. is_font_pixel file (line_at h i y) x) h.width h.width 0 0 h.height
        (fresh i))
      place
    ∙ fill_lines_inside _ h.width h.width 0 0 h.height (fresh i) line column (omega arith) hl hc
    ∙ ap (λ y. is_font_pixel file (line_at h i y) column) start

-- The index of a pixel of a character at `x`, `y`.
abbrev pub pixel_at : (x y size_x line column : ℕ) → ℕ
pixel_at x y size_x line column = (y * size_x + x) + line * size_x + column

offset_lem :
    (x y size_x line column : ℕ)
    → pixel_at x y size_x line column < 2 ^ 64
    → add64 (y * size_x % 2 ^ 64) x ≡ y * size_x + x
offset_lem x y size_x line column h = omega (arith, h)

-- The rectangle at `x`, `y` shows the bits of glyph `g` in the two colours, and the rest is as before.
pub record Shows (file : ℕ → ℕ) (h : PsfHeader) (g x y size_x : ℕ)
    (background_color font_color : Color) (before after : ℕ → Pixel) : Type 0 where
  pub inside :
      (line column : ℕ)
      → line < h.height
      → column < h.width
      → after (pixel_at x y size_x line column) ≡ (
          if is_font_pixel file (line_at h g line) column
          then color_to_pixel font_color
          else color_to_pixel background_color)
  pub outside :
      (a : ℕ)
      → ((line column : ℕ)
          → line < h.height
          → column < h.width
          → a ≢ pixel_at x y size_x line column)
      → after a ≡ before a

-- Whatever the character, a font with a glyph for each of the first 128 draws in the rectangle only.
pub write_psf_char_outside :
    (font : PsfFont) (glyphs : ℕ → Option CachedGlyph)
    → font.glyphs ≡ some glyphs
    → ((c : ℕ) → c < 128 → (pixels : CachedGlyph) × (glyphs (unicode_of font c) ≡ some pixels))
    → (c x y size_x : ℕ) (background_color font_color : Color) (buffer : ℕ → Pixel)
    → pixel_at x y size_x font.header.height font.header.width < 2 ^ 64
    → (drawn : Bool) × (after : ℕ → Pixel) × (write_psf_char font c x y size_x background_color
          font_color buffer
        ≡ ok (drawn, after))
      × ((a : ℕ)
          → ((line column : ℕ)
              → line < font.header.height
              → column < font.header.width
              → a ≢ pixel_at x y size_x line column)
          → after a ≡ buffer a)
unfolding write_psf_char unicode_of fill_lines
write_psf_char_outside font glyphs e there c x y size_x background_color font_color buffer fits =
    elim (Bool-cases (leb 128 c)) [
      | inl extended ↦ (false, buffer, rw extended refl, λ a h. refl)
      | inr ascii ↦
          let (pixels, found) = there c (ground (arith, ascii)) in
          let start : add64 (y * size_x % 2 ^ 64) x ≡ y * size_x + x =
            offset_lem x y size_x _ _ fits in
          let value : ℕ → ℕ → Pixel = λ line column.
            if pixels (line * font.header.width + column)
            then color_to_pixel font_color
            else color_to_pixel background_color in
          (
            true,
            fill_lines value font.header.width size_x (y * size_x + x) 0 font.header.height buffer,
            rw
                (
                  ascii,
                  e,
                  found,
                  start,
                  draw_lines-fill_lines value font.header.width size_x (y * size_x + x) 0
                      font.header.height buffer fits,
                )
                refl,
            λ a h.
                fill_lines_outside _ font.header.width size_x (y * size_x + x) 0 font.header.height
                  buffer a h,
          )
    ]
