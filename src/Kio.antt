-- ===== src/Kio.antt =====
-- kernel/kio.c: text on the screen. A character goes to the circular buffer first; a flush draws all
-- characters of that buffer and hands the pixels to the display. Each operation holds the lock from its
-- first to its last line.
pub mod Scroll
pub mod Cursor
pub mod Flush
pub mod Numbers
pub mod Digits
pub mod Text
pub mod Numerals
pub mod Printf
pub mod Format
mod Tests
use garbage_os.Base.{
  ℕ, zero, suc, ◌+◌, ◌-◌, ◌*◌, ◌/◌, ◌%◌, ◌^◌, Bool, true, false, not, ◌||◌, List, [], ◌∷◌, ltb, leb,
  ◌==◌, ◌!=◌, if◌then◌else◌, add64, sub64, set, get_or, length, Outcome, ok, panic, kio_error,
  check, ◌>>=◌, ◌>>◌, kassert, Option, none, some,
}
use garbage_os.CircularBuffer.{
  CircularBuffer, make_circular_buffer, write_circular_buffer, read_circular_buffer,
  is_circular_buffer_empty, circular_buffer_written_bytes,
}
use garbage_os.Psf.{Pixel, Color, color_to_pixel, PsfHeader, PsfFont, assign, write_psf_char}

-- `KioState` without its lock. `info` of the display is its `width` and `height`, 32-bit numbers, and
-- `device` what its functions act on.
pub record KioState {ℓ} (D : Type ℓ) : Type ℓ where
  pub char_buffer : CircularBuffer
  pub device : D
  pub width : ℕ
  pub height : ℕ
  pub next_x : ℕ
  pub next_y : ℕ
  pub screen_size : ℕ
  pub background_color : Color
  pub font_color : Color
  pub font : PsfFont
  pub buffer : ℕ → Pixel

abbrev pub mul32 : ℕ → ℕ → ℕ
mul32 a b = a * b % 2 ^ 32

-- `buffer[i] = pixel` for `n` indices from `i` on
unfoldable pub fill_pixels : (pixel : Pixel) (i n : ℕ) → (ℕ → Pixel) → ℕ → Pixel
fill_pixels pixel i zero buffer = buffer
fill_pixels pixel i (suc n) buffer = fill_pixels pixel (suc i) n (assign buffer i pixel)

-- `buffer[i-offset] = buffer[i]` for `n` indices from `i` on
unfoldable pub move_pixels : (offset i n : ℕ) → (ℕ → Pixel) → ℕ → Pixel
move_pixels offset i zero buffer = buffer
move_pixels offset i (suc n) buffer =
    move_pixels offset (suc i) n (assign buffer (i - offset) (buffer i))

-- One line up; the last line is cleared.
unfoldable pub scroll : (screen_size offset : ℕ) (background : Pixel) → (ℕ → Pixel) → ℕ → Pixel
scroll screen_size offset background buffer =
    let start = sub64 screen_size offset % 2 ^ 32 in
    fill_pixels background start (screen_size - start)
      (move_pixels offset offset (screen_size - offset) buffer)

module _ {ℓ} {D : Type ℓ} where
  -- `storage` is the memory of the circular buffer, `fresh` that of the pixels.
  abbrev pub init_kio :
      (display : D) (width height : ℕ) (font : PsfFont) (background_color font_color : Color)
      (storage : List ℕ) (stack_garbage : ℕ) (fresh : ℕ → Pixel)
      → KioState D
  init_kio display width height font background_color font_color storage stack_garbage fresh =
      record {
        char_buffer = make_circular_buffer storage stack_garbage 4096;
        device = display;
        width = width;
        height = height;
        next_x = 0;
        next_y = 0;
        screen_size = mul32 height width;
        background_color = background_color;
        font_color = font_color;
        font = font;
        buffer = fill_pixels (color_to_pixel background_color) 0 (mul32 height width) fresh;
      }

  -- The next line, for a line of the font's height; the screen is moved if there is no room for it.
  unfoldable pub next_line : KioState D → KioState D
  next_line s =
      let h = s.font.header.height in
      let full = leb s.height (add64 s.next_y (mul32 h 2)) in
      record s {
        next_x = 0;
        next_y = add64 (if full then sub64 s.next_y h else s.next_y) h;
        buffer =
            if full
            then scroll s.screen_size (mul32 s.width h) (color_to_pixel s.background_color) s.buffer
            else s.buffer;
      }

  unfoldable pub draw_char : (c : ℕ) → KioState D → Outcome (KioState D)
  draw_char c s = do
    (drawn, pixels) ←
        write_psf_char s.font c s.next_x s.next_y s.width s.background_color s.font_color s.buffer
    ok (record s { buffer = pixels; next_x = add64 s.next_x s.font.header.width })

  -- 10 is `'\n'`.
  unfoldable pub unsync_write_char : (c : ℕ) → KioState D → Outcome (KioState D)
  unsync_write_char c s =
      let wraps = leb s.width (add64 s.next_x s.font.header.width) || (c == 10) in
      let s' = if wraps then next_line s else s in if c != 10 then draw_char c s' else ok s'

  -- `unsync_putchar(c, false)`
  abbrev pub put : (c : ℕ) → KioState D → KioState D
  put c s = record s { char_buffer = write_circular_buffer s.char_buffer c }

  -- `unsync_print`
  abbrev pub puts : List ℕ → KioState D → KioState D
  puts [] s = s
  puts (c ∷ cs) s = puts cs (put c s)

  -- The loop of `unsync_flush`, for as many rounds as the buffer has places.
  unfoldable pub flush_chars : (fuel : ℕ) → KioState D → Outcome (KioState D)
  flush_chars zero s = ok s
  flush_chars (suc fuel) s = if is_circular_buffer_empty s.char_buffer then ok s else (do
    (c, b) ← read_circular_buffer s.char_buffer
    s' ← unsync_write_char c (record s { char_buffer = b })
    flush_chars fuel s')

  -- `write_pixels` and `finalize` are the functions of the display.
  module _ (write_pixels : (pixels : ℕ → Pixel) (size : ℕ) → D → D) where
    unfoldable pub unsync_flush : KioState D → Outcome (KioState D)
    unsync_flush s = if is_circular_buffer_empty s.char_buffer then ok s else (do
      s' ← flush_chars s.char_buffer.buffer_size s
      ok (record s' { device = write_pixels s'.buffer s'.screen_size s'.device }))

    unfoldable pub unsync_opt_flush : KioState D → Outcome (KioState D)
    unsync_opt_flush s =
        if leb 32 (circular_buffer_written_bytes s.char_buffer) then unsync_flush s else ok s

    unfoldable pub unsync_putchar : (c : ℕ) (flush : Bool) → KioState D → Outcome (KioState D)
    unsync_putchar c flush s = if flush then unsync_flush (put c s) else ok (put c s)

    unfoldable pub print : List ℕ → KioState D → Outcome (KioState D)
    print str s = unsync_opt_flush (puts str s)

    -- The pixels and the circular buffer are given back at the end.
    unfoldable pub finalize_kio :
        (is_initialized : Bool) (finalize : D → D) → KioState D → Outcome (KioState D)
    finalize_kio is_initialized finalize s = do
      check is_initialized kio_error
      s' ← unsync_flush s
      ok (record s' { device = finalize s'.device })
