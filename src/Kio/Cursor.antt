-- ===== src/Kio/Cursor.antt =====
-- The place of the next character stays on the screen.
use native.Mathlib.Nat.{mul-le-mul_right}
use garbage_os.Base.{
  ℕ, ◌+◌, ◌*◌, ◌^◌, ◌≤◌, ◌<◌, ◌≡◌, refl, sym, ◌∙◌, subst, true, false, Bool-cases, inl, inr, Option,
  some, arith, ◌==◌, ◌!=◌, leb, add64, ok,
}
use garbage_os.Psf.{unicode_of, CachedGlyph, color_to_pixel}
use garbage_os.Psf.Draw.{pixel_at, write_psf_char_outside}
use garbage_os.Kio.{KioState, mul32, next_line, draw_char, unsync_write_char}
use garbage_os.Kio.Scroll.{scroll_outside}

-- A rectangle of the screen has its pixels on the screen.
pub rectangle :
    (width height x y line column fw fh : ℕ)
    → x + fw ≤ width
    → y + fh ≤ height
    → line < fh
    → column < fw
    → pixel_at x y width line column < height * width
rectangle width height x y line column fw fh hx hy hl hc =
    let rows : (y + line + 1) * width ≤ height * width =
      mul-le-mul_right width (omega (arith, hy, hl)) in
    omega (arith, rows, hx, hc)

module _ {ℓ} {D : Type ℓ} where
  -- The font has a glyph for each of the 128 characters, the sizes fit, and a line of the font's height at the next place lies on the screen.
  pub record IsOnScreen (s : KioState D) : Type 0 where
    pub glyphs : ℕ → Option CachedGlyph
    pub loaded : s.font.glyphs ≡ some glyphs
    pub in_font :
        (c : ℕ) → c < 128 → (pixels : CachedGlyph) × (glyphs (unicode_of s.font c) ≡ some pixels)
    pub wide : s.width < 2 ^ 31
    pub tall : s.height < 2 ^ 31
    pub pixels : s.height * s.width < 2 ^ 32
    pub size : s.screen_size ≡ s.height * s.width
    pub font_width : s.font.header.width ≤ s.width
    pub font_height : s.font.header.height ≤ s.height
    pub column : s.next_x ≤ s.width
    pub row : s.next_y + s.font.header.height ≤ s.height

  -- `s'` differs from `s` in the place of the next character and in pixels of the screen.
  pub record Moves (s s' : KioState D) : Type ℓ where
    pub on_screen : IsOnScreen s'
    pub screen_size : s'.screen_size ≡ s.screen_size
    pub char_buffer : s'.char_buffer ≡ s.char_buffer
    pub device : s'.device ≡ s.device
    pub beyond : (a : ℕ) → s.screen_size ≤ a → s'.buffer a ≡ s.buffer a

  pub Moves-refl : (s : KioState D) → IsOnScreen s → Moves s s
  Moves-refl s v = record {
    on_screen = v;
    screen_size = refl;
    char_buffer = refl;
    device = refl;
    beyond = λ a h. refl;
  }

  pub Moves-trans : {s₁ s₂ s₃ : KioState D} → Moves s₁ s₂ → Moves s₂ s₃ → Moves s₁ s₃
  Moves-trans m n = record {
    on_screen = n.on_screen;
    screen_size = n.screen_size ∙ m.screen_size;
    char_buffer = n.char_buffer ∙ m.char_buffer;
    device = n.device ∙ m.device;
    beyond = λ a h. n.beyond a (subst (λ size. size ≤ a) (sym m.screen_size) h) ∙ m.beyond a h;
  }

  next_line-Moves : (s : KioState D) → IsOnScreen s → Moves s (next_line s)
  unfolding next_line
  next_line-Moves s v =
      let h = s.font.header.height in
      let line : h * s.width ≤ s.height * s.width = mul-le-mul_right s.width v.font_height in
      let comm : s.width * h ≡ h * s.width = omega arith in
      let offset : mul32 s.width h ≡ h * s.width = omega (arith, comm, line, v.pixels) in
      elim (Bool-cases (leb s.height (add64 s.next_y (mul32 h 2)))) [
        | inl full ↦ rw full (record {
          on_screen = record {
            glyphs = v.glyphs;
            loaded = v.loaded;
            in_font = v.in_font;
            wide = v.wide;
            tall = v.tall;
            pixels = v.pixels;
            size = v.size;
            font_width = v.font_width;
            font_height = v.font_height;
            column = omega arith;
            row = omega (arith, v.wide, v.tall, v.font_height, v.row);
          };
          screen_size = refl;
          char_buffer = refl;
          device = refl;
          beyond = λ a out.
              scroll_outside s.screen_size (mul32 s.width h) (color_to_pixel s.background_color)
                s.buffer (omega (arith, offset, line, v.size)) (omega (arith, v.size, v.pixels)) a
                out;
        })
        | inr room ↦
            let below : add64 s.next_y (mul32 h 2) < s.height = ground (arith, room) in
            rw room (record {
              on_screen = record {
                glyphs = v.glyphs;
                loaded = v.loaded;
                in_font = v.in_font;
                wide = v.wide;
                tall = v.tall;
                pixels = v.pixels;
                size = v.size;
                font_width = v.font_width;
                font_height = v.font_height;
                column = omega arith;
                row = omega (arith, v.wide, v.tall, v.font_height, v.row, below);
              };
              screen_size = refl;
              char_buffer = refl;
              device = refl;
              beyond = λ a out. refl;
            })
      ]

  first_column :
      (s : KioState D)
      → IsOnScreen s
      → (next_line s).next_x + (next_line s).font.header.width ≤ (next_line s).width
  unfolding next_line
  first_column s v = omega (arith, v.font_width)

  draw_char-Moves :
      (c : ℕ) (s : KioState D)
      → IsOnScreen s
      → s.next_x + s.font.header.width ≤ s.width
      → (s' : KioState D) × (draw_char c s ≡ ok s') × Moves s s'
  unfolding draw_char
  draw_char-Moves c s v room =
      let rows : (s.next_y + s.font.header.height) * s.width ≤ s.height * s.width =
        mul-le-mul_right s.width v.row in
      let below : pixel_at s.next_x s.next_y s.width s.font.header.height s.font.header.width
          < 2 ^ 64 =
        omega (arith, rows, room, v.wide, v.pixels) in
      let (drawn, after, e, outside) =
        write_psf_char_outside s.font v.glyphs v.loaded v.in_font c s.next_x s.next_y s.width
          s.background_color s.font_color s.buffer below in
      (
        record s { buffer = after; next_x = add64 s.next_x s.font.header.width },
        rw e refl,
        record {
          on_screen = record {
            glyphs = v.glyphs;
            loaded = v.loaded;
            in_font = v.in_font;
            wide = v.wide;
            tall = v.tall;
            pixels = v.pixels;
            size = v.size;
            font_width = v.font_width;
            font_height = v.font_height;
            column = omega (arith, room, v.wide);
            row = v.row;
          };
          screen_size = refl;
          char_buffer = refl;
          device = refl;
          beyond = λ a out. outside a (λ line column hl hc e'.
              let small =
                rectangle s.width s.height s.next_x s.next_y line column s.font.header.width
                  s.font.header.height room v.row hl hc in
              omega (arith, small, v.size, out, e'));
        },
      )

  -- A character, whichever it is, is drawn without a panic and leaves the next place on the screen; no
  -- pixel outside of the screen is written.
  pub unsync_write_char-Moves :
      (c : ℕ) (s : KioState D)
      → IsOnScreen s
      → (s' : KioState D) × (unsync_write_char c s ≡ ok s') × Moves s s'
  unfolding unsync_write_char
  unsync_write_char-Moves c s v = elim (Bool-cases (c == 10)) [
    | inl newline ↦
        let same : (c != 10) ≡ false = ground (arith, newline) in
        elim (Bool-cases (leb s.width (add64 s.next_x s.font.header.width))) [
          | inl wraps ↦ rw (newline, wraps, same) (next_line s, refl, next_line-Moves s v)
          | inr room ↦ rw (newline, room, same) (next_line s, refl, next_line-Moves s v)
        ]
    | inr other ↦
        let differs : (c != 10) ≡ true = ground (arith, other) in
        elim (Bool-cases (leb s.width (add64 s.next_x s.font.header.width))) [
          | inl wraps ↦
              let moved = next_line-Moves s v in
              let (s', e, m) = draw_char-Moves c (next_line s) moved.on_screen (first_column s v) in
              rw (other, wraps, differs) (s', e, Moves-trans moved m)
          | inr room ↦
              let narrow : s.next_x + s.font.header.width ≤ s.width =
                ground (arith, room, v.wide, v.column, v.font_width) in
              let (s', e, m) = draw_char-Moves c s v narrow in rw (other, room, differs) (s', e, m)
        ]
  ]
