-- ===== src/Kio/Flush.antt =====
-- What a flush does to the screen, by the characters that the circular buffer holds.
use garbage_os.Base.{
  ℕ, zero, suc, ◌≤◌, ◌<◌, ◌≡◌, refl, sym, ap, ◌∙◌, subst, Bool, true, false, Bool-cases, ◌||◌, inl,
  inr, List, [], ◌∷◌, length, arith, ◌==◌, ◌!=◌, leb, if◌then◌else◌, Outcome, ok, panic,
  Outcome-cases, ◌>>=◌, add64,
}
use garbage_os.CircularBuffer.{CircularBuffer, is_circular_buffer_empty, read_circular_buffer}
use garbage_os.CircularBuffer.Contents.{
  IsValid, contents, pending, window, length-window, ReadOf, read-ReadOf,
}
use garbage_os.Psf.{Pixel, write_psf_char}
use garbage_os.Kio.{KioState, next_line, draw_char, unsync_write_char, flush_chars, unsync_flush}
use garbage_os.Kio.Cursor.{IsOnScreen, Moves, Moves-refl, unsync_write_char-Moves}

is_empty-contents :
    (b : CircularBuffer) → IsValid b → contents b ≡ [] → is_circular_buffer_empty b ≡ true
unfolding is_circular_buffer_empty
is_empty-contents b v e =
    let none_left : pending b ≡ 0 =
      sym (length-window b.buffer_size b.buffer b.read_idx (pending b)) ∙ ap length e in
    ground (arith, none_left, v.read_in, v.write_in)

not_empty-contents :
    (b : CircularBuffer) (c : ℕ) (cs : List ℕ)
    → IsValid b
    → contents b ≡ c ∷ cs
    → is_circular_buffer_empty b ≡ false
unfolding is_circular_buffer_empty
not_empty-contents b c cs v e =
    let some_left : pending b ≡ suc (length cs) =
      sym (length-window b.buffer_size b.buffer b.read_idx (pending b)) ∙ ap length e in
    ground (arith, some_left, v.read_in, v.write_in)

empty-contents :
    (b : CircularBuffer) → IsValid b → is_circular_buffer_empty b ≡ true → contents b ≡ []
unfolding is_circular_buffer_empty
empty-contents b v e =
    let none_left : pending b ≡ 0 = ground (arith, e, v.read_in, v.write_in) in
    ap (window b.buffer_size b.buffer b.read_idx) none_left

pending-lt : (b : CircularBuffer) → IsValid b → length (contents b) < b.buffer_size
pending-lt b v =
    let held = length-window b.buffer_size b.buffer b.read_idx (pending b) in
    ground (arith, held, v.read_in, v.write_in)

module _ {ℓ} {D : Type ℓ} where
  -- The characters one after the other.
  abbrev pub write_chars : List ℕ → KioState D → Outcome (KioState D)
  write_chars [] s = ok s
  write_chars (c ∷ cs) s = unsync_write_char c s >>= λ s'. write_chars cs s'

  abbrev pub with_buffer : CircularBuffer → KioState D → KioState D
  with_buffer b s = record s { char_buffer = b }

  abbrev with_buffer_result : CircularBuffer → Outcome (KioState D) → Outcome (KioState D)
  with_buffer_result b (ok s) = ok (with_buffer b s)
  with_buffer_result b (panic e) = panic e

  next_line-with_buffer :
      (b : CircularBuffer) (s : KioState D)
      → next_line (with_buffer b s) ≡ with_buffer b (next_line s)
  unfolding next_line
  next_line-with_buffer b s = refl

  draw_char-with_buffer :
      (b : CircularBuffer) (c : ℕ) (s : KioState D)
      → draw_char c (with_buffer b s) ≡ with_buffer_result b (draw_char c s)
  unfolding draw_char
  draw_char-with_buffer b c s =
      elim (Outcome-cases (
        write_psf_char s.font c s.next_x s.next_y s.width s.background_color s.font_color
          s.buffer)) [ inl ((drawn, pixels), e) ↦ rw e refl | inr (code, e) ↦ rw e refl ]

  -- What is drawn does not depend on the characters that wait.
  write_char-with_buffer :
      (b : CircularBuffer) (c : ℕ) (s : KioState D)
      → unsync_write_char c (with_buffer b s) ≡ with_buffer_result b (unsync_write_char c s)
  unfolding unsync_write_char
  write_char-with_buffer b c s =
      by_cases (leb s.width (add64 s.next_x s.font.header.width) || (c == 10)) (c != 10)
    where
      by_cases :
          (wraps drawn : Bool)
          → (let s' = if wraps then next_line (with_buffer b s) else with_buffer b s in
              if drawn then draw_char c s' else ok s')
            ≡ with_buffer_result b (
                let s' = if wraps then next_line s else s in
                if drawn then draw_char c s' else ok s')
      by_cases true true =
          ap (draw_char c) (next_line-with_buffer b s) ∙ draw_char-with_buffer b c (next_line s)
      by_cases true false = ap ok (next_line-with_buffer b s)
      by_cases false true = draw_char-with_buffer b c s
      by_cases false false = refl

  -- All waiting characters are drawn, and none waits any more.
  pub record Drains (s s' : KioState D) : Type ℓ where
    pub empty : contents s'.char_buffer ≡ []
    pub valid : IsValid s'.char_buffer
    pub moves : Moves (with_buffer s'.char_buffer s) s'
    pub drawn : write_chars (contents s.char_buffer) (with_buffer s'.char_buffer s) ≡ ok s'

  IsOnScreen-with :
      (b : CircularBuffer) (s : KioState D) → IsOnScreen s → IsOnScreen (with_buffer b s)
  IsOnScreen-with b s v = record {
    glyphs = v.glyphs;
    loaded = v.loaded;
    in_font = v.in_font;
    wide = v.wide;
    tall = v.tall;
    pixels = v.pixels;
    size = v.size;
    font_width = v.font_width;
    font_height = v.font_height;
    column = v.column;
    row = v.row;
  }

  -- A character drawn first, and then the others.
  Drains-step :
      (b : CircularBuffer) (c : ℕ) (cs : List ℕ) (s s₁ s' : KioState D)
      → contents s.char_buffer ≡ c ∷ cs
      → contents b ≡ cs
      → unsync_write_char c (with_buffer b s) ≡ ok s₁
      → Moves (with_buffer b s) s₁
      → Drains s₁ s'
      → Drains s s'
  Drains-step b c cs s s₁ s' e left drawn₁ m d = record {
    empty = d.empty;
    valid = d.valid;
    moves = record {
      on_screen = d.moves.on_screen;
      screen_size = d.moves.screen_size ∙ m.screen_size;
      char_buffer = refl;
      device = d.moves.device ∙ m.device;
      beyond =
          λ a h. d.moves.beyond a (subst (λ size. size ≤ a) (sym m.screen_size) h) ∙ m.beyond a h;
    };
    drawn =
        let rest : contents s₁.char_buffer ≡ cs = ap contents m.char_buffer ∙ left in
        let first : unsync_write_char c (with_buffer s'.char_buffer s)
            ≡ ok (with_buffer s'.char_buffer s₁) =
          write_char-with_buffer s'.char_buffer c (with_buffer b s)
          ∙ ap (with_buffer_result s'.char_buffer) drawn₁ in
        ap (λ xs. write_chars xs (with_buffer s'.char_buffer s)) e
        ∙ ap (λ o. o >>= λ t. write_chars cs t) first
        ∙ ap (λ xs. write_chars xs (with_buffer s'.char_buffer s₁)) (sym rest)
        ∙ d.drawn;
  }

  Drains-refl :
      (s : KioState D)
      → IsOnScreen s
      → IsValid s.char_buffer
      → contents s.char_buffer ≡ []
      → Drains s s
  Drains-refl s v valid e = record {
    empty = e;
    valid = valid;
    moves = Moves-refl s v;
    drawn = ap (λ xs. write_chars xs s) e;
  }

  flush_chars-Drains :
      (fuel : ℕ) (s : KioState D) (cs : List ℕ)
      → IsOnScreen s
      → IsValid s.char_buffer
      → contents s.char_buffer ≡ cs
      → length cs < fuel
      → (s' : KioState D) × (flush_chars fuel s ≡ ok s') × Drains s s'
  unfolding flush_chars
  flush_chars-Drains zero s cs v valid e h = absurd (omega (arith, h))
  flush_chars-Drains (suc fuel) s [] v valid e h =
      rw (is_empty-contents s.char_buffer valid e) (s, refl, Drains-refl s v valid e)
  flush_chars-Drains (suc fuel) s (c ∷ cs) v valid e h =
      let (b, read, left, valid') =
        subst (λ xs. ReadOf xs (read_circular_buffer s.char_buffer)) e (read-ReadOf valid) in
      let (s₁, drawn, m) = unsync_write_char-Moves c (with_buffer b s) (IsOnScreen-with b s v) in
      let (s', rest, d) =
        flush_chars-Drains fuel s₁ cs m.on_screen (subst IsValid (sym m.char_buffer) valid')
          (ap contents m.char_buffer ∙ left) (omega (arith, h)) in
      rw (not_empty-contents s.char_buffer c cs valid e, read, drawn)
        (s', rest, Drains-step b c cs s s₁ s' e left drawn m d)

  -- `s'` is `s` with all waiting characters drawn, and, if there were any, handed to the display.
  pub record Flushed (write_pixels : (ℕ → Pixel) → ℕ → D → D) (s s' : KioState D) : Type ℓ where
    pub undisplayed : KioState D
    pub drains : Drains s undisplayed
    pub displayed : s' ≡ (
        if is_circular_buffer_empty s.char_buffer then undisplayed else record undisplayed {
          device = write_pixels undisplayed.buffer undisplayed.screen_size s.device;
        })

  -- A flush on a screen that the place of the next character lies on, with a font that has a glyph for each
  -- of the 128 characters, ends without a panic: it draws the characters that the buffer holds, the oldest
  -- first, leaves the buffer empty, and hands the screen to the display if there were any.
  pub unsync_flush-Flushed :
      (write_pixels : (ℕ → Pixel) → ℕ → D → D) (s : KioState D)
      → IsOnScreen s
      → IsValid s.char_buffer
      → (s' : KioState D) × (unsync_flush write_pixels s ≡ ok s') × Flushed write_pixels s s'
  unfolding unsync_flush
  unsync_flush-Flushed write_pixels s v valid =
      let (t, run, d) =
        flush_chars-Drains s.char_buffer.buffer_size s (contents s.char_buffer) v valid refl
          (pending-lt s.char_buffer valid) in
      elim (Bool-cases (is_circular_buffer_empty s.char_buffer)) [
        | inl none_wait ↦ rw none_wait (
          s,
          refl,
          record {
            undisplayed = s;
            drains = Drains-refl s v valid (empty-contents s.char_buffer valid none_wait);
            displayed = rw none_wait refl;
          },
        )
        | inr some_wait ↦
            rw (some_wait, run)
              (
                record t { device = write_pixels t.buffer t.screen_size t.device },
                refl,
                record {
                  undisplayed = t;
                  drains = d;
                  displayed = rw some_wait (
                      ap
                        (λ device. record t { device = write_pixels t.buffer t.screen_size device })
                        d.moves.device);
                },
              )
      ]
