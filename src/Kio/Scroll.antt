-- ===== src/Kio/Scroll.antt =====
-- The line by which the screen moves up.
use garbage_os.Base.{
  ℕ, zero, suc, ◌+◌, ◌-◌, ◌%◌, ◌^◌, ◌≤◌, ◌<◌, ◌≡◌, ◌≢◌, refl, ◌∙◌, subst, arith, sub64,
}
use garbage_os.Psf.{Pixel}
use garbage_os.Psf.Glyphs.{assign_same, assign_other}
use garbage_os.Kio.{fill_pixels, move_pixels, scroll}

fill_pixels_outside :
    (pixel : Pixel) (i n : ℕ) (buffer : ℕ → Pixel) (a : ℕ)
    → ((k : ℕ) → k < n → a ≢ i + k)
    → fill_pixels pixel i n buffer a ≡ buffer a
unfolding fill_pixels
fill_pixels_outside pixel i zero buffer a h = refl
fill_pixels_outside pixel i (suc n) buffer a h =
    fill_pixels_outside pixel (suc i) n _ a
      (λ k hk e. h (suc k) (omega (arith, hk)) (omega (arith, e)))
    ∙ assign_other buffer i pixel a (λ e. h 0 (omega arith) (omega (arith, e)))

fill_pixels_inside :
    (pixel : Pixel) (i n : ℕ) (buffer : ℕ → Pixel) (k : ℕ)
    → k < n
    → fill_pixels pixel i n buffer (i + k) ≡ pixel
unfolding fill_pixels
fill_pixels_inside pixel i zero buffer k h = absurd (omega (arith, h))
fill_pixels_inside pixel i (suc n) buffer zero h =
    let here : i + 0 ≡ i = omega arith in
    rw here (
      fill_pixels_outside pixel (suc i) n _ i (λ k hk e. omega (arith, e))
      ∙ assign_same buffer i pixel)
fill_pixels_inside pixel i (suc n) buffer (suc k) h =
    let step : i + suc k ≡ suc i + k = omega arith in
    rw step (fill_pixels_inside pixel (suc i) n _ k (omega (arith, h)))

module _ (offset : ℕ) where
  move_pixels_outside :
      (i n : ℕ) (buffer : ℕ → Pixel) (a : ℕ)
      → ((k : ℕ) → k < n → a ≢ (i + k) - offset)
      → move_pixels offset i n buffer a ≡ buffer a
  unfolding move_pixels
  move_pixels_outside i zero buffer a h = refl
  move_pixels_outside i (suc n) buffer a h =
      move_pixels_outside (suc i) n _ a (λ k hk e. h (suc k) (omega (arith, hk)) (omega (arith, e)))
      ∙ assign_other buffer (i - offset) (buffer i) a (λ e. h 0 (omega arith) (omega (arith, e)))

  -- The pixels that are read were not written yet.
  move_pixels_inside :
      (i n : ℕ) (buffer : ℕ → Pixel) (k : ℕ)
      → offset ≤ i
      → k < n
      → move_pixels offset i n buffer ((i - offset) + k) ≡ buffer (i + k)
  unfolding move_pixels
  move_pixels_inside i zero buffer k low h = absurd (omega (arith, h))
  move_pixels_inside i (suc n) buffer zero low h =
      let here : (i - offset) + 0 ≡ i - offset = omega arith in
      let source : i + 0 ≡ i = omega arith in
      rw (here, source)
        (move_pixels_outside (suc i) n _ (i - offset) (λ k hk e. omega (arith, e, low))
          ∙ assign_same buffer (i - offset) (buffer i))
  move_pixels_inside i (suc n) buffer (suc k) low h =
      let place : (i - offset) + suc k ≡ (suc i - offset) + k = omega (arith, low) in
      let source : i + suc k ≡ suc i + k = omega arith in
      rw (place, source)
        (move_pixels_inside (suc i) n _ k (omega (arith, low)) (omega (arith, h))
          ∙ assign_other buffer (i - offset) (buffer i) (suc i + k) (λ e. omega (arith, e, low)))

record Scrolled (screen_size offset : ℕ) (background : Pixel) (before after : ℕ → Pixel)
    : Type 0 where
  moved : (a : ℕ) → a + offset < screen_size → after a ≡ before (offset + a)
  cleared : (a : ℕ) → screen_size ≤ a + offset → a < screen_size → after a ≡ background
  outside : (a : ℕ) → screen_size ≤ a → after a ≡ before a

module _ (screen_size offset : ℕ) (background : Pixel) (buffer : ℕ → Pixel)
    (line : offset ≤ screen_size) (small : screen_size < 2 ^ 32) where
  start : sub64 screen_size offset % 2 ^ 32 ≡ screen_size - offset
  start = omega (arith, line, small)

  pub scroll_outside :
      (a : ℕ) → screen_size ≤ a → scroll screen_size offset background buffer a ≡ buffer a
  unfolding scroll
  scroll_outside a h = rw start (
      fill_pixels_outside background (screen_size - offset) (screen_size - (screen_size - offset)) _
        a (λ k hk e. omega (arith, e, hk, h))
      ∙ move_pixels_outside offset offset (screen_size - offset) buffer a
          (λ k hk e. omega (arith, e, hk, h)))

  scroll_moved :
      (a : ℕ)
      → a + offset < screen_size
      → scroll screen_size offset background buffer a ≡ buffer (offset + a)
  unfolding scroll
  scroll_moved a h =
      let place : (offset - offset) + a ≡ a = omega arith in
      rw start (
        fill_pixels_outside background (screen_size - offset) (screen_size - (screen_size - offset))
          _ a (λ k hk e. omega (arith, e, hk, h))
        ∙ subst
            (λ b. move_pixels offset offset (screen_size - offset) buffer b ≡ buffer (offset + a))
            place
            (move_pixels_inside offset offset (screen_size - offset) buffer a (omega arith)
              (omega (arith, h))))

  scroll_cleared :
      (a : ℕ)
      → screen_size ≤ a + offset
      → a < screen_size
      → scroll screen_size offset background buffer a ≡ background
  unfolding scroll
  scroll_cleared a h inside =
      let place : (screen_size - offset) + (a - (screen_size - offset)) ≡ a = omega (arith, h) in
      rw start (
        subst
          (λ b.
            fill_pixels background (screen_size - offset) (screen_size - (screen_size - offset))
              (move_pixels offset offset (screen_size - offset) buffer) b
            ≡ background)
          place
          (fill_pixels_inside background (screen_size - offset)
            (screen_size - (screen_size - offset)) _ (a - (screen_size - offset))
            (omega (arith, h, inside, line))))

  -- All pixels move up by `offset`, the places that they leave get the background, and nothing behind the
  -- screen changes.
  scroll-Scrolled :
      Scrolled screen_size offset background buffer (scroll screen_size offset background buffer)
  scroll-Scrolled = record {
    moved = scroll_moved;
    cleared = scroll_cleared;
    outside = scroll_outside;
  }
