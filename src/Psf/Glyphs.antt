-- ===== src/Psf/Glyphs.antt =====
-- What the loops over the lines of a rectangle leave in an array.
use garbage_os.Base.{
  ℕ, zero, suc, ◌+◌, ◌*◌, ◌^◌, ◌≤◌, add64, ◌<◌, ◌≡◌, ◌≢◌, refl, subst, ◌∙◌, arith, eq→==,
  ne→==_false,
}
use garbage_os.Psf.{draw_line, draw_lines, assign, fill_line, fill_lines}

module _ {ℓ} {A : Type ℓ} where
  pub assign_same : (array : ℕ → A) (i : ℕ) (v : A) → assign array i v i ≡ v
  unfolding assign
  assign_same array i v = rw (eq→== i i refl) refl

  pub assign_other : (array : ℕ → A) (i : ℕ) (v : A) (a : ℕ) → a ≢ i → assign array i v a ≡ array a
  unfolding assign
  assign_other array i v a ne = rw (ne→==_false a i ne) refl

  pub fill_line_outside :
      (value : ℕ → A) (offset x n : ℕ) (array : ℕ → A) (a : ℕ)
      → ((c : ℕ) → x ≤ c → c < x + n → a ≢ offset + c)
      → fill_line value offset x n array a ≡ array a
  unfolding fill_line
  fill_line_outside value offset x zero array a h = refl
  fill_line_outside value offset x (suc n) array a h =
      fill_line_outside value offset (suc x) n _ a
        (λ c low high. h c (omega (arith, low)) (omega (arith, high)))
      ∙ assign_other array (offset + x) (value x) a (h x (omega arith) (omega arith))

  pub fill_line_inside :
      (value : ℕ → A) (offset x n : ℕ) (array : ℕ → A) (c : ℕ)
      → c < n
      → fill_line value offset x n array (offset + (x + c)) ≡ value (x + c)
  unfolding fill_line
  fill_line_inside value offset x zero array c h = absurd (omega (arith, h))
  fill_line_inside value offset x (suc n) array zero h =
      let here : x + 0 ≡ x = omega arith in
      rw here (
        fill_line_outside value offset (suc x) n _ (offset + x) (λ c low high. omega (arith, low))
        ∙ assign_same array (offset + x) (value x))
  fill_line_inside value offset x (suc n) array (suc c) h =
      let step : x + suc c ≡ suc x + c = omega arith in
      rw step (fill_line_inside value offset (suc x) n _ c (omega (arith, h)))

  fill_line_from_start :
      (value : ℕ → A) (offset n : ℕ) (array : ℕ → A) (c : ℕ)
      → c < n
      → fill_line value offset 0 n array (offset + c) ≡ value c
  fill_line_from_start value offset n array c h =
      let start : 0 + c ≡ c = omega arith in
      subst (λ d. fill_line value offset 0 n array (offset + d) ≡ value d) start
        (fill_line_inside value offset 0 n array c h)

  -- Nothing outside of the rectangle changes.
  pub fill_lines_outside :
      (value : ℕ → ℕ → A) (width stride offset y n : ℕ) (array : ℕ → A) (a : ℕ)
      → ((l c : ℕ) → l < n → c < width → a ≢ offset + l * stride + c)
      → fill_lines value width stride offset y n array a ≡ array a
  unfolding fill_lines
  fill_lines_outside value width stride offset y zero array a h = refl
  fill_lines_outside value width stride offset y (suc n) array a h =
      fill_lines_outside value width stride (offset + stride) (suc y) n _ a
        (λ l c hl hc e. h (suc l) c (omega (arith, hl)) hc (omega (arith, e)))
      ∙ fill_line_outside (value y) offset 0 width array a
          (λ c low high e. h 0 c (omega arith) (omega (arith, high)) (omega (arith, e)))

  -- Each place of the rectangle gets the value of its line and column.
  pub fill_lines_inside :
      (value : ℕ → ℕ → A) (width stride offset y n : ℕ) (array : ℕ → A) (l c : ℕ)
      → width ≤ stride
      → l < n
      → c < width
      → fill_lines value width stride offset y n array (offset + l * stride + c) ≡ value (y + l) c
  unfolding fill_lines
  fill_lines_inside value width stride offset y zero array l c w hl hc = absurd (omega (arith, hl))
  fill_lines_inside value width stride offset y (suc n) array zero c w hl hc =
      let place : offset + 0 * stride + c ≡ offset + c = omega arith in
      let line : y + 0 ≡ y = omega arith in
      rw (place, line)
        (fill_lines_outside value width stride (offset + stride) (suc y) n _ (offset + c)
            (λ l' c' hl' hc' e. omega (arith, e, hc, w))
          ∙ fill_line_from_start (value y) offset width array c hc)
  fill_lines_inside value width stride offset y (suc n) array (suc l) c w hl hc =
      let place : offset + suc l * stride + c ≡ (offset + stride) + l * stride + c = omega arith in
      let line : y + suc l ≡ suc y + l = omega arith in
      rw (place, line)
        (fill_lines_inside value width stride (offset + stride) (suc y) n _ l c w
          (omega (arith, hl)) hc)

  -- The loop over the display is the plain one if no index wraps.
  draw_line-fill_line :
      (value : ℕ → A) (offset x n : ℕ) (array : ℕ → A)
      → offset + x + n < 2 ^ 64
      → draw_line value offset x n array ≡ fill_line value offset x n array
  unfolding draw_line fill_line
  draw_line-fill_line value offset x zero array h = refl
  draw_line-fill_line value offset x (suc n) array h =
      let index : add64 offset x ≡ offset + x = omega (arith, h) in
      rw index (draw_line-fill_line value offset (suc x) n _ (omega (arith, h)))

  pub draw_lines-fill_lines :
      (value : ℕ → ℕ → A) (width stride offset y n : ℕ) (array : ℕ → A)
      → offset + n * stride + width < 2 ^ 64
      → draw_lines value width stride offset y n array
        ≡ fill_lines value width stride offset y n array
  unfolding draw_lines fill_lines
  draw_lines-fill_lines value width stride offset y zero array h = refl
  draw_lines-fill_lines value width stride offset y (suc n) array h =
      let next : add64 offset stride ≡ offset + stride = omega (arith, h) in
      rw (next, draw_line-fill_line (value y) offset 0 width array (omega (arith, h)))
        (draw_lines-fill_lines value width stride (offset + stride) (suc y) n _ (omega (arith, h)))
