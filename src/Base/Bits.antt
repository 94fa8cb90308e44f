-- ===== src/Base/Bits.antt =====
-- The bitwise `|` of two numbers of `w` bits.
use Prim.Native.Nat.{ℕ, zero, suc, ◌+◌, ◌*◌, ◌/◌, ◌%◌, ◌^◌, ◌<◌}
use mathlib.Core.Path.{◌≡◌, refl, sym, ap, ◌∙◌, subst}
use mathlib.Core.Bool.{◌||◌}
use native.Mathlib.Omega.{arith, pow_step}
use native.Mathlib.Nat.{add-mul, mul_left_comm}
use garbage_os.Base.Tests.{◌==◌, if◌then◌else◌}

unfoldable pub bit_or : (w a b : ℕ) → ℕ
bit_or zero a b = 0
bit_or (suc w) a b =
    let rest = bit_or w (a / 2) (b / 2) in
    (if (a % 2 == 1) || (b % 2 == 1) then 1 else 0) + 2 * rest

abbrev pub or64 : ℕ → ℕ → ℕ
or64 a b = bit_or 64 a b

pub bit_or_comm : (w a b : ℕ) → bit_or w a b ≡ bit_or w b a
unfolding bit_or
bit_or_comm zero a b = refl
bit_or_comm (suc w) a b = ground (arith, bit_or_comm w (a / 2) (b / 2))

-- One bit below the others.
bit_or-double : (w b a c : ℕ) → b < 2 → bit_or (suc w) (b + 2 * a) (2 * c) ≡ b + 2 * bit_or w a c
unfolding bit_or
bit_or-double w b a c h =
    let half : (b + 2 * a) / 2 ≡ a = omega (arith, h) in
    let half' : (2 * c) / 2 ≡ c = omega arith in
    let low : (b + 2 * a) % 2 ≡ b = omega (arith, h) in
    let low' : (2 * c) % 2 ≡ 0 = omega arith in rw (half, half', low, low') (ground (arith, h))

pub bit_or-zero : (w a : ℕ) → a < 2 ^ w → bit_or w 0 a ≡ a
unfolding bit_or
bit_or-zero zero a h = omega (arith, h)
bit_or-zero (suc w) a h =
    let step = pow_step 2 w in ground (arith, bit_or-zero w (a / 2) (omega (arith, h, step)))

double_shift : (c k : ℕ) → c * 2 ^ suc k ≡ 2 * (c * 2 ^ k)
double_shift c k = rw (pow_step 2 k) (mul_left_comm c 2 (2 ^ k))

-- The bits below the shift are those of the other number.
pub bit_or-shift :
    (k w low a c : ℕ)
    → low < 2 ^ k
    → bit_or (k + w) (low + a * 2 ^ k) (c * 2 ^ k) ≡ low + bit_or w a c * 2 ^ k
bit_or-shift zero w low a c h =
    let none : low ≡ 0 = omega (arith, h) in
    let width : 0 + w ≡ w = omega arith in
    let left : low + a * 2 ^ 0 ≡ a = omega (arith, none) in
    let right : c * 2 ^ 0 ≡ c = omega arith in
    let all : low + bit_or w a c * 2 ^ 0 ≡ bit_or w a c = omega (arith, none) in
    rw (width, left, right, all) refl
bit_or-shift (suc k) w low a c h =
    let step = pow_step 2 k in
    let below : low ≡ low % 2 + 2 * (low / 2) = omega arith in
    let inner : low % 2 + 2 * (low / 2) + 2 * (a * 2 ^ k) ≡ low % 2 + 2 * (low / 2 + a * 2 ^ k) =
      omega arith in
    let width : suc k + w ≡ suc (k + w) = omega arith in
    let rest = bit_or-shift k w (low / 2) a c (omega (arith, h, step)) in
    let whole : bit_or (suc k + w) (low + 2 * (a * 2 ^ k)) (2 * (c * 2 ^ k))
        ≡ low % 2 + 2 * bit_or (k + w) (low / 2 + a * 2 ^ k) (c * 2 ^ k) =
      subst
        (λ x.
          bit_or (suc k + w) (x + 2 * (a * 2 ^ k)) (2 * (c * 2 ^ k))
          ≡ low % 2 + 2 * bit_or (k + w) (low / 2 + a * 2 ^ k) (c * 2 ^ k))
        (sym below)
        (rw (inner, width)
          (bit_or-double (k + w) (low % 2) (low / 2 + a * 2 ^ k) (c * 2 ^ k) (omega arith))) in
    let total : low % 2 + 2 * (low / 2 + bit_or w a c * 2 ^ k) ≡ low + 2 * (bit_or w a c * 2 ^ k) =
      omega arith in
    rw (double_shift a k, double_shift c k, double_shift (bit_or w a c) k)
      (whole ∙ ap (λ x. low % 2 + 2 * x) rest ∙ total)

-- A field above all bits that are set.
pub bit_or-above :
    (k w low c : ℕ) → low < 2 ^ k → c < 2 ^ w → bit_or (k + w) low (c * 2 ^ k) ≡ low + c * 2 ^ k
bit_or-above k w low c h small =
    let padded : low + 0 * 2 ^ k ≡ low = omega arith in
    subst (λ x. bit_or (k + w) x (c * 2 ^ k) ≡ low + c * 2 ^ k) padded
      (bit_or-shift k w low 0 c h ∙ ap (λ x. low + x * 2 ^ k) (bit_or-zero w c small))

-- A field of `j` bits between those that are set.
pub bit_or-between :
    (k j w low high c : ℕ)
    → low < 2 ^ k
    → c < 2 ^ j
    → high < 2 ^ w
    → bit_or (k + (j + w)) (low + (high * 2 ^ j) * 2 ^ k) (c * 2 ^ k)
      ≡ low + (c + high * 2 ^ j) * 2 ^ k
bit_or-between k j w low high c h small top =
    bit_or-shift k (j + w) low (high * 2 ^ j) c h
    ∙ ap (λ x. low + x * 2 ^ k)
        (bit_or_comm (j + w) (high * 2 ^ j) c ∙ bit_or-above j w c high small top)

-- A field of `j` bits that are clear in `a`, above `low` and below `high`.
pub bit_or-field :
    (k j w low high c a : ℕ)
    → low < 2 ^ k
    → c < 2 ^ j
    → high < 2 ^ w
    → a ≡ low + (high * 2 ^ j) * 2 ^ k
    → bit_or (k + (j + w)) a (c * 2 ^ k) ≡ a + c * 2 ^ k
bit_or-field k j w low high c a h small top shape =
    let sum = add-mul c (high * 2 ^ j) (2 ^ k) in
    subst (λ x. bit_or (k + (j + w)) x (c * 2 ^ k) ≡ x + c * 2 ^ k) (sym shape)
      (bit_or-between k j w low high c h small top ∙ omega (arith, sum))
