-- ===== src/Kio/Text.antt =====
-- Digits as text: the characters that are printed for a buffer of digits, and the number that they read as.
use native.Mathlib.Decide.{ℕ_discrete}
use native.Mathlib.Nat.{
  add-mul-div_left, div-div-eq-div-mul, div-eq_of_lt, pow-succ', pow-zero, div-one, mul-zero,
  mod-add-div, mod-lt,
}
use mathlib.Core.List.{append-nil}
use garbage_os.Base.{
  Bool, true, ◌&&◌, ◌||◌, ltb, ℕ, zero, suc, ◌+◌, ◌-◌, ◌*◌, ◌/◌, ◌%◌, ◌^◌, ◌<◌, ◌≡◌, ◌≢◌, refl, sym,
  ap, ◌∙◌, subst, List, [], ◌∷◌, ◌++◌, All, length, get_or, arith, leb, ne→==_false, if◌then◌else◌,
}
use garbage_os.Kio.{KioState, puts}
use garbage_os.Kio.Numbers.{cleared, put_digits}
use garbage_os.Kio.Digits.{digits, digits-zero, quotient-lt, value}

abbrev pub digit_of : ℕ → ℕ
digit_of c = if leb 65 c then c - 55 else c - 48

-- The number that the characters read as, after `acc`.
abbrev pub parse : (base acc : ℕ) → List ℕ → ℕ
parse base acc [] = acc
parse base acc (c ∷ cs) = parse base (acc * base + digit_of c) cs

-- The characters of a base: '0' to '9' for digits below ten, then the letters from 'A' on.
abbrev pub is_digit : (base c : ℕ) → Bool
is_digit base c = (leb 48 c && (leb c 57 && ltb c (48 + base))) || (leb 65 c && ltb c (55 + base))

-- The first character, or `'0'`.
abbrev pub first : List ℕ → ℕ
first [] = 48
first (c ∷ cs) = c

-- The characters of the `n` digits from index `low` on, the highest first.
abbrev pub text : (char : ℕ → ℕ) (n low : ℕ) (buffer : List ℕ) → List ℕ
text char zero low buffer = []
text char (suc n) low buffer = char (get_or buffer (low + n) 0) ∷ text char n low buffer

pub put_digits-text {ℓ} :
    {D : Type ℓ} (char : ℕ → ℕ) (n low : ℕ) (buffer : List ℕ) (s : KioState D)
    → put_digits char n low buffer s ≡ puts (text char n low buffer) s
unfolding put_digits
put_digits-text char zero low buffer s = refl
put_digits-text char (suc n) low buffer s = put_digits-text char n low buffer _

pub length-text : (char : ℕ → ℕ) (n low : ℕ) (buffer : List ℕ) → length (text char n low buffer) ≡ n
length-text char zero low buffer = refl
length-text char (suc n) low buffer = ap suc (length-text char n low buffer)

text-shift :
    (char : ℕ → ℕ) (n low d : ℕ) (ds : List ℕ) → text char n (suc low) (d ∷ ds) ≡ text char n low ds
text-shift char zero low d ds = refl
text-shift char (suc n) low d ds =
    let index : suc low + n ≡ suc (low + n) = omega arith in
    rw index (ap (λ t. char (get_or ds (low + n) 0) ∷ t) (text-shift char n low d ds))

text-cons :
    (char : ℕ → ℕ) (n d : ℕ) (ds : List ℕ)
    → text char (suc n) 0 (d ∷ ds) ≡ text char n 0 ds ++ char d ∷ []
text-cons char zero d ds = refl
text-cons char (suc n) d ds =
    let index : 0 + suc n ≡ suc (0 + n) = omega arith in
    ap (λ i. char (get_or (d ∷ ds) i 0) ∷ text char (suc n) 0 (d ∷ ds)) index
    ∙ ap (λ t. char (get_or ds (0 + n) 0) ∷ t) (text-cons char n d ds)

parse-append :
    (base acc : ℕ) (cs : List ℕ) (c : ℕ)
    → parse base acc (cs ++ c ∷ []) ≡ parse base acc cs * base + digit_of c
parse-append base acc [] c = refl
parse-append base acc (x ∷ cs) c = parse-append base (acc * base + digit_of x) cs c

value-cleared : (base n : ℕ) → value base (cleared n) ≡ 0
value-cleared base zero = refl
value-cleared base (suc n) = rw (value-cleared base n) (omega (arith, mul-zero base))

pub value-append_cleared : (base n : ℕ) (ds : List ℕ) → value base (ds ++ cleared n) ≡ value base ds
value-append_cleared base n [] = value-cleared base n
value-append_cleared base n (d ∷ ds) = ap (λ v. d + base * v) (value-append_cleared base n ds)

pub All-append_cleared :
    (base : ℕ)
    → 0 < base
    → (n : ℕ) (ds : List ℕ) → All (λ d. d < base) ds
    → All (λ d. d < base) (ds ++ cleared n)
All-append_cleared base pos zero [] h = tt
All-append_cleared base pos (suc n) [] h = (pos, All-append_cleared base pos n [] tt)
All-append_cleared base pos n (d ∷ ds) h = (h.0, All-append_cleared base pos n ds h.1)

get_or-All : (P : ℕ → Type 0) (d : ℕ) → P d → (xs : List ℕ) (i : ℕ) → All P xs → P (get_or xs i d)
get_or-All P d h [] i all = h
get_or-All P d h (x ∷ xs) zero all = all.0
get_or-All P d h (x ∷ xs) (suc i) all = get_or-All P d h xs i all.1

-- The text of a buffer of digits has characters of the base only.
pub text-is_digit :
    (base : ℕ) (char : ℕ → ℕ)
    → 0 < base
    → ((d : ℕ) → d < base → is_digit base (char d) ≡ true)
    → (n low : ℕ) (buffer : List ℕ) → All (λ d. d < base) buffer
    → All (λ c. is_digit base c ≡ true) (text char n low buffer)
text-is_digit base char pos good zero low buffer h = tt
text-is_digit base char pos good (suc n) low buffer h = (
  good _ (get_or-All (λ d. d < base) 0 pos buffer (low + n) h),
  text-is_digit base char pos good n low buffer h,
)

module _ (base : ℕ) (char : ℕ → ℕ) (two : 1 < base)
    (reads : (d : ℕ) → d < base → digit_of (char d) ≡ d) where
  pub parse-text :
      (ds zs : List ℕ)
      → All (λ d. d < base) ds
      → parse base 0 (text char (length ds) 0 (ds ++ zs)) ≡ value base ds
  parse-text [] zs h = refl
  parse-text (d ∷ ds) zs h =
      ap (parse base 0) (text-cons char (length ds) d (ds ++ zs))
      ∙ parse-append base 0 (text char (length ds) 0 (ds ++ zs)) (char d)
      ∙ rw (parse-text ds zs h.1, reads d h.0) (omega arith)

  drop_lowest : (d v low : ℕ) → d < base → v / base ^ low ≡ (d + base * v) / base ^ suc low
  drop_lowest d v low h =
      let upper : (d + base * v) / base ≡ v =
        add-mul-div_left d v (omega (arith, two))
        ∙ ap (λ q. q + v) (div-eq_of_lt h)
        ∙ omega arith in
      ap (λ x. x / base ^ low) (sym upper)
      ∙ div-div-eq-div-mul (d + base * v) base (base ^ low)
      ∙ ap (λ p. (d + base * v) / p) (sym (pow-succ' base low))

  -- The digits from index `low` on are the quotient by a power of the base.
  pub parse-text_low :
      (low n : ℕ) (ds : List ℕ)
      → All (λ d. d < base) ds
      → low + n ≡ length ds
      → parse base 0 (text char n low ds) ≡ value base ds / base ^ low
  parse-text_low zero n ds h e =
      let whole : value base ds / base ^ 0 ≡ value base ds =
        ap (λ p. value base ds / p) (pow-zero base) ∙ div-one (value base ds) in
      let all : n ≡ length ds = omega (arith, e) in
      rw (all, whole)
        (ap (λ l. parse base 0 (text char (length ds) 0 l)) (sym (append-nil ds))
          ∙ parse-text ds [] h)
  parse-text_low (suc low) n [] h e = absurd (omega (arith, e))
  parse-text_low (suc low) n (d ∷ ds) h e =
      ap (parse base 0) (text-shift char n low d ds)
      ∙ parse-text_low low n ds h.1 (omega (arith, e))
      ∙ drop_lowest d (value base ds) low h.0

  first-append : (cs : List ℕ) (c : ℕ) → digit_of (first cs) ≢ 0 → first (cs ++ c ∷ []) ≡ first cs
  first-append [] c ne = absurd (ne refl)
  first-append (x ∷ cs) c ne = refl

  pub first-text :
      (k n : ℕ) (zs : List ℕ)
      → n < base ^ k
      → n ≢ 0
      → digit_of (first (text char (length (digits k base n)) 0 (digits k base n ++ zs))) ≢ 0
  unfolding digits
  first-text zero n zs h ne = absurd (omega (arith, subst (λ p. n < p) (pow-zero base) h, ne))
  first-text (suc k) n zs h ne =
      let rest = digits k base (n / base) in
      let others = text char (length rest) 0 (rest ++ zs) in
      let lowest : digit_of (char (n % base)) ≡ n % base =
        reads (n % base) (mod-lt n (omega (arith, two))) in
      rw (ne→==_false n 0 ne) (
        subst (λ t. digit_of (first t) ≢ 0)
          (sym (text-cons char (length rest) (n % base) (rest ++ zs)))
          (elim (ℕ_discrete (n / base) 0) [
            | yes e ↦
                let single : n % base ≡ n =
                  sym (omega (arith, mod-add-div n base, ap (λ q. base * q) e, mul-zero base)) in
                let none : rest ≡ [] = ap (digits k base) e ∙ digits-zero base two k in
                let alone : first (others ++ char (n % base) ∷ []) ≡ char (n % base) =
                  ap (λ l. first (text char (length l) 0 (l ++ zs) ++ char (n % base) ∷ [])) none in
                λ z. ne (sym single ∙ sym lowest ∙ ap digit_of (sym alone) ∙ z)
            | no more ↦
                let leading = first-text k (n / base) zs (quotient-lt base two k n h) more in
                λ z. leading (ap digit_of (sym (first-append others (char (n % base)) leading)) ∙ z)
          ]))
