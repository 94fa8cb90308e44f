-- ===== src/Interrupt/Apic/Fill.antt =====
-- The array of the local controllers after it has been filled.
use mathlib.Core.List.{append_assoc}
use garbage_os.Base.{
  ℕ, zero, suc, ◌+◌, ◌-◌, ◌≤◌, ◌<◌, ◌≡◌, refl, ap, ◌∙◌, Bool, true, false, Bool-cases, inl, inr,
  Option, none, some, List, [], ◌∷◌, ◌++◌, map, length, length-append, set, get_or, arith, ltb,
  ◌==◌, if◌then◌else◌, null, Outcome, ok, panic, failed_assert,
}
use garbage_os.Acpi.{Bytes}
use garbage_os.Acpi.Loop.{rounds}
use garbage_os.Interrupt.Apic.{LocalApic, no_lapic, fill_lapic}
use garbage_os.Interrupt.Apic.Setup.{cleared_lapics}

abbrev is_lapic : Bytes → (header : ℕ) → Bool
is_lapic bytes header = bytes header == 0

-- What the first loop writes for the structure.
abbrev pub entry : Bytes → (header : ℕ) → LocalApic
entry bytes header = record {
  apic_id = bytes (header + 3);
  ics_lapic = header;
  ics_lapic_nmi = null;
  enabled = false;
}

-- The structures of the local controllers, in order.
abbrev pub controllers : Bytes → List ℕ → List ℕ
controllers bytes [] = []
controllers bytes (h ∷ hs) =
    let rest = controllers bytes hs in if is_lapic bytes h then h ∷ rest else rest

module _ {ℓ} {A : Type ℓ} where
  get_or-append :
      (xs : List A) (x : A) (ys : List A) (d : A) → get_or (xs ++ (x ∷ ys)) (length xs) d ≡ x
  get_or-append [] x ys d = refl
  get_or-append (y ∷ xs) x ys d = get_or-append xs x ys d

  set-append :
      (xs : List A) (x y : A) (ys : List A)
      → set (xs ++ (x ∷ ys)) (length xs) y ≡ (xs ++ (y ∷ [])) ++ ys
  set-append [] x y ys = refl
  set-append (z ∷ xs) x y ys = ap (λ t. z ∷ t) (set-append xs x y ys)

-- The outcome of the first loop for `cs` as the structures of controllers and `n` places left.
abbrev pub Placed :
    Bytes
    → List LocalApic
    → (n : ℕ) → (cs : List ℕ) → Outcome (Option (List LocalApic × ℕ))
    → Type 0
Placed bytes done n cs (panic e) = (e ≡ failed_assert) × (n < length cs)
Placed bytes done n cs (ok none) = true ≡ false
Placed bytes done n cs (ok (some (lapics, index))) =
    (length cs ≤ n)
    × (lapics ≡ done ++ (map (entry bytes) cs ++ cleared_lapics (n - length cs)))
    × (index ≡ length done + length cs)

Placed-step :
    (bytes : Bytes) (done : List LocalApic) (n h : ℕ) (cs : List ℕ)
    (o : Outcome (Option (List LocalApic × ℕ)))
    → Placed bytes (done ++ (entry bytes h ∷ [])) n cs o
    → Placed bytes done (suc n) (h ∷ cs) o
Placed-step bytes done n h cs (panic e) (code, short) = (code, omega (arith, short))
Placed-step bytes done n h cs (ok none) ended = ended
Placed-step bytes done n h cs (ok (some (lapics, index))) (fits, placed, at_end) = (
  omega (arith, fits),
  placed
      ∙ append_assoc done (entry bytes h ∷ []) _
      ∙ ap (λ k. done ++ (entry bytes h ∷ (map (entry bytes) cs ++ cleared_lapics k)))
          (omega arith),
  at_end ∙ omega (arith, length-append done (entry bytes h ∷ [])),
)

pub fill_lapic-Placed :
    (bytes : Bytes) (hs : List ℕ) (done : List LocalApic) (n : ℕ)
    → Placed bytes done n
        (controllers bytes hs)
        (rounds (fill_lapic bytes) hs (done ++ cleared_lapics n, length done))
unfolding fill_lapic
fill_lapic-Placed bytes [] done n =
    (omega arith, ap (λ k. done ++ cleared_lapics k) (omega arith), omega arith)
fill_lapic-Placed bytes (h ∷ hs) done n = elim (Bool-cases (is_lapic bytes h)) [
  | inr other ↦ rw other (fill_lapic-Placed bytes hs done n)
  | inl lapic ↦
      elim n
        as (λ n.
          Placed bytes done n (controllers bytes (h ∷ hs))
            (rounds (fill_lapic bytes) (h ∷ hs) (done ++ cleared_lapics n, length done))) [
              | zero ↦
                  let full : ltb (length done) (length (done ++ cleared_lapics 0)) ≡ false =
                    ground (arith, length-append done (cleared_lapics 0)) in
                  rw (lapic, full) (refl, omega arith)
              | suc n' ↦
                  let room : ltb (length done) (length (done ++ cleared_lapics (suc n'))) ≡ true =
                    ground (arith, length-append done (cleared_lapics (suc n'))) in
                  let next : length done + 1 ≡ length (done ++ (entry bytes h ∷ [])) =
                    omega (arith, length-append done (entry bytes h ∷ [])) in
                  rw
                    (
                      lapic,
                      room,
                      get_or-append done no_lapic (cleared_lapics n') no_lapic,
                      set-append done no_lapic (entry bytes h) (cleared_lapics n'),
                      next,
                    )
                    (Placed-step bytes done n' h (controllers bytes hs) _
                      (fill_lapic-Placed bytes hs (done ++ (entry bytes h ∷ [])) n'))
            ]
]

-- What identifies a controller.
abbrev pub identity : LocalApic → ℕ × ℕ
identity l = (l.apic_id, l.ics_lapic)

-- The controllers are those of the structures at `cs`, in order.
abbrev pub IsArrayOf : Bytes → (cs : List ℕ) → List LocalApic → Type 0
IsArrayOf bytes cs lapics = map identity lapics ≡ map (λ c. (bytes (c + 3), c)) cs

pub entries-IsArrayOf : (bytes : Bytes) (cs : List ℕ) → IsArrayOf bytes cs (map (entry bytes) cs)
entries-IsArrayOf bytes [] = refl
entries-IsArrayOf bytes (c ∷ cs) = ap (λ t. (bytes (c + 3), c) ∷ t) (entries-IsArrayOf bytes cs)
