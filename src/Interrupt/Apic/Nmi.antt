-- ===== src/Interrupt/Apic/Nmi.antt =====
-- The second loop over the structures, which keeps the identities of the controllers.
use mathlib.Core.Option.{some-injective}
use garbage_os.Base.{
  ℕ, zero, suc, ◌+◌, ◌<◌, ◌≡◌, refl, sym, ap, ◌∙◌, Bool, if◌then◌else◌, subst, true, false,
  Bool-cases, inl, inr, Option, none, some, List, [], ◌∷◌, map, set, get_elem?, All, arith, ◌==◌,
  ◌!=◌, null, Outcome, ok, panic, Outcome-cases, All-map, failed_assert,
}
use garbage_os.Acpi.{Bytes}
use garbage_os.Acpi.Loop.{rounds}
use garbage_os.Interrupt.Apic.{LocalApic, fill_ics_nmi, with_nmi, get_lapic_from_processor_uid}
use garbage_os.Interrupt.Apic.Fill.{identity, IsArrayOf}

-- Whether one of the structures is that of the processor `uid`.
abbrev pub has_uid : Bytes → (uid : ℕ) → List ℕ → Bool
has_uid bytes uid [] = false
has_uid bytes uid (c ∷ cs) = if bytes (c + 2) == uid then true else has_uid bytes uid cs

abbrev structures : List LocalApic → List ℕ
structures lapics = map (λ l. l.ics_lapic) lapics

-- The outcome of the search for a controller, from index `i` on, that is there or not.
abbrev SearchedAs : Bool → List LocalApic → (i : ℕ) → Outcome (Option (ℕ × LocalApic)) → Type 0
SearchedAs there lapics i (panic e) = true ≡ false
SearchedAs there lapics i (ok none) = there ≡ false
SearchedAs there lapics i (ok (some (j, l))) =
    (there ≡ true) × ((k : ℕ) × (j ≡ i + k) × (get_elem? lapics k ≡ some l))

abbrev Searched : Bytes → List LocalApic → (uid i : ℕ) → Outcome (Option (ℕ × LocalApic)) → Type 0
Searched bytes lapics uid i o = SearchedAs (has_uid bytes uid (structures lapics)) lapics i o

SearchedAs-next :
    (there : Bool) (x : LocalApic) (lapics : List LocalApic) (i : ℕ)
    (o : Outcome (Option (ℕ × LocalApic)))
    → SearchedAs there lapics (suc i) o
    → SearchedAs there (x ∷ lapics) i o
SearchedAs-next there x lapics i (panic e) h = h
SearchedAs-next there x lapics i (ok none) h = h
SearchedAs-next there x lapics i (ok (some (j, l))) (known, (k, at_k, found)) =
    (known, (suc k, omega (arith, at_k), found))

get_lapic_from_processor_uid-Searched :
    (bytes : Bytes) (lapics : List LocalApic) (uid i : ℕ)
    → All (λ l. 0 < l.ics_lapic) lapics
    → Searched bytes lapics uid i (get_lapic_from_processor_uid bytes lapics uid i)
unfolding get_lapic_from_processor_uid
get_lapic_from_processor_uid-Searched bytes [] uid i h = refl
get_lapic_from_processor_uid-Searched bytes (x ∷ lapics) uid i (pos, h) =
    let not_null : (x.ics_lapic != null) ≡ true = ground (arith, pos) in
    elim (Bool-cases (bytes (x.ics_lapic + 2) == uid)) [
      | inl same ↦ rw (not_null, same) (refl, (0, omega arith, refl))
      | inr other ↦
          rw (not_null, other)
            (SearchedAs-next (has_uid bytes uid (structures lapics)) x lapics i _
              (get_lapic_from_processor_uid-Searched bytes lapics uid (suc i) h))
    ]

identity-set :
    (header : ℕ) (lapics : List LocalApic) (k : ℕ) (l : LocalApic)
    → get_elem? lapics k ≡ some l
    → map identity (set lapics k (with_nmi header l)) ≡ map identity lapics
identity-set header [] k l h = refl
identity-set header (x ∷ lapics) zero l h =
    ap (λ y. identity y ∷ map identity lapics) (sym (some-injective _ _ h))
identity-set header (x ∷ lapics) (suc k) l h =
    ap (λ t. identity x ∷ t) (identity-set header lapics k l h)

identity-with_nmi :
    (header : ℕ) (lapics : List LocalApic)
    → map identity (map (with_nmi header) lapics) ≡ map identity lapics
identity-with_nmi header [] = refl
identity-with_nmi header (x ∷ lapics) = ap (λ t. identity x ∷ t) (identity-with_nmi header lapics)

All-unmap {ℓ κ μ} :
    {A : Type ℓ} {B : Type κ} (P : B → Type μ) (f : A → B) (xs : List A)
    → All P (map f xs)
    → All (λ x. P (f x)) xs
All-unmap P f [] h = tt
All-unmap P f (x ∷ xs) (here, h) = (here, All-unmap P f xs h)

module _ (bytes : Bytes) (cs : List ℕ) where
  abbrev at_structure : ℕ → ℕ × ℕ
  at_structure c = (bytes (c + 3), c)

  module _ (P : ℕ → Type 0) (lapics : List LocalApic) (same : IsArrayOf bytes cs lapics) where
    array_of_structures : All P cs → All (λ l. P l.ics_lapic) lapics
    array_of_structures h =
        All-unmap (λ p. P p.1) identity lapics
          (subst (All (λ p. P p.1)) (sym same) (All-map (λ p. P p.1) at_structure cs h))

  structures-array : (lapics : List LocalApic) → IsArrayOf bytes cs lapics → structures lapics ≡ cs
  structures-array lapics same = seconds lapics ∙ ap (map (λ p. p.1)) same ∙ sym (seconds_at cs)
    where
      seconds : (ls : List LocalApic) → structures ls ≡ map (λ (p : ℕ × ℕ). p.1) (map identity ls)
      seconds [] = refl
      seconds (l ∷ ls) = ap (λ t. l.ics_lapic ∷ t) (seconds ls)

      seconds_at : (hs : List ℕ) → hs ≡ map (λ (p : ℕ × ℕ). p.1) (map at_structure hs)
      seconds_at [] = refl
      seconds_at (h ∷ hs) = ap (λ t. h ∷ t) (seconds_at hs)

  -- Whether the second loop comes to a structure for the NMI of a processor that has no controller: it
  -- looks at the structures of type 4 up to the first one for all processors.
  abbrev pub has_stray_nmi : (hs : List ℕ) → Bool
  has_stray_nmi [] = false
  has_stray_nmi (h ∷ hs) =
      if bytes h != 4
      then has_stray_nmi hs
      else if bytes (h + 2) == 0xff
      then false
      else if has_uid bytes (bytes (h + 2)) cs
      then has_stray_nmi hs
      else true

  -- The outcome of the second loop, with or without such a structure.
  abbrev pub NmisAssigned : (stray : Bool) → Outcome (Option (List LocalApic)) → Type 0
  NmisAssigned stray (panic e) = (e ≡ failed_assert) × (stray ≡ true)
  NmisAssigned stray (ok none) = true ≡ false
  NmisAssigned stray (ok (some lapics)) = (stray ≡ false) × IsArrayOf bytes cs lapics

  -- What the search says of the structures.
  Searched-structures :
      (lapics : List LocalApic) (uid : ℕ) (o : Outcome (Option (ℕ × LocalApic)))
      → IsArrayOf bytes cs lapics
      → get_lapic_from_processor_uid bytes lapics uid 0 ≡ o
      → All (λ l. 0 < l.ics_lapic) lapics
      → Searched bytes lapics uid 0 o
  Searched-structures lapics uid o same q pos =
      subst (Searched bytes lapics uid 0) q
        (get_lapic_from_processor_uid-Searched bytes lapics uid 0 pos)

  pub fill_ics_nmi-NmisAssigned :
      (hs : List ℕ) (lapics : List LocalApic)
      → All (λ c. 0 < c) cs
      → IsArrayOf bytes cs lapics
      → NmisAssigned (has_stray_nmi hs) (rounds (fill_ics_nmi bytes) hs lapics)
  unfolding fill_ics_nmi
  fill_ics_nmi-NmisAssigned [] lapics pos same = (refl, same)
  fill_ics_nmi-NmisAssigned (h ∷ hs) lapics pos same =
      let uid = bytes (h + 2) in
      let pos' = array_of_structures (λ c. 0 < c) lapics same pos in
      let read = structures-array lapics same in
      elim (Bool-cases (bytes h != 4)) [
        | inl other ↦ rw other (fill_ics_nmi-NmisAssigned hs lapics pos same)
        | inr nmi ↦ elim (Bool-cases (bytes (h + 2) == 0xff)) [
          | inl every ↦ rw (nmi, every) (refl, identity-with_nmi h lapics ∙ same)
          | inr one ↦
              elim (Outcome-cases (get_lapic_from_processor_uid bytes lapics (bytes (h + 2)) 0)) [
                | inr (e, q) ↦
                    let none_so : true ≡ false =
                      Searched-structures lapics uid (panic e) same q pos' in
                    absurd cc
                | inl (none, q) ↦
                    let stray : has_uid bytes uid cs ≡ false =
                      ap (has_uid bytes uid) (sym read)
                      ∙ Searched-structures lapics uid (ok none) same q pos' in
                    rw (nmi, one, q, stray) (refl, refl)
                | inl (some (j, l), q) ↦
                    let (there, (k, at_k, found)) =
                      Searched-structures lapics uid (ok (some (j, l))) same q pos' in
                    let known : has_uid bytes uid cs ≡ true =
                      ap (has_uid bytes uid) (sym read) ∙ there in
                    let index : j ≡ k = omega (arith, at_k) in
                    rw (nmi, one, q, known, index)
                      (fill_ics_nmi-NmisAssigned hs (set lapics k (with_nmi h l)) pos
                        (identity-set h lapics k l found ∙ same))
              ]
        ]
      ]
