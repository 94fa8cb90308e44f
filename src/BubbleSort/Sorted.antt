-- ===== src/BubbleSort/Sorted.antt =====
-- Bubble sort sorts: the result is ordered by the key, and is a permutation of the input.
use mathlib.Core.List.{Perm, perm_middle, append-nil}
use mathlib.Core.List.Perm
use garbage_os.Base.{
  ℕ, zero, suc, ◌≤◌, ◌≡◌, refl, ap, List, [], ◌∷◌, ◌++◌, ltb, ltb→lt, ltb_false→le, if◌then◌else◌,
  length, All, arith, subst, Bool-cases, inl, inr,
}
use garbage_os.BubbleSort.{bubble_pass, bubble_rounds, bubble_sort}

module _ {A : Type 0} (key : A → ℕ) where
  -- Every element is at most each one behind it.
  abbrev pub IsSorted : List A → Type 0
  IsSorted [] = Unit {0}
  IsSorted (a ∷ xs) = All (λ b. key a ≤ key b) xs × IsSorted xs

  -- Every element of `xs` is at most every one of `ys`.
  abbrev Below : List A → List A → Type 0
  Below xs ys = All (λ a. All (λ b. key a ≤ key b) ys) xs

  -- What a pass does: it carries the larger element on. The list passed over, and the last element.
  carry : A → List A → List A × A
  carry a [] = ([], a)
  carry a (b ∷ xs) =
      if ltb (key b) (key a)
      then (b ∷ (carry a xs).0, (carry a xs).1)
      else (a ∷ (carry b xs).0, (carry b xs).1)

  bubble_pass-carry :
      (a : A) (xs back : List A)
      → bubble_pass key (length xs) (a ∷ (xs ++ back)) ≡ (carry a xs).0 ++ (carry a xs).1 ∷ back
  unfolding bubble_pass carry
  bubble_pass-carry a [] back = refl
  bubble_pass-carry a (b ∷ xs) back = elim (Bool-cases (ltb (key b) (key a))) [
    | inl e ↦ rw e (ap (λ ys. b ∷ ys) (bubble_pass-carry a xs back))
    | inr e ↦ rw e (ap (λ ys. a ∷ ys) (bubble_pass-carry b xs back))
  ]

  -- The carried element is the largest, and nothing else changes but the order.
  record Carries (a : A) (xs : List A) (out : List A × A) : Type 0 where
    largest : All (λ b. key b ≤ key out.1) out.0
    start_le : key a ≤ key out.1
    same_length : length out.0 ≡ length xs
    same_items : Perm (a ∷ xs) (out.1 ∷ out.0)

  carry-Carries : (a : A) (xs : List A) → Carries a xs (carry a xs)
  unfolding carry
  carry-Carries a [] = record {
    largest = tt;
    start_le = omega arith;
    same_length = refl;
    same_items = Perm.refl _;
  }
  carry-Carries a (b ∷ xs) = elim (Bool-cases (ltb (key b) (key a))) [
    | inl e ↦
        let c = carry-Carries a xs in
        rw e record {
          largest = (omega (arith, ltb→lt _ _ e, c.start_le), c.largest);
          start_le = c.start_le;
          same_length = ap suc c.same_length;
          same_items =
              Perm.trans (Perm.swap b a xs)
                (Perm.trans (Perm.cons b c.same_items) (Perm.swap _ b _));
        }
    | inr e ↦
        let c = carry-Carries b xs in
        rw e record {
          largest = (omega (arith, ltb_false→le _ _ e, c.start_le), c.largest);
          start_le = omega (arith, ltb_false→le _ _ e, c.start_le);
          same_length = ap suc c.same_length;
          same_items = Perm.trans (Perm.cons a c.same_items) (Perm.swap _ a _);
        }
  ]

  -- A property of all elements holds of the carried one and of the others.
  carry-All :
      (P : A → Type 0) (a : A) (xs : List A)
      → P a
      → All P xs
      → P (carry a xs).1 × All P (carry a xs).0
  unfolding carry
  carry-All P a [] h t = (h, tt)
  carry-All P a (b ∷ xs) h t = elim (Bool-cases (ltb (key b) (key a))) [
    | inl e ↦ let (m, ys) = carry-All P a xs h t.1 in rw e (m, (t.0, ys))
    | inr e ↦ let (m, ys) = carry-All P b xs t.0 t.1 in rw e (m, (h, ys))
  ]

  Below-cons :
      (m : A) (xs back : List A) → All (λ b. key b ≤ key m) xs → Below xs back → Below xs (m ∷ back)
  Below-cons m [] back h k = tt
  Below-cons m (x ∷ xs) back h k = ((h.0, k.0), Below-cons m xs back h.1 k.1)

  -- After each round the list is a front that is still to be sorted, and a sorted back above it.
  rounds_lem :
      (k : ℕ) (front back : List A)
      → length front ≡ k
      → Below front back
      → IsSorted back
      → IsSorted (bubble_rounds key k (front ++ back))
        × Perm (front ++ back) (bubble_rounds key k (front ++ back))
  unfolding bubble_rounds
  rounds_lem zero [] back h below sorted = (sorted, Perm.refl _)
  rounds_lem zero (a ∷ xs) back h below sorted = absurd (omega arith)
  rounds_lem (suc k) [] back h below sorted = absurd (omega arith)
  rounds_lem (suc k) (a ∷ xs) back h below sorted =
      let size : k ≡ length xs = omega arith in
      let c = carry-Carries a xs in
      let (top, rest) = carry-All (λ a. All (λ b. key a ≤ key b) back) a xs below.0 below.1 in
      let (done, perm) =
        rounds_lem k (carry a xs).0 ((carry a xs).1 ∷ back) (omega (arith, c.same_length))
          (Below-cons (carry a xs).1 (carry a xs).0 back c.largest rest) (top, sorted) in
      let pass : bubble_pass key k (a ∷ (xs ++ back)) ≡ (carry a xs).0 ++ (carry a xs).1 ∷ back =
        rw size (bubble_pass-carry a xs back) in
      rw pass (
        done,
        Perm.trans (Perm.trans (Perm.append_right back c.same_items) (Perm.symm (perm_middle _ _)))
            perm,
      )

  -- The loops sort: the result is in order of the keys, and is a permutation of the input.
  pub bubble_sort-IsSorted :
      (xs : List A) → IsSorted (bubble_sort key xs) × Perm xs (bubble_sort key xs)
  unfolding bubble_sort
  bubble_sort-IsSorted xs =
      let sorted = rounds_lem (length xs) xs [] refl (nothing_above xs) tt in
      (
        subst (λ ys. IsSorted (bubble_rounds key (length xs) ys)) (append-nil xs) sorted.0,
        subst (λ ys. Perm ys (bubble_rounds key (length xs) ys)) (append-nil xs) sorted.1,
      )
    where
      nothing_above : (ys : List A) → Below ys []
      nothing_above [] = tt
      nothing_above (y ∷ ys) = (tt, nothing_above ys)
