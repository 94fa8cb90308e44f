-- ===== src/PageTables/Descend.antt =====
-- One level of the walk keeps the tree and what every walk reads.
use native.Mathlib.Decide.{ℕ_discrete}
use garbage_os.Base.{
  ℕ, ◌+◌, ◌%◌, ◌^◌, ◌<◌, ◌≡◌, refl, sym, ap, ◌∙◌, subst, ◌≢◌, ◌⊎◌, inl, inr, true, false,
  Bool-cases, Option, some, List, [], ◌∷◌, All, length, arith, if◌then◌else◌, ◌==◌, page_size,
  Outcome, ok, panic, ◌>>=◌, Memory, store, store_same, store_other,
}
use garbage_os.PageTables.{is_present, frame_of, entry_at, clear_frame, descend}
use garbage_os.PageTables.Tree.{read, IsIndex, Supply, IsTree}
use garbage_os.PageTables.Space.{
  some_inj, clear_frame_in, clear_frame_out, entry_at_ne, Extends, IsSpace, AllocPanics, Uses,
  Uses-refl,
}

module _ {ℓ} {S : Type ℓ} (alloc_frame : S → Outcome (ℕ × S)) (supply : Supply S alloc_frame) where
  open supply use {IsGood, IsFree, alloc_good, alloc_free, alloc_whole, alloc_rest}

  abbrev pub Descends :
      Memory
      → (root : ℕ) → S
      → (ℕ → Option (List ℕ))
      → (t : ℕ) (p : List ℕ) (i : ℕ) → Outcome (ℕ × Memory × S)
      → Type ℓ
  Descends m root s own t p i (panic e) = AllocPanics alloc_frame supply e
  Descends m root s own t p i (ok (t', m', s')) =
      (own' : ℕ → Option (List ℕ)) × IsSpace alloc_frame supply m' root s' own'
      × Extends m m' own own'
      × Uses alloc_frame supply s s' own own'
      × (own' t' ≡ some (i ∷ p))
      × (is_present (m' (entry_at t i)) ≡ true)
      × (frame_of (m' (entry_at t i)) ≡ t')

  module _ (m : Memory) (root : ℕ) (s : S) (own : ℕ → Option (List ℕ))
      (sp : IsSpace alloc_frame supply m root s own) (t : ℕ) (p : List ℕ) (i : ℕ)
      (o : own t ≡ some p) (above : length p < 3) (hi : i < 512) where
    -- The entry is absent, and the allocator gives `f`.
    module _ (absent : is_present (m (entry_at t i)) ≡ false) (f : ℕ) (s' : S)
        (a : alloc_frame s ≡ ok (f, s')) where
      made : Memory
      made = store (clear_frame m f) (entry_at t i) (f + 3)

      own_made : ℕ → Option (List ℕ)
      own_made x = if x == f then some (i ∷ p) else own x

      not_owned : (q : List ℕ) → own f ≢ some q
      not_owned q e = sp.outside f q e (alloc_free a sp.good)

      old_ne : (u : ℕ) (q : List ℕ) → own u ≡ some q → u ≢ f
      old_ne u q e same = not_owned q (subst (λ x. own x ≡ some q) same e)

      made_at : made (entry_at t i) ≡ f + 3
      unfolding made
      made_at = store_same (clear_frame m f) (entry_at t i) (f + 3)

      made_other :
          (u : ℕ) (q : List ℕ) (k : ℕ)
          → own u ≡ some q
          → k < 512
          → entry_at u k ≢ entry_at t i
          → made (entry_at u k) ≡ m (entry_at u k)
      unfolding made
      made_other u q k e hk ne =
          store_other (clear_frame m f) (entry_at t i) (f + 3) (entry_at u k) ne
          ∙ clear_frame_out m f u k (alloc_whole a sp.good).0 (sp.tree.whole u q e).0 (old_ne u q e)
              hk

      made_blank : (k : ℕ) → k < 512 → made (entry_at f k) ≡ 0
      unfolding made
      made_blank k hk =
          let ne : entry_at f k ≢ entry_at t i = λ e. old_ne t p o (
            sym
              (entry_at_ne f t k i (alloc_whole a sp.good).0 (sp.tree.whole t p o).0 hk hi e).0) in
          store_other (clear_frame m f) (entry_at t i) (f + 3) (entry_at f k) ne
          ∙ clear_frame_in m f k hk

      made_frame : frame_of (f + 3) ≡ f
      made_frame = omega (arith, alloc_whole a sp.good)

      read_blank : (js : List ℕ) → All IsIndex js → read made f js ≡ 0
      read_blank [] h = refl
      read_blank (k ∷ []) h = made_blank k h.0
      read_blank (k ∷ l ∷ ls) h = rw (made_blank k h.0) refl

      own_made_new : own_made f ≡ some (i ∷ p)
      unfolding own_made
      own_made_new = ground arith

      own_made_old : (u : ℕ) (q : List ℕ) → own u ≡ some q → own_made u ≡ some q
      unfolding own_made
      own_made_old u q e = let ne = old_ne u q e in ground arith

      own_made_cases :
          (u : ℕ) (q : List ℕ) → own_made u ≡ some q → ((u ≡ f) × (q ≡ i ∷ p)) ⊎ (own u ≡ some q)
      unfolding own_made
      own_made_cases u q e = elim (ℕ_discrete u f) [
        | yes same ↦
            let new : own_made u ≡ some (i ∷ p) = ground arith in inl (same, some_inj (sym e ∙ new))
        | no ne ↦ let old : own u ≡ some q = ground arith in inr old
      ]

      same_path : (u : ℕ) (q : List ℕ) → own u ≡ some q → t ≡ u → p ≡ q
      same_path u q e same = some_inj (sym o ∙ (subst (λ x. own x ≡ some q) (sym same) e))

      at_entry :
          (u : ℕ) (q : List ℕ) (k : ℕ)
          → own u ≡ some q
          → k < 512
          → entry_at u k ≡ entry_at t i
          → (t ≡ u) × (i ≡ k) × (p ≡ q)
      at_entry u q k e hk same =
          let (tu, ik) =
            entry_at_ne t u i k (sp.tree.whole t p o).0 (sp.tree.whole u q e).0 hi hk (sym same) in
          (tu, ik, same_path u q e tu)

      made_child :
          (u : ℕ) (q : List ℕ) (k : ℕ)
          → own_made u ≡ some q
          → length q < 3
          → k < 512
          → is_present (made (entry_at u k)) ≡ true
          → own_made (frame_of (made (entry_at u k))) ≡ some (k ∷ q)
      made_child u q k e len hk pres = elim (own_made_cases u q e) [
        | inl (same, _path) ↦
            let blank : made (entry_at u k) ≡ 0 =
              subst (λ x. made (entry_at x k) ≡ 0) (sym same) (made_blank k hk) in
            absurd (ground (arith, subst (λ w. is_present w ≡ true) blank pres))
        | inr old ↦ elim (ℕ_discrete (entry_at u k) (entry_at t i)) [
          | yes same ↦
              let (tu, ik, pq) = at_entry u q k old hk same in
              let lists : i ∷ p ≡ k ∷ q = cc in
              let at_frame : frame_of (made (entry_at u k)) ≡ f =
                ap (λ x. frame_of (made x)) same ∙ ap frame_of made_at ∙ made_frame in
              ap own_made at_frame ∙ own_made_new ∙ ap some lists
          | no ne ↦
              let kept = made_other u q k old hk ne in
              ap (λ w. own_made (frame_of w)) kept
              ∙ own_made_old _ _
                  (sp.tree.child u q k old len hk (subst (λ w. is_present w ≡ true) kept pres))
        ]
      ]

      made-IsTree : IsTree made root own_made
      made-IsTree = record {
        root_owned = own_made_old root [] sp.tree.root_owned;
        whole = λ u q e. elim (own_made_cases u q e) [
          | inl (same, _path) ↦
              subst (λ x. (x % page_size ≡ 0) × (x < 2 ^ 48)) (sym same) (alloc_whole a sp.good)
          | inr old ↦ sp.tree.whole u q old
        ];
        child = made_child;
      }

      made-IsSpace : IsSpace alloc_frame supply made root s' own_made
      made-IsSpace = record {
        tree = made-IsTree;
        good = alloc_good a sp.good;
        outside = λ u q e fr. elim (own_made_cases u q e) [
          | inl (same, _path) ↦ (alloc_rest a sp.good u fr).1 same
          | inr old ↦ sp.outside u q old (alloc_rest a sp.good u fr).0
        ];
      }

      made-Uses : Uses alloc_frame supply s s' own own_made
      made-Uses = record {
        taken = λ u q e. elim (own_made_cases u q e) [
          | inl (same, _path) ↦ inr (subst (IsFree s) (sym same) (alloc_free a sp.good))
          | inr old ↦ inl old
        ];
        rest = λ g h. (alloc_rest a sp.good g h).0;
      }

      not_absent : (x : ℕ) → is_present (m x) ≡ true → x ≢ entry_at t i
      not_absent x pres same = let e = ap (λ y. is_present (m y)) same in cc

      made_reads :
          (js : List ℕ) (u : ℕ) (q : List ℕ)
          → own u ≡ some q
          → length q + length js ≡ 4
          → All IsIndex js
          → read made u js ≡ read m u js
      made_reads [] u q e len h = refl
      made_reads (k ∷ []) u q e len h = made_other u q k e h.0 (λ same.
          let (tu, ik, pq) = at_entry u q k e h.0 same in
          let lens = ap length pq in omega (arith, lens, len, above))
      made_reads (k ∷ l ∷ ls) u q e len h = elim (ℕ_discrete (entry_at u k) (entry_at t i)) [
        | yes same ↦
            let present : is_present (f + 3) ≡ true = ground (arith, alloc_whole a sp.good) in
            rw (same, made_at, absent, present, made_frame) (read_blank (l ∷ ls) h.1)
        | no ne ↦
            let kept = made_other u q k e h.0 ne in
            elim (Bool-cases (is_present (m (entry_at u k)))) [
              | inr missing ↦ rw (kept, missing) refl
              | inl pres ↦
                  let inner = sp.tree.child u q k e (omega (arith, len)) h.0 pres in
                  rw (kept, pres)
                    (made_reads (l ∷ ls) (frame_of (m (entry_at u k))) (k ∷ q) inner
                      (omega (arith, len)) h.1)
            ]
      ]

      made-Extends : Extends m made own own_made
      made-Extends = record {
        keeps = own_made_old;
        entries = λ u q k e hk pres. made_other u q k e hk (not_absent (entry_at u k) pres);
        reads = made_reads;
      }

    same_Extends : Extends m m own own
    same_Extends = record {
      keeps = λ u q e. e;
      entries = λ u q k e hk pres. refl;
      reads = λ js u q e len h. refl;
    }

    descend_new :
        is_present (m (entry_at t i)) ≡ false
        → (o : Outcome (ℕ × S)) → alloc_frame s ≡ o
        → Descends m root s own t p i (do
          (frame, s') ← o
          let new_frame = frame_of frame
          let m₁ = clear_frame m new_frame
          let m₂ = store m₁ (entry_at t i) (new_frame + 3)
          ok (frame_of (m₂ (entry_at t i)), m₂, s'))
    unfolding made
    descend_new absent (panic e) a = (s, a)
    descend_new absent (ok (f, s')) a =
        let whole : frame_of f ≡ f = omega (arith, alloc_whole a sp.good) in
        let present : is_present (f + 3) ≡ true = ground (arith, alloc_whole a sp.good) in
        let here = made_at absent f s' a in
        let to_f = made_frame absent f s' a in
        rw (whole, here, to_f)
          (
            own_made absent f s' a,
            made-IsSpace absent f s' a,
            made-Extends absent f s' a,
            made-Uses absent f s' a,
            own_made_new absent f s' a,
            present,
            refl,
          )

    pub descend-Descends : Descends m root s own t p i (descend alloc_frame t i m s)
    unfolding descend
    descend-Descends = elim (Bool-cases (is_present (m (entry_at t i)))) [
      | inr absent ↦ rw absent (descend_new absent (alloc_frame s) refl)
      | inl pres ↦ rw pres (
        own,
        sp,
        same_Extends,
        Uses-refl alloc_frame supply s own,
        sp.tree.child t p i o above hi pres,
        pres,
        refl,
      )
    ]
