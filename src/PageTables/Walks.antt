-- ===== src/PageTables/Walks.antt =====
-- The walk to the entry of an address, and what a write to that entry changes.
use garbage_os.Base.{
  ℕ, ◌<◌, ◌≡◌, refl, sym, ap, ◌∙◌, subst, inl, inr, true, Option, some, List, [], ◌∷◌, arith,
  Outcome, ok, panic, Outcome-cases, Memory,
}
use garbage_os.PageTables.{
  is_present, frame_of, entry_at, descend, unsync_get_page_table_entry, pml4_index, pdpt_index,
  pdt_index, pt_index,
}
use garbage_os.PageTables.Tree.{Supply}
use garbage_os.PageTables.Space.{Extends, IsSpace, AllocPanics, Uses, Uses-trans}
use garbage_os.PageTables.Descend.{Descends, descend-Descends}

-- The present entries that lead from a table to another one by indices.
abbrev pub Leads : Memory → (t : ℕ) → List ℕ → (u : ℕ) → Type 0
Leads m t [] u = t ≡ u
Leads m t (i ∷ is) u =
    (is_present (m (entry_at t i)) ≡ true) × Leads m (frame_of (m (entry_at t i))) is u

-- The indices of a walk in front of those that lead to its start, the last one first.
abbrev pub path_to : List ℕ → List ℕ → List ℕ
path_to [] q = q
path_to (i ∷ is) q = path_to is (i ∷ q)

Extends-trans :
    {m₁ m₂ m₃ : Memory} {own₁ own₂ own₃ : ℕ → Option (List ℕ)}
    → Extends m₁ m₂ own₁ own₂
    → Extends m₂ m₃ own₂ own₃
    → Extends m₁ m₃ own₁ own₃
Extends-trans a b = record {
  keeps = λ t p o. b.keeps t p (a.keeps t p o);
  entries = λ t p i o hi pres.
      let e = a.entries t p i o hi pres in
      b.entries t p i (a.keeps t p o) hi (ap is_present e ∙ pres) ∙ e;
  reads = λ js t p o len h. b.reads js t p (a.keeps t p o) len h ∙ a.reads js t p o len h;
}

-- An entry that leads on still does after an extension.
Leads-on :
    {m m' : Memory} {own own' : ℕ → Option (List ℕ)} (t : ℕ) (p : List ℕ) (i u : ℕ) (is : List ℕ)
    (v : ℕ)
    → Extends m m' own own'
    → own t ≡ some p
    → i < 512
    → is_present (m (entry_at t i)) ≡ true
    → frame_of (m (entry_at t i)) ≡ u
    → Leads m' u is v
    → Leads m' t (i ∷ is) v
Leads-on {m} {m'} t p i u is v x o hi pres to rest =
    let e = x.entries t p i o hi pres in
    (ap is_present e ∙ pres, subst (λ y. Leads m' y is v) (sym (ap frame_of e ∙ to)) rest)

module _ {ℓ} {S : Type ℓ} (alloc_frame : S → Outcome (ℕ × S)) (supply : Supply S alloc_frame) where
  -- Where the walk for an address ends: at an entry `e` of a table of the lowest level.
  pub record Ends (m : Memory) (root vaddr : ℕ) (s : S) (own : ℕ → Option (List ℕ)) (e : ℕ)
      (m' : Memory) (s' : S) : Type ℓ where
    pub own' : ℕ → Option (List ℕ)
    pub space : IsSpace alloc_frame supply m' root s' own'
    pub extends : Extends m m' own own'
    pub uses : Uses alloc_frame supply s s' own own'
    pub table : ℕ
    pub table_owned : own' table ≡ some (pdt_index vaddr ∷ pdpt_index vaddr ∷ pml4_index vaddr ∷ [])
    pub leads : Leads m' root (pml4_index vaddr ∷ pdpt_index vaddr ∷ pdt_index vaddr ∷ []) table
    pub entry : e ≡ entry_at table (pt_index vaddr)

  abbrev pub WalksTo :
      Memory → (root vaddr : ℕ) → S → (ℕ → Option (List ℕ)) → Outcome (ℕ × Memory × S) → Type ℓ
  WalksTo m root vaddr s own (panic e) = AllocPanics alloc_frame supply e
  WalksTo m root vaddr s own (ok (e, m', s')) = Ends m root vaddr s own e m' s'

  module _ (m : Memory) (root vaddr : ℕ) (s : S) (own : ℕ → Option (List ℕ))
      (sp : IsSpace alloc_frame supply m root s own) where
    abbrev i₄ : ℕ
    i₄ = pml4_index vaddr

    abbrev i₃ : ℕ
    i₃ = pdpt_index vaddr

    abbrev i₂ : ℕ
    i₂ = pdt_index vaddr

    pub unsync_get_page_table_entry-WalksTo :
        WalksTo m root vaddr s own (unsync_get_page_table_entry alloc_frame root vaddr m s)
    unfolding unsync_get_page_table_entry
    unsync_get_page_table_entry-WalksTo =
        let d₄ =
          descend-Descends alloc_frame supply m root s own sp root [] i₄ sp.tree.root_owned
            (omega arith) (omega arith) in
        elim (Outcome-cases (descend alloc_frame root i₄ m s)) [
          | inr (e, q) ↦ rw q (subst (Descends alloc_frame supply m root s own root [] i₄) q d₄)
          | inl ((t₃, m₁, s₁), q) ↦
              let (own₁, sp₁, x₁, y₁, o₁, p₁, f₁) =
                subst (Descends alloc_frame supply m root s own root [] i₄) q d₄ in
              let d₃ =
                descend-Descends alloc_frame supply m₁ root s₁ own₁ sp₁ t₃ (i₄ ∷ []) i₃ o₁
                  (omega arith) (omega arith) in
              elim (Outcome-cases (descend alloc_frame t₃ i₃ m₁ s₁)) [
                | inr (e, r) ↦
                    rw (q, r)
                      (subst (Descends alloc_frame supply m₁ root s₁ own₁ t₃ (i₄ ∷ []) i₃) r d₃)
                | inl ((t₂, m₂, s₂), r) ↦
                    let (own₂, sp₂, x₂, y₂, o₂, p₂, f₂) =
                      subst (Descends alloc_frame supply m₁ root s₁ own₁ t₃ (i₄ ∷ []) i₃) r d₃ in
                    let d₂ =
                      descend-Descends alloc_frame supply m₂ root s₂ own₂ sp₂ t₂ (i₃ ∷ i₄ ∷ []) i₂
                        o₂ (omega arith) (omega arith) in
                    elim (Outcome-cases (descend alloc_frame t₂ i₂ m₂ s₂)) [
                      | inr (e, u) ↦
                          rw (q, r, u)
                            (subst
                              (Descends alloc_frame supply m₂ root s₂ own₂ t₂ (i₃ ∷ i₄ ∷ []) i₂) u
                              d₂)
                      | inl ((t₁, m₃, s₃), u) ↦
                          let (own₃, sp₃, x₃, y₃, o₃, p₃, f₃) =
                            subst (Descends alloc_frame supply m₂ root s₂ own₂ t₂ (i₃ ∷ i₄ ∷ []) i₂)
                              u d₂ in
                          let x₂₃ = Extends-trans x₂ x₃ in
                          rw (q, r, u)
                            (record {
                              own' = own₃;
                              space = sp₃;
                              extends = Extends-trans x₁ x₂₃;
                              uses =
                                  Uses-trans alloc_frame supply y₁
                                    (Uses-trans alloc_frame supply y₂ y₃);
                              table = t₁;
                              table_owned = o₃;
                              leads =
                                  Leads-on root [] i₄ t₃ (i₃ ∷ i₂ ∷ []) t₁ x₂₃ sp₁.tree.root_owned
                                    (omega arith) p₁ f₁
                                    (Leads-on t₃ (i₄ ∷ []) i₃ t₂ (i₂ ∷ []) t₁ x₃ (x₂.keeps _ _ o₁)
                                      (omega arith) p₂ f₂ (p₃, f₃));
                              entry = refl;
                            })
                    ]
              ]
        ]
