-- ===== src/PageTables/Written.antt =====
-- A write to an entry of the lowest level, and what walks read after it.
use garbage_os.Base.{
  ℕ, ◌+◌, ◌<◌, ◌≡◌, refl, sym, ap, ◌∙◌, subst, ◌≢◌, Bool-cases, inl, inr, Option, some, List, [],
  ◌∷◌, ◌++◌, All, length, arith, Memory, store, store_same, store_other,
}
use garbage_os.PageTables.{is_present, frame_of, entry_at}
use garbage_os.PageTables.Tree.{read, IsIndex, IsTree}
use garbage_os.PageTables.Space.{entry_at_ne}
use garbage_os.PageTables.Walks.{Leads, path_to}

some_inj : {p q : List ℕ} → ◌≡◌ {A = Option (List ℕ)} (some p) (some q) → p ≡ q
some_inj e = cc

-- A write to the entry `j` of the table `u`, which three indices lead to.
module _ (m : Memory) (root : ℕ) (own : ℕ → Option (List ℕ)) (tree : IsTree m root own) (u j : ℕ)
    (path : List ℕ) (o : own u ≡ some path) (low : length path ≡ 3) (hj : j < 512) (w : ℕ) where
  abbrev pub written : Memory
  written = store m (entry_at u j) w

  other_entry :
      (t : ℕ) (q : List ℕ) (k : ℕ)
      → own t ≡ some q
      → k < 512
      → ◌≢◌ {A = List ℕ} (k ∷ q) (j ∷ path)
      → written (entry_at t k) ≡ m (entry_at t k)
  other_entry t q k e hk ne = store_other m (entry_at u j) w (entry_at t k) (λ same.
      let (tu, kj) = entry_at_ne t u k j (tree.whole t q e).0 (tree.whole u path o).0 hk hj same in
      let paths : q ≡ path = some_inj (sym e ∙ (subst (λ x. own x ≡ some path) (sym tu) o)) in
      ne cc)

  inner_entry :
      (t : ℕ) (q : List ℕ) (k : ℕ)
      → own t ≡ some q
      → length q < 3
      → k < 512
      → written (entry_at t k) ≡ m (entry_at t k)
  inner_entry t q k e len hk =
      other_entry t q k e hk (λ same. let lens = ap length same in omega (arith, lens, low, len))

  pub written-IsTree : IsTree written root own
  written-IsTree = record {
    root_owned = tree.root_owned;
    whole = tree.whole;
    child = λ t q k e len hk pres.
        let kept = inner_entry t q k e len hk in
        ap (λ x. own (frame_of x)) kept
        ∙ tree.child t q k e len hk (ap is_present (sym kept) ∙ pres);
  }

  pub read_other :
      (js : List ℕ) (t : ℕ) (q : List ℕ)
      → own t ≡ some q
      → length q + length js ≡ 4
      → All IsIndex js
      → path_to js q ≢ j ∷ path
      → read written t js ≡ read m t js
  read_other [] t q e len h ne = refl
  read_other (k ∷ []) t q e len h ne = other_entry t q k e h.0 ne
  read_other (k ∷ l ∷ ls) t q e len h ne =
      let kept = inner_entry t q k e (omega (arith, len)) h.0 in
      elim (Bool-cases (is_present (m (entry_at t k)))) [
        | inr missing ↦ rw (kept, missing) refl
        | inl pres ↦
            let inner = tree.child t q k e (omega (arith, len)) h.0 pres in
            rw (kept, pres)
              (read_other (l ∷ ls) (frame_of (m (entry_at t k))) (k ∷ q) inner (omega (arith, len))
                h.1 ne)
      ]

  -- Along the entries that lead to `u`, the walk reads the new word.
  pub read_here :
      (is : List ℕ) (t : ℕ) (q : List ℕ)
      → own t ≡ some q
      → length q + length is ≡ 3
      → All IsIndex is
      → Leads m t is u
      → read written t (is ++ j ∷ []) ≡ w
  read_here [] t q e len h leads = rw leads (store_same m (entry_at u j) w)
  read_here (k ∷ []) t q e len h (pres, leads) =
      let kept = inner_entry t q k e (omega (arith, len)) h.0 in
      let inner = tree.child t q k e (omega (arith, len)) h.0 pres in
      rw (kept, pres)
        (read_here [] (frame_of (m (entry_at t k))) (k ∷ q) inner (omega (arith, len)) tt leads)
  read_here (k ∷ l ∷ ls) t q e len h (pres, leads) =
      let kept = inner_entry t q k e (omega (arith, len)) h.0 in
      let inner = tree.child t q k e (omega (arith, len)) h.0 pres in
      rw (kept, pres)
        (read_here (l ∷ ls) (frame_of (m (entry_at t k))) (k ∷ q) inner (omega (arith, len)) h.1
          leads)

-- A walk along entries that lead to a table reads the table's word.
pub read-Leads :
    (m : Memory) (j u : ℕ) (is : List ℕ) (t : ℕ)
    → Leads m t is u
    → read m t (is ++ j ∷ []) ≡ m (entry_at u j)
read-Leads m j u [] t h = ap (λ x. m (entry_at x j)) h
read-Leads m j u (k ∷ []) t (pres, h) =
    rw pres (read-Leads m j u [] (frame_of (m (entry_at t k))) h)
read-Leads m j u (k ∷ l ∷ ls) t (pres, h) =
    rw pres (read-Leads m j u (l ∷ ls) (frame_of (m (entry_at t k))) h)
