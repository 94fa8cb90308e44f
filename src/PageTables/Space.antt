-- ===== src/PageTables/Space.antt =====
-- The tables of a structure apart from the free frames, and what making a table keeps.
use garbage_os.Base.{
  ℕ, ◌+◌, ◌%◌, ◌<◌, ◌≡◌, ◌≢◌, ◌⊎◌, inl, inr, true, Option, some, List, All, length, arith,
  page_size, Outcome, panic, Memory, ErrorCode,
}
use garbage_os.PageTables.{is_present, entry_at, clear_frame}
use garbage_os.PageTables.Tree.{read, IsIndex, Supply, IsTree}

pub some_inj : {p q : List ℕ} → ◌≡◌ {A = Option (List ℕ)} (some p) (some q) → p ≡ q
some_inj e = cc

-- The entries of different tables, or at different indices, have different addresses.
pub entry_at_ne :
    (t u i k : ℕ)
    → t % page_size ≡ 0
    → u % page_size ≡ 0
    → i < 512
    → k < 512
    → entry_at t i ≡ entry_at u k
    → (t ≡ u) × (i ≡ k)
entry_at_ne t u i k ht hu hi hk e = omega arith

pub clear_frame_in : (m : Memory) (f k : ℕ) → k < 512 → clear_frame m f (entry_at f k) ≡ 0
unfolding clear_frame
clear_frame_in m f k h = ground arith

pub clear_frame_out :
    (m : Memory) (f u k : ℕ)
    → f % page_size ≡ 0
    → u % page_size ≡ 0
    → u ≢ f
    → k < 512
    → clear_frame m f (entry_at u k) ≡ m (entry_at u k)
unfolding clear_frame
clear_frame_out m f u k hf hu ne h = ground arith

-- What a change of the memory and of the set of tables keeps: the tables, their present entries above
-- the lowest level, and what is read from any table on.
pub record Extends (m m' : Memory) (own own' : ℕ → Option (List ℕ)) : Type 0 where
  pub keeps : (t : ℕ) (p : List ℕ) → own t ≡ some p → own' t ≡ some p
  pub entries :
      (t : ℕ) (p : List ℕ) (i : ℕ)
      → own t ≡ some p
      → i < 512
      → is_present (m (entry_at t i)) ≡ true
      → m' (entry_at t i) ≡ m (entry_at t i)
  pub reads :
      (js : List ℕ) (t : ℕ) (p : List ℕ)
      → own t ≡ some p
      → length p + length js ≡ 4
      → All IsIndex js
      → read m' t js ≡ read m t js

module _ {ℓ} {S : Type ℓ} (alloc_frame : S → Outcome (ℕ × S)) (supply : Supply S alloc_frame) where
  open supply use {IsGood, IsFree, alloc_good, alloc_free, alloc_whole, alloc_rest}

  -- The tree of a structure, none of whose tables is free.
  pub record IsSpace (m : Memory) (root : ℕ) (s : S) (own : ℕ → Option (List ℕ)) : Type ℓ where
    pub tree : IsTree m root own
    pub good : IsGood s
    pub outside : (t : ℕ) (p : List ℕ) → own t ≡ some p → ¬ IsFree s t

  -- A panic comes from the frame allocator.
  abbrev pub AllocPanics : ErrorCode → Type ℓ
  AllocPanics e = (s : S) × (alloc_frame s ≡ panic e)

  -- What an operation takes from the free frames: the new tables, and no other frame gets free.
  pub record Uses (s s' : S) (own own' : ℕ → Option (List ℕ)) : Type 0 where
    pub taken : (t : ℕ) (p : List ℕ) → own' t ≡ some p → (own t ≡ some p) ⊎ IsFree s t
    pub rest : (f : ℕ) → IsFree s' f → IsFree s f

  pub Uses-refl : (s : S) (own : ℕ → Option (List ℕ)) → Uses s s own own
  Uses-refl s own = record { taken = λ t p o. inl o; rest = λ f h. h }

  pub Uses-trans :
      {s₁ s₂ s₃ : S} {own₁ own₂ own₃ : ℕ → Option (List ℕ)}
      → Uses s₁ s₂ own₁ own₂
      → Uses s₂ s₃ own₂ own₃
      → Uses s₁ s₃ own₁ own₃
  Uses-trans a b = record {
    taken =
        λ t p o. elim (b.taken t p o) [ inl old ↦ a.taken t p old | inr new ↦ inr (a.rest t new) ];
    rest = λ f h. a.rest f (b.rest f h);
  }
