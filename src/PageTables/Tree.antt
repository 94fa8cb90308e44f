-- ===== src/PageTables/Tree.antt =====
-- The tables of a paging structure form a tree, whose frames the frame allocator does not own.
use garbage_os.Base.{
  ℕ, ◌%◌, ◌^◌, ◌<◌, ◌≡◌, true, Option, some, List, [], ◌∷◌, length, arith, if◌then◌else◌, page_size,
  Outcome, ok, Memory,
}
use garbage_os.PageTables.{
  is_present, frame_of, entry_at, get_physical_address, map_state, canonical, pml4_index,
  pdpt_index, pdt_index, pt_index,
}

-- The word that a walk by indices ends at, or 0 if an entry on the way is not present.
abbrev pub read : Memory → (table : ℕ) → List ℕ → ℕ
read m t [] = 0
read m t (i ∷ []) = m (entry_at t i)
read m t (i ∷ j ∷ js) =
    if is_present (m (entry_at t i)) then read m (frame_of (m (entry_at t i))) (j ∷ js) else 0

abbrev pub indices : ℕ → List ℕ
indices vaddr = pml4_index vaddr ∷ pdpt_index vaddr ∷ pdt_index vaddr ∷ pt_index vaddr ∷ []

abbrev pub IsIndex : ℕ → Type 0
IsIndex i = i < 512

-- `get_physical_address` describes the word at the end of the walk.
pub get_physical_address-read :
    (m : Memory) (root vaddr : ℕ)
    → get_physical_address m root vaddr ≡ map_state (read m root (indices vaddr))
unfolding get_physical_address map_state canonical
get_physical_address-read m root vaddr = ground arith

-- A frame allocator in use: in its good states it hands out whole pages below 2 ^ 48, and none of them
-- twice.
pub record Supply {ℓ} (S : Type ℓ) (alloc_frame : S → Outcome (ℕ × S)) : Type (ℓ ⊔ 1) where
  pub IsGood : S → Type 0
  pub IsFree : S → ℕ → Type 0
  pub alloc_good : {s s' : S} {f : ℕ} → alloc_frame s ≡ ok (f, s') → IsGood s → IsGood s'
  pub alloc_free : {s s' : S} {f : ℕ} → alloc_frame s ≡ ok (f, s') → IsGood s → IsFree s f
  pub alloc_whole :
      {s s' : S} {f : ℕ}
      → alloc_frame s ≡ ok (f, s')
      → IsGood s
      → (f % page_size ≡ 0) × (f < 2 ^ 48)
  pub alloc_rest :
      {s s' : S} {f : ℕ}
      → alloc_frame s ≡ ok (f, s')
      → IsGood s
      → (g : ℕ) → IsFree s' g
      → IsFree s g × ¬ (g ≡ f)

-- The tables of a structure: `own` gives the indices on the way from the root, the last one first.
-- An entry above the lowest level that is present leads to the table with one index more.
pub record IsTree (m : Memory) (root : ℕ) (own : ℕ → Option (List ℕ)) : Type 0 where
  pub root_owned : own root ≡ some []
  pub whole : (t : ℕ) (p : List ℕ) → own t ≡ some p → (t % page_size ≡ 0) × (t < 2 ^ 48)
  pub child :
      (t : ℕ) (p : List ℕ) (i : ℕ)
      → own t ≡ some p
      → length p < 3
      → i < 512
      → is_present (m (entry_at t i)) ≡ true
      → own (frame_of (m (entry_at t i))) ≡ some (i ∷ p)
