-- ===== src/Vmm/Layout/Walk.antt =====
-- Where the loops over the descriptors stop.
use garbage_os.Base.{
  ◌≡◌, refl, ap, ◌⊎◌, inl, inr, ◌≢◌, Bool, true, false, All, List, [], ◌∷◌, ◌++◌, Bool-cases, ok,
}
use garbage_os.Vmm.Descriptors.{Descriptor, Walk, walk, walk_from}

-- The loop stops in the list, at the first descriptor that passes the test or at the last one.
pub record Stops (stop : Descriptor → Bool) (ds : List Descriptor) (w : Walk) : Type 0 where
  pub whole : w.passed ++ w.here ∷ w.ahead ≡ ds
  pub before : All (λ d. stop d ≡ false) w.passed
  pub reason : (stop w.here ≡ true) ⊎ (w.ahead ≡ [])

pub walk_from-Stops :
    (stop : Descriptor → Bool) (d : Descriptor) (ds : List Descriptor)
    → Stops stop (d ∷ ds) (walk_from stop d ds)
unfolding walk_from
walk_from-Stops stop d [] = record { whole = refl; before = tt; reason = inr refl }
walk_from-Stops stop d (e ∷ es) = elim (Bool-cases (stop d)) [
  | inl yes_here ↦ rw yes_here record { whole = refl; before = tt; reason = inl yes_here }
  | inr not_here ↦
      let s = walk_from-Stops stop e es in
      rw not_here record {
        whole = ap (λ xs. d ∷ xs) s.whole;
        before = (not_here, s.before);
        reason = s.reason;
      }
]

pub walk-Stops :
    (stop : Descriptor → Bool) (ds : List Descriptor)
    → ds ≢ []
    → (w : Walk) × (walk stop ds ≡ ok w) × Stops stop ds w
unfolding walk
walk-Stops stop [] h = absurd (h refl)
walk-Stops stop (d ∷ ds) h = (walk_from stop d ds, refl, walk_from-Stops stop d ds)
