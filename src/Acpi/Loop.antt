-- ===== src/Acpi/Loop.antt =====
-- The loops over the structures of the interrupt controllers, which the users of kernel/acpi/madt.c
-- write with get_first_ICS_header and get_next_ICS_header, with any body.
use garbage_os.Base.{
  ℕ, zero, suc, ◌+◌, ◌≤◌, ◌<◌, ◌≡◌, refl, sym, subst, true, false, inl, inr, Option, none, some,
  List, [], ◌∷◌, length, arith, leb, ◌==◌, if◌then◌else◌, add64, sub64, null, Outcome, ok,
  Outcome-cases, ◌>>=◌,
}
use garbage_os.Acpi.{Bytes, table_length, get_first_ics_header, get_next_ics_header}
use garbage_os.Acpi.Walk.{IsChain, IsTable, chain-bound}

-- How a round of a loop ends.
pub data Round (S : Type 0) : Type 0 where
  continue : S → Round S
  break : S → Round S

module _ {S : Type 0} (body : (header : ℕ) → S → Outcome (Round S)) where
  -- What follows a round: `next` unless the loop is left.
  abbrev pub after_round : (next : S → Outcome (Option S)) → Round S → Outcome (Option S)
  after_round next (continue s) = next s
  after_round next (break s) = ok (some s)

  -- `for(header = first; header != NULL; header = get_next_ICS_header(madt, header))`, none if it has
  -- not ended after `fuel` rounds.
  unfoldable pub for_each_from : Bytes → (madt fuel header : ℕ) → S → Outcome (Option S)
  for_each_from bytes madt zero header s = ok none
  for_each_from bytes madt (suc fuel) header s = if header == null then ok (some s) else (do
    r ← body header s
    after_round (for_each_from bytes madt fuel (get_next_ics_header bytes madt header)) r)

  abbrev pub for_each_ics : Bytes → (madt fuel : ℕ) → S → Outcome (Option S)
  for_each_ics bytes madt fuel s = for_each_from bytes madt fuel (get_first_ics_header bytes madt) s

  -- The body on the structures at `hs`, one after the other.
  abbrev pub rounds : (hs : List ℕ) → S → Outcome (Option S)
  rounds [] s = ok (some s)
  rounds (h ∷ hs) s = body h s >>= after_round (rounds hs)

  module _ (bytes : Bytes) (madt : ℕ) (hs : List ℕ) (t : IsTable bytes madt hs) where
    end : ℕ
    end = madt + table_length bytes madt

    go : (a : ℕ) → ℕ
    go a = if leb (table_length bytes madt) (sub64 a madt) then null else a

    for_each_from-chain :
        (a : ℕ) (rest : List ℕ) (fuel : ℕ) (s : S)
        → madt ≤ a
        → IsChain bytes a end rest
        → length rest < fuel
        → for_each_from bytes madt fuel (go a) s ≡ rounds rest s
    unfolding for_each_from get_next_ics_header end go
    for_each_from-chain a rest zero s low chain enough = absurd (omega (arith, enough))
    for_each_from-chain a [] (suc fuel) s low chain enough =
        let at_end : leb (table_length bytes madt) (sub64 a madt) ≡ true =
          ground (arith, chain, t.fits) in
        rw at_end refl
    for_each_from-chain a (h ∷ rest) (suc fuel) s low (start, pos, chain) enough =
        let later = chain-bound bytes (h + bytes (h + 1)) end rest chain in
        let inside : leb (table_length bytes madt) (sub64 h madt) ≡ false =
          ground (arith, start, pos, later, low, t.fits) in
        let not_null : (h == null) ≡ false = ground (arith, start, low, t.not_null) in
        let next : add64 h (bytes (h + 1)) ≡ h + bytes (h + 1) = omega (arith, later, t.fits) in
        let others = λ (s' : S).
          for_each_from-chain (h + bytes (h + 1)) rest fuel s' (omega (arith, start, low)) chain
            (omega (arith, enough)) in
        subst (λ x. for_each_from bytes madt (suc fuel) (go x) s ≡ rounds (h ∷ rest) s) (sym start)
          (elim (Outcome-cases (body h s)) [
            | inr (e, q) ↦ rw (inside, not_null, q) refl
            | inl (continue s', q) ↦ rw (inside, not_null, next, q) (others s')
            | inl (break s', q) ↦ rw (inside, not_null, q) refl
          ])

    -- The loop over a table whose structures lie one behind the other and are not empty.
    pub for_each_ics-rounds :
        (fuel : ℕ) (s : S)
        → table_length bytes madt ≤ fuel
        → for_each_ics bytes madt fuel s ≡ rounds hs s
    unfolding get_first_ics_header end go
    for_each_ics-rounds fuel s enough =
        let below = chain-bound bytes (madt + 44) end hs t.chain in
        let start : add64 madt 44 ≡ madt + 44 = omega (arith, below, t.fits) in
        let distance : leb (table_length bytes madt) 44
            ≡ leb (table_length bytes madt) (sub64 (madt + 44) madt) =
          ground (arith, below, t.fits) in
        rw (start, distance)
          (for_each_from-chain (madt + 44) hs fuel s (omega arith) t.chain
            (omega (arith, below, enough)))
