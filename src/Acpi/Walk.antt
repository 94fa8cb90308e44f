-- ===== src/Acpi/Walk.antt =====
-- The walk over the structures of a table whose lengths add up, and over one that has a structure of
-- length 0.
use garbage_os.Base.{
  ℕ, zero, suc, ◌+◌, ◌^◌, ◌≤◌, ◌<◌, ◌≡◌, refl, sym, ap, ◌∙◌, subst, Bool, true, false, Bool-cases,
  inl, inr, none, some, List, [], ◌∷◌, length, arith, leb, ◌==◌, ◌!=◌, if◌then◌else◌, add64, sub64,
  null, ok,
}
use garbage_os.Acpi.{
  Bytes, table_length, get_first_ics_header, get_next_ics_header, count_from,
  count_number_of_local_apic, count_ics_header_instances, is_usable_local_apic,
}

abbrev pub count : (accepts : ℕ → Bool) → List ℕ → ℕ
count accepts [] = 0
count accepts (h ∷ hs) = if accepts h then suc (count accepts hs) else count accepts hs

-- The structures from `a` on are at the addresses `hs`, and the last one ends at `end`; none is empty.
abbrev pub IsChain : Bytes → (a end : ℕ) → List ℕ → Type 0
IsChain bytes a end [] = a ≡ end
IsChain bytes a end (h ∷ hs) =
    (a ≡ h) × (0 < bytes (h + 1)) × IsChain bytes (h + bytes (h + 1)) end hs

-- The structures of the table at `madt` are at `hs`.
pub record IsTable (bytes : Bytes) (madt : ℕ) (hs : List ℕ) : Type 0 where
  pub not_null : 0 < madt
  pub fits : madt + table_length bytes madt < 2 ^ 64
  pub chain : IsChain bytes (madt + 44) (madt + table_length bytes madt) hs

pub chain-bound :
    (bytes : Bytes) (a end : ℕ) (hs : List ℕ) → IsChain bytes a end hs → a + length hs ≤ end
chain-bound bytes a end [] h = omega (arith, h)
chain-bound bytes a end (x ∷ hs) (start, pos, rest) =
    let below = chain-bound bytes (x + bytes (x + 1)) end hs rest in
    omega (arith, start, pos, below)

module _ (bytes : Bytes) (madt : ℕ) (hs : List ℕ) (t : IsTable bytes madt hs)
    (accepts : ℕ → Bool) where
  end : ℕ
  end = madt + table_length bytes madt

  -- Where the walk goes from `a`: to the structure there, or to none at the end.
  go : (a : ℕ) → ℕ
  go a = if leb (table_length bytes madt) (sub64 a madt) then null else a

  count_from-chain :
      (a : ℕ) (rest : List ℕ) (fuel n : ℕ)
      → madt ≤ a
      → IsChain bytes a end rest
      → length rest < fuel
      → n + length rest < 2 ^ 64
      → count_from bytes madt accepts fuel (go a) n ≡ some (n + count accepts rest)
  unfolding count_from get_next_ics_header end go
  count_from-chain a [] zero n low chain enough small = absurd (omega (arith, enough))
  count_from-chain a [] (suc fuel) n low chain enough small =
      let at_end : leb (table_length bytes madt) (sub64 a madt) ≡ true =
        ground (arith, chain, t.fits) in
      let none_left : n + 0 ≡ n = omega arith in rw (at_end, none_left) refl
  count_from-chain a (h ∷ rest) zero n low chain enough small = absurd (omega (arith, enough))
  count_from-chain a (h ∷ rest) (suc fuel) n low (start, pos, chain) enough small =
      let later = chain-bound bytes (h + bytes (h + 1)) end rest chain in
      let inside : leb (table_length bytes madt) (sub64 h madt) ≡ false =
        ground (arith, start, pos, later, low, t.fits) in
      let not_null : (h == null) ≡ false = ground (arith, start, low, t.not_null) in
      let next : add64 h (bytes (h + 1)) ≡ h + bytes (h + 1) = omega (arith, later, t.fits) in
      let others = λ (m : ℕ).
        count_from-chain (h + bytes (h + 1)) rest fuel m (omega (arith, start, low)) chain
          (omega (arith, enough)) in
      subst
        (λ x.
          count_from bytes madt accepts (suc fuel) (go x) n ≡ some (n + count accepts (h ∷ rest)))
        (sym start)
        (elim (Bool-cases (accepts h)) [
          | inl taken ↦
              let one_more : add64 n 1 ≡ n + 1 = omega (arith, small) in
              let total : (n + 1) + count accepts rest ≡ n + suc (count accepts rest) =
                omega arith in
              rw (inside, not_null, taken, next, one_more)
                (others (n + 1) (omega (arith, small)) ∙ ap some total)
          | inr other ↦ rw (inside, not_null, other, next) (others n (omega (arith, small)))
        ])

  count_from-first :
      (fuel : ℕ)
      → table_length bytes madt ≤ fuel
      → count_from bytes madt accepts fuel (get_first_ics_header bytes madt) 0
        ≡ some (count accepts hs)
  unfolding get_first_ics_header end go
  count_from-first fuel enough =
      let below = chain-bound bytes (madt + 44) end hs t.chain in
      let start : add64 madt 44 ≡ madt + 44 = omega (arith, below, t.fits) in
      let distance : leb (table_length bytes madt) 44
          ≡ leb (table_length bytes madt) (sub64 (madt + 44) madt) =
        ground (arith, below, t.fits) in
      let zero_more : 0 + count accepts hs ≡ count accepts hs = omega arith in
      rw (start, distance)
        (count_from-chain (madt + 44) hs fuel 0 (omega arith) t.chain (omega (arith, below, enough))
            (omega (arith, below, t.fits))
          ∙ ap some zero_more)

-- For a table whose structures lie one behind the other up to its end and are not empty, the counts end
-- within as many rounds as the table has bytes, and are the numbers of structures of the type, and of
-- the local controllers that can be used.
pub count_ics_header_instances-count :
    (bytes : Bytes) (madt : ℕ) (hs : List ℕ)
    → IsTable bytes madt hs
    → (ics_header_type fuel : ℕ) → table_length bytes madt ≤ fuel
    → (count_ics_header_instances bytes madt ics_header_type fuel
        ≡ ok (some (count (λ h. bytes h == ics_header_type) hs)))
      × (count_number_of_local_apic bytes madt fuel
          ≡ ok (some (count (is_usable_local_apic bytes) hs)))
unfolding count_ics_header_instances count_number_of_local_apic
count_ics_header_instances-count bytes madt hs t ics_header_type fuel enough =
    let guard : (madt != null) ≡ true = ground (arith, t.not_null) in
    (
      rw guard (
          ap (λ c. ok c)
            (count_from-first bytes madt hs t (λ h. bytes h == ics_header_type) fuel enough)),
      rw guard (
          ap (λ c. ok c)
            (count_from-first bytes madt hs t (is_usable_local_apic bytes) fuel enough)),
    )

-- From a structure of the table whose length is 0, no number of rounds ends a count.
pub count_from-empty :
    (bytes : Bytes) (madt header : ℕ)
    → 0 < madt
    → madt ≤ header
    → header < madt + table_length bytes madt
    → header < 2 ^ 64
    → bytes (header + 1) ≡ 0
    → (accepts : ℕ → Bool) (fuel n : ℕ) → count_from bytes madt accepts fuel header n ≡ none
unfolding count_from get_next_ics_header
count_from-empty bytes madt header pos low inside small empty accepts zero n = refl
count_from-empty bytes madt header pos low inside small empty accepts (suc fuel) n =
    let not_null : (header == null) ≡ false = ground (arith, pos, low) in
    let next : add64 header 0 ≡ header = omega (arith, small) in
    let stays : leb (table_length bytes madt) (sub64 header madt) ≡ false =
      ground (arith, low, inside, small) in
    rw (not_null, empty, next, stays)
      (count_from-empty bytes madt header pos low inside small empty accepts fuel _)
