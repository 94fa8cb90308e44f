-- ===== src/Interrupt/Apic/Counted.antt =====
-- The array of the local controllers, whose size is the number of those that can be used.
use mathlib.Core.List.{append-nil}
use garbage_os.Base.{
  ℕ, suc, ◌+◌, ◌-◌, ◌≤◌, ◌<◌, ◌≡◌, refl, ap, ◌∙◌, ◌⊎◌, true, false, Bool-cases, inl, inr, Option,
  none, some, List, [], ◌∷◌, ◌++◌, map, length, All, arith, ◌==◌, ◌!=◌, null, Outcome, ok, panic,
  failed_assert, ◌>>=◌,
}
use garbage_os.Acpi.{Bytes, table_length, is_usable_local_apic}
use garbage_os.Acpi.Walk.{IsTable, IsChain, count, count_ics_header_instances-count}
use garbage_os.Acpi.Loop.{rounds, for_each_ics-rounds}
use garbage_os.Interrupt.Apic.{LocalApic, fill_lapic, fill_ics_nmi, fill_all_nmi, fill_apic_array}
use garbage_os.Interrupt.Apic.Setup.{cleared_lapics, fill_counted_lapics}
use garbage_os.Interrupt.Apic.Fill.{
  identity, controllers, entry, Placed, fill_lapic-Placed, IsArrayOf, entries-IsArrayOf,
}
use garbage_os.Interrupt.Apic.Nmi.{has_stray_nmi, NmisAssigned, fill_ics_nmi-NmisAssigned}

-- The number of the controllers that can be used, which is at most that of all.
abbrev pub usable : Bytes → (hs : List ℕ) → ℕ
usable bytes hs = count (is_usable_local_apic bytes) hs

-- The array has every controller of the table, each of which can be used, and no structure that is
-- looked at is for the NMI of a controller that is not there. A panic is an assertion: there is a
-- controller that cannot be used, or such a structure.
abbrev pub FillsCounted : Bytes → (hs : List ℕ) → Outcome (Option (List LocalApic)) → Type 0
FillsCounted bytes hs (panic e) =
    (e ≡ failed_assert)
    × ((usable bytes hs < length (controllers bytes hs))
        ⊎ (has_stray_nmi bytes (controllers bytes hs) hs ≡ true))
FillsCounted bytes hs (ok none) = true ≡ false
FillsCounted bytes hs (ok (some lapics)) =
    (usable bytes hs ≡ length (controllers bytes hs))
    × (has_stray_nmi bytes (controllers bytes hs) hs ≡ false)
    × IsArrayOf bytes (controllers bytes hs) lapics

usable-controllers : (bytes : Bytes) (hs : List ℕ) → usable bytes hs ≤ length (controllers bytes hs)
usable-controllers bytes [] = omega arith
usable-controllers bytes (h ∷ hs) = ground (arith, usable-controllers bytes hs)

chain-controllers :
    (bytes : Bytes) (a end : ℕ) (hs : List ℕ)
    → 0 < a
    → IsChain bytes a end hs
    → All (λ c. 0 < c) (controllers bytes hs)
chain-controllers bytes a end [] pos chain = tt
chain-controllers bytes a end (h ∷ hs) pos (start, some_bytes, rest) =
    let later =
      chain-controllers bytes (h + bytes (h + 1)) end hs (omega (arith, some_bytes)) rest in
    elim (Bool-cases (bytes h == 0)) [
      | inl lapic ↦ rw lapic (omega (arith, pos, start), later)
      | inr other ↦ rw other later
    ]

length-map : (f : ℕ → LocalApic) (cs : List ℕ) → length (map f cs) ≡ length cs
length-map f [] = refl
length-map f (c ∷ cs) = ap suc (length-map f cs)

module _ (bytes : Bytes) (madt : ℕ) (hs : List ℕ) (t : IsTable bytes madt hs) (fuel : ℕ)
    (enough : table_length bytes madt ≤ fuel) where
  assigned :
      (o : Outcome (Option (List LocalApic)))
      → usable bytes hs ≡ length (controllers bytes hs)
      → NmisAssigned bytes (controllers bytes hs) (has_stray_nmi bytes (controllers bytes hs) hs) o
      → FillsCounted bytes hs o
  assigned (panic e) all (code, stray) = (code, inr stray)
  assigned (ok none) all ended = ended
  assigned (ok (some lapics)) all (no_stray, same) = (all, no_stray, same)

  -- The second loop after the first one.
  then_nmis :
      (o : Outcome (Option (List LocalApic × ℕ)))
      → Placed bytes [] (usable bytes hs) (controllers bytes hs) o
      → FillsCounted bytes hs (o >>= fill_all_nmi bytes madt fuel)
  then_nmis (panic e) (code, short) = (code, inl short)
  then_nmis (ok none) ended = ended
  then_nmis (ok (some (lapics, index))) (fits, placed, at_end) =
      let all : usable bytes hs ≡ length (controllers bytes hs) =
        omega (arith, fits, usable-controllers bytes hs) in
      let none_left : usable bytes hs - length (controllers bytes hs) ≡ 0 = omega (arith, all) in
      let filled : lapics ≡ map (entry bytes) (controllers bytes hs) =
        placed
        ∙ ap (λ k. map (entry bytes) (controllers bytes hs) ++ cleared_lapics k) none_left
        ∙ append-nil (map (entry bytes) (controllers bytes hs)) in
      let sizes : length lapics ≡ length (controllers bytes hs) =
        ap length filled ∙ length-map (entry bytes) (controllers bytes hs) in
      let whole : (index == length lapics) ≡ true = ground (arith, at_end, sizes) in
      let positive =
        chain-controllers bytes (madt + 44) (madt + table_length bytes madt) hs (omega arith)
          t.chain in
      let same : IsArrayOf bytes (controllers bytes hs) lapics =
        ap (map identity) filled ∙ entries-IsArrayOf bytes (controllers bytes hs) in
      rw (whole, for_each_ics-rounds (fill_ics_nmi bytes) bytes madt hs t fuel lapics enough)
        (assigned (rounds (fill_ics_nmi bytes) hs lapics) all
          (fill_ics_nmi-NmisAssigned bytes (controllers bytes hs) hs lapics positive same))

  -- For a table whose structures lie one behind the other and are not empty, the array has the
  -- controllers of the table in order if all of them can be used and no structure, up to the first one for
  -- the NMIs of all processors, is for the NMI of a processor that has no controller. Else an assertion
  -- fails.
  pub fill_counted_lapics-FillsCounted : FillsCounted bytes hs (fill_counted_lapics bytes madt fuel)
  unfolding fill_counted_lapics fill_apic_array
  fill_counted_lapics-FillsCounted =
      let not_null : (madt != null) ≡ true = ground (arith, t.not_null) in
      rw
        (
          (count_ics_header_instances-count bytes madt hs t 0 fuel enough).1,
          not_null,
          for_each_ics-rounds (fill_lapic bytes) bytes madt hs t fuel
              (cleared_lapics (usable bytes hs), 0) enough,
        )
        (then_nmis _ (fill_lapic-Placed bytes hs [] (usable bytes hs)))
