-- ===== src/Vmm/Manager/Laws/Take.antt =====
-- Allocation of a range.
use garbage_os.Base.{
  ℕ, ◌%◌, ◌≤◌, ◌<◌, ◌≡◌, refl, sym, subst, inl, inr, Bool, true, false, ◌||◌, List, [], ◌∷◌, arith,
  page_size, Outcome, ok, panic, ◌==◌, Bool-cases, ◌>>=◌, ◌>>◌, kassert,
}
use garbage_os.Vmm.Descriptors.{
  Descriptor, free, same_type, Walk, walk, walk_from, Cut, cut_descriptor_start, VirtualMemoryType,
}
use garbage_os.Vmm.Layout.Allocated.{AllocFails}
use garbage_os.Vmm.Layout.Cut.{CutsOut, cut_descriptor_start-CutsOut}
use garbage_os.Vmm.Layout.Walk.{Stops, walk_from-Stops}
use garbage_os.Vmm.Manager.{Vmm, relink}
use garbage_os.Vmm.Manager.Laws.{IsValid}
use garbage_os.Vmm.Manager.Laws.Relink.{Retyped, relink-Retyped, Stops-IsBlock}
use garbage_os.Vmm.Manager.Pages.{take_range, is_large_free}

-- Some descriptor of the list passes the test.
abbrev pub any : (Descriptor → Bool) → List Descriptor → Bool
any stop [] = false
any stop (d ∷ ds) = stop d || any stop ds

or_right : (b c : Bool) → (b || c) ≡ true → b ≡ false → c ≡ true
or_right b c h k = ground arith

walk_from-any :
    (stop : Descriptor → Bool) (d : Descriptor) (ds : List Descriptor)
    → any stop (d ∷ ds) ≡ true
    → stop (walk_from stop d ds).here ≡ true
unfolding walk_from
walk_from-any stop d [] h = ground arith
walk_from-any stop d (e ∷ es) h = elim (Bool-cases (stop d)) [
  | inl yes_here ↦ rw yes_here yes_here
  | inr not_here ↦ rw not_here (walk_from-any stop e es (or_right _ _ h not_here))
]

walk-any :
    (stop : Descriptor → Bool) (ds : List Descriptor)
    → any stop ds ≡ true
    → (w : Walk) × (walk stop ds ≡ ok w) × Stops stop ds w × (stop w.here ≡ true)
unfolding walk
walk-any stop [] h = cc
walk-any stop (d ∷ ds) h =
    (walk_from stop d ds, refl, walk_from-Stops stop d ds, walk_from-any stop d ds h)

-- The outcome of taking `size` bytes for the type `t`: a descriptor with the requested size, type and
-- paddings. Its addresses were free, now have type `t`, and no other address changes its type. A
-- panic is one of the bump allocator, which has run out of descriptors, or of the heap.
abbrev pub Takes :
    Vmm → (size : ℕ) → VirtualMemoryType → (upper lower : ℕ) → Outcome (Descriptor × Vmm) → Type 0
Takes v size t upper lower (panic e) = AllocFails v.pool e
Takes v size t upper lower (ok (d, v')) =
    (d.size_bytes ≡ size)
    × (d.type ≡ t)
    × (d.upper_padding ≡ upper)
    × (d.lower_padding ≡ lower)
    × Retyped v v' d.start_vaddr size free t

free_of_same : (t : VirtualMemoryType) → same_type t free ≡ true → t ≡ free
free_of_same t h = ground arith

module _ (v : Vmm) (size : ℕ) (t : VirtualMemoryType) (upper lower : ℕ) (ok_v : IsValid v)
    (w : Walk) (s : Stops (is_large_free size) v.descriptors w) where
  Takes-cut :
      (o : Outcome Cut)
      → w.here.start_vaddr % page_size ≡ 0
      → w.here.type ≡ free
      → CutsOut v.pool w.here w.here.start_vaddr size o
      → Takes v size t upper lower (do
        c ← o
        kassert (c.cutted.start_vaddr % page_size == 0)
        let d = record c.cutted { type = t; upper_padding = upper; lower_padding = lower }
        ok (d, record v { descriptors = relink w c d; pool = c.pool }))
  Takes-cut (panic e) whole is_free h = h
  Takes-cut (ok c) whole is_free (es, ez, h) =
      let k = relink-Retyped v (is_large_free size) w c t upper lower ok_v s (h t upper lower) in
      let v' = record v {
        descriptors =
            relink w c (record c.cutted { type = t; upper_padding = upper; lower_padding = lower });
        pool = c.pool;
      } in
      let aligned : c.cutted.start_vaddr % page_size ≡ 0 = rw es whole in
      rw aligned (
        ez,
        refl,
        refl,
        refl,
        subst (λ b. Retyped v v' b size free t) (sym es)
            (subst (λ before. Retyped v v' w.here.start_vaddr size before t) is_free k),
      )

-- In a valid manager with a free range that is large enough, at least one whole page is taken from
-- one, as `Takes` says.
pub take_range-Takes :
    (v : Vmm) (size : ℕ) (t : VirtualMemoryType) (upper lower : ℕ)
    → IsValid v
    → 0 < size
    → size % page_size ≡ 0
    → any (is_large_free size) v.descriptors ≡ true
    → Takes v size t upper lower (take_range v size t upper lower)
unfolding take_range
take_range-Takes v size t upper lower ok_v pos whole some_large =
    let (w, e, s, large) = walk-any (is_large_free size) v.descriptors some_large in
    let block = Stops-IsBlock v (is_large_free size) w ok_v s in
    let same : same_type w.here.type free ≡ true = ground arith in
    let fits : size ≤ w.here.size_bytes = ground arith in
    let is_free = free_of_same w.here.type same in
    rw (e, same)
      (Takes-cut v size t upper lower ok_v w s (cut_descriptor_start v.pool w.here size) block.2
        is_free
        (cut_descriptor_start-CutsOut v.pool w.here w.here.start_vaddr size
          record {
            block = block;
            is_free = rw is_free refl;
            size_pos = pos;
            size_aligned = whole;
            start_aligned = block.2;
            start_in = omega arith;
            end_in = omega (arith, fits);
          }
          refl))
