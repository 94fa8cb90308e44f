-- ===== src/PageTables/Mapping.antt =====
-- What the operations on a mapping do to the translation of every address.
use native.Mathlib.Decide.{ℕ_discrete}
use garbage_os.Base.{
  ℕ, ◌*◌, ◌/◌, ◌%◌, ◌^◌, ◌<◌, ◌≡◌, refl, sym, ap, ◌∙◌, subst, Bool, true, false, inl, inr, Option,
  List, [], ◌∷◌, All, arith, if◌then◌else◌, ◌==◌, eq→==, ne→==_false, Outcome, ok, panic,
  Outcome-cases, Memory, store,
}
use garbage_os.PageTables.{
  is_present, frame_of, entry_at, unsync_get_page_table_entry, pml4_index, pdpt_index, pdt_index,
  pt_index, get_physical_address, map_state, canonical, PagingMapState, paging_map,
  invalidate_paging_mapping, new_entry, clear_present, page_flags,
}
use garbage_os.PageTables.Tree.{read, indices, IsIndex, Supply, get_physical_address-read}
use garbage_os.PageTables.Space.{IsSpace, AllocPanics, Uses}
use garbage_os.PageTables.Written.{written-IsTree, read_other, read_here, read-Leads}
use garbage_os.PageTables.Walks.{path_to, Ends, WalksTo, unsync_get_page_table_entry-WalksTo}

-- The number of the page that the tables look at.
abbrev pub page_of : ℕ → ℕ
page_of vaddr = vaddr / 2 ^ 12 % 2 ^ 36

indices_page :
    (a b : ℕ)
    → pml4_index a ≡ pml4_index b
    → pdpt_index a ≡ pdpt_index b
    → pdt_index a ≡ pdt_index b
    → pt_index a ≡ pt_index b
    → page_of a ≡ page_of b
indices_page a b h₄ h₃ h₂ h₁ = omega arith

path_to_page : (a b : ℕ) → path_to (indices a) [] ≡ path_to (indices b) [] → page_of a ≡ page_of b
path_to_page a b e = indices_page a b (cc) (cc) (cc) (cc)

page_indices : (a b : ℕ) → page_of a ≡ page_of b → indices a ≡ indices b
page_indices a b e =
    let h₄ : pml4_index a ≡ pml4_index b = omega (arith, e) in
    let h₃ : pdpt_index a ≡ pdpt_index b = omega (arith, e) in
    let h₂ : pdt_index a ≡ pdt_index b = omega (arith, e) in
    let h₁ : pt_index a ≡ pt_index b = omega (arith, e) in cc

indices-All : (a : ℕ) → All IsIndex (indices a)
indices-All a = omega arith

map_state-new_entry :
    (paddr flags : ℕ)
    → map_state (new_entry paddr flags)
      ≡ record { paddr = canonical (frame_of paddr); flags = page_flags flags; mmap_present = true }
unfolding map_state
map_state-new_entry paddr flags =
    let frame : frame_of (new_entry paddr flags) ≡ frame_of paddr = omega arith in
    let low : new_entry paddr flags % 2 ^ 12 ≡ page_flags flags = omega arith in
    let present : is_present (new_entry paddr flags) ≡ true = ground arith in
    rw (frame, low, present) refl

-- A translation that is no longer present, but keeps the rest.
abbrev pub invalidated : PagingMapState → PagingMapState
invalidated st = record st { flags = st.flags / 2 * 2; mmap_present = false }

map_state-clear_present :
    (entry : ℕ) → map_state (clear_present entry) ≡ invalidated (map_state entry)
unfolding map_state
map_state-clear_present entry =
    let frame : frame_of (clear_present entry) ≡ frame_of entry = omega arith in
    let low : clear_present entry % 2 ^ 12 ≡ entry % 2 ^ 12 / 2 * 2 = omega arith in
    let absent : is_present (clear_present entry) ≡ false = ground arith in
    rw (frame, low, absent) refl

module _ {ℓ} {S : Type ℓ} (alloc_frame : S → Outcome (ℕ × S)) (supply : Supply S alloc_frame) where
  -- The page of `vaddr` has the translation `st` now, and every other page the one that it had. The
  -- tables still form a tree apart from the free frames, and the new ones were free. A panic is one of the frame allocator.
  abbrev pub Remaps :
      Memory
      → (root vaddr : ℕ) → S
      → (ℕ → Option (List ℕ))
      → PagingMapState
      → Outcome (Memory × S)
      → Type ℓ
  Remaps m root vaddr s own st (panic e) = AllocPanics alloc_frame supply e
  Remaps m root vaddr s own st (ok (m', s')) =
      (own' : ℕ → Option (List ℕ)) × IsSpace alloc_frame supply m' root s' own'
      × Uses alloc_frame supply s s' own own'
      × ((a : ℕ)
          → get_physical_address m' root a
            ≡ (if page_of a == page_of vaddr then st else get_physical_address m root a))

  module _ (m : Memory) (root vaddr : ℕ) (s : S) (own : ℕ → Option (List ℕ))
      (sp : IsSpace alloc_frame supply m root s own) where
    module _ (e : ℕ) (m' : Memory) (s' : S) (x : Ends alloc_frame supply m root vaddr s own e m' s')
        (w : ℕ) where
      open x use {own', space, extends, uses, table, table_owned, leads}

      pt_small : pt_index vaddr < 512
      pt_small = omega arith

      read_old : (a : ℕ) → read m' root (indices a) ≡ read m root (indices a)
      read_old a = extends.reads (indices a) root [] sp.tree.root_owned refl (indices-All a)

      read_new :
          (a : ℕ)
          → read (store m' (entry_at table (pt_index vaddr)) w) root (indices a)
            ≡ (if page_of a == page_of vaddr then w else read m root (indices a))
      read_new a = elim (ℕ_discrete (page_of a) (page_of vaddr)) [
        | yes same ↦ rw (eq→== _ _ same) (
            ap (λ is. read (store m' (entry_at table (pt_index vaddr)) w) root is)
              (page_indices a vaddr same)
            ∙ read_here m' root own' space.tree table (pt_index vaddr) _ table_owned refl pt_small w
                (pml4_index vaddr ∷ pdpt_index vaddr ∷ pdt_index vaddr ∷ []) root []
                space.tree.root_owned refl (omega arith) leads)
        | no ne ↦ rw (ne→==_false _ _ ne) (
            read_other m' root own' space.tree table (pt_index vaddr) _ table_owned refl pt_small w
              (indices a) root [] space.tree.root_owned refl (indices-All a)
              (λ same. ne (path_to_page a vaddr same))
            ∙ read_old a)
      ]

      write_Remaps :
          Remaps m root vaddr s own
            (map_state w)
            (ok (store m' (entry_at table (pt_index vaddr)) w, s'))
      write_Remaps = (
        own',
        record {
          tree =
              written-IsTree m' root own' space.tree table (pt_index vaddr) _ table_owned refl
                pt_small w;
          good = space.good;
          outside = space.outside;
        },
        uses,
        λ a.
            get_physical_address-read _ root a
            ∙ ap map_state (read_new a)
            ∙ if-map_state (page_of a == page_of vaddr) a,
      )
        where
          if-map_state :
              (b : Bool) (a : ℕ)
              → map_state (if b then w else read m root (indices a))
                ≡ (if b then map_state w else get_physical_address m root a)
          if-map_state true a = refl
          if-map_state false a = sym (get_physical_address-read m root a)

    -- A mapping of a page, from a structure whose tables form a tree apart from the free frames, gives
    -- the page the frame and the flags, and changes no other translation.
    pub paging_map-Remaps :
        (paddr flags : ℕ)
        → Remaps m root vaddr s own
            (record {
              paddr = canonical (frame_of paddr);
              flags = page_flags flags;
              mmap_present = true;
            })
            (paging_map alloc_frame root vaddr paddr flags m s)
    unfolding paging_map
    paging_map-Remaps paddr flags =
        let walks = unsync_get_page_table_entry-WalksTo alloc_frame supply m root vaddr s own sp in
        elim (Outcome-cases (unsync_get_page_table_entry alloc_frame root vaddr m s)) [
          | inr (e, q) ↦ rw q (subst (WalksTo alloc_frame supply m root vaddr s own) q walks)
          | inl ((e, m', s'), q) ↦
              let x = subst (WalksTo alloc_frame supply m root vaddr s own) q walks in
              rw (q, x.entry, ← map_state-new_entry paddr flags)
                (write_Remaps e m' s' x (new_entry paddr flags))
        ]

    -- An invalidation of a page, from such a structure, takes the presence from its translation, and
    -- keeps the frame, the other flags, and every other translation.
    pub invalidate_paging_mapping-Remaps :
        Remaps m root vaddr s own
          (invalidated (get_physical_address m root vaddr))
          (invalidate_paging_mapping alloc_frame root vaddr m s)
    unfolding invalidate_paging_mapping
    invalidate_paging_mapping-Remaps =
        let walks = unsync_get_page_table_entry-WalksTo alloc_frame supply m root vaddr s own sp in
        elim (Outcome-cases (unsync_get_page_table_entry alloc_frame root vaddr m s)) [
          | inr (e, q) ↦ rw q (subst (WalksTo alloc_frame supply m root vaddr s own) q walks)
          | inl ((e, m', s'), q) ↦
              let x = subst (WalksTo alloc_frame supply m root vaddr s own) q walks in
              let old = clear_present (m' (entry_at x.table (pt_index vaddr))) in
              let state : map_state old ≡ invalidated (get_physical_address m root vaddr) =
                map_state-clear_present (m' (entry_at x.table (pt_index vaddr)))
                ∙ ap (λ word. invalidated (map_state word))
                    (sym (
                        read-Leads m' (pt_index vaddr) x.table
                          (pml4_index vaddr ∷ pdpt_index vaddr ∷ pdt_index vaddr ∷ []) root x.leads)
                      ∙ read_old e m' s' x old vaddr)
                ∙ ap invalidated (sym (get_physical_address-read m root vaddr)) in
              rw (q, x.entry, ← state) (write_Remaps e m' s' x old)
        ]
