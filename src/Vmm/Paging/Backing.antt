-- ===== src/Vmm/Paging/Backing.antt =====
-- The loop that maps pages to new frames, on the page tables.
use mathlib.Core.List.{Pairwise, Nodup}
use garbage_os.Base.{
  ℕ, zero, suc, ◌+◌, ◌%◌, ◌^◌, ◌≤◌, ◌<◌, ◌≡◌, ◌≢◌, refl, sym, ap, ◌∙◌, subst, ◌⊎◌, inl, inr, Bool,
  true, false, Bool-cases, Option, some, List, [], ◌∷◌, All, All-mem, All-mono, length, get_or,
  arith, ◌==◌, eq→==, ne→==_false, if◌then◌else◌, add64, page_size, Outcome, ok, panic,
  Outcome-cases, failed_assert, Memory,
}
use garbage_os.PageTables.{
  get_physical_address, PagingMapState, canonical, frame_of, page_flags, paging_map,
}
use garbage_os.PageTables.Tree.{Supply}
use garbage_os.PageTables.Space.{IsSpace, AllocPanics, Uses, Uses-refl}
use garbage_os.PageTables.Mapping.{page_of, Remaps, paging_map-Remaps}
use garbage_os.Vmm.Manager.Pages.{map_new_frames, present_writable}
use garbage_os.Vmm.Paging.{page_machine}

-- The translation of a page that is backed by the frame `f`.
abbrev pub backed_by : (f : ℕ) → PagingMapState
backed_by f = record { paddr = canonical f; flags = 3; mmap_present = true }

module _ {S : Type 0} (alloc_frame : S → Outcome (ℕ × S)) (dealloc_frame : ℕ → S → Outcome S)
    (supply : Supply S alloc_frame) where
  open supply use {IsGood, IsFree, alloc_good, alloc_free, alloc_whole, alloc_rest}

  -- The frame was free, is not any more, and is not one of the tables.
  abbrev pub IsFresh : (s s' : S) (own' : ℕ → Option (List ℕ)) → ℕ → Type 0
  IsFresh s s' own' f = IsFree s f × (¬ IsFree s' f) × ((p : List ℕ) → own' f ≢ some p)

  -- The `n` pages from number `page` on have frames of their own, which were free and are no tables, and
  -- no other page has changed its translation.
  pub record Backs (m : Memory) (root : ℕ) (s : S) (own : ℕ → Option (List ℕ)) (page n : ℕ)
      (m' : Memory) (s' : S) : Type 0 where
    pub own' : ℕ → Option (List ℕ)
    pub space : IsSpace alloc_frame supply m' root s' own'
    pub uses : Uses alloc_frame supply s s' own own'
    pub frames : List ℕ
    pub count : length frames ≡ n
    pub fresh : All (IsFresh s s' own') frames
    pub distinct : Nodup frames
    pub backed :
        (k a : ℕ)
        → k < n
        → page_of a ≡ page + k
        → get_physical_address m' root a ≡ backed_by (get_or frames k 0)
    pub others :
        (a : ℕ)
        → (page_of a < page) ⊎ (page + n ≤ page_of a)
        → get_physical_address m' root a ≡ get_physical_address m root a

  -- A panic is one of the frame allocator, or of the assertion on an address.
  abbrev pub BackedOr :
      (inside : ℕ → Bool)
      → Memory
      → (root : ℕ) → S
      → (ℕ → Option (List ℕ))
      → (page n : ℕ) → Outcome (Memory × S)
      → Type 0
  BackedOr inside m root s own page n (panic e) =
      AllocPanics alloc_frame supply e ⊎ ((e ≡ failed_assert) × (a : ℕ) × (inside a ≡ false))
  BackedOr inside m root s own page n (ok (m', s')) = Backs m root s own page n m' s'

  Backs-none :
      (m : Memory) (root : ℕ) (s : S) (own : ℕ → Option (List ℕ)) (page : ℕ)
      → IsSpace alloc_frame supply m root s own
      → Backs m root s own page 0 m s
  Backs-none m root s own page sp = record {
    own' = own;
    space = sp;
    uses = Uses-refl alloc_frame supply s own;
    frames = [];
    count = refl;
    fresh = tt;
    distinct = Pairwise.nil;
    backed = λ k a h e. absurd (omega (arith, h));
    others = λ a h. refl;
  }

  module _ (m : Memory) (root : ℕ) (s : S) (own : ℕ → Option (List ℕ))
      (sp : IsSpace alloc_frame supply m root s own) (frame : ℕ) (s₁ : S)
      (a₁ : alloc_frame s ≡ ok (frame, s₁)) where
    allocated-IsSpace : IsSpace alloc_frame supply m root s₁ own
    allocated-IsSpace = record {
      tree = sp.tree;
      good = alloc_good a₁ sp.good;
      outside = λ t p o h. sp.outside t p o (alloc_rest a₁ sp.good t h).0;
    }

    frame_whole : frame_of frame ≡ frame
    frame_whole = omega (arith, alloc_whole a₁ sp.good)

    -- One page is mapped to the frame, and then `n` more.
    module _ (page n : ℕ) (m₂ : Memory) (s₂ : S) (own₂ : ℕ → Option (List ℕ))
        (uses₂ : Uses alloc_frame supply s₁ s₂ own own₂)
        (translates : (a : ℕ)
          → get_physical_address m₂ root a
            ≡ (if page_of a == page then backed_by frame else get_physical_address m root a))
        (m₃ : Memory) (s₃ : S) (b : Backs m₂ root s₂ own₂ (suc page) n m₃ s₃) where
      open b use {own', space, uses, frames, count, fresh, distinct, backed, others}

      free_before : (f : ℕ) → IsFree s₂ f → IsFree s f × ¬ (f ≡ frame)
      free_before f h = alloc_rest a₁ sp.good f (uses₂.rest f h)

      frame_gone : (f : ℕ) → IsFree s₂ f → f ≢ frame
      frame_gone f h = (free_before f h).1

      frame_no_table : (p : List ℕ) → own' frame ≢ some p
      frame_no_table p o = elim (uses.taken frame p o) [
        | inr late ↦ frame_gone frame late refl
        | inl early ↦ elim (uses₂.taken frame p early) [
          | inr new ↦ (alloc_rest a₁ sp.good frame new).1 refl
          | inl old ↦ sp.outside frame p old (alloc_free a₁ sp.good)
        ]
      ]

      frame-IsFresh : IsFresh s s₃ own' frame
      frame-IsFresh =
          (alloc_free a₁ sp.good, λ h. frame_gone frame (uses.rest frame h) refl, frame_no_table)

      later_IsFresh : (f : ℕ) → IsFresh s₂ s₃ own' f → IsFresh s s₃ own' f
      later_IsFresh f (before, after, no_table) = ((free_before f before).0, after, no_table)

      later_ne : (f : ℕ) → IsFresh s₂ s₃ own' f → frame ≢ f
      later_ne f (before, after, no_table) same = frame_gone f before (sym same)

      backed_step :
          (k a : ℕ)
          → k < suc n
          → page_of a ≡ page + k
          → get_physical_address m₃ root a ≡ backed_by (get_or (frame ∷ frames) k 0)
      backed_step zero a h e =
          let here : page_of a ≡ page = omega (arith, e) in
          others a (inl (omega (arith, here)))
          ∙ translates a
          ∙ rw (eq→== (page_of a) page here) refl
      backed_step (suc k) a h e = backed k a (omega (arith, h)) (omega (arith, e))

      Backs-step : Backs m root s own page (suc n) m₃ s₃
      Backs-step = record {
        own' = own';
        space = space;
        uses = record {
          taken = λ t p o. elim (uses.taken t p o) [
            | inr late ↦ inr (free_before t late).0
            | inl early ↦ elim (uses₂.taken t p early) [
              | inr new ↦ inr (alloc_rest a₁ sp.good t new).0
              | inl old ↦ inl old
            ]
          ];
          rest = λ f h. (free_before f (uses.rest f h)).0;
        };
        frames = frame ∷ frames;
        count = ap suc count;
        fresh = (
          frame-IsFresh,
          All-mono (IsFresh s₂ s₃ own') (IsFresh s s₃ own') frames later_IsFresh fresh,
        );
        distinct =
            Pairwise.cons
              (λ f h.
                All-mem (λ g. frame ≢ g) (λ g. hlevel) frames
                  (All-mono (IsFresh s₂ s₃ own') (λ g. frame ≢ g) frames later_ne fresh) h)
              distinct;
        backed = backed_step;
        others = λ a h. elim h [
          | inl below ↦
              let ne : page_of a ≢ page = omega (arith, below) in
              others a (inl (omega (arith, below)))
              ∙ translates a
              ∙ rw (ne→==_false (page_of a) page ne) refl
          | inr above ↦
              let ne : page_of a ≢ page = omega (arith, above) in
              others a (inr (omega (arith, above)))
              ∙ translates a
              ∙ rw (ne→==_false (page_of a) page ne) refl
        ];
      }

  -- The translation that a mapping to the frame `f` gives.
  mapped : (f : ℕ) → PagingMapState
  mapped f = record {
    paddr = canonical (frame_of f);
    flags = page_flags present_writable;
    mmap_present = true;
  }

  mapped-backed_by :
      (m : Memory) (root : ℕ) (s : S) (own : ℕ → Option (List ℕ))
      (sp : IsSpace alloc_frame supply m root s own) (frame : ℕ) (s₁ : S)
      → alloc_frame s ≡ ok (frame, s₁)
      → (page vaddr a : ℕ) → page_of vaddr ≡ page
      → (if page_of a == page_of vaddr then mapped frame else get_physical_address m root a)
        ≡ (if page_of a == page then backed_by frame else get_physical_address m root a)
  unfolding mapped
  mapped-backed_by m root s own sp frame s₁ q page vaddr a here =
      rw (here, frame_whole m root s own sp frame s₁ q) refl

  BackedOr-step :
      (inside : ℕ → Bool) (m : Memory) (root : ℕ) (s : S) (own : ℕ → Option (List ℕ))
      (sp : IsSpace alloc_frame supply m root s own) (frame : ℕ) (s₁ : S)
      (q : alloc_frame s ≡ ok (frame, s₁)) (page n : ℕ) (m₂ : Memory) (s₂ : S)
      (own₂ : ℕ → Option (List ℕ)) (uses₂ : Uses alloc_frame supply s₁ s₂ own own₂)
      → ((a : ℕ)
          → get_physical_address m₂ root a
            ≡ (if page_of a == page then backed_by frame else get_physical_address m root a))
      → (o : Outcome (Memory × S)) → BackedOr inside m₂ root s₂ own₂ (suc page) n o
      → BackedOr inside m root s own page (suc n) o
  BackedOr-step inside m root s own sp frame s₁ q page n m₂ s₂ own₂ uses₂ translates (panic e) h = h
  BackedOr-step inside m root s own sp frame s₁ q page n m₂ s₂ own₂ uses₂ translates (ok (m₃, s₃))
        b =
      Backs-step m root s own sp frame s₁ q page n m₂ s₂ own₂ uses₂ translates m₃ s₃ b

  -- Pages that are mapped to new frames, from tables that form a tree apart from the free frames, get
  -- frames of their own that were free, and no other translation changes.
  pub map_new_frames-BackedOr :
      (inside : ℕ → Bool) (n page vaddr : ℕ) (m : Memory) (root : ℕ) (s : S)
      (own : ℕ → Option (List ℕ))
      → IsSpace alloc_frame supply m root s own
      → page_of vaddr ≡ page % 2 ^ 36
      → page + n ≤ 2 ^ 36
      → BackedOr inside m root s own page n
          (map_new_frames (page_machine alloc_frame dealloc_frame root) inside n vaddr (m, s))
  unfolding map_new_frames mapped
  map_new_frames-BackedOr inside zero page vaddr m root s own sp at_page small =
      Backs-none m root s own page sp
  map_new_frames-BackedOr inside (suc n) page vaddr m root s own sp at_page small =
      elim (Bool-cases (inside vaddr)) [
        | inr out ↦ rw out (inr (refl, vaddr, out))
        | inl good ↦ elim (Outcome-cases (alloc_frame s)) [
          | inr (e, q) ↦ rw (good, q) (inl (s, q))
          | inl ((frame, s₁), q) ↦
              let sp₁ = allocated-IsSpace m root s own sp frame s₁ q in
              let maps =
                paging_map-Remaps alloc_frame supply m root vaddr s₁ own sp₁ frame
                  present_writable in
              elim (Outcome-cases (paging_map alloc_frame root vaddr frame present_writable m s₁)) [
                | inr (e, r) ↦
                    rw (good, q, r)
                      (inl (
                        subst (Remaps alloc_frame supply m root vaddr s₁ own (mapped frame)) r
                          maps))
                | inl ((m₂, s₂), r) ↦
                    let (own₂, sp₂, uses₂, translates) =
                      subst (Remaps alloc_frame supply m root vaddr s₁ own (mapped frame)) r maps in
                    let here : page_of vaddr ≡ page = omega (arith, at_page, small) in
                    let next : page_of (add64 vaddr page_size) ≡ suc page % 2 ^ 36 =
                      omega (arith, here) in
                    rw (good, q, r)
                      (BackedOr-step inside m root s own sp frame s₁ q page n m₂ s₂ own₂ uses₂
                        (λ a.
                          translates a
                          ∙ mapped-backed_by m root s own sp frame s₁ q page vaddr a here)
                        (map_new_frames (page_machine alloc_frame dealloc_frame root) inside n
                          (add64 vaddr page_size) (m₂, s₂))
                        (map_new_frames-BackedOr inside n (suc page) (add64 vaddr page_size) m₂ root
                          s₂ own₂ sp₂ next (omega (arith, small))))
              ]
        ]
      ]
