-- ===== src/PageTables/Frames.antt =====
-- The frame allocator as the supply of the page tables.
use mathlib.Core.List.{Mem, Nodup, Nodup-cons, mem-cons_self, mem-cons_of_mem}
use mathlib.Core.List.Perm
use native.Mathlib.Bridge.{le_prop}
use native.Mathlib.Nat.{ℕ_set}
use garbage_os.Base.{ℕ, ◌%◌, ◌^◌, ◌<◌, ◌≡◌, subst, Bool, ◌∷◌, All, All-perm, page_size, ok}
use garbage_os.FrameAllocator.{FrameAllocator, alloc_frame}
use garbage_os.FrameAllocator.Alloc.{Allocates, alloc_frame-Allocates}
use garbage_os.FrameAllocator.Bag.{IsValid, free_list}
use garbage_os.PageTables.Tree.{Supply}

abbrev pub IsTableFrame : ℕ → Type 0
IsTableFrame f = (f % page_size ≡ 0) × (f < 2 ^ 48)

IsTableFrame-IsProp : (f : ℕ) → IsProp (IsTableFrame f)
IsTableFrame-IsProp f = hlevel (ℕ_set, le_prop)

-- A valid allocator whose free frames are whole pages below 2 ^ 48, each of them once.
pub record IsFrameSource (f : FrameAllocator) : Type 0 where
  pub valid : IsValid f
  pub once : Nodup (free_list f)
  pub frames : All IsTableFrame (free_list f)

module _ (arch : Bool) {f g : FrameAllocator} {x : ℕ} (a : alloc_frame arch f ≡ ok (x, g))
    (source : IsFrameSource f) where
  taken : Allocates arch f (ok (x, g))
  taken = subst (Allocates arch f) a (alloc_frame-Allocates arch f source.valid)

  once_after : (¬ Mem x (free_list g)) × Nodup (free_list g)
  once_after = Nodup-cons.0 ((Perm.Nodup-iff taken.0).0 source.once)

  frames_after : All IsTableFrame (x ∷ free_list g)
  frames_after = All-perm IsTableFrame IsTableFrame-IsProp taken.0 source.frames

  rest_after : (y : ℕ) → Mem y (free_list g) → Mem y (free_list f) × ¬ (y ≡ x)
  rest_after y m = (
    Perm.subset (Perm.symm taken.0) y (mem-cons_of_mem x m),
    λ e. once_after.0 (subst (λ z. Mem z (free_list g)) e m),
  )

-- The frame allocator is such a supply, in and after the bootstage.
pub frame_supply : (arch : Bool) → Supply FrameAllocator (alloc_frame arch)
frame_supply arch = record {
  IsGood = IsFrameSource;
  IsFree = λ f y. Mem y (free_list f);
  alloc_good = λ a source. record {
    valid = (taken arch a source).1;
    once = (once_after arch a source).1;
    frames = (frames_after arch a source).1;
  };
  alloc_free = λ a source. Perm.subset (Perm.symm (taken arch a source).0) _ mem-cons_self;
  alloc_whole = λ a source. (frames_after arch a source).0;
  alloc_rest = λ a source. rest_after arch a source;
}

pub frame_supply-IsGood :
    (arch : Bool) (f : FrameAllocator) → IsFrameSource f → (frame_supply arch).IsGood f
unfolding frame_supply
frame_supply-IsGood arch f source = source

pub frame_supply-IsFree :
    (arch : Bool) (f : FrameAllocator) (x : ℕ)
    → (frame_supply arch).IsFree f x
    → Mem x (free_list f)
unfolding frame_supply
frame_supply-IsFree arch f x m = m
