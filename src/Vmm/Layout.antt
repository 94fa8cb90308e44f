-- ===== src/Vmm/Layout.antt =====
-- The address space that a list of descriptors stands for: which type each address has.
pub mod Allocated
pub mod Cut
pub mod Walk
use garbage_os.Base.{
  ℕ, ◌+◌, ◌%◌, ◌^◌, ◌≤◌, ◌<◌, ◌≡◌, refl, Bool, ◌&&◌, Option, none, some, List, [], ◌∷◌, ◌++◌, ltb,
  leb, if◌then◌else◌, page_size, arith, subst, sym,
}
use garbage_os.Vmm.Descriptors.{Descriptor, VirtualMemoryType}

-- Whole pages, at least one, below the last address.
abbrev pub IsBlock : Descriptor → Type 0
IsBlock d =
    (0 < d.size_bytes)
    × (d.start_vaddr + d.size_bytes < 2 ^ 64)
    × (d.start_vaddr % page_size ≡ 0)
    × (d.size_bytes % page_size ≡ 0)

-- The descriptors are blocks from `lo` on, in the order of their addresses, and do not overlap.
abbrev pub IsLayout : ℕ → List Descriptor → Type 0
IsLayout lo [] = Unit {0}
IsLayout lo (d ∷ ds) = (lo ≤ d.start_vaddr) × IsBlock d × IsLayout (d.start_vaddr + d.size_bytes) ds

-- The descriptors are blocks that fill the addresses from `lo` up to `hi`.
abbrev pub Tiles : (lo hi : ℕ) → List Descriptor → Type 0
Tiles lo hi [] = lo ≡ hi
Tiles lo hi (d ∷ ds) = (d.start_vaddr ≡ lo) × IsBlock d × Tiles (d.start_vaddr + d.size_bytes) hi ds

abbrev pub within : (start size a : ℕ) → Bool
within start size a = leb start a && ltb a (start + size)

-- The type of the descriptor that holds an address.
unfoldable pub type_at : List Descriptor → ℕ → Option VirtualMemoryType
type_at [] a = none
type_at (d ∷ ds) a = if within d.start_vaddr d.size_bytes a then some d.type else type_at ds a

abbrev pub or_else {ℓ} : {A : Type ℓ} → Option A → Option A → Option A
or_else none o = o
or_else (some a) o = some a

type_at-append :
    (xs ys : List Descriptor) (a : ℕ) → type_at (xs ++ ys) a ≡ or_else (type_at xs a) (type_at ys a)
unfolding type_at
type_at-append [] ys a = refl
type_at-append (x ∷ xs) ys a = ground (arith, type_at-append xs ys a)

Tiles-IsLayout :
    (lo hi : ℕ) (ps ys : List Descriptor) → Tiles lo hi ps → IsLayout hi ys → IsLayout lo (ps ++ ys)
Tiles-IsLayout lo hi [] ys t l = subst (λ n. IsLayout n ys) (sym t) l
Tiles-IsLayout lo hi (p ∷ ps) ys t l =
    (omega (arith, t.0), t.1, Tiles-IsLayout (p.start_vaddr + p.size_bytes) hi ps ys t.2 l)

pub IsLayout-le :
    (lo : ℕ) (xs : List Descriptor) (d : Descriptor) (ys : List Descriptor)
    → IsLayout lo (xs ++ d ∷ ys)
    → lo ≤ d.start_vaddr
IsLayout-le lo [] d ys l = l.0
IsLayout-le lo (x ∷ xs) d ys l =
    omega (arith, l.0, l.1, IsLayout-le (x.start_vaddr + x.size_bytes) xs d ys l.2)

pub IsLayout-here :
    (lo : ℕ) (xs : List Descriptor) (d : Descriptor) (ys : List Descriptor)
    → IsLayout lo (xs ++ d ∷ ys)
    → IsBlock d × IsLayout (d.start_vaddr + d.size_bytes) ys
IsLayout-here lo [] d ys l = (l.1, l.2)
IsLayout-here lo (x ∷ xs) d ys l = IsLayout-here (x.start_vaddr + x.size_bytes) xs d ys l.2

-- Above the end of a layout's part nothing lies in that part.
type_at_below :
    (lo : ℕ) (ds : List Descriptor) (a : ℕ) → IsLayout lo ds → a < lo → type_at ds a ≡ none
unfolding type_at
type_at_below lo [] a l h = refl
type_at_below lo (d ∷ ds) a l h =
    ground (arith, l.0, type_at_below (d.start_vaddr + d.size_bytes) ds a l.2)

-- Pieces that fill the place of a block `d`: those of the addresses from `start` on have type `t`, the
-- others that of `d`.
pub record Replaces (d : Descriptor) (start size : ℕ) (t : VirtualMemoryType) (ps : List Descriptor)
    : Type 0 where
  pub tiles : Tiles d.start_vaddr (d.start_vaddr + d.size_bytes) ps
  pub start_in : d.start_vaddr ≤ start
  pub end_in : start + size ≤ d.start_vaddr + d.size_bytes
  pub types :
      (a : ℕ)
      → type_at ps a ≡ (
          if within start size a
          then some t
          else if within d.start_vaddr d.size_bytes a
          then some d.type
          else none)

-- The list with the pieces in the place of `d` is a layout, in which the addresses from `start` on
-- have type `t`, and the others the type that they had.
pub Replaces-IsLayout :
    (lo : ℕ) (xs ps : List Descriptor) (d : Descriptor) (ys : List Descriptor) {start size : ℕ}
    {t : VirtualMemoryType}
    → IsLayout lo (xs ++ d ∷ ys)
    → Replaces d start size t ps
    → IsLayout lo (xs ++ (ps ++ ys))
Replaces-IsLayout lo [] ps d ys l r =
    IsLayout-from lo d.start_vaddr (ps ++ ys) l.0
      (Tiles-IsLayout d.start_vaddr (d.start_vaddr + d.size_bytes) ps ys r.tiles l.2)
  where
    IsLayout-from : (lo hi : ℕ) (ds : List Descriptor) → lo ≤ hi → IsLayout hi ds → IsLayout lo ds
    IsLayout-from lo hi [] h l = tt
    IsLayout-from lo hi (d ∷ ds) h l = (omega (arith, l.0), l.1, l.2)
Replaces-IsLayout lo (x ∷ xs) ps d ys l r =
    (l.0, l.1, Replaces-IsLayout (x.start_vaddr + x.size_bytes) xs ps d ys l.2 r)

pub type_at-Replaces :
    (lo : ℕ) (xs ps : List Descriptor) (d : Descriptor) (ys : List Descriptor) (start size : ℕ)
    (t : VirtualMemoryType)
    → IsLayout lo (xs ++ d ∷ ys)
    → Replaces d start size t ps
    → (a : ℕ)
    → type_at (xs ++ (ps ++ ys)) a
      ≡ (if within start size a then some t else type_at (xs ++ d ∷ ys) a)
unfolding type_at
type_at-Replaces lo [] ps d ys start size t l r a = ground (
  arith,
  type_at-append ps ys a,
  r.types a,
  r.start_in,
  r.end_in,
  type_at_below (d.start_vaddr + d.size_bytes) ys a l.2,
)
type_at-Replaces lo (x ∷ xs) ps d ys start size t l r a = ground (
  arith,
  type_at-Replaces (x.start_vaddr + x.size_bytes) xs ps d ys start size t l.2 r a,
  IsLayout-le (x.start_vaddr + x.size_bytes) xs d ys l.2,
  r.start_in,
)
