-- ===== src/Vmm/Layout/Cut.antt =====
-- A cut splits a free block in up to three blocks.
use garbage_os.Base.{
  ℕ, ◌+◌, ◌-◌, ◌%◌, ◌≤◌, ◌<◌, ◌≡◌, refl, Bool, true, List, [], ◌∷◌, ◌++◌, arith, page_size, sub64,
  Outcome, ok, panic, ◌>>=◌, ◌>>◌, eq→==, ne→==_false, sym, le→leb,
}
use native.Mathlib.Decide.{ℕ_discrete}
use garbage_os.Vmm.Descriptors.{
  Descriptor, VirtualMemoryType, Pool, Cut, is_free_type, allocate_vmem_descriptor,
  cut_descriptor_start, fresh_descriptor, end_vaddr,
}
use garbage_os.Vmm.Layout.{IsBlock, Replaces, type_at}
use garbage_os.Vmm.Layout.Allocated.{AllocFails, Allocated, allocate-Allocated, first_fails}

-- The pieces of a cut, with type and paddings of the requested one set.
abbrev pub pieces : Cut → VirtualMemoryType → (upper lower : ℕ) → List Descriptor
pieces c t upper lower =
    c.before
    ++ (record c.cutted { type = t; upper_padding = upper; lower_padding = lower } ∷ c.after)

-- The cut gives the requested range as a descriptor, in pieces that fill the place of `d`. It panics
-- only when the bump allocator runs out of descriptors or the heap panics.
abbrev pub CutsOut : Pool → Descriptor → ℕ → ℕ → Outcome Cut → Type 0
CutsOut p d start size (panic e) = AllocFails p e
CutsOut p d start size (ok c) =
    (c.cutted.start_vaddr ≡ start)
    × (c.cutted.size_bytes ≡ size)
    × ((t : VirtualMemoryType) (u l : ℕ) → Replaces d start size t (pieces c t u l))

-- What a request must be like: whole pages, at least one, in a free block.
pub record Requests (d : Descriptor) (start size : ℕ) : Type 0 where
  pub block : IsBlock d
  pub is_free : is_free_type d.type ≡ true
  pub size_pos : 0 < size
  pub size_aligned : size % page_size ≡ 0
  pub start_aligned : start % page_size ≡ 0
  pub start_in : d.start_vaddr ≤ start
  pub end_in : start + size ≤ d.start_vaddr + d.size_bytes

module _ (p : Pool) (d : Descriptor) (start size : ℕ) (r : Requests d start size) where
  exact :
      d.start_vaddr ≡ start
      → d.size_bytes ≡ size
      → (t : VirtualMemoryType) (u l : ℕ)
      → Replaces d start size t (record d { type = t; upper_padding = u; lower_padding = l } ∷ [])
  unfolding type_at
  exact e f t u l = record {
    tiles = (refl, r.block, refl);
    start_in = r.start_in;
    end_in = r.end_in;
    types = λ a. ground arith;
  }

  at_start :
      (o : Outcome (ℕ × Bool × Pool))
      → Allocated p o
      → start ≡ d.start_vaddr
      → size < d.size_bytes
      → CutsOut p d start size (do
        (a, h, q) ← o
        let low = record d { size_bytes = size }
        let new_descriptor = fresh_descriptor a (end_vaddr low) (sub64 d.size_bytes size) d.type h
        ok (record { before = []; cutted = low; after = new_descriptor ∷ []; pool = q }))
  unfolding type_at
  at_start (panic e) al es less = first_fails p e al
  at_start (ok (a, h, q)) al es less = (
    ground arith,
    refl,
    λ t u l. record {
      tiles = ground (arith, r.block, r.size_aligned, r.size_pos);
      start_in = r.start_in;
      end_in = r.end_in;
      types = λ b. ground (arith, r.block);
    },
  )

  -- The pieces of a cut inside the block.
  middle_pieces : (a b : ℕ) (g h : Bool) → VirtualMemoryType → (u l : ℕ) → List Descriptor
  middle_pieces a b g h t u l =
      fresh_descriptor a d.start_vaddr (start - d.start_vaddr) d.type g
      ∷ record d {
        start_vaddr = start;
        size_bytes = size;
        type = t;
        upper_padding = u;
        lower_padding = l;
      }
      ∷ fresh_descriptor b (start + size) (d.start_vaddr + d.size_bytes - (start + size)) d.type h
      ∷ []

  pub cut_descriptor_start-CutsOut :
      start ≡ d.start_vaddr → CutsOut p d start size (cut_descriptor_start p d size)
  unfolding cut_descriptor_start
  cut_descriptor_start-CutsOut es =
      let big : size ≤ d.size_bytes = omega (arith, r.end_in) in
      elim (ℕ_discrete d.size_bytes size) [
        | yes same ↦
            rw (r.is_free, le→leb _ _ big, r.block.3, r.size_aligned, eq→== _ _ same)
              (sym es, same, exact (sym es) same)
        | no ne ↦
            rw (r.is_free, le→leb _ _ big, r.block.3, r.size_aligned, ne→==_false _ _ ne)
              (at_start (allocate_vmem_descriptor p) (allocate-Allocated p) es (omega (arith, big)))
      ]
