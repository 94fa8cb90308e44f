-- ===== src/Vmm/Manager/Laws/Identity.antt =====
-- Identity mappings.
use mathlib.Core.List.{Mem}
use garbage_os.Base.{
  ◌&&◌, leb, List, ℕ, ◌+◌, ◌%◌, ◌^◌, ◌<◌, ◌≡◌, Bool, true, false, none, some, if◌then◌else◌,
  page_size, Outcome, ok, panic, ◌>>=◌,
}
use garbage_os.Vmm.Descriptors.{identity_map_free, identity_map, same_type, Walk, Cut, Descriptor}
use garbage_os.Vmm.Layout.{type_at, within}
use garbage_os.Vmm.Layout.Allocated.{AllocFails}
use garbage_os.Vmm.Layout.Walk.{Stops}
use garbage_os.Vmm.Manager.{Vmm, Handle, ends_after, relink}
use garbage_os.Vmm.Manager.Laws.{IsValid}
use garbage_os.Vmm.Manager.Laws.Take.{any}

-- The descriptor is free for identity mappings and holds the `size` bytes at `paddr`.
abbrev pub holds : (paddr size : ℕ) → Descriptor → Bool
holds paddr size d =
    same_type d.type identity_map_free
    && (leb d.start_vaddr paddr && leb (paddr + size) (d.start_vaddr + d.size_bytes))

-- The outcome of an identity mapping of `size` bytes at `paddr`. If no descriptor holds them, nothing
-- changes and the handle is invalid. Else the range, which had type `identity_map_free` throughout, now
-- has type `identity_map`, every other address has the type that it had, and the manager stays valid;
-- the handle is the address of a descriptor of exactly the range. A panic is one of the bump allocator,
-- which has run out of descriptors, or of the heap.
abbrev pub MapsIdentity : Vmm → ℕ → ℕ → Outcome (Handle × Vmm) → Type 0
MapsIdentity v paddr size (panic e) =
    AllocFails v.pool e × (any (holds paddr size) v.descriptors ≡ true)
MapsIdentity v paddr size (ok (none, v')) =
    (v' ≡ v) × (any (holds paddr size) v.descriptors ≡ false)
MapsIdentity v paddr size (ok (some h, v')) =
    IsValid v'
    × (any (holds paddr size) v.descriptors ≡ true)
    × ((a : ℕ) → within paddr size a ≡ true → type_at v.descriptors a ≡ some identity_map_free)
    × ((a : ℕ)
        → type_at v'.descriptors a
          ≡ (if within paddr size a then some identity_map else type_at v.descriptors a))
    × ((d : Descriptor) × Mem d v'.descriptors
        × (h ≡ d.address)
        × (d.start_vaddr ≡ paddr)
        × (d.size_bytes ≡ size)
        × (d.type ≡ identity_map))

module _ (v : Vmm) (paddr size : ℕ) (ok_v : IsValid v) (pos : 0 < size)
    (size_whole : size % page_size ≡ 0) (paddr_whole : paddr % page_size ≡ 0)
    (small : paddr + size < 2 ^ 64) (w : Walk) (s : Stops (ends_after paddr) v.descriptors w) where
  abbrev linked : Cut → Vmm
  linked c = record v {
    descriptors = relink w c (record c.cutted { type = identity_map });
    pool = c.pool;
  }
