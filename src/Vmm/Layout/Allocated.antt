-- ===== src/Vmm/Layout/Allocated.antt =====
-- The allocation of a descriptor, and how one of two allocations fails.
use garbage_os.Base.{
  ℕ, ◌+◌, ◌≤◌, ◌<◌, ◌≡◌, refl, Bool, true, false, arith, Outcome, ok, panic, vmm_error,
  Outcome-cases, ErrorCode, ◌⊎◌, Bool-cases, ltb, ap, inl, inr, sym, ◌∙◌,
}
use garbage_os.Vmm.Descriptors.{Pool, allocate_vmem_descriptor}

-- A failure of one of the next two allocations of a descriptor: the bump allocator has at most one
-- descriptor left, or the heap's function panics with the code.
abbrev pub AllocFails : Pool → ErrorCode → Type 0
AllocFails p e =
    ((e ≡ vmm_error) × (p.kheap_initialized ≡ false) × (62 < p.next_free_descriptor))
    ⊎ ((p.kheap_initialized ≡ true)
        × ((p.kmalloc p.kmalloc_calls ≡ panic e) ⊎ (p.kmalloc (p.kmalloc_calls + 1) ≡ panic e)))

abbrev pub Allocated : Pool → Outcome (ℕ × Bool × Pool) → Type 0
Allocated p (panic e) =
    ((e ≡ vmm_error) × (p.kheap_initialized ≡ false) × (63 < p.next_free_descriptor))
    ⊎ ((p.kheap_initialized ≡ true) × (p.kmalloc p.kmalloc_calls ≡ panic e))
Allocated p (ok (a, h, q)) =
    (q.kheap_initialized ≡ p.kheap_initialized)
    × (q.next_free_descriptor ≤ p.next_free_descriptor + 1)
    × (q.kmalloc ≡ p.kmalloc)
    × (p.kheap_initialized ≡ true → q.kmalloc_calls ≡ p.kmalloc_calls + 1)

pub allocate-Allocated : (p : Pool) → Allocated p (allocate_vmem_descriptor p)
unfolding allocate_vmem_descriptor
allocate-Allocated p = elim (Bool-cases p.kheap_initialized) [
  | inl heap ↦ elim (Outcome-cases (p.kmalloc p.kmalloc_calls)) [
    | inl (a, returned) ↦ rw (heap, returned) (refl, omega arith, refl, λ h. refl)
    | inr (e, failed) ↦ rw (heap, failed) (inr (refl, failed))
  ]
  | inr early ↦ elim (Bool-cases (ltb p.next_free_descriptor 64)) [
    | inl left ↦ rw (early, left) (refl, omega arith, refl, λ h. cc)
    | inr short ↦ rw (early, short) (inl (refl, refl, ground (arith, short)))
  ]
]

-- The first or the second of two allocations fails.
pub first_fails : (p : Pool) (e : ErrorCode) → Allocated p (panic e) → AllocFails p e
first_fails p e (inl (code, early, short)) = inl (code, early, omega (arith, short))
first_fails p e (inr (heap, failed)) = inr (heap, inl failed)

pub second_fails :
    (p q : Pool) (a : ℕ) (h : Bool) (e : ErrorCode)
    → Allocated p (ok (a, h, q))
    → Allocated q (panic e)
    → AllocFails p e
second_fails p q a h e (same, less, calls, count) (inl (code, early, short)) =
    inl (code, sym same ∙ early, omega (arith, less, short))
second_fails p q a h e (same, less, calls, count) (inr (heap, failed)) =
    let heap_before : p.kheap_initialized ≡ true = sym same ∙ heap in
    let next : q.kmalloc_calls ≡ p.kmalloc_calls + 1 = count heap_before in
    inr (
      heap_before,
      inr (
          ap (λ (f : ℕ → Outcome ℕ). f (p.kmalloc_calls + 1)) (sym calls)
          ∙ ap q.kmalloc (sym next)
          ∙ failed),
    )
