-- ===== src/Base/Panic.antt =====
-- Calls that may not return: `kpanic` and `KASSERT` of kernel/kdefs.h stop the machine with an
-- error code, so a run is a value or the code of the panic.
use mathlib.Core.Path.{◌≡◌, refl}
use mathlib.Core.Logic.{◌⊎◌, inl, inr}
use mathlib.Core.Bool.{Bool, true, false}

-- `enum ErrorCodes`
pub data ErrorCode : Type 0 where
  frame_allocator_error vbe_error free_mem_bootloader_error kio_error failed_assert : ErrorCode
  stack_smashing unrecoverable_gpf unrecoverable_page_fault heap_out_of_mem heap_corrupted :
      ErrorCode
  not_implemented_error vmm_error apic_error generic_error : ErrorCode

pub data Outcome {ℓ} (A : Type ℓ) : Type ℓ where
  ok : A → Outcome A
  panic : ErrorCode → Outcome A

-- The second call is made only if the first one returns.
infixl 5 ◌>>=◌ ◌>>◌
abbrev pub ◌>>=◌ {ℓ₁ ℓ₂} :
    {X : Type ℓ₁} {Y : Type ℓ₂} (call : Outcome X) (next : X → Outcome Y) → Outcome Y
ok x >>= next = next x
panic code >>= next = panic code

abbrev pub ◌>>◌ {ℓ} : {Y : Type ℓ} (call : Outcome (Unit {0})) (next : Outcome Y) → Outcome Y
call >> next = call >>= λ done. next

-- `if(!(x)) kpanic(e)`
abbrev pub check : Bool → ErrorCode → Outcome (Unit {0})
check true e = ok tt
check false e = panic e

-- `KASSERT(x)`
abbrev pub kassert : Bool → Outcome (Unit {0})
kassert b = check b failed_assert

pub Outcome-cases {ℓ} :
    {A : Type ℓ} (o : Outcome A) → ((a : A) × (o ≡ ok a)) ⊎ ((e : ErrorCode) × (o ≡ panic e))
Outcome-cases (ok a) = inl (a, refl)
Outcome-cases (panic e) = inr (e, refl)
