-- ===== src/Interrupt/Apic/Setup.antt =====
-- kernel/interrupt/apic.c: init_apic_subsystem.
use garbage_os.Base.{
  ℕ, zero, suc, ◌/◌, ◌%◌, ◌^◌, Bool, false, not, Option, none, some, List, [], ◌∷◌, ◌==◌,
  if◌then◌else◌, null, page_size, Outcome, ok, ◌>>=◌, ◌>>◌, kassert,
}
use garbage_os.Acpi.{Bytes, AcpiState, get_madt, count_number_of_local_apic}
use garbage_os.Interrupt.Apic.{
  LocalApic, no_lapic, LapicSubsystemData, fill_apic_array, get_lapic_base_address_from_madt,
}
use garbage_os.Vmm.Manager.{Handle}

-- The array that `memset` has cleared.
abbrev pub cleared_lapics : ℕ → List LocalApic
cleared_lapics zero = []
cleared_lapics (suc n) = no_lapic ∷ cleared_lapics n

-- `edx` is what `__get_cpuid` gives.
abbrev pub apic_present : (edx : ℕ) → Bool
apic_present edx = edx / 2 ^ 9 % 2 == 1

-- `low` is what `get_cpu_msr` gives.
abbrev pub is_apic_enabled : (cpu_has_msr : Bool) (low : ℕ) → Bool
is_apic_enabled cpu_has_msr low = if not cpu_has_msr then false else low / 2 ^ 11 % 2 == 1

-- The outcome of a loop, none if it has not ended.
infixr 4 ◌>>?◌
abbrev pub ◌>>?◌ :
    {A B : Type 0} → Outcome (Option A) → (A → Outcome (Option B)) → Outcome (Option B)
o >>? next = o >>= λ r. elim r [ none ↦ ok none | some a ↦ next a ]

-- The array is filled, with the number of its entries that the count gives.
unfoldable pub fill_counted_lapics : Bytes → (madt fuel : ℕ) → Outcome (Option (List LocalApic))
fill_counted_lapics bytes madt fuel = count_number_of_local_apic bytes madt fuel >>? λ lapic_count.
    fill_apic_array bytes madt fuel (cleared_lapics lapic_count)

abbrev pub register_space_size : ℕ
register_space_size = 4096

-- `page_writable | page_cache_disable`
abbrev pub register_flags : ℕ
register_flags = 18

module _ {S : Type 0} (memory_map : (paddr size flags : ℕ) → S → Outcome (Handle × S))
    (install_error_handler : S → Outcome S) where
  -- The memory of the array is a new one of kmalloc. False is without an effect.
  unfoldable pub init_apic_subsystem :
      (edx low : ℕ) (cpu_has_msr : Bool)
      → Bytes
      → AcpiState
      → (cached_madt fuel : ℕ) → S
      → Outcome (Option (Option LapicSubsystemData × S))
  init_apic_subsystem edx low cpu_has_msr bytes acpi cached_madt fuel s =
      if not (apic_present edx)
      then ok (some (none, s))
      else if not (is_apic_enabled cpu_has_msr low)
      then ok (some (none, s))
      else (do
        (madt, cached) ← get_madt bytes acpi cached_madt
        if madt == null
            then ok (some (none, s))
            else (fill_counted_lapics bytes madt fuel >>? λ lapics.
                get_lapic_base_address_from_madt bytes madt fuel >>? λ base. (do
                  kassert (base % page_size == 0)
                  (mapping, s₁) ← memory_map base register_space_size register_flags s
                  s₂ ← install_error_handler s₁
                  ok (
                      some (
                        some (record {
                          lapic_array = some lapics;
                          lapic_base_address = base;
                          register_space_mapping = mapping;
                        }),
                        s₂,
                      )))))
