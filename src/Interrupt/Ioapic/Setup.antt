-- ===== src/Interrupt/Ioapic/Setup.antt =====
-- kernel/interrupt/ioapic.c: init_ioapics. The arrays of kmalloc are new ones, and an entry of the first
-- is cleared before it is filled.
use garbage_os.Base.{
  ℕ, zero, suc, ◌+◌, ◌/◌, ◌%◌, ◌^◌, Option, none, some, List, [], ◌∷◌, length, set, ltb, ◌==◌, ◌!=◌,
  if◌then◌else◌, null, page_size, Outcome, ok, ◌>>=◌, ◌>>◌, kassert,
}
use garbage_os.Acpi.{Bytes, AcpiState, read32, get_madt, count_ics_header_instances}
use garbage_os.Acpi.Loop.{Round, continue, for_each_ics}
use garbage_os.Interrupt.Apic.Setup.{◌>>?◌, register_flags}
use garbage_os.Interrupt.Ioapic.{Ioapic, IoapicSubsystemData, Window, read_32_ioapic_register}
use garbage_os.Vmm.Manager.{Handle}

-- `n` entries, as `memset` leaves them; an array of the structures' addresses has null pointers.
abbrev pub replicate : {A : Type 0} → ℕ → A → List A
replicate zero a = []
replicate (suc n) a = a ∷ replicate n a

abbrev pub no_ioapic : Ioapic
no_ioapic = record {
  ics_ioapic = null;
  physical_base_address = null;
  base = null;
  ioapic_id = 0;
  version = 0;
  maximum_redirection_entry = 0;
}

-- The round for one structure: a controller, type 1, has its address at offset 4.
unfoldable pub fill_ioapic :
    Bytes → (header : ℕ) → List Ioapic × ℕ → Outcome (Round (List Ioapic × ℕ))
fill_ioapic bytes header (ioapics, index) =
    if bytes header == 1
    then (do
      kassert (ltb index (length ioapics))
      ok (
          continue (
            set ioapics index (record {
              ics_ioapic = header;
              physical_base_address = read32 bytes (header + 4);
              base = null;
              ioapic_id = 0;
              version = 0;
              maximum_redirection_entry = 0;
            }),
            index + 1,
          )))
    else ok (continue (ioapics, index))

unfoldable pub fill_ioapic_array :
    Bytes → (madt fuel : ℕ) → List Ioapic → Outcome (Option (List Ioapic))
fill_ioapic_array bytes madt fuel ioapics =
    kassert (madt != null)
    >> (for_each_ics (fill_ioapic bytes) bytes madt fuel (ioapics, 0) >>? λ filled. (do
      kassert (filled.1 == length filled.0)
      ok (some filled.0)))

-- The round for one structure: an override, type 2, is of bus 0.
unfoldable pub fill_source_override :
    Bytes → (header : ℕ) → List ℕ × ℕ → Outcome (Round (List ℕ × ℕ))
fill_source_override bytes header (overrides, index) =
    if bytes header == 2
    then (do
      kassert (ltb index (length overrides))
      kassert (bytes (header + 2) == 0)
      ok (continue (set overrides index header, index + 1)))
    else ok (continue (overrides, index))

-- The null pointer stays when there is no override.
unfoldable pub fill_source_override_array :
    Bytes → (madt fuel size : ℕ) → Outcome (Option (Option (List ℕ)))
fill_source_override_array bytes madt fuel size =
    kassert (madt != null)
    >> (if size == 0
        then ok (some none)
        else (for_each_ics (fill_source_override bytes) bytes madt fuel (replicate size null, 0)
            >>? λ filled. (do kassert (filled.1 == length filled.0); ok (some (some filled.0)))))

module _ (w : Window) (memory_map : (paddr size flags : ℕ) → w.State → Outcome (Handle × w.State))
    (get_vmem_addr : ℕ → ℕ) where
  -- None if the memory could not be mapped.
  unfoldable pub init_single_ioapic : Ioapic → w.State → Outcome (Option Ioapic × w.State)
  init_single_ioapic ioapic s = do
    (ioapic_mmap, s₁) ← memory_map ioapic.physical_base_address page_size register_flags s
    elim ioapic_mmap [
      | none ↦ ok (none, s₁)
      | some h ↦
          let mapped : Ioapic = record {
            ics_ioapic = ioapic.ics_ioapic;
            physical_base_address = ioapic.physical_base_address;
            base = get_vmem_addr h;
            ioapic_id = 0;
            version = 0;
            maximum_redirection_entry = 0;
          } in
          let id = read_32_ioapic_register w mapped 0 s₁ in
          let version_reg_data = read_32_ioapic_register w mapped 1 id.1 in
          ok (
            some (record {
              ics_ioapic = ioapic.ics_ioapic;
              physical_base_address = ioapic.physical_base_address;
              base = get_vmem_addr h;
              ioapic_id = id.0 / 2 ^ 24 % 2 ^ 4;
              version = version_reg_data.0 % 2 ^ 8;
              maximum_redirection_entry = (version_reg_data.0 / 2 ^ 16 % 2 ^ 8 + 1) % 2 ^ 8;
            }),
            version_reg_data.1,
          )
    ]

  -- The loop over the controllers, none after the first one that fails.
  unfoldable pub init_each_ioapic : List Ioapic → w.State → Outcome (Option (List Ioapic) × w.State)
  init_each_ioapic [] s = ok (some [], s)
  init_each_ioapic (ioapic ∷ ioapics) s = do
    (ready, s₁) ← init_single_ioapic ioapic s
    elim ready [
      | none ↦ ok (none, s₁)
      | some first ↦ (do
        (rest, s₂) ← init_each_ioapic ioapics s₁
        elim rest [ none ↦ ok (none, s₂) | some others ↦ ok (some (first ∷ others), s₂) ])
    ]

  -- None for the result false; the outer option is that of the loops.
  unfoldable pub init_ioapics :
      Bytes
      → AcpiState
      → (cached_madt fuel : ℕ) → w.State
      → Outcome (Option (Option IoapicSubsystemData × w.State))
  init_ioapics bytes acpi cached_madt fuel s = do
    (madt, cached) ← get_madt bytes acpi cached_madt
    if madt == null
        then ok (some (none, s))
        else (count_ics_header_instances bytes madt 1 fuel >>? λ count_of_ioapic.
            if count_of_ioapic == 0
            then ok (some (none, s))
            else (count_ics_header_instances bytes madt 2 fuel >>? λ count_of_source_overrides.
                fill_ioapic_array bytes madt fuel (replicate count_of_ioapic no_ioapic)
                >>? λ ioapics.
                    fill_source_override_array bytes madt fuel count_of_source_overrides
                    >>? λ overrides. (do
                      (ready, s₁) ← init_each_ioapic ioapics s
                      elim ready [
                        | none ↦ ok (some (none, s₁))
                        | some all ↦ ok (
                            some (
                              some (record {
                                ioapic_array = all;
                                source_override_array = overrides;
                              }),
                              s₁,
                            ))
                      ])))
