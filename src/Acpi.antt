-- ===== src/Acpi.antt =====
-- kernel/acpi/acpi.c and kernel/acpi/madt.c: the system tables and the walk over the structures of the
-- interrupt controllers. The physical memory is a function from addresses to bytes; a table is its
-- address, and 0 is the null pointer.
pub mod Walk
pub mod Loop
pub mod Tests
use garbage_os.Base.{
  ℕ, zero, suc, ◌+◌, ◌*◌, ◌/◌, ◌%◌, ◌^◌, Bool, true, false, not, ◌&&◌, ◌||◌, Option, none, some,
  ltb, leb, ◌==◌, ◌!=◌, if◌then◌else◌, add64, sub64, null, Outcome, ok, ◌>>=◌, ◌>>◌, kassert,
}

abbrev pub Bytes : Type 0
Bytes = ℕ → ℕ

-- Numbers in memory, the lowest byte first.
abbrev pub read32 : Bytes → ℕ → ℕ
read32 bytes a = bytes a + 2 ^ 8 * bytes (a + 1) + 2 ^ 16 * bytes (a + 2) + 2 ^ 24 * bytes (a + 3)

abbrev pub read64 : Bytes → ℕ → ℕ
read64 bytes a = read32 bytes a + 2 ^ 32 * read32 bytes (a + 4)

-- The sum of `n` bytes from `a` on, as a byte.
unfoldable pub add_bytes : Bytes → (n a checksum : ℕ) → ℕ
add_bytes bytes zero a checksum = checksum
add_bytes bytes (suc n) a checksum = add_bytes bytes n (a + 1) ((checksum + bytes a) % 2 ^ 8)

-- `"RSD PTR "`
abbrev pub rsdp_signature : ℕ
rsdp_signature = 0x2052545020445352

-- `"APIC"`
abbrev pub madt_signature : ℕ
madt_signature = 0x43495041

unfoldable pub check_rsdp : Bytes → (rsdp : ℕ) → Bool
check_rsdp bytes rsdp =
    if read64 bytes rsdp != rsdp_signature then false else add_bytes bytes 20 rsdp 0 == 0

-- The length of a table is at offset 4.
abbrev pub table_length : Bytes → (table : ℕ) → ℕ
table_length bytes table = read32 bytes (table + 4)

unfoldable pub check_acpi_table : Bytes → (table : ℕ) → Bool
check_acpi_table bytes table = add_bytes bytes (table_length bytes table) table 0 == 0

abbrev pub get_acpi_table_headerless_length : Bytes → (table : ℕ) → ℕ
get_acpi_table_headerless_length bytes table = sub64 (table_length bytes table) 36

-- The static variables, null pointers at first.
pub record AcpiState : Type 0 where
  pub cached_rsdp : ℕ
  pub cached_xsdp : ℕ

-- `rsdp` is what `acpi_RSDP` found; its revision is at offset 15.
unfoldable pub acpi_init : Bytes → (rsdp : ℕ) → Bool × AcpiState
acpi_init bytes rsdp =
    let is_acpi2 = bytes (rsdp + 15) == 2 in
    if check_rsdp bytes rsdp
    then (true, record { cached_rsdp = rsdp; cached_xsdp = if is_acpi2 then rsdp else null })
    else (false, record { cached_rsdp = null; cached_xsdp = null })

-- The first of `n` tables with the signature; `entry` gives the table of an index.
unfoldable pub find_table : Bytes → (entry : ℕ → ℕ) (signature n i : ℕ) → ℕ
find_table bytes entry signature zero i = null
find_table bytes entry signature (suc n) i =
    let rest = find_table bytes entry signature n (suc i) in
    if read32 bytes (entry i) == signature then entry i else rest

-- The tables of the first version have 4-byte addresses, those of the second 8-byte addresses.
unfoldable pub get_table_header : Bytes → AcpiState → (signature : ℕ) → Outcome ℕ
get_table_header bytes s signature = do
  kassert ((s.cached_rsdp != null) || (s.cached_xsdp != null))
  let rsdt = read32 bytes (s.cached_rsdp + 16)
  let xsdt = read64 bytes (s.cached_xsdp + 24)
  ok (
      if s.cached_xsdp != null
      then find_table bytes (λ i. read64 bytes (xsdt + 36 + 8 * i)) signature
          (get_acpi_table_headerless_length bytes xsdt / 8) 0
      else find_table bytes (λ i. read32 bytes (rsdt + 36 + 4 * i)) signature
          (get_acpi_table_headerless_length bytes rsdt / 4) 0)

-- The table, and what is cached of it.
unfoldable pub get_madt : Bytes → AcpiState → (cached_madt : ℕ) → Outcome (ℕ × ℕ)
get_madt bytes s cached_madt = if cached_madt != null then ok (cached_madt, cached_madt) else (do
  header ← get_table_header bytes s madt_signature
  ok (
      if header == null
      then (null, null)
      else if not (check_acpi_table bytes header)
      then (null, null)
      else (header, header)))

-- A local controller, type 0, that is enabled or can be.
abbrev pub is_usable_local_apic : Bytes → (header : ℕ) → Bool
is_usable_local_apic bytes header = (bytes header == 0) && (read32 bytes (header + 4) % 4 != 0)

module _ (bytes : Bytes) (madt : ℕ) where
  -- The first structure lies behind the header of 44 bytes.
  unfoldable pub get_first_ics_header : ℕ
  get_first_ics_header = if leb (table_length bytes madt) 44 then null else add64 madt 44

  -- The length of a structure is its second byte.
  unfoldable pub get_next_ics_header : (header : ℕ) → ℕ
  get_next_ics_header header =
      let next = add64 header (bytes (header + 1)) in
      if leb (table_length bytes madt) (sub64 next madt) then null else next

  -- The loop over the structures, none if it has not ended after `fuel` rounds.
  unfoldable pub count_from : (accepts : ℕ → Bool) (fuel header count : ℕ) → Option ℕ
  count_from accepts zero header count = none
  count_from accepts (suc fuel) header count =
      if header == null
      then some count
      else count_from accepts fuel (get_next_ics_header header)
          (if accepts header then add64 count 1 else count)

  unfoldable pub count_number_of_local_apic : (fuel : ℕ) → Outcome (Option ℕ)
  count_number_of_local_apic fuel = do
    kassert (madt != null)
    ok (count_from (is_usable_local_apic bytes) fuel get_first_ics_header 0)

  unfoldable pub count_ics_header_instances : (ics_header_type fuel : ℕ) → Outcome (Option ℕ)
  count_ics_header_instances ics_header_type fuel = do
    kassert (madt != null)
    ok (count_from (λ header. bytes header == ics_header_type) fuel get_first_ics_header 0)

  -- The flags are at offset 40.
  abbrev pub madt_has_pic : Outcome Bool
  madt_has_pic = kassert (madt != null) >> ok (read32 bytes (madt + 40) % 2 == 1)
