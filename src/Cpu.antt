-- ===== src/Cpu.antt =====
-- kernel/HAL/x86-64/gdt.c, idt.c and cpu.c: the descriptor tables of the processors. The loading of the
-- tables into the registers is assembly and left out.
pub mod Descriptors
mod Tests
use garbage_os.Base.{
  failed_assert, panic, leb, ◌==◌, ℕ, zero, suc, ◌+◌, ◌-◌, ◌*◌, ◌/◌, ◌%◌, ◌^◌, Bool, true, false,
  ◌||◌, List, [], ◌∷◌, ltb, leb, ◌==◌, if◌then◌else◌, page_size, bit_or, Outcome, ok, ◌>>=◌, ◌>>◌,
  kassert,
}

-- `GDT`
pub record Gdt : Type 0 where
  pub limit : ℕ
  pub base₁ : ℕ
  pub base₂ : ℕ
  pub access : ℕ
  pub limit_flags : ℕ
  pub base₃ : ℕ
  pub base₄ : ℕ

unfoldable pub make_gdt : (base limit flags access : ℕ) → Gdt
make_gdt base limit flags access = record {
  limit = limit % 2 ^ 16;
  base₁ = base % 2 ^ 16;
  base₂ = base / 2 ^ 16 % 2 ^ 8;
  access = access;
  limit_flags = bit_or 8 (limit / 2 ^ 16 % 2 ^ 4) (flags % 2 ^ 4 * 2 ^ 4);
  base₃ = base / 2 ^ 24 % 2 ^ 8;
  base₄ = base / 2 ^ 32 % 2 ^ 32;
}

-- `IDTEntry`
pub record IdtEntry : Type 0 where
  pub offset₁ : ℕ
  pub segment_selector : ℕ
  pub ist : ℕ
  pub attributes_type : ℕ
  pub offset₂ : ℕ
  pub offset₃ : ℕ

unfoldable pub make_idt_entry : (offset segment_selector ist attributes_type : ℕ) → Outcome IdtEntry
make_idt_entry offset segment_selector ist attributes_type = do
  kassert (leb ist 7)
  kassert (attributes_type / 2 ^ 4 % 2 == 0)
  ok (record {
    offset₁ = offset % 2 ^ 16;
    segment_selector = segment_selector;
    ist = ist;
    attributes_type = attributes_type;
    offset₂ = offset / 2 ^ 16 % 2 ^ 16;
    offset₃ = offset / 2 ^ 32 % 2 ^ 32;
  })

-- The null descriptor and the four of code and data. The flags are granularity and long mode.
unfoldable pub setup_gdt : List Gdt
setup_gdt =
    make_gdt 0 0 0 0
    ∷ make_gdt 0 0xffffff 0xa 0x9e
    ∷ make_gdt 0 0xffffff 0xa 0x92
    ∷ make_gdt 0 0xffffff 0xa 0xfa
    ∷ make_gdt 0 0xffffff 0xa 0xf2
    ∷ []

abbrev pub kernel_code_selector : ℕ
kernel_code_selector = 0x10

-- The stack of an interrupt: 1 for NMI and double fault, 2 for page fault.
unfoldable pub ist_of : (i : ℕ) → ℕ
ist_of i = if (i == 8) || (i == 2) then 1 else if i == 14 then 2 else 0

-- A trap gate for an exception, an interrupt gate for the others.
unfoldable pub attributes_of : (i : ℕ) → ℕ
attributes_of i = bit_or 8 0x80 (if ltb i 32 then 0xf else 0xe)

-- The `n` entries from number `i` on.
unfoldable pub setup_idt_from : (isr_stub_table : ℕ → ℕ) (n i : ℕ) → Outcome (List IdtEntry)
setup_idt_from isr_stub_table zero i = ok []
setup_idt_from isr_stub_table (suc n) i = do
  entry ← make_idt_entry (isr_stub_table i) kernel_code_selector (ist_of i) (attributes_of i)
  entries ← setup_idt_from isr_stub_table n (suc i)
  ok (entry ∷ entries)

abbrev pub interrupt_number : ℕ
interrupt_number = 256

abbrev pub setup_idt : (isr_stub_table : ℕ → ℕ) → Outcome (List IdtEntry)
setup_idt isr_stub_table = setup_idt_from isr_stub_table interrupt_number 0

-- The size of a descriptor.
abbrev pub gdt_entry_size : ℕ
gdt_entry_size = 16

-- The descriptor of the state of a processor, whose size less 1 is 103: type 9, present.
unfoldable pub tss_descriptor : (local_tss : ℕ) → Gdt
tss_descriptor local_tss = make_gdt local_tss 103 2 0x89

-- The null descriptor is counted with the four others.
abbrev pub gdt_entry_count : (number_of_logical_cores : ℕ) → ℕ
gdt_entry_count number_of_logical_cores = 4 + 1 + number_of_logical_cores

-- The loop of `make_CPU_states` over `n` processors from number `i` on: each gets its descriptor after
-- the five first ones, in the array `gdt` of the descriptors.
unfoldable pub set_tss_descriptors :
    (local_tss : ℕ → ℕ) (number_of_logical_cores n i : ℕ) (gdt : ℕ → Gdt) → Outcome (ℕ → Gdt)
set_tss_descriptors local_tss number_of_logical_cores zero i gdt = ok gdt
set_tss_descriptors local_tss number_of_logical_cores (suc n) i gdt =
    let gdt_size = gdt_entry_count number_of_logical_cores * gdt_entry_size in
    let stored = λ (j : ℕ). if j == 5 + i then tss_descriptor (local_tss i) else gdt j in
    let rest = set_tss_descriptors local_tss number_of_logical_cores n (suc i) stored in
    if leb ((5 + i) * gdt_entry_size) gdt_size then rest else panic failed_assert

-- The memory for all structures, in whole pages, always with a page that is not full.
unfoldable pub cpu_structures_vmm_size : (local_cpu_state_size number_of_logical_cores : ℕ) → ℕ
cpu_structures_vmm_size local_cpu_state_size number_of_logical_cores =
    let gdt_size = gdt_entry_size * gdt_entry_count number_of_logical_cores in
    let idt_size = 16 * interrupt_number in
    let local_cpu_states_size = local_cpu_state_size * number_of_logical_cores in
    let real_size = gdt_size + idt_size + local_cpu_states_size in
    real_size + (page_size - real_size % page_size)

-- The offset has 16 bits.
unfoldable pub get_tss_selector : (cpu_id : ℕ) → ℕ
get_tss_selector cpu_id = (0x50 + cpu_id * 0x10 % 2 ^ 16) % 2 ^ 16
