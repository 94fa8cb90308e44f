-- ===== src/Cpu/Tests.antt =====
-- The tables of a machine with four processors.
use garbage_os.Base.{ℕ, ◌+◌, ◌*◌, ◌/◌, ◌%◌, ◌^◌, ◌<◌, ◌≡◌, List, length, arith, ok}
use garbage_os.Cpu.{
  IdtEntry, Gdt, make_gdt, set_tss_descriptors, gdt_entry_size, setup_idt, interrupt_number,
  get_tss_selector, gdt_entry_count,
}
use garbage_os.Cpu.Descriptors.{
  Gates, base_of, limit_of, setup_idt-Gates, get_tss_selector-descriptor,
}

-- The routines lie 16 bytes apart.
abbrev stubs : ℕ → ℕ
stubs i = (0xffffffff80001000 + i * 16) % 2 ^ 64

setup_idt-Gates_example :
    (es : List IdtEntry) × (setup_idt stubs ≡ ok es)
    × (length es ≡ interrupt_number)
    × Gates stubs 0 es
setup_idt-Gates_example = setup_idt-Gates stubs (λ j. omega arith)

-- The states of the processors lie 8 KiB apart.
abbrev states : ℕ → ℕ
states i = 0xffff900000001234 + i * 8192

get_tss_selector-descriptor_example :
    (gdt' : ℕ → Gdt) × (set_tss_descriptors states 4 4 0 (λ i. make_gdt 0 0 0 0) ≡ ok gdt')
    × (get_tss_selector 3 / gdt_entry_size < gdt_entry_count 4)
    × (base_of (gdt' (get_tss_selector 3 / gdt_entry_size)) ≡ states 3)
    × (limit_of (gdt' (get_tss_selector 3 / gdt_entry_size)) ≡ 103)
    × ((gdt' (get_tss_selector 3 / gdt_entry_size)).access ≡ 0x89)
    × ((j : ℕ) → j < 5 → gdt' j ≡ make_gdt 0 0 0 0)
get_tss_selector-descriptor_example =
    get_tss_selector-descriptor states 4 3 (λ i. make_gdt 0 0 0 0) (omega arith) (omega arith)
      (omega arith)
