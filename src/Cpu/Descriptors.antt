-- ===== src/Cpu/Descriptors.antt =====
-- What a processor reads in the descriptors.
use native.Mathlib.Decide.{ℕ_discrete}
use garbage_os.Base.{
  ℕ, zero, suc, ◌+◌, ◌*◌, ◌/◌, ◌%◌, ◌^◌, ◌≤◌, ◌<◌, ◌≡◌, refl, ap, true, ◌∙◌, ◌-◌, eq→==,
  ne→==_false, Bool-cases, inl, inr, List, [], ◌∷◌, length, arith, ltb, leb, ◌==◌, if◌then◌else◌,
  bit_or, bit_or-above, ok,
}
use garbage_os.Cpu.{
  Gdt, make_gdt, IdtEntry, make_idt_entry, ist_of, attributes_of, setup_idt_from, setup_idt,
  interrupt_number, kernel_code_selector, tss_descriptor, get_tss_selector, gdt_entry_count,
  gdt_entry_size, set_tss_descriptors,
}

-- The base and the limit of a descriptor, and the address of a gate.
abbrev pub base_of : Gdt → ℕ
base_of g = g.base₁ + g.base₂ * 2 ^ 16 + g.base₃ * 2 ^ 24 + g.base₄ * 2 ^ 32

abbrev pub limit_of : Gdt → ℕ
limit_of g = g.limit + g.limit_flags % 2 ^ 4 * 2 ^ 16

abbrev pub offset_of : IdtEntry → ℕ
offset_of e = e.offset₁ + e.offset₂ * 2 ^ 16 + e.offset₃ * 2 ^ 32

-- A descriptor has the base, the lower 20 bits of the limit, and the flags above them.
make_gdt-fields :
    (base limit flags access : ℕ)
    → base < 2 ^ 64
    → (base_of (make_gdt base limit flags access) ≡ base)
      × (limit_of (make_gdt base limit flags access) ≡ limit % 2 ^ 20)
      × ((make_gdt base limit flags access).limit_flags / 2 ^ 4 ≡ flags % 2 ^ 4)
unfolding make_gdt
make_gdt-fields base limit flags access small =
    let joined =
      bit_or-above 4 4 (limit / 2 ^ 16 % 2 ^ 4) (flags % 2 ^ 4) (omega arith) (omega arith) in
    (omega (arith, small), omega (arith, joined), omega (arith, joined))

-- The interrupts with a stack of their own, and its number: the non-maskable interrupt, the double fault
-- and the page fault.
own_stacks : List (ℕ × ℕ)
own_stacks = (2, 1) ∷ (8, 1) ∷ (14, 2) ∷ []

-- The stack of an interrupt: its own one, or 0 for the one that is in use.
stack_in : List (ℕ × ℕ) → ℕ → ℕ
stack_in [] i = 0
stack_in (s ∷ ss) i = if s.0 == i then s.1 else stack_in ss i

pub stack_of : ℕ → ℕ
unfolding own_stacks stack_in
stack_of i = stack_in own_stacks i

ist_of-stack_of : (i : ℕ) → ist_of i ≡ stack_of i
unfolding ist_of stack_of own_stacks stack_in
ist_of-stack_of i = ground arith

-- An entry of the table of interrupts: present, for privilege level 0 and with the kernel's code; the
-- gate keeps the flag of interrupts for exceptions only.
pub record IsGate (isr i : ℕ) (e : IdtEntry) : Type 0 where
  pub address : offset_of e ≡ isr
  pub code : e.segment_selector ≡ kernel_code_selector
  pub present : e.attributes_type / 2 ^ 5 ≡ 4
  pub kind : e.attributes_type % 2 ^ 5 ≡ (if ltb i 32 then 0xf else 0xe)
  pub stack : e.ist ≡ stack_of i

-- The gate of the interrupt `i`.
abbrev gate : (isr_stub_table : ℕ → ℕ) (i : ℕ) → IdtEntry
gate isr i = record {
  offset₁ = isr i % 2 ^ 16;
  segment_selector = kernel_code_selector;
  ist = ist_of i;
  attributes_type = attributes_of i;
  offset₂ = isr i / 2 ^ 16 % 2 ^ 16;
  offset₃ = isr i / 2 ^ 32 % 2 ^ 32;
}

ist_of-bound : (i : ℕ) → leb (ist_of i) 7 ≡ true
unfolding ist_of
ist_of-bound i = ground arith

attributes_of-parts :
    (i : ℕ)
    → (attributes_of i / 2 ^ 5 ≡ 4) × (attributes_of i % 2 ^ 5 ≡ (if ltb i 32 then 0xf else 0xe))
unfolding attributes_of bit_or
attributes_of-parts i = elim (Bool-cases (ltb i 32)) [
  | inl exception ↦ rw exception (refl, refl)
  | inr other ↦ rw other (refl, refl)
]

-- The gates of the interrupts from `i` on.
abbrev pub Gates : (isr_stub_table : ℕ → ℕ) (i : ℕ) → List IdtEntry → Type 0
Gates isr i [] = Unit
Gates isr i (e ∷ es) = IsGate (isr i) i e × Gates isr (suc i) es

setup_idt_from-Gates :
    (isr : ℕ → ℕ) (n i : ℕ)
    → ((j : ℕ) → isr j < 2 ^ 64)
    → (es : List IdtEntry) × (setup_idt_from isr n i ≡ ok es) × (length es ≡ n) × Gates isr i es
unfolding setup_idt_from make_idt_entry
setup_idt_from-Gates isr zero i small = ([], refl, refl, tt)
setup_idt_from-Gates isr (suc n) i small =
    let (es, rest, size, gates) = setup_idt_from-Gates isr n (suc i) small in
    let (present, kind) = attributes_of-parts i in
    let stack_ok = ist_of-bound i in
    let no_flag : (attributes_of i / 2 ^ 4 % 2 == 0) ≡ true = ground (arith, kind) in
    (
      gate isr i ∷ es,
      rw (stack_ok, no_flag, rest) refl,
      ap suc size,
      (
        record {
          address = omega (arith, small i);
          code = refl;
          present = present;
          kind = kind;
          stack = ist_of-stack_of i;
        },
        gates,
      ),
    )

-- The table of interrupts has 256 gates for every table of routines: each leads to the routine of its
-- interrupt, runs the kernel's code with privilege level 0 and is present. It is a trap gate for the 32
-- exceptions and an interrupt gate for the others, with the stack that the interrupt has.
pub setup_idt-Gates :
    (isr_stub_table : ℕ → ℕ)
    → ((j : ℕ) → isr_stub_table j < 2 ^ 64)
    → (es : List IdtEntry) × (setup_idt isr_stub_table ≡ ok es)
      × (length es ≡ interrupt_number)
      × Gates isr_stub_table 0 es
setup_idt-Gates isr small = setup_idt_from-Gates isr 256 0 small

-- The table after the loop: the descriptors of the processors from `i` on are stored, and the entries
-- before theirs are as they were.
abbrev Stored : (local_tss : ℕ → ℕ) (n i : ℕ) (gdt gdt' : ℕ → Gdt) → Type 0
Stored local_tss n i gdt gdt' =
    ((k : ℕ) → k < n → gdt' (5 + i + k) ≡ tss_descriptor (local_tss (i + k)))
    × ((j : ℕ) → j < 5 + i → gdt' j ≡ gdt j)

set_tss_descriptors-Stored :
    (local_tss : ℕ → ℕ) (cores n i : ℕ) (gdt : ℕ → Gdt)
    → i + n ≤ cores
    → (gdt' : ℕ → Gdt) × (set_tss_descriptors local_tss cores n i gdt ≡ ok gdt')
      × Stored local_tss n i gdt gdt'
unfolding set_tss_descriptors
set_tss_descriptors-Stored local_tss cores zero i gdt inside =
    (gdt, refl, (λ k h. absurd (omega (arith, h)), λ j h. refl))
set_tss_descriptors-Stored local_tss cores (suc n) i gdt inside =
    let stored = λ (j : ℕ). if j == 5 + i then tss_descriptor (local_tss i) else gdt j in
    let room : leb ((5 + i) * gdt_entry_size) (gdt_entry_count cores * gdt_entry_size) ≡ true =
      ground (arith, inside) in
    let (gdt', returns, (others, before)) =
      set_tss_descriptors-Stored local_tss cores n (suc i) stored (omega (arith, inside)) in
    let at_i : gdt' (5 + i) ≡ tss_descriptor (local_tss i) =
      before (5 + i) (omega arith) ∙ rw (eq→== (5 + i) (5 + i) refl) refl in
    (
      gdt',
      rw room returns,
      (
        λ k h. elim (ℕ_discrete k 0) [
          | yes first ↦
              let here : 5 + i + k ≡ 5 + i = omega (arith, first) in
              let here' : i + k ≡ i = omega (arith, first) in rw (here, here') at_i
          | no later ↦
              let there : 5 + i + k ≡ 5 + suc i + (k - 1) = omega (arith, later) in
              let there' : i + k ≡ suc i + (k - 1) = omega (arith, later) in
              rw (there, there') (others (k - 1) (omega (arith, h, later)))
        ],
        λ j h.
            before j (omega (arith, h))
            ∙ rw (ne→==_false j (5 + i) (λ e. omega (arith, h, e))) refl,
      ),
    )

-- With at most 4000 processors, the loop over them stores their descriptors without a failed assertion
-- and leaves the five entries before: the entry that the selector of a processor picks has the address
-- of the state of that processor, its size less 1, and the access of an available state.
pub get_tss_selector-descriptor :
    (local_tss : ℕ → ℕ) (cores cpu_id : ℕ) (gdt : ℕ → Gdt)
    → cores ≤ 4000
    → cpu_id < cores
    → local_tss cpu_id < 2 ^ 64
    → (gdt' : ℕ → Gdt) × (set_tss_descriptors local_tss cores cores 0 gdt ≡ ok gdt')
      × (get_tss_selector cpu_id / gdt_entry_size < gdt_entry_count cores)
      × (base_of (gdt' (get_tss_selector cpu_id / gdt_entry_size)) ≡ local_tss cpu_id)
      × (limit_of (gdt' (get_tss_selector cpu_id / gdt_entry_size)) ≡ 103)
      × ((gdt' (get_tss_selector cpu_id / gdt_entry_size)).access ≡ 0x89)
      × ((j : ℕ) → j < 5 → gdt' j ≡ gdt j)
unfolding get_tss_selector tss_descriptor make_gdt
get_tss_selector-descriptor local_tss cores cpu_id gdt few inside small =
    let fields = make_gdt-fields (local_tss cpu_id) 103 2 0x89 small in
    let (gdt', returns, (stored, before)) =
      set_tss_descriptors-Stored local_tss cores cores 0 gdt (omega arith) in
    let zero_add : 0 + cpu_id ≡ cpu_id = omega arith in
    let picks : get_tss_selector cpu_id / gdt_entry_size ≡ 5 + cpu_id =
      omega (arith, few, inside) in
    let there : gdt' (get_tss_selector cpu_id / gdt_entry_size)
        ≡ tss_descriptor (local_tss cpu_id) =
      ap gdt' picks ∙ stored cpu_id inside ∙ ap (λ k. tss_descriptor (local_tss k)) zero_add in
    (
      gdt',
      returns,
      omega (arith, picks, inside),
      ap base_of there ∙ fields.0,
      ap limit_of there ∙ fields.1 ∙ refl,
      ap (λ g. g.access) there,
      before,
    )
