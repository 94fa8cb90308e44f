-- ===== src/Elf/Segments.antt =====
-- The count of the segments and the list of the segments agree.
use garbage_os.Base.{
  ℕ, zero, suc, ◌+◌, ◌%◌, ◌^◌, ◌≤◌, ◌<◌, ◌≡◌, refl, ap, ◌∙◌, Bool-cases, inl, inr, List, [], ◌∷◌,
  length, arith, ◌==◌, if◌then◌else◌,
}
use garbage_os.Elf.{
  ElfHeader, ElfProgramHeader, ElfLoadedSegment, pt_load, new_segment, count_loaded,
  elf_get_number_of_loaded_entries, loaded_entries, elf_get_loaded_entries,
}

-- The segments of the `n` headers from `pheader` on that are loaded, in order.
abbrev pub segments :
    (program_header : (address : ℕ) → ElfProgramHeader) (entsize n pheader : ℕ)
    → List ElfLoadedSegment
segments program_header entsize zero pheader = []
segments program_header entsize (suc n) pheader =
    let rest = segments program_header entsize n (pheader + entsize) in
    if (program_header pheader).p_type == pt_load
    then new_segment (program_header pheader) ∷ rest
    else rest

abbrev pub take {ℓ} : {A : Type ℓ} → ℕ → List A → List A
take zero xs = []
take (suc n) [] = []
take (suc n) (x ∷ xs) = x ∷ take n xs

take_all {ℓ} : {A : Type ℓ} (xs : List A) → take (length xs) xs ≡ xs
take_all [] = refl
take_all (x ∷ xs) = ap (λ l. x ∷ l) (take_all xs)

module _ (program_header : (address : ℕ) → ElfProgramHeader) (entsize : ℕ) where
  length-segments : (n pheader : ℕ) → length (segments program_header entsize n pheader) ≤ n
  length-segments zero pheader = omega arith
  length-segments (suc n) pheader = ground (arith, length-segments n (pheader + entsize))

  count_loaded-length :
      (n pheader counter : ℕ)
      → counter + n < 2 ^ 16
      → count_loaded program_header entsize n pheader counter
        ≡ counter + length (segments program_header entsize n pheader)
  unfolding count_loaded
  count_loaded-length zero pheader counter h = omega arith
  count_loaded-length (suc n) pheader counter h =
      elim (Bool-cases ((program_header pheader).p_type == pt_load)) [
        | inl loaded ↦
            let rest =
              count_loaded-length n (pheader + entsize) ((counter + 1) % 2 ^ 16)
                (omega (arith, h)) in
            rw loaded (omega (arith, rest, h))
        | inr other ↦
            let rest = count_loaded-length n (pheader + entsize) counter (omega (arith, h)) in
            rw other (omega (arith, rest))
      ]

  loaded_entries-take :
      (n pheader room : ℕ)
      → loaded_entries program_header entsize n pheader room
        ≡ take room (segments program_header entsize n pheader)
  unfolding loaded_entries
  loaded_entries-take zero pheader zero = refl
  loaded_entries-take zero pheader (suc room) = refl
  loaded_entries-take (suc n) pheader zero = refl
  loaded_entries-take (suc n) pheader (suc room) =
      elim (Bool-cases ((program_header pheader).p_type == pt_load)) [
        | inl loaded ↦ rw loaded (
            ap (λ l. new_segment (program_header pheader) ∷ l)
              (loaded_entries-take n (pheader + entsize) room))
        | inr other ↦ rw other (loaded_entries-take n (pheader + entsize) (suc room))
      ]

-- The number of loaded entries is that of the segments that are loaded; a buffer of that size gets all
-- of them in order, and a smaller one gets the first ones.
pub elf_get_loaded_entries-segments :
    (program_header : (address : ℕ) → ElfProgramHeader) (header : ℕ) (h : ElfHeader)
    → h.e_phnum < 2 ^ 16
    → let all = segments program_header h.e_phentsize h.e_phnum (header + h.e_phoff) in
      (elf_get_number_of_loaded_entries program_header header h ≡ length all)
      × (elf_get_loaded_entries program_header header h
            (elf_get_number_of_loaded_entries program_header header h)
          ≡ all)
      × ((buffer_size : ℕ)
          → elf_get_loaded_entries program_header header h buffer_size ≡ take buffer_size all)
unfolding elf_get_number_of_loaded_entries elf_get_loaded_entries
elf_get_loaded_entries-segments program_header header h small =
    let first = header + h.e_phoff in
    let number : count_loaded program_header h.e_phentsize h.e_phnum first 0
        ≡ length (segments program_header h.e_phentsize h.e_phnum first) =
      omega (
        arith,
        count_loaded-length program_header h.e_phentsize h.e_phnum first 0 (omega (arith, small)),
      ) in
    (
      number,
      ap (loaded_entries program_header h.e_phentsize h.e_phnum first) number
          ∙ loaded_entries-take program_header h.e_phentsize h.e_phnum first _
          ∙ take_all (segments program_header h.e_phentsize h.e_phnum first),
      λ buffer_size. loaded_entries-take program_header h.e_phentsize h.e_phnum first buffer_size,
    )
