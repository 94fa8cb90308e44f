-- ===== src/Elf/Tests.antt =====
-- An image with three program headers.
use garbage_os.Base.{ℕ, ◌+◌, ◌≡◌, refl, true, [], ◌∷◌, length, arith, ◌==◌, if◌then◌else◌}
use garbage_os.Elf.{
  ElfHeader, ElfProgramHeader, elf_get_number_of_loaded_entries, elf_get_loaded_entries,
  elf_validate_header,
}
use garbage_os.Elf.Segments.{segments, take, elf_get_loaded_entries-segments}

abbrev image_header : ElfHeader
image_header = record {
  ei_magic = 0x7f ∷ 69 ∷ 76 ∷ 70 ∷ [];
  ei_class = 2;
  ei_data = 1;
  ei_version = 1;
  e_version = 1;
  e_phoff = 0x40;
  e_phentsize = 0x38;
  e_phnum = 3;
}

-- The second header, at 0x1078, is not loaded.
abbrev image : ℕ → ElfProgramHeader
image a = record {
  p_type = if a == 0x1078 then 4 else 1;
  p_flags = 5;
  p_vaddr = a;
  p_memsz = 0x2000;
}

valid : elf_validate_header image_header ≡ true
valid = refl

elf_get_loaded_entries-segments_example :
    let all = segments image 0x38 3 (0x1000 + 0x40) in
    (elf_get_number_of_loaded_entries image 0x1000 image_header ≡ length all)
    × (elf_get_loaded_entries image 0x1000 image_header
          (elf_get_number_of_loaded_entries image 0x1000 image_header)
        ≡ all)
    × ((buffer_size : ℕ)
        → elf_get_loaded_entries image 0x1000 image_header buffer_size ≡ take buffer_size all)
elf_get_loaded_entries-segments_example =
    elf_get_loaded_entries-segments image 0x1000 image_header (omega arith)
