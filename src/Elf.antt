-- ===== src/Elf.antt =====
-- kernel/elf.c: the segments of the kernel's own image. The image in memory gives the fields of the
-- program headers by their addresses.
pub mod Segments
mod Tests
use garbage_os.Base.{
  ℕ, zero, suc, ◌+◌, ◌*◌, ◌/◌, ◌%◌, ◌^◌, Bool, true, false, ◌&&◌, List, [], ◌∷◌, ltb, ◌==◌,
  if◌then◌else◌, get_or,
}

-- `ElfHeader`, the fields that are read
pub record ElfHeader : Type 0 where
  pub ei_magic : List ℕ
  pub ei_class : ℕ
  pub ei_data : ℕ
  pub ei_version : ℕ
  pub e_version : ℕ
  pub e_phoff : ℕ
  pub e_phentsize : ℕ
  pub e_phnum : ℕ

-- `ElfProgramHeader`, the fields that are read
pub record ElfProgramHeader : Type 0 where
  pub p_type : ℕ
  pub p_flags : ℕ
  pub p_vaddr : ℕ
  pub p_memsz : ℕ

-- `ElfLoadedSegment`
pub record ElfLoadedSegment : Type 0 where
  pub executable : Bool
  pub writeable : Bool
  pub readable : Bool
  pub vaddr : ℕ
  pub size : ℕ

-- The numbers are stored with the lowest byte first.
abbrev pub elf_validate_header : ElfHeader → Bool
elf_validate_header h =
    (get_or h.ei_magic 0 0 == 0x7f)
    && (get_or h.ei_magic 1 0 == 69)
    && (get_or h.ei_magic 2 0 == 76)
    && (get_or h.ei_magic 3 0 == 70)
    && (h.ei_class == 2)
    && (h.ei_data == 1)
    && (h.ei_version == 1)
    && (h.e_version == 1)

-- `PT_LOAD`
abbrev pub pt_load : ℕ
pt_load = 1

-- The segment of a program header that is loaded.
abbrev pub new_segment : ElfProgramHeader → ElfLoadedSegment
new_segment p = record {
  executable = p.p_flags % 2 == 1;
  writeable = p.p_flags / 2 % 2 == 1;
  readable = p.p_flags / 4 % 2 == 1;
  vaddr = p.p_vaddr;
  size = p.p_memsz;
}

module _ (program_header : (address : ℕ) → ElfProgramHeader) where
  -- The next `n` program headers from `pheader` on; the counter has 16 bits.
  unfoldable pub count_loaded : (entsize n pheader counter : ℕ) → ℕ
  count_loaded entsize zero pheader counter = counter
  count_loaded entsize (suc n) pheader counter =
      count_loaded entsize n (pheader + entsize)
        (if (program_header pheader).p_type == pt_load then (counter + 1) % 2 ^ 16 else counter)

  -- `header` is the address of the image.
  unfoldable pub elf_get_number_of_loaded_entries : (header : ℕ) → ElfHeader → ℕ
  elf_get_number_of_loaded_entries header h =
      count_loaded h.e_phentsize h.e_phnum (header + h.e_phoff) 0

  -- What is put in the buffer, with room for `room` more segments.
  unfoldable pub loaded_entries : (entsize n pheader room : ℕ) → List ElfLoadedSegment
  loaded_entries entsize zero pheader room = []
  loaded_entries entsize (suc n) pheader zero = []
  loaded_entries entsize (suc n) pheader (suc room) =
      let loaded = (program_header pheader).p_type == pt_load in
      let rest = loaded_entries entsize n (pheader + entsize) (if loaded then room else suc room) in
      if loaded then new_segment (program_header pheader) ∷ rest else rest

  unfoldable pub elf_get_loaded_entries :
      (header : ℕ) → ElfHeader → (buffer_size : ℕ) → List ElfLoadedSegment
  elf_get_loaded_entries header h buffer_size =
      loaded_entries h.e_phentsize h.e_phnum (header + h.e_phoff) buffer_size
