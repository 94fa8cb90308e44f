-- ===== src/BootloaderData.antt =====
-- kernel/HAL/bios/bootloader_data.c: the memory map that the BIOS gave to the bootloader, and the
-- ranges of RAM that are made of it. Each function that fills a global buffer once is split in the
-- filling and the test of the buffer.
pub mod Align
pub mod Free
pub mod Ram
mod Tests
use garbage_os.Base.{
  ℕ, zero, suc, ◌+◌, ◌*◌, ◌/◌, ◌%◌, ◌^◌, Bool, true, false, ◌&&◌, Option, none, some, List, [], ◌∷◌,
  map, ◌==◌, ◌!=◌, ltb, leb, if◌then◌else◌, length, add64, sub64, page_size, mb, Outcome, ok, panic,
  ◌>>=◌, ◌>>◌, check, free_mem_bootloader_error,
}
use garbage_os.PhysicalMemory.{Range}
use garbage_os.BubbleSort.{bubble_sort}

-- `struct MemoryMapItem`; `acpi` is a bit field.
pub record MemoryMapItem : Type 0 where
  pub base_addr : ℕ
  pub size : ℕ
  pub type : ℕ
  pub acpi : ℕ

-- `struct FrameData`, with the map item that its offset points to
pub record FrameData : Type 0 where
  pub memory_map_item : MemoryMapItem
  pub first_frame_address : ℕ

-- What the functions read of `struct BootLoaderData`.
pub record BootLoaderData : Type 0 where
  pub frame_allocator_data : FrameData
  pub map_items : List MemoryMapItem

abbrev pub max_physical_memory_ranges : ℕ
max_physical_memory_ranges = 128

-- `type == MEMORY_MAP_FREE && size != 0`
pub is_free_item : MemoryMapItem → Bool
is_free_item i = i.type == 1 && i.size != 0

-- The filling loop, with `next_range` ranges filled.
pub fill_ranges : ℕ → List MemoryMapItem → Outcome (List Range)
fill_ranges next_range [] = ok []
fill_ranges next_range (i ∷ is) =
    if is_free_item i
    then (do
      check (next_range != max_physical_memory_ranges) free_mem_bootloader_error
      rest ← fill_ranges (next_range + 1) is
      ok (record { start_address = i.base_addr; size = i.size } ∷ rest))
    else fill_ranges next_range is

-- The body of the loop that aligns to 4K.
pub align_range : Range → Range
align_range r =
    if r.size == 0
    then r
    else (let to_add = sub64 page_size (r.start_address % page_size) in
        let s =
          if r.start_address % page_size != 0
          then record { start_address = add64 r.start_address to_add; size = sub64 r.size to_add }
          else r in
        if s.size % page_size != 0
        then record s { size = sub64 s.size (s.size % page_size) }
        else s)

-- `get_ram_space` with an empty buffer
pub make_ram_space : BootLoaderData → Outcome (List Range)
unfolding fill_ranges align_range bubble_sort is_free_item
make_ram_space b = do
  ranges ← fill_ranges 0 b.map_items
  ok (map align_range (bubble_sort (λ r. r.start_address) ranges))

-- `get_ram_space` and its buffer, which is `none` until it is filled
pub get_ram_space :
    BootLoaderData → Option (List Range) → Outcome (List Range × Option (List Range))
get_ram_space b (some buffer) = ok (buffer, some buffer)
get_ram_space b none = do ranges ← make_ram_space b; ok (ranges, some ranges)

-- Takes the frames that the bootloader used from the front of the range that it took them from.
pub remove_boot_frames : FrameData → Range → Range
remove_boot_frames d r =
    if d.memory_map_item.base_addr == r.start_address
    then record {
      size = sub64 r.size (sub64 d.first_frame_address r.start_address);
      start_address = d.first_frame_address;
    }
    else r

-- Removes what lies in the first MiB.
pub remove_first_mb : Range → Range
remove_first_mb r =
    if ltb r.start_address (1 * mb)
    then (if ltb (1 * mb) (add64 r.start_address r.size)
        then record { size = sub64 r.size (sub64 (1 * mb) r.start_address); start_address = 1 * mb }
        else record r { size = 0 })
    else r

-- `free_mem_bootloader` with an empty buffer
pub make_free_mem : BootLoaderData → Outcome (List Range)
make_free_mem b = do
  ranges ← fill_ranges 0 b.map_items
  ok (
      map (λ r. align_range (remove_first_mb (remove_boot_frames b.frame_allocator_data r)))
        (bubble_sort (λ r. r.start_address) ranges))

-- `free_mem_bootloader` and its buffer
pub free_mem_bootloader :
    BootLoaderData → Option (List Range) → Outcome (List Range × Option (List Range))
free_mem_bootloader b (some buffer) = ok (buffer, some buffer)
free_mem_bootloader b none = do ranges ← make_free_mem b; ok (ranges, some ranges)

-- The sum of the sizes of the free items; `total` is the running sum.
pub usable_ram_from : ℕ → List MemoryMapItem → ℕ
usable_ram_from total [] = total
usable_ram_from total (i ∷ is) =
    usable_ram_from (if is_free_item i then add64 total i.size else total) is

pub get_total_usable_ram_size : BootLoaderData → ℕ
unfolding usable_ram_from
get_total_usable_ram_size b = usable_ram_from 0 b.map_items

-- The last address at which a register-size value of an item lies.
pub last_address_from : ℕ → List MemoryMapItem → ℕ
last_address_from last [] = last
last_address_from last (i ∷ is) =
    let item_last = sub64 (add64 i.base_addr i.size) 8 in
    last_address_from
      (if i.size != 0 then (if ltb last item_last then item_last else last) else last) is

pub get_last_address : BootLoaderData → ℕ
unfolding last_address_from
get_last_address b = last_address_from 0 b.map_items

-- The bytes of free items in the first MiB.
pub reserved_from : ℕ → List MemoryMapItem → ℕ
reserved_from total [] = total
reserved_from total (i ∷ is) =
    let end_addr = add64 i.base_addr i.size in
    let end_capped = if ltb (1 * mb) end_addr then 1 * mb else end_addr in
    reserved_from
      (if is_free_item i && ltb i.base_addr (1 * mb)
        then add64 total (sub64 end_capped i.base_addr)
        else total)
      is

pub get_bootloader_memory_usage : BootLoaderData → ℕ
unfolding reserved_from
get_bootloader_memory_usage b = add64 (reserved_from 0 b.map_items) (
    sub64 b.frame_allocator_data.first_frame_address
      b.frame_allocator_data.memory_map_item.base_addr)

-- `enum MemoryMapType`
pub data MemoryMapType : Type 0 where
  usable reserved non_volatile bad acpi_table acpi_nvs : MemoryMapType

-- `struct MemoryMapRange`
pub record MemoryMapRange : Type 0 where
  pub start_address : ℕ
  pub size : ℕ
  pub type : MemoryMapType

-- `type_mapping`, for the types that it covers
pub type_mapping : ℕ → MemoryMapType
type_mapping t =
    if t == 1
    then usable
    else if t == 2
    then reserved
    else if t == 3
    then acpi_table
    else if t == 4
    then acpi_nvs
    else if t == 5
    then bad
    else reserved

pub to_memory_map_range : MemoryMapItem → MemoryMapRange
unfolding type_mapping
to_memory_map_range i =
    let bios_type = if leb 1 i.type && leb i.type 5 then type_mapping i.type else reserved in
    let known = if i.acpi % 2 == 0 then reserved else bios_type in
    record {
      start_address = i.base_addr;
      size = i.size;
      type = if i.acpi / 2 % 2 != 0 then non_volatile else known;
    }

-- `get_memory_map` with an empty buffer, which has place for 128 ranges: none if more items are stored,
-- behind its end.
pub make_memory_map : BootLoaderData → Option (List MemoryMapRange)
unfolding to_memory_map_range bubble_sort
make_memory_map b =
    if leb (length b.map_items) 128
    then some (bubble_sort (λ r. r.start_address) (map to_memory_map_range b.map_items))
    else none

-- `get_memory_map` and its buffer
pub get_memory_map :
    BootLoaderData
    → Option (List MemoryMapRange)
    → Option (List MemoryMapRange × Option (List MemoryMapRange))
get_memory_map b (some buffer) = some (buffer, some buffer)
get_memory_map b none = elim (make_memory_map b) [
  | none ↦ none
  | some ranges ↦ some (ranges, some ranges)
]
