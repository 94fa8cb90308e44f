-- ===== src/BootloaderData/Tests.antt =====
-- Runs over small memory maps, and the theorems at them.
use mathlib.Core.List.{Perm}
use garbage_os.Base.{ℕ, ◌+◌, ◌%◌, ◌<◌, ◌≡◌, refl, List, [], ◌∷◌, arith, ok, none, some, ◌^◌, ◌≢◌}
use garbage_os.PhysicalMemory.{Range}
use garbage_os.BubbleSort.Sorted.{IsSorted, bubble_sort-IsSorted}
use garbage_os.BubbleSort.{bubble_sort}
use garbage_os.BootloaderData.{
  MemoryMapItem, BootLoaderData, align_range, get_ram_space, make_free_mem, fill_ranges,
  is_free_item, remove_boot_frames, remove_first_mb, make_ram_space, get_total_usable_ram_size,
  get_last_address, get_bootloader_memory_usage,
}
use garbage_os.BootloaderData.Align.{ReachesPage, AlignsTo, align_range-AlignsTo}
use garbage_os.BootloaderData.Ram.{free_item_ranges, RamSpace, get_ram_space-RamSpace}
use garbage_os.BootloaderData.Free.{FreeMem, make_free_mem-FreeMem}

abbrev item : ℕ → ℕ → ℕ → MemoryMapItem
item base size type = record { base_addr = base; size = size; type = type; acpi = 1 }

abbrev range : ℕ → ℕ → Range
range start size = record { start_address = start; size = size }

-- Out of order, with a reserved item; the bootloader used 0x3000 bytes from 16 MiB on.
abbrev small_map : BootLoaderData
small_map = record {
  frame_allocator_data = record {
    memory_map_item = item 0x1000000 0x10800 1;
    first_frame_address = 0x1003000;
  };
  map_items =
      item 0x1000000 0x10800 1
      ∷ item 0xf0000 0x10000 2
      ∷ item 0 0x9fc00 1
      ∷ item 0x100000 0x2000 1
      ∷ [];
}

ram_of_small_map :
    get_ram_space small_map none
    ≡ ok (
      range 0 0x9f000 ∷ range 0x100000 0x2000 ∷ range 0x1000000 0x10000 ∷ [],
      some (range 0 0x9f000 ∷ range 0x100000 0x2000 ∷ range 0x1000000 0x10000 ∷ []),
    )
unfolding get_ram_space make_ram_space bubble_sort fill_ranges
ram_of_small_map = refl

free_of_small_map :
    make_free_mem small_map ≡ ok (range 0 0 ∷ range 0x100000 0x2000 ∷ range 0x1003000 0xd000 ∷ [])
unfolding make_free_mem bubble_sort fill_ranges is_free_item align_range remove_boot_frames
    remove_first_mb
free_of_small_map = refl

sizes_of_small_map :
    (get_total_usable_ram_size small_map ≡ 0x9fc00 + 0x10800 + 0x2000)
    × (get_last_address small_map ≡ 0x10107f8)
    × (get_bootloader_memory_usage small_map ≡ 0x9fc00 + 0x3000)
unfolding get_total_usable_ram_size is_free_item get_last_address get_bootloader_memory_usage
sizes_of_small_map = (refl, refl, refl)

-- 16 bytes before a page boundary: the size wraps round.
align_range-AlignsTo_example :
    (ReachesPage (range 0x1800 0x10)
      → AlignsTo (range 0x1800 0x10) (align_range (range 0x1800 0x10)))
    × (0x1800 % 4096 ≢ 0
        → 0x10 + 0x1800 % 4096 < 4096
        → 2 ^ 63 < (align_range (range 0x1800 0x10)).size)
align_range-AlignsTo_example = align_range-AlignsTo (range 0x1800 0x10) (omega arith) (omega arith)

abbrev mixed : List ℕ
mixed = 3 ∷ 1 ∷ 2 ∷ []

abbrev itself : ℕ → ℕ
itself x = x

bubble_sort-IsSorted_example :
    IsSorted itself (bubble_sort itself mixed) × Perm mixed (bubble_sort itself mixed)
bubble_sort-IsSorted_example = bubble_sort-IsSorted itself mixed

get_ram_space-RamSpace_example :
    RamSpace small_map (free_item_ranges small_map.map_items) (get_ram_space small_map none)
get_ram_space-RamSpace_example =
    get_ram_space-RamSpace small_map (unfold free_item_ranges is_free_item in omega arith)

make_free_mem-FreeMem_example :
    FreeMem small_map.frame_allocator_data
      (free_item_ranges small_map.map_items)
      (make_free_mem small_map)
make_free_mem-FreeMem_example =
    make_free_mem-FreeMem small_map
      (unfold free_item_ranges is_free_item remove_boot_frames remove_first_mb in omega arith)
