-- ===== src/Vmm/Manager/Laws/Tests.antt =====
-- Runs of the manager.
use garbage_os.Base.{panic, heap_out_of_mem, refl, true, false, [], ◌∷◌, arith}
use garbage_os.Vmm.Descriptors.{Descriptor, Pool, free, identity_map_free, fresh_descriptor}
use garbage_os.Vmm.Manager.{Vmm, kernel_vmem_start}
use garbage_os.Vmm.Manager.Laws.{IsValid}

abbrev new_pool : Pool
new_pool = record {
  kheap_initialized = false;
  next_free_descriptor = 2;
  next_address = 100;
  kmalloc = λ n. panic heap_out_of_mem;
  kmalloc_calls = 0;
}

abbrev low_range : Descriptor
low_range = fresh_descriptor 98 4096 65536 identity_map_free false

abbrev high_range : Descriptor
high_range = fresh_descriptor 99 kernel_vmem_start 65536 free false

abbrev pub two_ranges : Vmm
two_ranges = record {
  descriptors = low_range ∷ high_range ∷ [];
  kernel_mode = true;
  locked = false;
  pool = new_pool;
}

pub two_ranges-IsValid : IsValid two_ranges
two_ranges-IsValid = record { layout = ground arith; some_descriptor = λ e. cc; kernel = refl }
