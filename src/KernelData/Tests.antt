-- ===== src/KernelData/Tests.antt =====
-- Runs of the registry.
use garbage_os.Base.{ℕ, ◌≡◌, refl, none, [], ◌∷◌, ◌++◌, arith, ok}
use garbage_os.KernelData.{LocalKernelData, KernelData, register_local_kernel_data_cpu}
use garbage_os.KernelData.Registry.{IsRegistry, register_local_kernel_data_cpu-IsRegistry}

abbrev local_data_of : ℕ → LocalKernelData
local_data_of a = record { kernel_stack = none; apic_id = a }

abbrev one_cpu : KernelData
one_cpu = record {
  local_data_list = record { cpu_id = 0; local_data = local_data_of 4 } ∷ [];
  cpuid_to_allocate = 1;
}

one_cpu-IsRegistry : IsRegistry one_cpu
one_cpu-IsRegistry = record { counts = (refl, tt); next = refl }

register_local_kernel_data_cpu-IsRegistry_example :
    (k : KernelData) × (register_local_kernel_data_cpu one_cpu (local_data_of 9) ≡ ok (1, k))
    × (k.local_data_list
        ≡ one_cpu.local_data_list ++ record { cpu_id = 1; local_data = local_data_of 9 } ∷ [])
    × IsRegistry k
register_local_kernel_data_cpu-IsRegistry_example =
    register_local_kernel_data_cpu-IsRegistry one_cpu (local_data_of 9) one_cpu-IsRegistry
      (omega arith)
