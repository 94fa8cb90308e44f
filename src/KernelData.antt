-- ===== src/KernelData.antt =====
-- kernel/kernel_data.c: the data that the kernel keeps of each processor, in a list in the order of
-- registration. `fresh` is what `kmalloc` leaves in the data of a new node. The lock of the data is held
-- from the first to the last line of each function.
pub mod Registry
mod Tests
use garbage_os.Base.{
  ℕ, ◌+◌, ◌%◌, ◌^◌, Bool, false, List, [], ◌∷◌, ◌++◌, ◌==◌, ◌!=◌, if◌then◌else◌, Outcome, ok, ◌>>=◌,
  ◌>>◌, kassert, panic, failed_assert, true,
}
use garbage_os.Vmm.Manager.{Handle}

-- `LocalKernelData`
pub record LocalKernelData : Type 0 where
  pub kernel_stack : Handle
  pub apic_id : ℕ

-- `LocalKernelDataList`
pub record Node : Type 0 where
  pub cpu_id : ℕ
  pub local_data : LocalKernelData

-- The part of `KernelData` that this file works on. A `CPUID` is a 32-bit number.
pub record KernelData : Type 0 where
  pub local_data_list : List Node
  pub cpuid_to_allocate : ℕ

abbrev pub init_kernel_data : KernelData
init_kernel_data = record { local_data_list = []; cpuid_to_allocate = 0 }

-- Appends a node. Behind the first node, none is allocated for the identifier 0.
unfoldable pub append_node : List Node → (cpuid : ℕ) → LocalKernelData → Outcome (List Node)
append_node [] cpuid fresh = ok (record { cpu_id = cpuid; local_data = fresh } ∷ [])
append_node (n ∷ ns) cpuid fresh = do
  kassert (cpuid != 0)
  ok ((n ∷ ns) ++ record { cpu_id = cpuid; local_data = fresh } ∷ [])

unfoldable pub register_local_kernel_data_cpu :
    KernelData → LocalKernelData → Outcome (ℕ × KernelData)
register_local_kernel_data_cpu k fresh = do
  let cpuid = k.cpuid_to_allocate
  nodes ← append_node k.local_data_list cpuid fresh
  ok (cpuid, record { local_data_list = nodes; cpuid_to_allocate = (cpuid + 1) % 2 ^ 32 })

-- The loop to the node with an identifier, whose data is set.
unfoldable pub set_in : List Node → (cpu_id : ℕ) → LocalKernelData → Outcome (List Node)
set_in [] cpu_id ldata = kassert false >> ok []
set_in (n ∷ ns) cpu_id ldata = elim (n.cpu_id == cpu_id) [
  | true ↦ ok (record n { local_data = ldata } ∷ ns)
  | false ↦ (do rest ← set_in ns cpu_id ldata; ok (n ∷ rest))
]

unfoldable pub set_local_kernel_data :
    KernelData → (cpu_id : ℕ) → LocalKernelData → Outcome KernelData
set_local_kernel_data k cpu_id ldata = do
  nodes ← set_in k.local_data_list cpu_id ldata
  ok (record k { local_data_list = nodes })

-- The loop to the first node that passes a test.
unfoldable pub find_node : (Node → Bool) → List Node → Outcome Node
find_node test [] = panic failed_assert
find_node test (n ∷ ns) = if test n then ok n else find_node test ns

unfoldable pub get_local_kernel_data : KernelData → (cpu_id : ℕ) → Outcome LocalKernelData
get_local_kernel_data k cpu_id = do
  n ← find_node (λ n. n.cpu_id == cpu_id) k.local_data_list
  ok n.local_data

unfoldable pub get_cpu_id_from_apic_id : KernelData → (apic_id : ℕ) → Outcome ℕ
get_cpu_id_from_apic_id k apic_id = do
  n ← find_node (λ n. n.local_data.apic_id == apic_id) k.local_data_list
  ok n.cpu_id
