-- ===== src/KernelData/Registry.antt =====
-- The identifiers of the processors, and what is stored under them.
use garbage_os.Base.{
  ℕ, suc, ◌+◌, ◌%◌, ◌^◌, ◌<◌, ◌≡◌, refl, ap, ◌≢◌, true, false, Bool-cases, inl, inr, List, [], ◌∷◌,
  ◌++◌, length, arith, ◌==◌, ◌!=◌, ne→==_false, Outcome, ok, panic, failed_assert, ◌>>=◌,
}
use garbage_os.KernelData.{
  LocalKernelData, Node, KernelData, append_node, register_local_kernel_data_cpu, set_in,
  set_local_kernel_data, find_node, get_local_kernel_data,
}

-- The identifiers count up from `i`.
abbrev pub CountsFrom : ℕ → List Node → Type 0
CountsFrom i [] = Unit {0}
CountsFrom i (n ∷ ns) = (n.cpu_id ≡ i) × CountsFrom (suc i) ns

-- The identifiers are 0, 1, 2, …, and the next one is the number of processors.
pub record IsRegistry (k : KernelData) : Type 0 where
  pub counts : CountsFrom 0 k.local_data_list
  pub next : k.cpuid_to_allocate ≡ length k.local_data_list

CountsFrom-append :
    (i c : ℕ) (ns : List Node) (d : LocalKernelData)
    → CountsFrom i ns
    → c ≡ i + length ns
    → CountsFrom i (ns ++ record { cpu_id = c; local_data = d } ∷ [])
CountsFrom-append i c [] d h e = (omega (arith, e), tt)
CountsFrom-append i c (n ∷ ns) d h e =
    (h.0, CountsFrom-append (suc i) c ns d h.1 (omega (arith, e)))

append_node-append :
    (ns : List Node) (d : LocalKernelData)
    → append_node ns (length ns) d ≡ ok (ns ++ record { cpu_id = length ns; local_data = d } ∷ [])
unfolding append_node
append_node-append [] d = refl
append_node-append (n ∷ ns) d =
    let pos : (suc (length ns) != 0) ≡ true = ground arith in rw pos refl

length-snoc {ℓ} : {A : Type ℓ} (xs : List A) (x : A) → length (xs ++ x ∷ []) ≡ suc (length xs)
length-snoc [] x = refl
length-snoc (y ∷ ys) x = ap suc (length-snoc ys x)

-- The next registration of fewer than 2 ^ 32 - 1 processors returns their number, appends a node with
-- it, and leaves a registry.
pub register_local_kernel_data_cpu-IsRegistry :
    (k : KernelData) (fresh : LocalKernelData)
    → IsRegistry k
    → length k.local_data_list + 1 < 2 ^ 32
    → (k' : KernelData) × (register_local_kernel_data_cpu k fresh
        ≡ ok (length k.local_data_list, k'))
      × (k'.local_data_list
          ≡ k.local_data_list
            ++ record { cpu_id = length k.local_data_list; local_data = fresh } ∷ [])
      × IsRegistry k'
unfolding register_local_kernel_data_cpu
register_local_kernel_data_cpu-IsRegistry k fresh r small =
    let count = length k.local_data_list in
    let nodes = k.local_data_list ++ record { cpu_id = count; local_data = fresh } ∷ [] in
    (
      record { local_data_list = nodes; cpuid_to_allocate = (count + 1) % 2 ^ 32 },
      rw (r.next, append_node-append k.local_data_list fresh) refl,
      refl,
      record {
        counts = CountsFrom-append 0 count k.local_data_list fresh r.counts (omega arith);
        next =
            (let one_more =
                length-snoc k.local_data_list (record { cpu_id = count; local_data = fresh }) in
              rw one_more (omega (arith, small)));
      },
    )

abbrev FoundAfter : List Node → (cpu_id : ℕ) → LocalKernelData → Outcome (List Node) → Type 0
FoundAfter ns c d (panic e) =
    (e ≡ failed_assert) × (find_node (λ n. n.cpu_id == c) ns ≡ panic failed_assert)
FoundAfter ns c d (ok ns') =
    (find_node (λ n. n.cpu_id == c) ns' ≡ ok (record { cpu_id = c; local_data = d }))
    × ((other : ℕ)
        → other ≢ c
        → find_node (λ n. n.cpu_id == other) ns' ≡ find_node (λ n. n.cpu_id == other) ns)

FoundAfter-next :
    (n : Node) (ns : List Node) (c : ℕ) (d : LocalKernelData) (o : Outcome (List Node))
    → n.cpu_id ≢ c
    → FoundAfter ns c d o
    → FoundAfter (n ∷ ns) c d (do rest ← o; ok (n ∷ rest))
unfolding find_node
FoundAfter-next n ns c d (panic e) ne h = rw (ne→==_false n.cpu_id c ne) h
FoundAfter-next n ns c d (ok rest) ne h = (
  rw (ne→==_false n.cpu_id c ne) h.0,
  λ other k. elim (Bool-cases (n.cpu_id == other)) [
    | inl same ↦ rw same refl
    | inr differs ↦ rw differs (h.1 other k)
  ],
)

found_here :
    (n : Node) (ns : List Node) (c : ℕ) (d : LocalKernelData)
    → (n.cpu_id == c) ≡ true
    → n.cpu_id ≡ c
    → find_node (λ n'. n'.cpu_id == c) (record n { local_data = d } ∷ ns)
      ≡ ok (record { cpu_id = c; local_data = d })
unfolding find_node
found_here n ns c d same e =
    let named : (i : ℕ) → Outcome Node = λ i. ok (record { cpu_id = i; local_data = d }) in
    rw same (ap named e)

other_here :
    (n : Node) (ns : List Node) (other : ℕ) (d : LocalKernelData)
    → (n.cpu_id == other) ≡ false
    → find_node (λ n'. n'.cpu_id == other) (record n { local_data = d } ∷ ns)
      ≡ find_node (λ n'. n'.cpu_id == other) (n ∷ ns)
unfolding find_node
other_here n ns other d differs = rw differs refl

set_in-FoundAfter :
    (ns : List Node) (c : ℕ) (d : LocalKernelData) → FoundAfter ns c d (set_in ns c d)
unfolding set_in find_node
set_in-FoundAfter [] c d = (refl, refl)
set_in-FoundAfter (n ∷ ns) c d = elim (Bool-cases (n.cpu_id == c)) [
  | inr differs ↦
      let ne : n.cpu_id ≢ c = ground arith in
      rw (differs, FoundAfter)
        (FoundAfter-next n ns c d (set_in ns c d) ne (set_in-FoundAfter ns c d))
  | inl same ↦
      let e : n.cpu_id ≡ c = ground arith in
      rw (same, FoundAfter)
        (
          found_here n ns c d same e,
          λ other k.
              let differs : (n.cpu_id == other) ≡ false = ground arith in
              other_here n ns other d differs,
        )
]

-- What a look-up gives after the data of a processor has been set.
abbrev pub SetsData : KernelData → (cpu_id : ℕ) → LocalKernelData → Outcome KernelData → Type 0
SetsData k c d (panic e) = (e ≡ failed_assert) × (get_local_kernel_data k c ≡ panic failed_assert)
SetsData k c d (ok k') =
    (get_local_kernel_data k' c ≡ ok d)
    × ((other : ℕ) → other ≢ c → get_local_kernel_data k' other ≡ get_local_kernel_data k other)

SetsData-set :
    (k : KernelData) (c : ℕ) (d : LocalKernelData) (o : Outcome (List Node))
    → FoundAfter k.local_data_list c d o
    → SetsData k c d (do nodes ← o; ok (record k { local_data_list = nodes }))
unfolding get_local_kernel_data
SetsData-set k c d (panic e) h = (h.0, rw h.1 refl)
SetsData-set k c d (ok nodes) h = (rw h.0 refl, λ other ne. let same = h.1 other ne in rw same refl)

-- After the data of a processor has been set, a look-up of its identifier gives the data, and that of
-- any other identifier what it gave before, a panic included. The call panics only where a look-up
-- of the identifier panics.
set_local_kernel_data-SetsData :
    (k : KernelData) (c : ℕ) (d : LocalKernelData) → SetsData k c d (set_local_kernel_data k c d)
unfolding set_local_kernel_data get_local_kernel_data
set_local_kernel_data-SetsData k c d =
    SetsData-set k c d (set_in k.local_data_list c d) (set_in-FoundAfter k.local_data_list c d)
