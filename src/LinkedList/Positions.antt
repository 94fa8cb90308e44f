-- ===== src/LinkedList/Positions.antt =====
-- Insertion and removal by position.
use garbage_os.Base.{
  ℕ, zero, suc, ◌+◌, ◌-◌, ◌^◌, ◌≤◌, ◌<◌, ◌≡◌, refl, sym, ap, ◌∙◌, true, some, List, [], ◌∷◌, length,
  arith, ◌!=◌, ltb, Bool-cases, inl, inr, add64, sub64, ok, panic, failed_assert,
}
use garbage_os.LinkedList.{
  LinkedList, head_of, next_of, has_nodes, steps, insert_behind, remove_behind,
  linked_list_insert_at, linked_list_insert_after, linked_list_push_front, linked_list_remove_at,
  linked_list_remove_after, linked_list_pop_front, linked_list_get_at,
}

-- The size is the number of nodes.
abbrev pub IsSized : LinkedList → Type 0
IsSized ll = ll.size ≡ length ll.nodes

-- The list with `x` in front of position `i`.
abbrev pub insert_nth : (i x : ℕ) → List ℕ → List ℕ
insert_nth zero x ys = x ∷ ys
insert_nth (suc i) x [] = []
insert_nth (suc i) x (y ∷ ys) = y ∷ insert_nth i x ys

insert_behind-insert_nth :
    (p x : ℕ) (ys : List ℕ) → p < length ys → insert_behind p x ys ≡ insert_nth (suc p) x ys
unfolding insert_behind
insert_behind-insert_nth p x [] h = absurd (omega (arith, h))
insert_behind-insert_nth zero x (y ∷ ys) h = refl
insert_behind-insert_nth (suc p) x (y ∷ ys) h =
    ap (λ zs. y ∷ zs) (insert_behind-insert_nth p x ys (omega (arith, h)))

remove_behind-insert_behind : (p x : ℕ) (ys : List ℕ) → remove_behind p (insert_behind p x ys) ≡ ys
unfolding insert_behind remove_behind
remove_behind-insert_behind p x [] = refl
remove_behind-insert_behind zero x (y ∷ ys) = refl
remove_behind-insert_behind (suc p) x (y ∷ ys) =
    ap (λ zs. y ∷ zs) (remove_behind-insert_behind p x ys)

length-insert_behind :
    (p x : ℕ) (ys : List ℕ) → p < length ys → length (insert_behind p x ys) ≡ suc (length ys)
unfolding insert_behind
length-insert_behind p x [] h = absurd (omega (arith, h))
length-insert_behind zero x (y ∷ ys) h = refl
length-insert_behind (suc p) x (y ∷ ys) h = ap suc (length-insert_behind p x ys (omega (arith, h)))

-- The walk reaches every position in the list.
steps-some :
    (n : ℕ) (nodes : List ℕ) (p : ℕ)
    → p + n < length nodes
    → steps n nodes (some p) ≡ ok (some (p + n))
unfolding steps next_of
steps-some zero nodes p h = let e : p + 0 ≡ p = omega arith in rw e refl
steps-some (suc n) nodes p h =
    let e : p + 1 + n ≡ p + suc n = omega arith in
    let inside : ltb (p + 1) (length nodes) ≡ true = ground (arith, h) in
    rw (inside, ← e) (steps-some n nodes (p + 1) (omega (arith, h)))

head_of-pos : (nodes : List ℕ) → 0 < length nodes → head_of nodes ≡ some 0
unfolding head_of
head_of-pos [] h = absurd (omega (arith, h))
head_of-pos (x ∷ xs) h = refl

has_nodes_pos : (ll : LinkedList) → 0 < length ll.nodes → 0 < ll.size → has_nodes ll ≡ true
has_nodes_pos ll h k = let e = head_of-pos ll.nodes h in rw e (ground arith)

-- Up to the end of a sized list, an insertion puts the element at its position and leaves a sized
-- list, and a removal at the position then gives the old list again.
pub insert_at-remove_at :
    (ll : LinkedList) (i x : ℕ)
    → IsSized ll
    → i ≤ length ll.nodes
    → length ll.nodes + 1 < 2 ^ 64
    → (ll' : LinkedList) × (linked_list_insert_at ll i x ≡ ok ll')
      × (ll'.nodes ≡ insert_nth i x ll.nodes)
      × IsSized ll'
      × (linked_list_remove_at ll' i ≡ ok ll)
unfolding linked_list_insert_at linked_list_remove_at linked_list_push_front linked_list_pop_front
    linked_list_insert_after linked_list_remove_after next_of head_of
insert_at-remove_at ll zero x sized inside small =
    let up : add64 ll.size 1 ≡ suc (length ll.nodes) = omega (arith, sized) in
    let down : sub64 (suc (length ll.nodes)) 1 ≡ ll.size = omega (arith, sized) in
    let nonzero : (suc (length ll.nodes) != 0) ≡ true = ground arith in
    (
      record { nodes = x ∷ ll.nodes; size = add64 ll.size 1 },
      refl,
      refl,
      up,
      rw (up, nonzero, down) refl,
    )
insert_at-remove_at ll (suc n) x sized inside small =
    let ll' : LinkedList = record { nodes = insert_behind n x ll.nodes; size = add64 ll.size 1 } in
    let up : add64 ll.size 1 ≡ suc (length ll.nodes) = omega (arith, sized) in
    let down : sub64 (add64 ll.size 1) 1 ≡ ll.size = omega (arith, sized) in
    let len = length-insert_behind n x ll.nodes (omega arith) in
    let first = head_of-pos ll.nodes (omega arith) in
    let first' = head_of-pos ll'.nodes (omega (arith, len)) in
    let there = steps-some n ll.nodes 0 (omega arith) in
    let there' = steps-some n ll'.nodes 0 (omega (arith, len)) in
    let some_nodes = has_nodes_pos ll (omega arith) (omega (arith, sized)) in
    let some_nodes' = has_nodes_pos ll' (omega (arith, len)) (omega (arith, up)) in
    let is_inner : ltb (n + 1) (length (insert_behind n x ll.nodes)) ≡ true = ground (arith, len) in
    let zero_plus : 0 + n ≡ n = omega arith in
    (
      ll',
      rw (first, there, zero_plus, some_nodes) refl,
      insert_behind-insert_nth n x ll.nodes (omega arith),
      up ∙ sym len,
      rw
          (
            some_nodes',
            first',
            there',
            zero_plus,
            some_nodes',
            is_inner,
            remove_behind-insert_behind n x ll.nodes,
            down,
          )
          refl,
    )

-- A walk to more than one node behind the last one panics.
steps-panic :
    (n : ℕ) (nodes : List ℕ) (p : ℕ)
    → p < length nodes
    → length nodes < p + n
    → steps n nodes (some p) ≡ panic failed_assert
unfolding steps next_of
steps-panic zero nodes p h k = absurd (omega (arith, h, k))
steps-panic (suc zero) nodes p h k = absurd (omega (arith, h, k))
steps-panic (suc (suc n)) nodes p h k = elim (Bool-cases (ltb (p + 1) (length nodes))) [
  | inl inside ↦
      let less : p + 1 < length nodes = ground (arith, inside) in
      rw (inside, steps) (steps-panic (suc n) nodes (p + 1) less (omega (arith, k)))
  | inr outside ↦ rw (outside, steps) refl
]

-- In a list that is not empty, the position that `linked_list_get_at` returns for an index from 1 up to
-- the length is one less than the index, and the index 0, which wraps round, panics.
linked_list_get_at-positions :
    (ll : LinkedList)
    → 0 < length ll.nodes
    → length ll.nodes < 2 ^ 64 - 1
    → ((i : ℕ) → i < length ll.nodes → linked_list_get_at ll (i + 1) ≡ ok (some i))
      × (linked_list_get_at ll 0 ≡ panic failed_assert)
unfolding linked_list_get_at
linked_list_get_at-positions ll pos small =
    let first = head_of-pos ll.nodes pos in
    (
      λ i h.
          let rounds : sub64 (i + 1) 1 ≡ i = omega (arith, h, small) in
          let zero_plus : 0 + i ≡ i = omega arith in
          rw (first, rounds, steps-some i ll.nodes 0 (omega (arith, h)), zero_plus) refl,
      rw first (steps-panic (sub64 0 1) ll.nodes 0 pos (omega (arith, small))),
    )
