-- ===== src/LinkedList.antt =====
-- kernel/util/linked_list.c: a list of data pointers with its size. The nodes are a list of their data,
-- and a pointer to a node is its position, or none for the null pointer.
pub mod Positions
mod Tests
use garbage_os.Base.{
  ℕ, zero, suc, ◌+◌, ◌-◌, Bool, true, false, not, ◌&&◌, Option, none, some, List, [], ◌∷◌, length,
  ◌==◌, ◌!=◌, ltb, if◌then◌else◌, add64, sub64, Outcome, ok, panic, failed_assert, ◌>>=◌, ◌>>◌,
  kassert,
}

-- `struct LinkedList`
pub record LinkedList : Type 0 where
  pub nodes : List ℕ
  pub size : ℕ

abbrev pub create_linked_list : LinkedList
create_linked_list = record { nodes = []; size = 0 }

-- `linked_list_destroy`
abbrev pub destroy : LinkedList → LinkedList
destroy ll = record { nodes = []; size = 0 }

-- `ll->head`, and the `next` of a node
unfoldable pub head_of : List ℕ → Option ℕ
head_of [] = none
head_of (x ∷ xs) = some 0

unfoldable pub next_of : List ℕ → ℕ → Option ℕ
next_of nodes p = if ltb (p + 1) (length nodes) then some (p + 1) else none

abbrev pub is_null : Option ℕ → Bool
is_null none = true
is_null (some p) = false

abbrev pub has_nodes : LinkedList → Bool
has_nodes ll = not (is_null (head_of ll.nodes)) && (ll.size != 0)

-- The loops that go on from a node for `n` rounds.
unfoldable pub steps : (n : ℕ) → List ℕ → Option ℕ → Outcome (Option ℕ)
steps zero nodes p = ok p
steps (suc n) nodes none = panic failed_assert
steps (suc n) nodes (some p) = steps n nodes (next_of nodes p)

-- The nodes with a new one behind the one at `p`, and without the one behind it.
unfoldable pub insert_behind : (p x : ℕ) → List ℕ → List ℕ
insert_behind p x [] = []
insert_behind zero x (y ∷ ys) = y ∷ x ∷ ys
insert_behind (suc p) x (y ∷ ys) = y ∷ insert_behind p x ys

abbrev pub drop_first : List ℕ → List ℕ
drop_first [] = []
drop_first (x ∷ xs) = xs

unfoldable pub remove_behind : (p : ℕ) → List ℕ → List ℕ
remove_behind p [] = []
remove_behind zero (y ∷ ys) = y ∷ drop_first ys
remove_behind (suc p) (y ∷ ys) = y ∷ remove_behind p ys

unfoldable pub linked_list_remove_after : LinkedList → Option ℕ → Outcome LinkedList
linked_list_remove_after ll none = panic failed_assert
linked_list_remove_after ll (some p) = do
  kassert (has_nodes ll)
  kassert (not (is_null (next_of ll.nodes p)))
  ok (record { nodes = remove_behind p ll.nodes; size = sub64 ll.size 1 })

unfoldable pub linked_list_pop_front : LinkedList → Outcome LinkedList
linked_list_pop_front ll = do
  kassert (has_nodes ll)
  ok (record { nodes = drop_first ll.nodes; size = sub64 ll.size 1 })

unfoldable pub linked_list_push_front : LinkedList → ℕ → LinkedList
linked_list_push_front ll x = record { nodes = x ∷ ll.nodes; size = add64 ll.size 1 }

unfoldable pub linked_list_insert_after : LinkedList → Option ℕ → ℕ → Outcome LinkedList
linked_list_insert_after ll none x = panic failed_assert
linked_list_insert_after ll (some p) x = do
  kassert (has_nodes ll)
  ok (record { nodes = insert_behind p x ll.nodes; size = add64 ll.size 1 })

unfoldable pub linked_list_remove_at : LinkedList → (index : ℕ) → Outcome LinkedList
linked_list_remove_at ll zero = do kassert (has_nodes ll); linked_list_pop_front ll
linked_list_remove_at ll (suc n) = do
  kassert (has_nodes ll)
  prev ← steps n ll.nodes (head_of ll.nodes)
  linked_list_remove_after ll prev

unfoldable pub linked_list_insert_at : LinkedList → (index x : ℕ) → Outcome LinkedList
linked_list_insert_at ll zero x = ok (linked_list_push_front ll x)
linked_list_insert_at ll (suc n) x = do
  prev ← steps n ll.nodes (head_of ll.nodes)
  linked_list_insert_after ll prev x

-- `index - 1` rounds, for a 64-bit index
unfoldable pub linked_list_get_at : LinkedList → (index : ℕ) → Outcome (Option ℕ)
linked_list_get_at ll index = steps (sub64 index 1) ll.nodes (head_of ll.nodes)
