-- ===== src/LinkedList/Tests.antt =====
-- Runs of the list.
use garbage_os.Base.{◌≡◌, refl, [], ◌∷◌, arith, ok}
use garbage_os.LinkedList.{LinkedList, linked_list_insert_at, linked_list_remove_at}
use garbage_os.LinkedList.Positions.{IsSized, insert_nth, insert_at-remove_at}

abbrev two_nodes : LinkedList
two_nodes = record { nodes = 10 ∷ 20 ∷ []; size = 2 }

insert_at-remove_at_example :
    (ll : LinkedList) × (linked_list_insert_at two_nodes 1 15 ≡ ok ll)
    × (ll.nodes ≡ insert_nth 1 15 two_nodes.nodes)
    × IsSized ll
    × (linked_list_remove_at ll 1 ≡ ok two_nodes)
insert_at-remove_at_example = insert_at-remove_at two_nodes 1 15 refl (omega arith) (omega arith)
