-- ===== src/Graph/Tests.antt =====
-- The theorems on the graph at concrete stores.
use amind.Prelude.{ℕ, ◌≡◌, false, some, List, [], ◌∷◌}
use amind.Prelude.Map
use amind.Graph.{EdgeType, GraphStore, add_edge, remove_node, get_edges, traverse, recover}
use amind.Graph.Indexed.{IsIndexed, leads_to, operations-IsIndexed, leads_to-remove_node}
use amind.Graph.Recovery.{Operation, perform_all, log_of, perform_all-recover}
use amind.Graph.Traverse.{traverse-total}
use amind.Graph.Incoming.{no_store}

abbrev linked : GraphStore
linked = add_edge 9 no_store 1 2 EdgeType.related 5

empty-IsIndexed : IsIndexed no_store.edges
unfolding Map.find
empty-IsIndexed from to h = absurd (cc)

operations-IsIndexed_example : IsIndexed linked.edges × IsIndexed (remove_node no_store 1).edges
operations-IsIndexed_example =
    operations-IsIndexed 9 no_store 1 2 EdgeType.related 5 empty-IsIndexed

leads_to-remove_node_example : leads_to 2 (get_edges (remove_node linked 2) 1) ≡ false
leads_to-remove_node_example = leads_to-remove_node linked 2 1 2 operations-IsIndexed_example.0

abbrev steps : List Operation
steps = Operation.add_op 9 1 2 EdgeType.related 5 ∷ Operation.remove_op 1 ∷ []

perform_all-recover_example : perform_all steps (recover [] []) ≡ recover [] (log_of steps)
perform_all-recover_example = perform_all-recover [] [] steps

traverse-total_example : (ids : List ℕ) × (traverse linked 1 2 ≡ some (1 ∷ ids))
traverse-total_example = traverse-total linked 1 2
