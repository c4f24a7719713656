-- ===== src/Graph/Recovery.antt =====
-- A restart gives back the graph that the snapshot and the log describe.
use mathlib.Core.List.{append-nil, append_assoc}
use amind.Prelude.{ℕ, ◌≡◌, refl, ap, ◌∙◌, List, [], ◌∷◌, ◌++◌}
use amind.Graph.{
  EdgeType, GraphEdge, Adjacency, GraphStore, WalEntry, adds, removes, add_edge, remove_node,
  replay_entry, replay, recover,
}

pub data Operation : Type 0 where
  add_op : (now from to : ℕ) → EdgeType → (weight : ℕ) → Operation
  remove_op : ℕ → Operation

unfoldable pub perform : Operation → GraphStore → GraphStore
perform (add_op now from to type weight) g = add_edge now g from to type weight
perform (remove_op id) g = remove_node g id

unfoldable pub perform_all : List Operation → GraphStore → GraphStore
unfolding perform
perform_all [] g = g
perform_all (o ∷ os) g = perform_all os (perform o g)

abbrev entry : Operation → WalEntry
entry (add_op now from to type weight) =
    adds (record { from_id = from; to_id = to; type = type; weight = weight; created_at = now })
entry (remove_op id) = removes id

replay-snoc :
    (log : List WalEntry) (e : WalEntry) (g : Adjacency)
    → replay (log ++ e ∷ []) g ≡ replay_entry e (replay log g)
unfolding replay
replay-snoc [] e g = refl
replay-snoc (d ∷ log) e g = replay-snoc log e (replay_entry d g)

perform-recover :
    (snapshot : List GraphEdge) (log : List WalEntry) (o : Operation)
    → perform o (recover snapshot log) ≡ recover snapshot (log ++ entry o ∷ [])
unfolding perform recover add_edge remove_node replay_entry
perform-recover snapshot log (add_op now from to type weight) =
    rw (replay-snoc log (entry (add_op now from to type weight)))
perform-recover snapshot log (remove_op id) = rw (replay-snoc log (removes id))

pub log_of : List Operation → List WalEntry
log_of [] = []
log_of (o ∷ os) = entry o ∷ log_of os

-- After any operations on a recovered store, a recovery from the same snapshot and from the log with
-- one entry more for each operation, in order, gives the very same store.
pub perform_all-recover :
    (snapshot : List GraphEdge) (log : List WalEntry) (os : List Operation)
    → perform_all os (recover snapshot log) ≡ recover snapshot (log ++ log_of os)
unfolding perform_all log_of
perform_all-recover snapshot log [] = rw append-nil
perform_all-recover snapshot log (o ∷ os) = rw (perform-recover snapshot log o) (
    perform_all-recover snapshot (log ++ entry o ∷ []) os
    ∙ ap (recover snapshot) (append_assoc log (entry o ∷ []) (log_of os)))
