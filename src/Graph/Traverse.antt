-- ===== src/Graph/Traverse.antt =====
-- The walk of `traverse` ends, and lists its start first.
use amind.Prelude.{
  ℕ, zero, suc, ◌+◌, ◌<◌, ◌≡◌, refl, ap, ◌∙◌, Option, none, some, List, [], ◌∷◌, arith, map, length,
  leb, ◌==◌, Bool-cases, inl, inr, if◌then◌else◌,
}
use mathlib.Core.List.{map-append}
use amind.Prelude.Map
use amind.Traversal.{
  enqueue, unvisited, AllIn, enqueue-measure, AllIn-left, AllIn-right, AllIn-self, unvisited-le,
}
use amind.Graph.{
  GraphEdge, Adjacency, GraphStore, edges_of, all_edges, edge_count, traverse_loop, traverse,
}

abbrev targets : List GraphEdge → List ℕ
targets = map (λ (e : GraphEdge). e.to_id)

abbrev all_targets : Adjacency → List ℕ
all_targets g = targets (all_edges g.adjacency)

find_or-cons :
    (j id : ℕ) (fs : List GraphEdge) (m : List (ℕ × List GraphEdge))
    → Map.find_or [] id ((j, fs) ∷ m) ≡ (if j == id then fs else Map.find_or [] id m)
unfolding Map.find
find_or-cons j id fs m = ground arith

AllIn-targets :
    (adjacency : List (ℕ × List GraphEdge)) (id : ℕ)
    → AllIn (targets (Map.find_or [] id adjacency)) (targets (all_edges adjacency))
unfolding Map.find
AllIn-targets [] id = tt
AllIn-targets ((j, fs) ∷ adjacency) id = elim (Bool-cases (j == id)) [
  | inl here ↦
      rw (find_or-cons j id fs adjacency, here, map-append)
        (AllIn-left (targets fs) (targets fs) (targets (all_edges adjacency))
          (AllIn-self (targets fs)))
  | inr there ↦
      rw (find_or-cons j id fs adjacency, there, map-append)
        (AllIn-right _ (targets fs) _ (AllIn-targets adjacency id))
]

walk-total :
    (fuel max_depth : ℕ) (g : Adjacency) (visited : List ℕ) (queue : List (ℕ × ℕ))
    → unvisited (all_targets g) visited + length queue < fuel
    → (ids : List ℕ) × (traverse_loop fuel max_depth g visited queue ≡ some ids)
unfolding traverse_loop
walk-total zero max_depth g visited queue h = absurd (omega arith)
walk-total (suc fuel) max_depth g visited [] h = ([], refl)
walk-total (suc fuel) max_depth g visited ((current, depth) ∷ queue) h =
    elim (Bool-cases (leb max_depth depth)) [
      | inl deep ↦
          let (ids, e) = walk-total fuel max_depth g visited queue (omega arith) in
          (current ∷ ids, ground (arith, e))
      | inr deeper ↦
          let next = enqueue (depth + 1) (targets (edges_of g current)) visited queue in
          let (ids, e) = walk-total fuel max_depth g next.0 next.1 (
            omega (
              arith,
              enqueue-measure (depth + 1) (all_targets g) (targets (edges_of g current)) visited
                  queue (AllIn-targets g.adjacency current),
            )) in
          (current ∷ ids, ground (arith, e))
    ]

length-targets : (fs : List GraphEdge) → length (targets fs) ≡ length fs
length-targets [] = refl
length-targets (f ∷ fs) = ap suc (length-targets fs)

first :
    (start : ℕ) (o : Option (List ℕ)) (ids : List ℕ)
    → ◌≡◌ {A = Option (List ℕ)} (elim o [ none ↦ none | some r ↦ some (start ∷ r) ]) (some ids)
    → (r : List ℕ) × (ids ≡ start ∷ r)
first start none ids e = absurd (cc)
first start (some r) ids e = (r, ground arith)

-- A traversal always ends, whatever cycles the graph has, and lists its start first.
pub traverse-total :
    (g : GraphStore) (start_id max_depth : ℕ)
    → (ids : List ℕ) × (traverse g start_id max_depth ≡ some (start_id ∷ ids))
unfolding traverse traverse_loop edge_count
traverse-total g start_id max_depth =
    let (ids, e) =
      walk-total (suc (suc (length (all_edges g.adjacency)))) max_depth g.edges (start_id ∷ [])
        ((start_id, 0) ∷ [])
        (omega (
          arith,
          unvisited-le (all_targets g.edges) (start_id ∷ []),
          length-targets (all_edges g.adjacency),
        )) in
    let (r, p) = first start_id _ ids e in (r, e ∙ ap some p)
