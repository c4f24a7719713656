-- ===== src/Graph/Reads.antt =====
-- Reading edges back, and the reverse index.
use amind.Prelude.{
  ℕ, ◌≡◌, Bool, ◌&&◌, ◌||◌, Option, none, some, List, [], ◌∷◌, ◌++◌, arith, ◌==◌, if◌then◌else◌,
  Option-cases, Bool-cases, inl, inr,
}
use amind.Prelude.Map.{find-assign}
use amind.Graph.{
  EdgeType, to_u8, GraphEdge, Adjacency, GraphStore, edges_of, update_edge, add_directed,
  is_undirected, flip, add_edge_internal, add_edge,
}

-- Weight and time of the first edge to `to` with a type.
abbrev lookup_edge : (to type : ℕ) → List GraphEdge → Option (ℕ × ℕ)
lookup_edge to type [] = none
lookup_edge to type (f ∷ fs) =
    if f.to_id == to && to_u8 f.type == type
    then some (f.weight, f.created_at)
    else lookup_edge to type fs

abbrev upsert : GraphEdge → List GraphEdge → List GraphEdge
upsert e fs = elim (update_edge e fs) [ some fs' ↦ fs' | none ↦ fs ++ e ∷ [] ]

lookup_edge-append :
    (e : GraphEdge) (to type : ℕ) (fs : List GraphEdge)
    → update_edge e fs ≡ none
    → lookup_edge to type (fs ++ e ∷ []) ≡ (
        if e.to_id == to && to_u8 e.type == type
        then some (e.weight, e.created_at)
        else lookup_edge to type fs)
unfolding update_edge
lookup_edge-append e to type [] h = ground arith
lookup_edge-append e to type (f ∷ fs) h = ground (arith, lookup_edge-append e to type fs)

lookup_edge-update :
    (e : GraphEdge) (to type : ℕ) (fs fs' : List GraphEdge)
    → update_edge e fs ≡ some fs'
    → lookup_edge to type fs' ≡ (
        if e.to_id == to && to_u8 e.type == type
        then some (e.weight, e.created_at)
        else lookup_edge to type fs)
unfolding update_edge
lookup_edge-update e to type [] fs' h = absurd (cc)
lookup_edge-update e to type (f ∷ fs) [] h = ground arith
lookup_edge-update e to type (f ∷ fs) (f' ∷ fs') h =
    ground (arith, lookup_edge-update e to type fs fs')

-- The edge to `to` in the list of `from`.
abbrev edge_at : Adjacency → (from to type : ℕ) → Option (ℕ × ℕ)
edge_at g from to type = lookup_edge to type (edges_of g from)

abbrev is_at : GraphEdge → (from to type : ℕ) → Bool
is_at e from to type = e.from_id == from && (e.to_id == to && to_u8 e.type == type)

edge_at-add_directed :
    (e : GraphEdge) (g : Adjacency) (from to type : ℕ)
    → edge_at (add_directed e g) from to type
      ≡ (if is_at e from to type then some (e.weight, e.created_at) else edge_at g from to type)
unfolding add_directed
edge_at-add_directed e g from to type = elim (Option-cases (update_edge e (edges_of g e.from_id))) [
  | inl new ↦
      rw (new, add_directed)
        (ground (
          arith,
          find-assign e.from_id from (edges_of g e.from_id ++ e ∷ []) g.adjacency,
          lookup_edge-append e to type (edges_of g e.from_id) new,
        ))
  | inr (fs, old) ↦
      rw (old, add_directed)
        (ground (
          arith,
          find-assign e.from_id from fs g.adjacency,
          lookup_edge-update e to type (edges_of g e.from_id) fs old,
        ))
]

-- After an edge is added, its weight and time are read at its ends and type, and at the swapped
-- ends if its type is undirected; every other edge is read as before.
edge_at-add_edge :
    (now : ℕ) (g : GraphStore) (a b : ℕ) (t : EdgeType) (w from to type : ℕ)
    → let e : GraphEdge = record {
      from_id = a;
      to_id = b;
      type = t;
      weight = w;
      created_at = now;
    } in
      edge_at (add_edge now g a b t w).edges from to type ≡ (
        if is_at e from to type || (is_undirected t && is_at (flip e) from to type)
        then some (w, now)
        else edge_at g.edges from to type)
unfolding add_edge add_edge_internal
edge_at-add_edge now g a b t w from to type = elim (Bool-cases (is_undirected t)) [
  | inl both ↦ rw (both, edge_at-add_directed, edge_at-add_directed) (ground arith)
  | inr one ↦ rw (one, edge_at-add_directed) (ground arith)
]
