-- ===== src/Graph/Indexed.antt =====
-- The reverse index names every source of an edge, so that a removed node leaves no edge behind.
use amind.Prelude.{
  ℕ, ◌≡◌, refl, Bool, true, false, not, ◌&&◌, ◌||◌, some, List, [], ◌∷◌, ◌++◌, arith, keep, ◌==◌,
  if◌then◌else◌, Option-cases, Bool-cases, inl, inr, ◌⊎◌,
}
use amind.Prelude.Map
use amind.Prelude.Map.{find-assign, find-erase, find-map_values}
use amind.Prelude.Ids
use amind.Prelude.Ids.{contains, contains-append, contains-erase}
use amind.Graph.{
  EdgeType, GraphEdge, Adjacency, GraphStore, edges_of, sources_of, update_edge, add_directed,
  is_undirected, flip, add_edge_internal, add_edge, cut_edges, drop_node, remove_node, get_edges,
}

-- Some edge of the list leads to `to`.
abbrev pub leads_to : ℕ → List GraphEdge → Bool
leads_to to [] = false
leads_to to (f ∷ fs) = f.to_id == to || leads_to to fs

leads_to-append :
    (to : ℕ) (fs : List GraphEdge) (e : GraphEdge)
    → leads_to to (fs ++ e ∷ []) ≡ (leads_to to fs || e.to_id == to)
leads_to-append to [] e = ground arith
leads_to-append to (f ∷ fs) e = ground (arith, leads_to-append to fs e)

leads_to-update :
    (to : ℕ) (e : GraphEdge) (fs fs' : List GraphEdge)
    → update_edge e fs ≡ some fs'
    → leads_to to fs' ≡ leads_to to fs
unfolding update_edge
leads_to-update to e [] fs' h = absurd (cc)
leads_to-update to e (f ∷ fs) [] h = ground arith
leads_to-update to e (f ∷ fs) (f' ∷ fs') h = ground (arith, leads_to-update to e fs fs')

leads_to-keep :
    (to id : ℕ) (fs : List GraphEdge)
    → leads_to to (keep (λ f. not (f.to_id == id)) fs)
      ≡ (if id == to then false else leads_to to fs)
leads_to-keep to id [] = ground arith
leads_to-keep to id (f ∷ fs) = ground (arith, leads_to-keep to id fs)

-- Every node with an edge to `to` stands among the sources of `to`.
abbrev pub IsIndexed : Adjacency → Type 0
IsIndexed g =
    (from to : ℕ) → leads_to to (edges_of g from) ≡ true → contains from (sources_of g to) ≡ true

add_directed-IsIndexed :
    (e : GraphEdge) (g : Adjacency) → IsIndexed g → IsIndexed (add_directed e g)
unfolding add_directed contains
add_directed-IsIndexed e g i from to = elim (Option-cases (update_edge e (edges_of g e.from_id))) [
  | inl new ↦
      rw (new, add_directed)
        (λ h. ground (
          arith,
          i from to,
          find-assign e.from_id from (edges_of g e.from_id ++ e ∷ []) g.adjacency,
          find-assign e.to_id to (sources_of g e.to_id ++ e.from_id ∷ []) g.reverse_adj,
          leads_to-append to (edges_of g e.from_id) e,
          contains-append from (sources_of g e.to_id) (e.from_id ∷ []),
        ))
  | inr (fs, old) ↦
      rw (old, add_directed)
        (λ h. ground (
          arith,
          i from to,
          find-assign e.from_id from fs g.adjacency,
          leads_to-update to e (edges_of g e.from_id) fs old,
        ))
]

abbrev edges_in : List (ℕ × List GraphEdge) → ℕ → List GraphEdge
edges_in adjacency id = Map.find_or [] id adjacency

leads_to-cut_edges :
    (id : ℕ) (sources : List ℕ) (adjacency : List (ℕ × List GraphEdge)) (from to : ℕ)
    → leads_to to (edges_in (cut_edges id sources adjacency) from)
      ≡ (if contains from sources && id == to then false else leads_to to (edges_in adjacency from))
unfolding cut_edges contains
leads_to-cut_edges id [] adjacency from to = refl
leads_to-cut_edges id (src ∷ sources) adjacency from to =
    elim (Option-cases (Map.find src adjacency)) [
      | inl missing ↦
          rw (missing, cut_edges) (ground (arith, leads_to-cut_edges id sources adjacency from to))
      | inr (fs, found) ↦
          rw (found, cut_edges)
            (ground (
              arith,
              leads_to-cut_edges id sources
                  (Map.assign src (keep (λ f. not (f.to_id == id)) fs) adjacency) from to,
              find-assign src from (keep (λ f. not (f.to_id == id)) fs) adjacency,
              leads_to-keep to id fs,
            ))
    ]

leads_to-drop_node :
    (id : ℕ) (g : Adjacency) (from to : ℕ)
    → IsIndexed g
    → leads_to to (edges_of (drop_node id g) from)
      ≡ (if id == from || id == to then false else leads_to to (edges_of g from))
unfolding drop_node
leads_to-drop_node id g from to i = ground (
  arith,
  leads_to-cut_edges id (sources_of g id) (Map.erase id g.adjacency) from to,
  find-erase id from g.adjacency,
  i from id,
  same to,
)
  where
    same : (to : ℕ) → id ≡ to → leads_to to (edges_of g from) ≡ leads_to id (edges_of g from)
    same to e = rw e

sources_of-drop_node :
    (id : ℕ) (g : Adjacency) (from to : ℕ)
    → contains from (sources_of (drop_node id g) to)
      ≡ (if id == from || id == to then false else contains from (sources_of g to))
unfolding drop_node contains
sources_of-drop_node id g from to = ground (
  arith,
  find-map_values (Ids.erase id) to (Map.erase id g.reverse_adj),
  find-erase id to g.reverse_adj,
  contains-erase id from (sources_of g to),
)

drop_node-IsIndexed : (id : ℕ) (g : Adjacency) → IsIndexed g → IsIndexed (drop_node id g)
drop_node-IsIndexed id g i from to h =
    ground (arith, i from to, leads_to-drop_node id g from to i, sources_of-drop_node id g from to)

-- If the reverse index names every source of an edge, it still does after an edge is added and after
-- a node is removed.
pub operations-IsIndexed :
    (now : ℕ) (g : GraphStore) (from to : ℕ) (type : EdgeType) (weight : ℕ)
    → IsIndexed g.edges
    → IsIndexed (add_edge now g from to type weight).edges × IsIndexed (remove_node g from).edges
unfolding add_edge remove_node add_edge_internal
operations-IsIndexed now g from to type weight i =
    (added (Bool-cases (is_undirected type)), drop_node-IsIndexed from g.edges i)
  where
    e : GraphEdge
    e = record { from_id = from; to_id = to; type = type; weight = weight; created_at = now }

    added :
        (is_undirected type ≡ true) ⊎ (is_undirected type ≡ false)
        → IsIndexed (add_edge_internal e g.edges)
    added (inl both) =
        rw both (add_directed-IsIndexed (flip e) _ (add_directed-IsIndexed e g.edges i))
    added (inr one) = rw one (add_directed-IsIndexed e g.edges i)

-- With a complete reverse index, after a node is removed no edge leaves it and none leads to it; between other nodes an edge leads
-- where one led before.
pub leads_to-remove_node :
    (g : GraphStore) (id from to : ℕ)
    → IsIndexed g.edges
    → leads_to to (get_edges (remove_node g id) from)
      ≡ (if id == from || id == to then false else leads_to to (get_edges g from))
unfolding remove_node get_edges
leads_to-remove_node g id from to i = leads_to-drop_node id g.edges from to i
