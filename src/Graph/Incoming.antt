-- ===== src/Graph/Incoming.antt =====
-- What `getIncomingEdges` lists when two nodes are joined by two edges.
use amind.Prelude.{ℕ, ◌≡◌, ◌≢◌, false, none, [], ◌∷◌, arith, ==_refl}
use amind.Prelude.Map
use amind.Graph.{
  EdgeType, to_u8, GraphEdge, Adjacency, GraphStore, no_edges, add_directed, is_undirected,
  add_edge_internal, add_edge, get_incoming_edges,
}

abbrev edge : (now a b : ℕ) → EdgeType → ℕ → GraphEdge
edge now a b t w = record { from_id = a; to_id = b; type = t; weight = w; created_at = now }

abbrev pub no_store : GraphStore
no_store = record { edges = no_edges; wal = none }

module _ (now a b w : ℕ) (t u : EdgeType) (apart : a ≢ b) (other : to_u8 t ≢ to_u8 u)
    (t-directed : is_undirected t ≡ false) (u-directed : is_undirected u ≡ false) where
  abbrev joined : Adjacency
  joined = record {
    adjacency = (a, edge now a b t w ∷ edge now a b u w ∷ []) ∷ [];
    reverse_adj = (b, a ∷ a ∷ []) ∷ [];
  }

  joined_lem : (add_edge now (add_edge now no_store a b t w) a b u w).edges ≡ joined
  unfolding add_edge add_edge_internal add_directed Map.find Map.assign
  joined_lem = rw (t-directed, u-directed) (ground (arith, ==_refl a, ==_refl b))

  -- Two directed edges of different types from `a` to `b` are two edges, but `getIncomingEdges` of
  -- `b` lists both of them twice.
  get_incoming_edges-twice :
      get_incoming_edges (add_edge now (add_edge now no_store a b t w) a b u w) b
      ≡ edge now a b t w ∷ edge now a b u w ∷ edge now a b t w ∷ edge now a b u w ∷ []
  unfolding get_incoming_edges Map.find
  get_incoming_edges-twice = rw joined_lem (ground (arith, ==_refl a, ==_refl b))
