-- ===== src/Graph.antt =====
-- src/graph/graph_store.{h,cpp}: the graph of memories as adjacency lists with a reverse index.
-- The write-ahead log is the list of its entries, oldest first (`none`: no data directory), and the
-- snapshot the list of its edges; the files are src/graph/graph_wal.cpp's and are not modelled.
-- Weights are the bit patterns of floats; `now` is the reading of the clock.
pub mod Reads
pub mod Incoming
pub mod Indexed
pub mod Recovery
pub mod Traverse
pub mod Reach
mod Tests
use amind.Prelude.{
  ℕ, zero, suc, ◌+◌, ◌-◌, ◌*◌, Bool, true, false, not, ◌&&◌, ◌||◌, Option, none, some, List, [],
  ◌∷◌, ◌++◌, map, length, keep, leb, ◌==◌, if◌then◌else◌,
}
use amind.Prelude.Map
use amind.Prelude.Ids
use amind.Traversal.{enqueue}

pub data EdgeType : Type 0 where
  related caused contradicts supersedes derived_from same_session : EdgeType
  corrects prerequisite temporal entity conflicts_with : EdgeType

-- The number of an edge type in `enum class EdgeType`; the tests for equality compare it.
unfoldable pub to_u8 : EdgeType → ℕ
to_u8 related = 0
to_u8 caused = 1
to_u8 contradicts = 2
to_u8 supersedes = 3
to_u8 derived_from = 4
to_u8 same_session = 5
to_u8 corrects = 6
to_u8 prerequisite = 7
to_u8 temporal = 8
to_u8 entity = 9
to_u8 conflicts_with = 10

pub record GraphEdge : Type 0 where
  pub from_id : ℕ
  pub to_id : ℕ
  pub type : EdgeType
  pub weight : ℕ
  pub created_at : ℕ

pub data WalEntry : Type 0 where
  adds : GraphEdge → WalEntry
  removes : ℕ → WalEntry

pub record Adjacency : Type 0 where
  pub adjacency : List (ℕ × List GraphEdge)
  pub reverse_adj : List (ℕ × List ℕ)

pub record GraphStore : Type 0 where
  pub edges : Adjacency
  pub open edges use *
  pub wal : Option (List WalEntry)

abbrev pub no_edges : Adjacency
no_edges = record { adjacency = []; reverse_adj = [] }

abbrev pub edges_of : Adjacency → ℕ → List GraphEdge
edges_of g id = Map.find_or [] id g.adjacency

abbrev pub sources_of : Adjacency → ℕ → List ℕ
sources_of g id = Map.find_or [] id g.reverse_adj

abbrev pub is_same_edge : GraphEdge → GraphEdge → Bool
is_same_edge e f = f.to_id == e.to_id && to_u8 f.type == to_u8 e.type

-- The search for a duplicate: it is given the new weight and time; `none` if there is none.
unfoldable pub update_edge : GraphEdge → List GraphEdge → Option (List GraphEdge)
update_edge e [] = none
update_edge e (f ∷ fs) =
    if is_same_edge e f
    then some (record f { weight = e.weight; created_at = e.created_at } ∷ fs)
    else (elim (update_edge e fs) [ none ↦ none | some fs' ↦ some (f ∷ fs') ])

-- One direction of `addEdgeInternal`.
unfoldable pub add_directed : GraphEdge → Adjacency → Adjacency
unfolding update_edge
add_directed e g = elim (update_edge e (edges_of g e.from_id)) [
  | some fs ↦ record g { adjacency = Map.assign e.from_id fs g.adjacency }
  | none ↦ record {
    adjacency = Map.assign e.from_id (edges_of g e.from_id ++ e ∷ []) g.adjacency;
    reverse_adj = Map.assign e.to_id (sources_of g e.to_id ++ e.from_id ∷ []) g.reverse_adj;
  }
]

unfoldable pub is_undirected : EdgeType → Bool
is_undirected related = true
is_undirected same_session = true
is_undirected temporal = true
is_undirected entity = true
is_undirected _ = false

abbrev pub flip : GraphEdge → GraphEdge
flip e = record e { from_id = e.to_id; to_id = e.from_id }

unfoldable pub add_edge_internal : GraphEdge → Adjacency → Adjacency
add_edge_internal e g =
    if is_undirected e.type then add_directed (flip e) (add_directed e g) else add_directed e g

-- `for (src : sources) adjacency_[src].remove_if(to_id == id)`, where `src` is there.
unfoldable pub cut_edges : (id : ℕ) → List ℕ → List (ℕ × List GraphEdge) → List (ℕ × List GraphEdge)
cut_edges id [] adjacency = adjacency
cut_edges id (src ∷ sources) adjacency = cut_edges id sources (elim (Map.find src adjacency) [
  | none ↦ adjacency
  | some fs ↦ Map.assign src (keep (λ f. not (f.to_id == id)) fs) adjacency
])

-- The body of `removeNode` after the log, and of the replay of its entry.
unfoldable pub drop_node : ℕ → Adjacency → Adjacency
unfolding cut_edges
drop_node id g = record {
  adjacency = cut_edges id (sources_of g id) (Map.erase id g.adjacency);
  reverse_adj = Map.map_values (Ids.erase id) (Map.erase id g.reverse_adj);
}

abbrev pub append_wal : WalEntry → Option (List WalEntry) → Option (List WalEntry)
append_wal e none = none
append_wal e (some log) = some (log ++ e ∷ [])

unfoldable pub add_edge :
    (now : ℕ) → GraphStore → (from to : ℕ) → EdgeType → (weight : ℕ) → GraphStore
add_edge now g from to type weight =
    let e = new_edge in
    record { edges = add_edge_internal e g.edges; wal = append_wal (adds e) g.wal }
  where
    new_edge : GraphEdge
    new_edge = record { from_id = from; to_id = to; type = type; weight = weight; created_at = now }

unfoldable pub remove_node : GraphStore → ℕ → GraphStore
remove_node g id = record { edges = drop_node id g.edges; wal = append_wal (removes id) g.wal }

unfoldable pub get_edges : GraphStore → ℕ → List GraphEdge
get_edges g id = edges_of g.edges id

abbrev passes : Option EdgeType → GraphEdge → Bool
passes none e = true
passes (some t) e = to_u8 e.type == to_u8 t

unfoldable pub get_neighbors : GraphStore → ℕ → Option EdgeType → List ℕ
get_neighbors g id type_filter =
    map (λ (e : GraphEdge). e.to_id) (keep (passes type_filter) (edges_of g.edges id))

abbrev pub all_edges : List (ℕ × List GraphEdge) → List GraphEdge
all_edges [] = []
all_edges ((id, fs) ∷ m) = fs ++ all_edges m

unfoldable pub get_all_edges : GraphStore → List GraphEdge
get_all_edges g = all_edges g.adjacency

unfoldable pub get_conflicts : GraphStore → List GraphEdge
get_conflicts g = keep (λ e. to_u8 e.type == 2 || to_u8 e.type == 10) (all_edges g.adjacency)

unfoldable pub get_supersedes : GraphStore → List GraphEdge
get_supersedes g = keep (λ e. to_u8 e.type == 3) (all_edges g.adjacency)

unfoldable pub incoming : (id : ℕ) → List ℕ → Adjacency → List GraphEdge
incoming id [] g = []
incoming id (src ∷ sources) g = keep (λ e. e.to_id == id) (edges_of g src) ++ incoming id sources g

unfoldable pub get_incoming_edges : GraphStore → ℕ → List GraphEdge
unfolding incoming
get_incoming_edges g id = incoming id (sources_of g.edges id) g.edges

unfoldable pub edge_count : GraphStore → ℕ
edge_count g = length (all_edges g.adjacency)

unfoldable pub node_count : GraphStore → ℕ
node_count g = length g.adjacency

-- The edges that a node's list holds under its own id.
unfoldable pub forward_edges : List (ℕ × List GraphEdge) → List GraphEdge
forward_edges [] = []
forward_edges ((id, fs) ∷ m) = keep (λ f. f.from_id == id) fs ++ forward_edges m

-- `checkpoint`: the snapshot and the store with its log truncated; nothing without a log.
unfoldable pub checkpoint : GraphStore → Option (List GraphEdge × GraphStore)
unfolding forward_edges
checkpoint g = elim g.wal [
  | none ↦ none
  | some log ↦ some (forward_edges g.adjacency, record g { wal = some [] })
]

unfoldable pub load_edges : List GraphEdge → Adjacency → Adjacency
load_edges [] g = g
load_edges (e ∷ es) g = load_edges es (add_edge_internal e g)

unfoldable pub replay_entry : WalEntry → Adjacency → Adjacency
replay_entry (adds e) g = add_edge_internal e g
replay_entry (removes id) g = drop_node id g

unfoldable pub replay : List WalEntry → Adjacency → Adjacency
replay [] g = g
replay (e ∷ log) g = replay log (replay_entry e g)

-- `recover`, from the snapshot and the log.
unfoldable pub recover : List GraphEdge → List WalEntry → GraphStore
unfolding load_edges replay
recover snapshot log = record { edges = replay log (load_edges snapshot no_edges); wal = some log }

-- The walk of `traverse`, on fuel: the ids in the order in which they leave the queue.
unfoldable pub traverse_loop :
    (fuel max_depth : ℕ) → Adjacency → (visited : List ℕ) (queue : List (ℕ × ℕ)) → Option (List ℕ)
traverse_loop zero max_depth g visited queue = none
traverse_loop (suc fuel) max_depth g visited [] = some []
traverse_loop (suc fuel) max_depth g visited ((current, depth) ∷ queue) =
    let rest : Option (List ℕ) = elim (leb max_depth depth) [
      | true ↦ traverse_loop fuel max_depth g visited queue
      | false ↦
          let next =
            enqueue (depth + 1) (map (λ (e : GraphEdge). e.to_id) (edges_of g current)) visited
              queue in
          traverse_loop fuel max_depth g next.0 next.1
    ] in
    elim rest [ none ↦ none | some ids ↦ some (current ∷ ids) ]

unfoldable pub traverse : GraphStore → (start_id max_depth : ℕ) → Option (List ℕ)
unfolding traverse_loop
traverse g start_id max_depth =
    traverse_loop (suc (suc (edge_count g))) max_depth g.edges (start_id ∷ []) ((start_id, 0) ∷ [])
