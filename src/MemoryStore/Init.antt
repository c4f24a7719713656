-- ===== src/MemoryStore/Init.antt =====
-- `init` of src/memory/memory_store.cpp, once the engine and the vector index are open: the two walks
-- over the live keys.
use amind.Prelude.{ℕ, Option, none, some, List, [], ◌∷◌, if◌then◌else◌}
use amind.Prelude.Map.{find, assign}
use amind.Prelude.Ids.{is_empty}
use amind.Record.{MemoryRecord, is_alive}
use package.amind.MemoryStore.{MemoryStore, Config}
use package.amind.MemoryStore.Parts.{ok, err, Backend}

module _ (P : Backend) where
  -- The record that the walk for the vector index inserts
  unfoldable pub orphan : P.Index → (id : ℕ) → List ℕ → Option MemoryRecord
  orphan hnsw id raw = if P.has_vector id hnsw then none else elim (P.deserialize raw) [
    | err e ↦ none
    | ok r ↦ if is_alive r then (if is_empty r.embedding then none else some r) else none
  ]

  unfoldable pub reconcile : List (ℕ × List ℕ) → MemoryStore P → MemoryStore P
  reconcile [] s = s
  reconcile ((id, raw) ∷ entries) s = elim (orphan s.hnsw id raw) [
    | none ↦ reconcile entries s
    | some r ↦
        reconcile entries
          (record s { hnsw = P.insert_vector id r.embedding s.hnsw; cache = assign id r s.cache })
  ]

  -- The record that the walk for the cache loads
  unfoldable pub loaded : List (ℕ × MemoryRecord) → (id : ℕ) → List ℕ → Option MemoryRecord
  loaded cache id raw = elim (find id cache) [
    | some r ↦ none
    | none ↦ elim (P.deserialize raw) [ err e ↦ none | ok r ↦ if is_alive r then some r else none ]
  ]

  unfoldable pub warm : List (ℕ × List ℕ) → MemoryStore P → MemoryStore P
  warm [] s = s
  warm ((id, raw) ∷ entries) s = elim (loaded s.cache id raw) [
    | none ↦ warm entries s
    | some r ↦ warm entries (record s { cache = assign id r s.cache })
  ]

  unfoldable pub init : Config → P.Engine → P.Index → MemoryStore P
  init config lsm hnsw =
      let s : MemoryStore P = record {
        config = config;
        lsm = lsm;
        hnsw = hnsw;
        cache = [];
        dirty_ids = [];
      } in
      warm (P.live_entries lsm) (reconcile (P.live_entries lsm) s)
