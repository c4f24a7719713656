-- ===== src/Coordinator/Reads.antt =====
-- What a removal does to the records, the lineage and the counters.
use amind.Prelude.{
  ℕ, ◌<◌, ◌+◌, ◌%◌, ◌^◌, ◌≡◌, Bool, true, false, ◌||◌, Option, none, some, List, length, ◌==◌,
  if◌then◌else◌,
}
use amind.Prelude.Map
use amind.Prelude.Map.{map_some}
use amind.Prelude.Ids.{contains}
use amind.Record.{MemoryRecord, MemoryPhase, RemoveReason, mark_tombstone}
use amind.Lineage.{get_children, has_live_parents}
use amind.Propagator.{Progress}
use amind.Propagator.Effect.{invalidated_ids}
use amind.Coordinator.{RemoveCoordinator, RemoveResult, Store, update, default_max_depth}

-- The phase of a record that is there.
abbrev pub phase_of : ℕ → List (ℕ × MemoryRecord) → Option MemoryPhase
phase_of x rs = map_some (λ (r : MemoryRecord). r.phase) (Map.find x rs)

abbrev has : ℕ → List (ℕ × MemoryRecord) → Bool
has x rs = elim (Map.find x rs) [ none ↦ false | some r ↦ true ]

abbrev to_invalidated : Option MemoryRecord → Option MemoryPhase
to_invalidated o = map_some (λ r. MemoryPhase.invalidated) o

-- What the removal of `id` has done, as seen at the memory `x`.
pub record IsRemoved (c : RemoveCoordinator) (id x : ℕ) (c' : RemoveCoordinator)
    (result : RemoveResult) : Type 0 where
  pub success : result.success ≡ true
  -- An invalidated descendant is Invalidated, and the primary is a Tombstone if it is none.
  pub phase : phase_of x c'.store.records ≡ (
      if contains x result.invalidated_descendants
      then to_invalidated (Map.find x c.store.records)
      else if id == x
      then some MemoryPhase.tombstone
      else phase_of x c.store.records)
  -- Every other record is as before.
  pub kept :
      (if contains x result.invalidated_descendants || id == x
        then none
        else Map.find x c'.store.records)
      ≡ (if contains x result.invalidated_descendants || id == x
          then none
          else Map.find x c.store.records)
  -- An invalidated descendant has no live parent.
  pub dead :
      (if contains x result.invalidated_descendants then has_live_parents c'.lineage x else false)
      ≡ false
  -- The index counts exactly the primary and the invalidated descendants as removed, too.
  pub removed : contains x c'.lineage.removed_nodes ≡ (
      contains x result.invalidated_descendants || (id == x || contains x c.lineage.removed_nodes))
  -- A child of the primary is checked, and so is a child of an invalidated descendant, if fewer
  -- memories are checked than the depth limit.
  pub seeded :
      (if contains x (get_children c.lineage id)
        then contains x result.invalidated_descendants || contains x result.recomputed_descendants
        else true)
      ≡ true
  pub spread :
      length result.invalidated_descendants + length result.recomputed_descendants
        < default_max_depth
      → (j : ℕ) → contains j result.invalidated_descendants ≡ true
      → contains x (get_children c.lineage j) ≡ true
      → (contains x result.invalidated_descendants || contains x result.recomputed_descendants)
        ≡ true
  pub counted :
      (c'.stats.total_removes ≡ (c.stats.total_removes + 1) % 2 ^ 64)
      × (c'.stats.total_invalidated
          ≡ (c.stats.total_invalidated + length result.invalidated_descendants) % 2 ^ 64)
      × (c'.stats.total_recomputed
          ≡ (c.stats.total_recomputed + length result.recomputed_descendants) % 2 ^ 64)

module _ (c : RemoveCoordinator) (id x : ℕ) (reason : RemoveReason) (primary : MemoryRecord)
    (p : Progress Store) (found : Map.find id c.store.records ≡ some primary) where
  abbrev marked : Store
  marked = update mark_tombstone id primary c.store

  abbrev ids : List ℕ
  ids = invalidated_ids p.results
