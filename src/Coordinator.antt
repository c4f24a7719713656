-- ===== src/Coordinator.antt =====
-- src/coordinator/remove_coordinator.{h,cpp}: the removal of a memory with what was derived from
-- it. The three callbacks act on `Store`: `get_record` points into `records`, so a mark is written
-- there; `persist` and `hnsw_delete` are logged with their arguments, oldest first.
mod Reads
mod Tests
use amind.Prelude.{
  ℕ, ◌+◌, ◌%◌, ◌^◌, Bool, true, false, Option, none, some, List, [], ◌∷◌, ◌++◌, length,
}
use amind.Prelude.Map
use amind.Record.{MemoryRecord, RemoveReason, mark_tombstone, mark_invalidated}
use amind.Lineage.{LineageIndex}
use amind.Propagator.{PropagationResult, Progress, propagate}

pub record Store : Type 0 where
  pub records : List (ℕ × MemoryRecord)
  pub persisted : List (ℕ × MemoryRecord)
  pub hnsw_deleted : List ℕ

pub record Stats : Type 0 where
  pub total_removes : ℕ
  pub total_invalidated : ℕ
  pub total_recomputed : ℕ

pub record RemoveCoordinator : Type 0 where
  pub lineage : LineageIndex
  pub store : Store
  pub stats : Stats

-- The text `error_message`, which only describes a failure, is left out.
pub record RemoveResult : Type 0 where
  pub primary_id : ℕ
  pub reason : RemoveReason
  pub invalidated_descendants : List ℕ
  pub recomputed_descendants : List ℕ
  pub success : Bool

-- `record->mark…(); persist(id, *record); hnsw_delete(id);`
abbrev pub update : (MemoryRecord → MemoryRecord) → ℕ → MemoryRecord → Store → Store
update mark id r s = record {
  records = Map.assign id (mark r) s.records;
  persisted = s.persisted ++ (id, mark r) ∷ [];
  hnsw_deleted = s.hnsw_deleted ++ id ∷ [];
}

-- The callback that `remove` passes to the propagator.
unfoldable pub on_invalidate : ℕ → Store → Store
on_invalidate id s = elim (Map.find id s.records) [
  | none ↦ s
  | some descendant ↦ update mark_invalidated id descendant s
]

-- The two lists of step 5.
unfoldable pub categorize : List PropagationResult → List ℕ × List ℕ
categorize [] = ([], [])
categorize (p ∷ ps) =
    let (invalidated, recomputed) = categorize ps in
    elim p.invalidated [
      | true ↦ (p.memory_id ∷ invalidated, recomputed)
      | false ↦ (invalidated, p.memory_id ∷ recomputed)
    ]

abbrev plus : ℕ → ℕ → ℕ
plus n k = (n + k) % 2 ^ 64

abbrev pub default_max_depth : ℕ
default_max_depth = 5

-- Steps 5 and 6, after the propagation.
unfoldable pub finish :
    RemoveCoordinator → ℕ → RemoveReason → Progress Store → RemoveCoordinator × RemoveResult
unfolding categorize
finish c memory_id reason p =
    let (invalidated, recomputed) = categorize p.results in
    (
      record {
        lineage = p.index;
        store = p.caller;
        stats = record {
          total_removes = plus c.stats.total_removes 1;
          total_invalidated = plus c.stats.total_invalidated (length invalidated);
          total_recomputed = plus c.stats.total_recomputed (length recomputed);
        };
      },
      record {
        primary_id = memory_id;
        reason = reason;
        invalidated_descendants = invalidated;
        recomputed_descendants = recomputed;
        success = true;
      },
    )

abbrev pub failed : ℕ → RemoveReason → RemoveResult
failed memory_id reason = record {
  primary_id = memory_id;
  reason = reason;
  invalidated_descendants = [];
  recomputed_descendants = [];
  success = false;
}

-- `none` would mean that the propagation ran out of fuel.
unfoldable pub remove :
    RemoveCoordinator → ℕ → RemoveReason → Option (RemoveCoordinator × RemoveResult)
remove c memory_id reason = elim (Map.find memory_id c.store.records) [
  | none ↦ some (c, failed memory_id reason)
  | some primary ↦
      elim (propagate on_invalidate default_max_depth c.lineage memory_id
        (update mark_tombstone memory_id primary c.store)) [
          | none ↦ none
          | some p ↦ some (finish c memory_id reason p)
        ]
]

unfoldable pub reset_stats : RemoveCoordinator → RemoveCoordinator
reset_stats c = record c {
  stats = record { total_removes = 0; total_invalidated = 0; total_recomputed = 0 };
}
