-- ===== src/Coordinator/Tests.antt =====
-- The theorems on removal at concrete inputs.
use amind.Prelude.{none, [], ◌∷◌}
use amind.Prelude.Map
use amind.Record.{LineageOp}
use amind.Record.Sample.{note}
use amind.Lineage.{no_maps, record_lineage}
use amind.Coordinator.{RemoveCoordinator}

-- Memory 18 was derived from memory 17.
abbrev pair : RemoveCoordinator
pair = record {
  lineage = record_lineage 9 (record { maps = no_maps; wal = none }) 18 (17 ∷ []) LineageOp.infer;
  store = record {
    records = (17, note) ∷ (18, record note { memory_id = 18 }) ∷ [];
    persisted = [];
    hnsw_deleted = [];
  };
  stats = record { total_removes = 0; total_invalidated = 0; total_recomputed = 0 };
}
