-- ===== src/Lineage/Tests.antt =====
-- The theorems on the lineage index at concrete inputs.
use amind.Prelude.{◌≡◌, some, List, [], ◌∷◌, arith}
use amind.Prelude.Map
use amind.Record.{LineageOp}
use amind.Lineage.{
  LineageIndex, no_maps, Snapshot, record_lineage, get_children, replay_from_wal, checkpoint,
}
use amind.Lineage.Links.{IsLinked}
use amind.Lineage.Replay.{Operation, run, run-replay_from_wal, orphaned, get_children-checkpoint}

abbrev empty : LineageIndex
empty = record { maps = no_maps; wal = some [] }

empty-IsLinked : IsLinked empty.maps
unfolding Map.find
empty-IsLinked id r p e h = absurd (cc)

abbrev derived : LineageIndex
derived = record_lineage 9 empty 2 (1 ∷ []) LineageOp.infer

abbrev blank : Snapshot
blank = record { snapshot_records = []; snapshot_removed = [] }

abbrev work : List Operation
work = Operation.record_op 9 2 (1 ∷ []) LineageOp.infer ∷ Operation.remove_op 1 ∷ []

run-replay_from_wal_example :
    let index = run work (replay_from_wal blank []) in
    (log : List _) × (index.wal ≡ some log) × (replay_from_wal blank log ≡ index)
run-replay_from_wal_example = run-replay_from_wal blank [] work tt (omega arith, tt)

get_children-checkpoint_example :
    (get_children (orphaned 9 1 2 LineageOp.infer) 1 ≡ [])
    × ((s : Snapshot) × (index : LineageIndex) × (checkpoint (orphaned 9 1 2 LineageOp.infer)
          ≡ some (s, index))
        × (get_children (replay_from_wal s []) 1 ≡ 2 ∷ []))
get_children-checkpoint_example = get_children-checkpoint 9 1 2 LineageOp.infer (omega arith)

-- Memories 1 and 2 are recorded as derived from each other.
abbrev cycle : LineageIndex
cycle =
    record_lineage 9 (record_lineage 9 empty 2 (1 ∷ []) LineageOp.infer) 1 (2 ∷ []) LineageOp.infer
