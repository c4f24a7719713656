-- ===== src/Propagator/Tests.antt =====
-- The theorems on propagation at concrete inputs.
use amind.Prelude.{ℕ, ◌≡◌, false, some, none, List, [], ◌∷◌, arith}
use amind.Prelude.Ids
use amind.Record.{LineageOp}
use amind.Lineage.{LineageIndex, no_maps, record_lineage, has_live_parents}
use amind.Propagator.{Progress, propagate}
use amind.Propagator.Orphan.{diamond, propagate_leaves_orphan}

-- Two memories that were derived from each other, and from memory 1.
abbrev cycle : LineageIndex
cycle =
    record_lineage 9
      (record_lineage 9 (record { maps = no_maps; wal = none }) 2 (1 ∷ 3 ∷ []) LineageOp.infer) 3
      (2 ∷ []) LineageOp.infer

propagate_leaves_orphan_example :
    (q : Progress (List ℕ)) × (propagate ◌∷◌ 5 (diamond 9 1 2 3 LineageOp.infer) 1 [] ≡ some q)
    × (q.caller ≡ 2 ∷ [])
    × (has_live_parents q.index 3 ≡ false)
    × (Ids.contains 3 q.index.removed_nodes ≡ false)
propagate_leaves_orphan_example =
    propagate_leaves_orphan 9 1 2 3 LineageOp.infer 5 (omega arith) (omega arith) (omega arith)
