-- ===== src/Propagator/Orphan.antt =====
-- A propagation can leave an orphan behind.
use amind.Prelude.{ℕ, ◌≡◌, ◌≢◌, refl, true, false, none, some, List, [], ◌∷◌, arith}
use amind.Prelude.Map
use amind.Prelude.Ids
use amind.Record.{LineageOp}
use amind.Lineage.{
  LineageIndex, LineageRecord, no_maps, record_lineage, store_record, mark_removed, mark,
  get_children, has_live_parents,
}
use amind.Traversal.{enqueue}
use amind.Propagator.{Progress, walk, propagate}

-- `summary` was derived from `source` and from `fact`, and `fact` from `source` alone.
abbrev pub diamond : (now source fact summary : ℕ) → LineageOp → LineageIndex
diamond now source fact summary op =
    record_lineage now
      (record_lineage now (record { maps = no_maps; wal = none }) summary (source ∷ fact ∷ []) op)
      fact (source ∷ []) op

abbrev parts : (now id : ℕ) → List ℕ → LineageOp → LineageRecord
parts now id parents op = record { child_id = id; parent_ids = parents; op = op; created_at = now }

module _ (now source fact summary : ℕ) (op : LineageOp) (max_depth : ℕ) (h1 : source ≢ fact)
    (h2 : source ≢ summary) (h3 : fact ≢ summary) where
  abbrev start : LineageIndex
  start = record {
    maps = record {
      child_to_record =
          (summary, parts now summary (source ∷ fact ∷ []) op)
          ∷ (fact, parts now fact (source ∷ []) op)
          ∷ [];
      parent_to_children = (source, summary ∷ fact ∷ []) ∷ (fact, summary ∷ []) ∷ [];
      removed_nodes = [];
    };
    wal = none;
  }

  diamond_lem : diamond now source fact summary op ≡ start
  unfolding record_lineage store_record Map.find Map.assign Ids.insert
  diamond_lem = ground arith

  abbrev final : Progress (List ℕ)
  final = record {
    index = mark_removed (mark_removed start source) fact;
    caller = fact ∷ [];
    results =
        record { memory_id = summary; invalidated = false }
        ∷ record { memory_id = fact; invalidated = true }
        ∷ [];
  }

  summary_live : has_live_parents (mark_removed start source) summary ≡ true
  unfolding has_live_parents mark_removed mark Map.find Ids.insert
  summary_live = ground arith

  fact_dead : has_live_parents (mark_removed start source) fact ≡ false
  unfolding has_live_parents mark_removed mark Map.find Ids.insert
  fact_dead = ground arith

  children_source : get_children (mark_removed start source) source ≡ summary ∷ fact ∷ []
  unfolding get_children mark_removed mark Map.find
  children_source = ground arith

  children_fact : get_children (mark_removed (mark_removed start source) fact) fact ≡ summary ∷ []
  unfolding get_children mark_removed mark Map.find
  children_fact = ground arith

  propagate-final : propagate ◌∷◌ max_depth start source [] ≡ some final
  unfolding propagate walk enqueue Ids.contains
  propagate-final = ground (arith, summary_live, fact_dead, children_source, children_fact)

  summary_orphaned : has_live_parents final.index summary ≡ false
  unfolding has_live_parents mark_removed mark Map.find Ids.insert
  summary_orphaned = ground arith

  summary_kept : Ids.contains summary final.index.removed_nodes ≡ false
  unfolding mark_removed mark Ids.insert
  summary_kept = ground arith

  -- For three distinct memories, where `summary` was derived from both others and `fact` from
  -- `source`: when `source` is deleted and `summary` is checked first, `fact` is still live then;
  -- `fact` is invalidated next, and `summary` is not checked again: in the end it has no live
  -- parent and is not marked as removed.
  pub propagate_leaves_orphan :
      (q : Progress (List ℕ)) × (propagate ◌∷◌ max_depth
          (diamond now source fact summary op)
          source
          []
        ≡ some q)
      × (q.caller ≡ fact ∷ [])
      × (has_live_parents q.index summary ≡ false)
      × (Ids.contains summary q.index.removed_nodes ≡ false)
  propagate_leaves_orphan =
      (final, rw diamond_lem propagate-final, refl, summary_orphaned, summary_kept)
