-- ===== src/Propagator.antt =====
-- src/lineage/propagator.{h,cpp}: the breadth-first walk that invalidates what was derived from a
-- deleted memory. The callback `on_invalidate` acts on a state `S` of the caller (the identity, if
-- there is no callback). The loop takes fuel; `propagate` gives it one more round than there are
-- entries in the reverse index. The order in which a set of children is walked is the list's. A
-- negative depth limit behaves as 0 does.
pub mod Walk
pub mod Effect
pub mod Checked
pub mod Orphan
mod Tests
use amind.Prelude.{
  ℕ, zero, suc, ◌+◌, Bool, true, false, Option, none, some, List, [], ◌∷◌, ◌++◌, length, ltb,
  if◌then◌else◌,
}
use amind.Lineage.{LineageIndex, mark_removed, get_children, has_live_parents}
use amind.Traversal.{enqueue}

-- The text `reason`, which only describes the outcome, is left out.
pub record PropagationResult : Type 0 where
  pub memory_id : ℕ
  pub invalidated : Bool

-- What the walk has done so far.
pub record Progress (S : Type 0) : Type 0 where
  pub index : LineageIndex
  pub caller : S
  pub results : List PropagationResult

abbrev pub all_children : List (ℕ × List ℕ) → List ℕ
all_children [] = []
all_children ((id, ids) ∷ reverse) = ids ++ all_children reverse

module _ {S : Type 0} (on_invalidate : ℕ → S → S) where
  -- The loop body for a memory that still has live parents, and for one that has none.
  abbrev pub spare : ℕ → Progress S → Progress S
  spare id p = record p {
    results = p.results ++ record { memory_id = id; invalidated = false } ∷ [];
  }

  abbrev pub invalidate : ℕ → Progress S → Progress S
  invalidate id p = record {
    index = mark_removed p.index id;
    caller = on_invalidate id p.caller;
    results = p.results ++ record { memory_id = id; invalidated = true } ∷ [];
  }

  unfoldable pub walk :
      (fuel max_depth : ℕ) (visited : List ℕ) (frontier : List (ℕ × ℕ))
      → Progress S
      → Option (Progress S)
  walk zero max_depth visited frontier p = none
  walk (suc fuel) max_depth visited [] p = some p
  walk (suc fuel) max_depth visited ((id, depth) ∷ frontier) p =
      elim (has_live_parents p.index id) [
        | true ↦ walk fuel max_depth visited frontier (spare id p)
        | false ↦ elim (ltb depth max_depth) [
          | true ↦
              let next =
                enqueue (depth + 1) (get_children (invalidate id p).index id) visited frontier in
              walk fuel max_depth next.0 next.1 (invalidate id p)
          | false ↦ walk fuel max_depth visited frontier (invalidate id p)
        ]
      ]

  unfoldable pub propagate :
      (max_depth : ℕ) → LineageIndex → (deleted_parent_id : ℕ) → S → Option (Progress S)
  propagate max_depth index deleted_parent_id caller =
      let start = mark_removed index deleted_parent_id in
      let seeds = enqueue 1 (get_children start deleted_parent_id) [] [] in
      walk (suc (length (all_children index.parent_to_children))) max_depth seeds.0 seeds.1
        (record { index = start; caller = caller; results = [] })
