-- ===== src/Lsm/Merge.antt =====
-- The merge in `LSMEngine::compactLevel` of src/lsm/lsm_engine.cpp. The heap is the list of the
-- cursors in the order of their tables, in which an invalid cursor stands for one that is no longer
-- in the heap: what `top` gives is the first cursor among those with the least key.
pub mod Newest
pub mod Merged
use amind.Prelude.{
  ℕ, zero, suc, Bool, true, false, ◌||◌, Option, none, some, List, [], ◌∷◌, leb, ◌==◌,
  if◌then◌else◌,
}
use amind.Prelude.Ids.{is_empty}
use amind.Lsm.Entries.{Entry}
use amind.Lsm.SsTable.Cursor.{Cursor, invalid, at, next}

-- The key of `heap.top()`
unfoldable pub min_key : List Cursor → Option ℕ
min_key [] = none
min_key (invalid ∷ heap) = min_key heap
min_key (at (k, v) es blocks ∷ heap) = elim (min_key heap) [
  | none ↦ some k
  | some j ↦ some (if leb k j then k else j)
]

-- The value at `heap.top()`, whose key is `key`, and the heap after its cursor has moved on.
unfoldable pub pop : (key : ℕ) → List Cursor → List ℕ × List Cursor
pop key [] = ([], [])
pop key (invalid ∷ heap) = let (v, heap') = pop key heap in (v, invalid ∷ heap')
pop key (at (k, v) es blocks ∷ heap) =
    let (v', heap') = pop key heap in
    if k == key then (v, next (at (k, v) es blocks) ∷ heap) else (v', at (k, v) es blocks ∷ heap')

abbrev pub is_duplicate : Option ℕ → ℕ → Bool
is_duplicate none key = false
is_duplicate (some prev_key) key = key == prev_key

abbrev pub emit : (skip : Bool) → Entry → Option (List Entry) → Option (List Entry)
emit skip e none = none
emit skip e (some rest) = some (if skip then rest else e ∷ rest)

-- The loop, on fuel: what it adds to the writer, in order. `prev_key` is `none` in the first round.
unfoldable pub merge_loop : (fuel : ℕ) → List Cursor → (prev_key : Option ℕ) → Option (List Entry)
merge_loop zero heap prev_key = none
merge_loop (suc fuel) heap prev_key = elim (min_key heap) [
  | none ↦ some []
  | some key ↦
      emit (is_duplicate prev_key key || is_empty (pop key heap).0) (key, (pop key heap).0)
        (merge_loop fuel (pop key heap).1 (some key))
]
