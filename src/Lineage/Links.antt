-- ===== src/Lineage/Links.antt =====
-- The reverse index agrees with the forward records.
use amind.Prelude.{
  ℕ, ◌≡◌, inl, inr, Bool, true, false, ◌&&◌, ◌||◌, some, List, [], ◌∷◌, arith, ◌==◌, if◌then◌else◌,
  Option-cases,
}
use amind.Prelude.Map
use amind.Prelude.Map.{find-assign, find-erase}
use amind.Prelude.Ids
use amind.Prelude.Ids.{contains-insert, contains-erase}
use amind.Record.{LineageOp}
use amind.Lineage.{
  LineageRecord, Maps, LineageIndex, children, link, unlink_one, unlink, store_record, forget_child,
  mark, drop_node, record_lineage, remove_node, mark_removed, get_parents, get_children,
  get_lineage_op,
}

-- `id` is listed as a child of `parent`.
abbrev pub lists : List (ℕ × List ℕ) → (parent id : ℕ) → Bool
lists reverse parent id = Ids.contains id (children reverse parent)

lists-link :
    (child : ℕ) (parents : List ℕ) (reverse : List (ℕ × List ℕ)) (q id : ℕ)
    → lists (link child parents reverse) q id
      ≡ ((child == id && Ids.contains q parents) || lists reverse q id)
unfolding link Ids.contains
lists-link child [] reverse q id = ground arith
lists-link child (p ∷ parents) reverse q id = ground (
  arith,
  lists-link child parents (Map.assign p (Ids.insert child (children reverse p)) reverse) q id,
  find-assign p q (Ids.insert child (children reverse p)) reverse,
  contains-insert child id (children reverse p),
)

lists-unlink_one :
    (child p : ℕ) (reverse : List (ℕ × List ℕ)) (q id : ℕ)
    → lists (unlink_one child p reverse) q id
      ≡ (if child == id && p == q then false else lists reverse q id)
unfolding unlink_one Ids.contains
lists-unlink_one child p reverse q id = elim (Option-cases (Map.find p reverse)) [
  | inl e ↦ rw (e, unlink_one) (ground arith)
  | inr (siblings, e) ↦
      rw (e, unlink_one)
        (ground (
          arith,
          find-erase p q reverse,
          find-assign p q (Ids.erase child siblings) reverse,
          contains-erase child id siblings,
        ))
]

lists-unlink :
    (child : ℕ) (parents : List ℕ) (reverse : List (ℕ × List ℕ)) (q id : ℕ)
    → lists (unlink child parents reverse) q id
      ≡ (if child == id && Ids.contains q parents then false else lists reverse q id)
unfolding unlink Ids.contains
lists-unlink child [] reverse q id = ground arith
lists-unlink child (p ∷ parents) reverse q id = ground (
  arith,
  lists-unlink child parents (unlink_one child p reverse) q id,
  lists-unlink_one child p reverse q id,
)

-- Each recorded parent lists the child, unless the parent was removed.
abbrev pub IsLinked : Maps → Type 0
IsLinked m =
    (id : ℕ) (r : LineageRecord) (p : ℕ)
    → Map.find id m.child_to_record ≡ some r
    → Ids.contains p r.parent_ids ≡ true
    → (lists m.parent_to_children p id || Ids.contains p m.removed_nodes) ≡ true

store_record-IsLinked : (r : LineageRecord) (m : Maps) → IsLinked m → IsLinked (store_record r m)
unfolding store_record
store_record-IsLinked r m l id r' p e h = ground (
  arith,
  find-assign r.child_id id r m.child_to_record,
  lists-link r.child_id r.parent_ids m.parent_to_children p id,
  l id r' p,
)

mark-IsLinked : (n : ℕ) (m : Maps) → IsLinked m → IsLinked (mark n m)
unfolding mark
mark-IsLinked n m l id r p e h = ground (arith, contains-insert n p m.removed_nodes, l id r p e h)

drop_node-IsLinked : (n : ℕ) (m : Maps) → IsLinked m → IsLinked (drop_node n m)
unfolding drop_node forget_child mark
drop_node-IsLinked n m l id r p e h = elim (Option-cases (Map.find n m.child_to_record)) [
  | inl missing ↦
      ground
        (arith, find-erase n p m.parent_to_children, contains-insert n p m.removed_nodes, l id r p)
  | inr (old, found) ↦ ground (
    arith,
    find-erase n id m.child_to_record,
    find-erase n p (unlink n old.parent_ids m.parent_to_children),
    lists-unlink n old.parent_ids m.parent_to_children p id,
    contains-insert n p m.removed_nodes,
    l id r p,
  )
]

-- From a linked index, each of the three operations keeps the reverse index in step with the forward records: every
-- recorded parent that was not removed lists the child.
operations-IsLinked :
    (now : ℕ) (index : LineageIndex) (id : ℕ) (parents : List ℕ) (op : LineageOp)
    → IsLinked index.maps
    → IsLinked (record_lineage now index id parents op).maps
      × IsLinked (remove_node index id).maps
      × IsLinked (mark_removed index id).maps
unfolding record_lineage remove_node mark_removed
operations-IsLinked now index id parents op l = (
  store_record-IsLinked _ index.maps l,
  drop_node-IsLinked id index.maps l,
  mark-IsLinked id index.maps l,
)

abbrev new_record : (now child : ℕ) → List ℕ → LineageOp → LineageRecord
new_record now child parents op = record {
  child_id = child;
  parent_ids = parents;
  op = op;
  created_at = now;
}

-- A recorded lineage is read back: the parents and the operation of the child, the child among
-- the children of each parent, and what was recorded of other children.
record_lineage_reads :
    (now : ℕ) (index : LineageIndex) (child : ℕ) (parents : List ℕ) (op : LineageOp) (other p : ℕ)
    → let index' = record_lineage now index child parents op in
      (get_parents index' other ≡ (if child == other then parents else get_parents index other))
      × (get_lineage_op index' other ≡ (if child == other then op else get_lineage_op index other))
      × (Ids.contains other (get_children index' p) ≡ (
          (child == other && Ids.contains p parents) || Ids.contains other (get_children index p)))
unfolding record_lineage store_record get_parents get_lineage_op get_children
record_lineage_reads now index child parents op other p = (
  ground (arith, find-assign child other (new_record now child parents op) index.child_to_record),
  ground (arith, find-assign child other (new_record now child parents op) index.child_to_record),
  lists-link child parents index.parent_to_children p other,
)

-- A removed node has no record and no children, and is listed by none of the parents that were
-- recorded for it; the records of the other nodes stay.
remove_node_reads :
    (index : LineageIndex) (n other p : ℕ)
    → let index' = remove_node index n in
      (get_parents index' n ≡ [])
      × (get_children index' n ≡ [])
      × (Ids.contains n index'.removed_nodes ≡ true)
      × ((Ids.contains p (get_parents index n) && Ids.contains n (get_children index' p)) ≡ false)
      × ((if n == other then [] else get_parents index' other)
          ≡ (if n == other then [] else get_parents index other))
unfolding remove_node drop_node forget_child mark get_parents get_children Ids.contains
remove_node_reads index n other p = elim (Option-cases (Map.find n index.child_to_record)) [
  | inl missing ↦ (
    ground arith,
    ground (arith, find-erase n n index.parent_to_children),
    ground (arith, contains-insert n n index.removed_nodes),
    ground arith,
    ground arith,
  )
  | inr (old, found) ↦
      let reverse = unlink n old.parent_ids index.parent_to_children in
      (
        ground (arith, find-erase n n index.child_to_record),
        ground (arith, find-erase n n reverse),
        ground (arith, contains-insert n n index.removed_nodes),
        ground (
          arith,
          find-erase n p reverse,
          lists-unlink n old.parent_ids index.parent_to_children p n,
        ),
        ground (arith, find-erase n other index.child_to_record),
      )
]
