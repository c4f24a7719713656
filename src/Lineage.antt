-- ===== src/Lineage.antt =====
-- src/lineage/lineage_index.{h,cpp}: which memory was derived from which. The write-ahead log is
-- the list of the entries that its file holds, oldest first (`none`: no log); the file itself,
-- its framing and its checksums belong to src/lineage/lineage_wal.cpp, of which only the width of the
-- number of parents is modelled.
-- `now` is the reading of `MemoryRecord::currentTimeSec`.
pub mod Links
pub mod Replay
pub mod Descend
mod Tests
use amind.Prelude.{
  ℕ, ◌+◌, Bool, true, false, not, ◌||◌, Option, none, some, List, [], ◌∷◌, ◌++◌, map, length, ltb,
  ◌^◌, if◌then◌else◌,
}
use amind.Prelude.Map
use amind.Prelude.Ids
use amind.Record.{LineageOp, no_lineage}
use amind.Traversal.{enqueue}

pub record LineageRecord : Type 0 where
  pub child_id : ℕ
  pub parent_ids : List ℕ
  pub op : LineageOp
  pub created_at : ℕ

pub data WalEntry : Type 0 where
  records : (child : ℕ) (parents : List ℕ) (op : LineageOp) (timestamp : ℕ) → WalEntry
  removes : (node_id : ℕ) → WalEntry
  marks : (node_id : ℕ) → WalEntry

-- The three maps in memory.
pub record Maps : Type 0 where
  pub child_to_record : List (ℕ × LineageRecord)
  pub parent_to_children : List (ℕ × List ℕ)
  pub removed_nodes : List ℕ

pub record LineageIndex : Type 0 where
  pub maps : Maps
  pub open maps use *
  pub wal : Option (List WalEntry)

abbrev pub no_maps : Maps
no_maps = record { child_to_record = []; parent_to_children = []; removed_nodes = [] }

-- `parent_to_children_[id]` as it is read.
abbrev pub children : List (ℕ × List ℕ) → ℕ → List ℕ
children reverse id = Map.find_or [] id reverse

-- `for (pid : parents) parent_to_children_[pid].insert(child)`
unfoldable pub link : (child : ℕ) (parents : List ℕ) → List (ℕ × List ℕ) → List (ℕ × List ℕ)
link child [] reverse = reverse
link child (p ∷ parents) reverse =
    link child parents (Map.assign p (Ids.insert child (children reverse p)) reverse)

-- One parent's part of the loop in `removeNode`: an entry that becomes empty is erased.
unfoldable pub unlink_one : (child parent : ℕ) → List (ℕ × List ℕ) → List (ℕ × List ℕ)
unlink_one child parent reverse = elim (Map.find parent reverse) [
  | none ↦ reverse
  | some siblings ↦
      let left = Ids.erase child siblings in
      if Ids.is_empty left then Map.erase parent reverse else Map.assign parent left reverse
]

unfoldable pub unlink : (child : ℕ) (parents : List ℕ) → List (ℕ × List ℕ) → List (ℕ × List ℕ)
unlink child [] reverse = reverse
unlink child (p ∷ parents) reverse = unlink child parents (unlink_one child p reverse)

-- What the operations do to the maps; the replay of the log does the same.
unfoldable pub store_record : LineageRecord → Maps → Maps
unfolding link
store_record r m = record m {
  child_to_record = Map.assign r.child_id r m.child_to_record;
  parent_to_children = link r.child_id r.parent_ids m.parent_to_children;
}

unfoldable pub forget_child : ℕ → Maps → Maps
unfolding unlink unlink_one
forget_child id m = elim (Map.find id m.child_to_record) [
  | none ↦ m
  | some r ↦ record m {
    parent_to_children = unlink id r.parent_ids m.parent_to_children;
    child_to_record = Map.erase id m.child_to_record;
  }
]

unfoldable pub mark : ℕ → Maps → Maps
mark id m = record m { removed_nodes = Ids.insert id m.removed_nodes }

unfoldable pub drop_node : ℕ → Maps → Maps
unfolding mark forget_child
drop_node id m =
    let m' = forget_child id (mark id m) in
    record m' { parent_to_children = Map.erase id m'.parent_to_children }

-- `if (wal_) wal_->append…(…)`
abbrev pub append_wal : WalEntry → Option (List WalEntry) → Option (List WalEntry)
append_wal e none = none
append_wal e (some log) = some (log ++ e ∷ [])

unfoldable pub record_lineage :
    (now : ℕ) → LineageIndex → (child : ℕ) (parents : List ℕ) → LineageOp → LineageIndex
record_lineage now index child parents op = record {
  maps =
      store_record (record { child_id = child; parent_ids = parents; op = op; created_at = now })
        index.maps;
  wal = append_wal (records child parents op now) index.wal;
}

unfoldable pub remove_node : LineageIndex → ℕ → LineageIndex
remove_node index id = record {
  maps = drop_node id index.maps;
  wal = append_wal (removes id) index.wal;
}

unfoldable pub mark_removed : LineageIndex → ℕ → LineageIndex
mark_removed index id = record { maps = mark id index.maps; wal = append_wal (marks id) index.wal }

unfoldable pub get_parents : LineageIndex → ℕ → List ℕ
get_parents index child = elim (Map.find child index.child_to_record) [
  | none ↦ []
  | some r ↦ r.parent_ids
]

unfoldable pub get_children : LineageIndex → ℕ → List ℕ
get_children index parent = children index.parent_to_children parent

unfoldable pub get_lineage_op : LineageIndex → ℕ → LineageOp
get_lineage_op index child = elim (Map.find child index.child_to_record) [
  | none ↦ no_lineage
  | some r ↦ r.op
]

-- `return true` at the first parent that is not removed.
unfoldable pub any_live : (removed parents : List ℕ) → Bool
any_live removed [] = false
any_live removed (p ∷ parents) = not (Ids.contains p removed) || any_live removed parents

unfoldable pub has_live_parents : LineageIndex → ℕ → Bool
unfolding any_live
has_live_parents index child = elim (Map.find child index.child_to_record) [
  | none ↦ false
  | some r ↦ any_live index.removed_nodes r.parent_ids
]

pub child_count : LineageIndex → ℕ
child_count index = length index.child_to_record

pub parent_count : LineageIndex → ℕ
parent_count index = length index.parent_to_children

-- `replayFromWAL`: the snapshot's records and removed ids, then the entries of the log.
unfoldable pub replay_entry : WalEntry → Maps → Maps
replay_entry (records child parents op timestamp) m =
    store_record
      (record { child_id = child; parent_ids = parents; op = op; created_at = timestamp }) m
replay_entry (removes id) m = drop_node id m
replay_entry (marks id) m = mark id m

-- Whether an entry is read back: the log has 16 bits for the number of parents, and an entry with
-- more is read with too few, so that its checksum, of other bytes, does not match.
unfoldable pub is_readable : WalEntry → Bool
is_readable (records child parents op now) = ltb (length parents) (2 ^ 16)
is_readable (removes id) = true
is_readable (marks id) = true

-- The replay stops at the first entry that is not read back.
unfoldable pub replay : List WalEntry → Maps → Maps
unfolding is_readable
replay [] m = m
replay (e ∷ log) m = let rest = replay log (replay_entry e m) in if is_readable e then rest else m

pub record Snapshot : Type 0 where
  pub snapshot_records : List LineageRecord
  pub snapshot_removed : List ℕ

unfoldable pub load_records : List LineageRecord → Maps → Maps
load_records [] m = m
load_records (r ∷ rs) m = load_records rs (store_record r m)

unfoldable pub load_removed : List ℕ → Maps → Maps
load_removed [] m = m
load_removed (id ∷ ids) m = load_removed ids (mark id m)

unfoldable pub replay_from_wal : Snapshot → List WalEntry → LineageIndex
unfolding load_records load_removed replay
replay_from_wal s log = record {
  maps = replay log (load_removed s.snapshot_removed (load_records s.snapshot_records no_maps));
  wal = some log;
}

abbrev values : List (ℕ × LineageRecord) → List LineageRecord
values [] = []
values ((id, r) ∷ m) = r ∷ values m

-- `checkpoint`: with a log, everything is written to the snapshot and the log is truncated.
unfoldable pub checkpoint : LineageIndex → Option (Snapshot × LineageIndex)
checkpoint index = elim index.wal [
  | none ↦ none
  | some log ↦ some (
    record {
      snapshot_records = values index.child_to_record;
      snapshot_removed = index.removed_nodes;
    },
    record index { wal = some [] },
  )
]
