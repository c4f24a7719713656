-- ===== src/Lineage/Replay.antt =====
-- A restart: the maps that the snapshot and the log give back.
use amind.Prelude.{
  ℕ, ◌<◌, ◌^◌, true, length, ◌≡◌, ◌≢◌, refl, sym, some, List, [], ◌∷◌, ◌++◌, arith, ==_refl,
}
use amind.Prelude.Map
use amind.Prelude.Ids
use amind.Record.{LineageOp}
use amind.Lineage.{
  LineageIndex, Maps, WalEntry, records, removes, marks, Snapshot, record_lineage, remove_node,
  mark_removed, replay_entry, is_readable, replay, replay_from_wal, checkpoint, get_children,
  store_record, drop_node, mark,
}

pub data Operation : Type 0 where
  record_op : (now child : ℕ) (parents : List ℕ) (op : LineageOp) → Operation
  remove_op mark_op : ℕ → Operation

unfoldable pub run : List Operation → LineageIndex → LineageIndex
run [] index = index
run (record_op now child parents op ∷ ops) index =
    run ops (record_lineage now index child parents op)
run (remove_op id ∷ ops) index = run ops (remove_node index id)
run (mark_op id ∷ ops) index = run ops (mark_removed index id)

abbrev pub AllReadable : List WalEntry → Type 0
AllReadable [] = Unit {0}
AllReadable (e ∷ log) = (is_readable e ≡ true) × AllReadable log

-- Every recorded memory has fewer parents than 16 bits count.
abbrev pub AllFewParents : List Operation → Type 0
AllFewParents [] = Unit {0}
AllFewParents (record_op now child parents op ∷ ops) = (length parents < 2 ^ 16) × AllFewParents ops
AllFewParents (remove_op id ∷ ops) = AllFewParents ops
AllFewParents (mark_op id ∷ ops) = AllFewParents ops

AllReadable-append :
    (log : List WalEntry) (e : WalEntry)
    → AllReadable log
    → is_readable e ≡ true
    → AllReadable (log ++ e ∷ [])
AllReadable-append [] e a h = (h, tt)
AllReadable-append (d ∷ log) e a h = (a.0, AllReadable-append log e a.1 h)

replay-append :
    (log : List WalEntry) (e : WalEntry) (m : Maps)
    → AllReadable log
    → is_readable e ≡ true
    → replay (log ++ e ∷ []) m ≡ replay_entry e (replay log m)
unfolding replay
replay-append [] e m a h = rw (h, replay) refl
replay-append (d ∷ log) e m a h = rw (a.0, replay) (replay-append log e (replay_entry d m) a.1 h)

-- Each operation on a restored index is what the replay of one entry more would do.
module _ (s : Snapshot) (log : List WalEntry) (a : AllReadable log) where
  record_lineage-replay :
      (now child : ℕ) (parents : List ℕ) (op : LineageOp)
      → is_readable (records child parents op now) ≡ true
      → record_lineage now (replay_from_wal s log) child parents op
        ≡ replay_from_wal s (log ++ records child parents op now ∷ [])
  unfolding replay_from_wal record_lineage replay_entry
  record_lineage-replay now child parents op h =
      rw (replay-append log (records child parents op now) _ a h)

  remove_node-replay :
      (id : ℕ) → remove_node (replay_from_wal s log) id ≡ replay_from_wal s (log ++ removes id ∷ [])
  unfolding replay_from_wal remove_node replay_entry is_readable
  remove_node-replay id = rw (replay-append log (removes id) _ a refl)

  mark_removed-replay :
      (id : ℕ) → mark_removed (replay_from_wal s log) id ≡ replay_from_wal s (log ++ marks id ∷ [])
  unfolding replay_from_wal mark_removed replay_entry is_readable
  mark_removed-replay id = rw (replay-append log (marks id) _ a refl)

wal-replay_from_wal : (s : Snapshot) (log : List WalEntry) → (replay_from_wal s log).wal ≡ some log
unfolding replay_from_wal
wal-replay_from_wal s log = refl

run-restored :
    (s : Snapshot) (log : List WalEntry) (ops : List Operation)
    → AllReadable log
    → AllFewParents ops
    → (log' : List WalEntry) × AllReadable log'
      × (run ops (replay_from_wal s log) ≡ replay_from_wal s log')
unfolding run is_readable
run-restored s log [] a f = (log, a, refl)
run-restored s log (record_op now child parents op ∷ ops) a f =
    let readable : is_readable (records child parents op now) ≡ true = ground (arith, f.0) in
    rw (record_lineage-replay s log a now child parents op readable)
      (run-restored s _ ops (AllReadable-append log _ a readable) f.1)
run-restored s log (remove_op id ∷ ops) a f =
    rw (remove_node-replay s log a id)
      (run-restored s _ ops (AllReadable-append log (removes id) a refl) f)
run-restored s log (mark_op id ∷ ops) a f =
    rw (mark_removed-replay s log a id)
      (run-restored s _ ops (AllReadable-append log (marks id) a refl) f)

-- After any operations on an index that was restored from a snapshot and a log, a restart from the
-- same snapshot and the log as it then is gives the very same index back, if every entry of the log
-- and every recorded memory has fewer than 65536 parents.
pub run-replay_from_wal :
    (s : Snapshot) (log : List WalEntry) (ops : List Operation)
    → AllReadable log
    → AllFewParents ops
    → let index = run ops (replay_from_wal s log) in
      (log' : List WalEntry) × (index.wal ≡ some log') × (replay_from_wal s log' ≡ index)
run-replay_from_wal s log ops a f =
    let (log', _, e) = run-restored s log ops a f in
    (log', rw e (wal-replay_from_wal s log'), sym e)

-- The index in which `child` was derived from `parent`, after `parent` was removed.
abbrev no_snapshot : Snapshot
no_snapshot = record { snapshot_records = []; snapshot_removed = [] }

abbrev pub orphaned : (now parent child : ℕ) → LineageOp → LineageIndex
orphaned now parent child op =
    remove_node (record_lineage now (replay_from_wal no_snapshot []) child (parent ∷ []) op) parent

-- `removeNode` empties the children of the removed parent, but a checkpoint and a restart after it
-- list the child again.
pub get_children-checkpoint :
    (now parent child : ℕ) (op : LineageOp)
    → child ≢ parent
    → (get_children (orphaned now parent child op) parent ≡ [])
      × ((s : Snapshot) × (index : LineageIndex) × (checkpoint (orphaned now parent child op)
            ≡ some (s, index))
          × (get_children (replay_from_wal s []) parent ≡ child ∷ []))
unfolding get_children checkpoint replay_from_wal record_lineage remove_node store_record drop_node
    mark Map.find Map.assign Map.erase Ids.insert
get_children-checkpoint now parent child op h = (
  ground (arith, ==_refl parent),
  (
    record {
      snapshot_records =
          record { child_id = child; parent_ids = parent ∷ []; op = op; created_at = now } ∷ [];
      snapshot_removed = parent ∷ [];
    },
    record (orphaned now parent child op) { wal = some [] },
    ground arith,
    ground (arith, ==_refl parent),
  ),
)
