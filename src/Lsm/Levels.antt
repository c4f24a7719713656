-- ===== src/Lsm/Levels.antt =====
-- The state of LSMEngine (src/lsm/lsm_engine.h) and the parts of `compactLevel`: what it reads from a
-- level and what it changes once the new file is written.
use amind.Prelude.{Bool, false, ◌||◌, ℕ, suc, ◌+◌, Option, none, some, List, [], ◌∷◌, ◌++◌}
use amind.Lsm.Entries.{Entry}
use amind.Lsm.SsTable.{TableFile, SsTableReader, load}
use amind.Lsm.SsTable.Cursor.{Cursor, start_cursor, walk_throws}
use amind.Lsm.MemTable.{MemTable}
use amind.Lsm.Merge.{merge_loop}
use amind.Lsm.Merge.Newest.{total}
use amind.Lsm.Manifest.{FileName, l1_sst, l2_sst, Manifest, compact_l0_to_l1, compact_l1_to_l2}

pub record Table : Type 0 where
  pub file : FileName
  pub reader : SsTableReader

pub data WalEntry : Type 0 where
  wal_put : (seq key : ℕ) (data_bytes : List ℕ) → WalEntry
  wal_delete : (seq key : ℕ) → WalEntry

pub record LsmEngine : Type 0 where
  pub active : MemTable
  pub immutable : Option MemTable
  pub l0_tables : List Table
  pub l1_tables : List Table
  pub l2_tables : List Table
  pub next_sst_id : ℕ
  pub sequence_number : ℕ
  pub wal : List WalEntry
  pub manifest : Manifest
  pub saved : Manifest

-- An engine that is opened on an empty directory.
abbrev pub new_manifest : Manifest
new_manifest = record {
  checkpoint_seq = 0;
  next_sst_id = 0;
  l0_files = [];
  l1_files = [];
  l2_files = [];
}

abbrev pub new_engine : LsmEngine
new_engine = record {
  active = [];
  immutable = none;
  l0_tables = [];
  l1_tables = [];
  l2_tables = [];
  next_sst_id = 0;
  sequence_number = 0;
  wal = [];
  manifest = new_manifest;
  saved = new_manifest;
}

-- What a call leaves: it returns, or it throws.
pub data Outcome : Type 0 where
  done : LsmEngine → Outcome
  threw : LsmEngine → Outcome

abbrev pub then_do : Outcome → (LsmEngine → Outcome) → Outcome
then_do (done e) f = f e
then_do (threw e) f = threw e

abbrev pub l0_compaction_threshold : ℕ
l0_compaction_threshold = 4

abbrev pub l1_compaction_threshold : ℕ
l1_compaction_threshold = 4

-- Level 0 is compacted into level 1, and level 1 into level 2.
pub data Level : Type 0 where
  zeroth : Level
  first : Level

abbrev pub source_tables : Level → LsmEngine → List Table
source_tables zeroth e = e.l0_tables
source_tables first e = e.l1_tables

-- `manifest_->save()`
abbrev pub save_manifest : LsmEngine → LsmEngine
save_manifest e = record e { saved = e.manifest }

-- `setCheckpointSeq(sequence_number_)`, then `save()`
abbrev pub checkpoint : LsmEngine → LsmEngine
checkpoint e =
    save_manifest (record e { manifest = record e.manifest { checkpoint_seq = e.sequence_number } })

abbrev pub files_of : List Table → List FileName
files_of [] = []
files_of (t ∷ ts) = t.file ∷ files_of ts

abbrev pub cursors_of : List Table → List Cursor
cursors_of [] = []
cursors_of (t ∷ ts) = start_cursor t.reader.blocks ∷ cursors_of ts

-- Whether a cursor throws on its way through its table, which the merge does not catch.
abbrev pub merge_throws : List Table → Bool
merge_throws [] = false
merge_throws (t ∷ ts) = walk_throws t.reader.blocks || merge_throws ts

abbrev pub estimated_entries : List Table → ℕ
estimated_entries [] = 0
estimated_entries (t ∷ ts) = t.reader.entry_count + estimated_entries ts

-- What the loop adds to the writer.
abbrev pub merged_entries : List Table → Option (List Entry)
merged_entries ts = merge_loop (suc (total (cursors_of ts))) (cursors_of ts) none

-- The tail of `compactLevel` once the new file is written: the manifest is saved, and the level is
-- cleared.
abbrev pub retire : Level → LsmEngine → LsmEngine
retire zeroth e =
    let id = e.next_sst_id in
    let m = record e.manifest { next_sst_id = id + 1 } in
    record (save_manifest
      (record e { manifest = compact_l0_to_l1 (files_of e.l0_tables) (l1_sst id) m })) {
        next_sst_id = id + 1;
        l0_tables = [];
      }
retire first e =
    let id = e.next_sst_id in
    let m = record e.manifest { next_sst_id = id + 1 } in
    record (save_manifest
      (record e { manifest = compact_l1_to_l2 (files_of e.l1_tables) (l2_sst id) m })) {
        next_sst_id = id + 1;
        l1_tables = [];
      }

abbrev pub l1_table : (id : ℕ) → SsTableReader → Table
l1_table id t = record { file = l1_sst id; reader = t }

abbrev pub l2_table : (id : ℕ) → SsTableReader → Table
l2_table id t = record { file = l2_sst id; reader = t }

-- `dest_tables.push_back`
abbrev pub push_back : Level → (id : ℕ) → SsTableReader → LsmEngine → LsmEngine
push_back zeroth id t e = record e { l1_tables = e.l1_tables ++ l1_table id t ∷ [] }
push_back first id t e = record e { l2_tables = e.l2_tables ++ l2_table id t ∷ [] }

-- The new file is opened last.
abbrev pub install : Level → (id : ℕ) → TableFile → LsmEngine → Outcome
install level id f e = elim (load f) [ none ↦ threw e | some t ↦ done (push_back level id t e) ]
