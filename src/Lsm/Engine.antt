-- ===== src/Lsm/Engine.antt =====
-- src/lsm/lsm_engine.cpp: the tables in memory, the levels of tables on disk, the log and the
-- manifest. A table stands for its file, `saved` for the manifest on disk. The lock, the thread that
-- flushes now and then, the directory scan and the removal of files are left out.
pub mod Reads
pub mod Write
pub mod Flush
pub mod Compact
pub mod Cascade
pub mod Store
pub mod Once
pub mod Refine
pub mod Stale
use amind.Prelude.{
  ℕ, zero, suc, ◌+◌, Bool, true, false, ◌||◌, Option, none, some, List, [], ◌∷◌, ◌++◌, ltb, leb,
  if◌then◌else◌, length, map,
}
use amind.Prelude.Ids.{is_empty}
use amind.Bloom.{may_contain}
use amind.Lsm.Entries.{Entry}
use amind.Lsm.SsTable.{TableFile, SsTableReader, get, get_throws, write_file, load}
use amind.Lsm.SsTable.Cursor.{Cursor, remaining, load_current}
use amind.Lsm.MemTable
use amind.Lsm.MemTable.{MemTable, get_raw, flushed_entries}
use amind.Lsm.Merge.{merge_loop}
use amind.Lsm.Merge.Newest.{total}
use amind.Lsm.Levels.{
  Table, WalEntry, LsmEngine, new_manifest, new_engine, Outcome, then_do, l0_compaction_threshold,
  l1_compaction_threshold, Level, source_tables, save_manifest, checkpoint, files_of, cursors_of,
  merge_throws, estimated_entries, merged_entries, retire, l1_table, l2_table, push_back, install,
  wal_put, wal_delete, done, threw, zeroth, first,
}
use amind.Lsm.Manifest.{
  FileName, sst, l1_sst, l2_sst, Manifest, add_l0_file, compact_l0_to_l1, compact_l1_to_l2,
}

-- What a key has in the first table that holds it.
unfoldable pub search_tables : ((key seed : ℕ) → ℕ) → List Table → ℕ → Option (List ℕ)
search_tables hash [] key = none
search_tables hash (t ∷ ts) key =
    let rest = search_tables hash ts key in
    if may_contain hash t.reader.bloom_filter key
    then elim (get hash t.reader key) [ none ↦ rest | some value ↦ some value ]
    else rest

-- Whether the search meets a table that makes it throw, before it finds the key.
unfoldable pub search_throws : ((key seed : ℕ) → ℕ) → List Table → ℕ → Bool
search_throws hash [] key = false
search_throws hash (t ∷ ts) key =
    let rest = search_throws hash ts key in
    if may_contain hash t.reader.bloom_filter key
    then get_throws hash t.reader key
      || elim (get hash t.reader key) [ none ↦ rest | some v ↦ false ]
    else rest

-- An empty value is a tombstone.
abbrev pub unless_empty : List ℕ → Option (List ℕ)
unless_empty value = if is_empty value then none else some value

abbrev pub immutable_raw : Option MemTable → ℕ → Option (List ℕ)
immutable_raw none key = none
immutable_raw (some m) key = get_raw key m

-- What `flushLocked` does after the flush: the log is cut before the checkpoint is saved.
abbrev pub flushed : LsmEngine → LsmEngine
flushed e = checkpoint (record e { active = []; wal = [] })

-- What `flushAndCompact` does after the flush: the checkpoint is saved before the log is cut.
abbrev pub after_flush : LsmEngine → LsmEngine
after_flush e = record (checkpoint (record e { immutable = none })) { wal = [] }

-- `allocateSstId`
abbrev pub with_sst_id : LsmEngine → LsmEngine
with_sst_id e = record e {
  manifest = record e.manifest { next_sst_id = e.manifest.next_sst_id + 1 };
}

-- The newest table is the first.
abbrev pub with_l0_table : (id : ℕ) → SsTableReader → LsmEngine → LsmEngine
with_l0_table id t e = record e {
  l0_tables = record { file = sst id; reader = t } ∷ e.l0_tables;
  manifest = add_l0_file (sst id) e.manifest;
}

-- The log and the memtable after a write.
abbrev pub logged_put : (key : ℕ) (value : List ℕ) → LsmEngine → LsmEngine
logged_put key value e =
    let seq = e.sequence_number + 1 in
    record e {
      sequence_number = seq;
      wal = e.wal ++ wal_put seq key value ∷ [];
      active = MemTable.put key value e.active;
    }

module _ (hash : (key seed : ℕ) → ℕ) where
  -- `LSMEngine::get`
  unfoldable pub get_value : LsmEngine → ℕ → Option (List ℕ)
  get_value e key = elim (get_raw key e.active) [
    | some value ↦ unless_empty value
    | none ↦ elim (immutable_raw e.immutable key) [
      | some value ↦ unless_empty value
      | none ↦ elim (search_tables hash e.l0_tables key) [
        | some value ↦ unless_empty value
        | none ↦ elim (search_tables hash e.l1_tables key) [
          | some value ↦ unless_empty value
          | none ↦ elim (search_tables hash e.l2_tables key) [
            | some value ↦ unless_empty value
            | none ↦ none
          ]
        ]
      ]
    ]
  ]

  -- Whether `LSMEngine::get` throws; else it returns what `get_value` is.
  unfoldable pub get_value_throws : LsmEngine → ℕ → Bool
  unfolding search_throws
  get_value_throws e key = elim (get_raw key e.active) [
    | some value ↦ false
    | none ↦ elim (immutable_raw e.immutable key) [
      | some value ↦ false
      | none ↦ search_throws hash e.l0_tables key || elim (search_tables hash e.l0_tables key) [
        | some value ↦ false
        | none ↦ search_throws hash e.l1_tables key || elim (search_tables hash e.l1_tables key) [
          | some value ↦ false
          | none ↦ search_throws hash e.l2_tables key
        ]
      ]
    ]
  ]

  module _ (rounded : ℕ) where
    -- `flushMemTable`
    unfoldable pub flush_mem_table : MemTable → LsmEngine → Outcome
    flush_mem_table m e = elim (write_file hash rounded (length m) (flushed_entries m)) [
      | none ↦ threw (with_sst_id e)
      | some f ↦ elim (load f) [
        | none ↦ threw (with_sst_id e)
        | some t ↦ done (with_l0_table e.manifest.next_sst_id t (with_sst_id e))
      ]
    ]

    -- `flushLocked`
    unfoldable pub flush_locked : LsmEngine → Outcome
    flush_locked e =
        if is_empty e.active
        then done e
        else then_do (flush_mem_table e.active e) (λ e'. done (flushed e'))

    -- `compactLevel` without the cascade
    unfoldable pub compact_one : Level → LsmEngine → Outcome
    compact_one level e =
        let source = source_tables level e in
        let e' = record e { next_sst_id = e.next_sst_id + 1 } in
        if ltb (length source) 2
        then done e
        else if merge_throws source
        then threw e'
        else elim (merged_entries source) [
          | none ↦ threw e'
          | some entries ↦ elim (write_file hash rounded (estimated_entries source) entries) [
            | none ↦ threw e'
            | some f ↦ install level e.next_sst_id f (retire level e)
          ]
        ]

    -- `compactL0`: `compactLevel` of level 0, with its cascade
    unfoldable pub compact_l0 : LsmEngine → Outcome
    compact_l0 e =
        if ltb (length e.l0_tables) 2
        then done e
        else then_do (compact_one zeroth e) (λ e'.
          if leb l1_compaction_threshold (length e'.l1_tables)
          then compact_one first e'
          else done e')

    -- `maybeCompact`
    unfoldable pub maybe_compact : LsmEngine → Outcome
    maybe_compact e =
        if leb l0_compaction_threshold (length e.l0_tables) then compact_l0 e else done e

    -- `forceCompact`
    unfoldable pub force_compact : LsmEngine → Outcome
    force_compact e = if leb 2 (length e.l0_tables) then compact_l0 e else done e

    -- The `catch` puts the memtable back.
    abbrev restore : Outcome → Outcome
    restore (done e) = maybe_compact (after_flush e)
    restore (threw e) = elim e.immutable [
      | none ↦ threw e
      | some m ↦ threw (record e { active = m; immutable = none })
    ]

    -- `flushAndCompact`
    unfoldable pub flush_and_compact : LsmEngine → Outcome
    flush_and_compact e =
        restore (flush_mem_table e.active (record e { immutable = some e.active; active = [] }))

    -- `putRaw`; `full` is the answer of `shouldFlush`.
    unfoldable pub put_raw : (full : Bool) (key : ℕ) (value : List ℕ) → LsmEngine → Outcome
    put_raw full key value e =
        if full then flush_and_compact (logged_put key value e) else done (logged_put key value e)

-- `LSMEngine::remove`
unfoldable pub remove_key : ℕ → LsmEngine → LsmEngine
remove_key key e =
    let seq = e.sequence_number + 1 in
    record e {
      sequence_number = seq;
      wal = e.wal ++ wal_delete seq key ∷ [];
      active = (MemTable.remove key e.active).0;
    }
