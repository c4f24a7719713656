-- ===== src/Lsm/Engine/Flush.antt =====
-- A flush moves the memtable into a table, and the keys that it holds as removed become tombstones.
use amind.Prelude.{
  ℕ, ◌*◌, ◌^◌, ◌<◌, ◌≡◌, refl, ap, sym, ◌∙◌, Bool, true, false, Option, none, some, List, [], ◌∷◌,
  arith, if◌then◌else◌, length, Bool-cases, inl, inr,
}
use amind.Prelude.Map
use amind.Prelude.Ids.{is_empty}
use amind.Lsm.Entries.{Ascending, or_else}
use amind.Lsm.SsTable.{SsTableReader, index_entry_size}
use amind.Lsm.SsTable.Writer.{AllSmall}
use amind.Lsm.SsTable.Written.{IsTable, write_file-IsTable}
use amind.Lsm.MemTable.{MemTable, Node, flushed_value, flushed_entries}
use amind.Lsm.MemTable.Reads.{flushed_entries-Ascending, find-flushed_entries}
use amind.Lsm.Merge.Newest.{live}
use amind.Lsm.Manifest.{sst}
use amind.Lsm.Levels.{Table, LsmEngine, done}
use amind.Lsm.Engine.{
  search_tables, get_value, get_value_throws, flush_mem_table, flush_locked, flushed, with_sst_id,
  with_l0_table,
}
use amind.Lsm.Engine.Reads.{IsEngine, search_tables-find, get_value_throws-never}
use amind.Lsm.Engine.Write.{on_disk, read_node, get_value-read_node}

-- Whether the memtable holds the key as removed.
abbrev pub is_buried : Option Node → Bool
is_buried none = false
is_buried (some n) = n.is_tombstone

pub length-flushed_entries : (m : MemTable) → length (flushed_entries m) ≡ length m
unfolding flushed_entries
length-flushed_entries [] = refl
length-flushed_entries ((k, n) ∷ m) = omega (arith, length-flushed_entries m)

module _ (hash : (key seed : ℕ) → ℕ) (rounded : ℕ) where
  pub flush_mem_table-done :
      (m : MemTable) (e : LsmEngine)
      → Ascending m
      → length m * index_entry_size < 2 ^ 32
      → AllSmall (flushed_entries m)
      → (t : SsTableReader) × (flush_mem_table hash rounded m e
          ≡ done (with_l0_table e.manifest.next_sst_id t (with_sst_id e)))
        × IsTable hash (flushed_entries m) t
  unfolding flush_mem_table
  flush_mem_table-done m e a h small =
      let (f, t, written, opened, i) =
        write_file-IsTable hash rounded (length m) (flushed_entries m)
          (omega (arith, length-flushed_entries m)) h (flushed_entries-Ascending m a) small in
      (t, rw (written, opened, flush_mem_table) refl, i)

  -- What is read from disk once the memtable is the newest table.
  on_disk-flushed :
      (e : LsmEngine) (t : SsTableReader) (key : ℕ)
      → IsTable hash (flushed_entries e.active) t
      → live (on_disk hash (with_l0_table e.manifest.next_sst_id t (with_sst_id e)) key) ≡ (
          if is_buried (Map.find key e.active)
          then none
          else read_node (Map.find key e.active) (on_disk hash e key))
  on_disk-flushed e t key i =
      ap (λ (o : Option (List ℕ)). live (or_else o rest))
        (search_tables-find hash newest_table e.l0_tables (flushed_entries e.active) key i)
      ∙ ap (λ (o : Option (List ℕ)). live (or_else (or_else o l0) rest))
          (find-flushed_entries key e.active)
      ∙ node_lem (Map.find key e.active)
    where
      newest_table : Table
      newest_table = record { file = sst e.manifest.next_sst_id; reader = t }

      l0 : Option (List ℕ)
      l0 = search_tables hash e.l0_tables key

      rest : Option (List ℕ)
      rest = or_else (search_tables hash e.l1_tables key) (search_tables hash e.l2_tables key)

      node_lem :
          (o : Option Node)
          → live
              (or_else (or_else (elim o [ none ↦ none | some n ↦ some (flushed_value n) ]) l0) rest)
            ≡ (if is_buried o then none else read_node o (or_else l0 rest))
      node_lem none = refl
      node_lem (some n) = elim (Bool-cases n.is_tombstone) [
        | inl removed ↦ rw removed refl
        | inr kept ↦ rw kept refl
      ]

  flush_mem_table-IsEngine :
      (e : LsmEngine) (t : SsTableReader)
      → IsEngine hash e
      → IsTable hash (flushed_entries e.active) t
      → IsEngine hash (flushed (with_l0_table e.manifest.next_sst_id t (with_sst_id e)))
  unfolding flushed_entries
  flush_mem_table-IsEngine e t i it = record {
    sorted = tt;
    small = tt;
    idle = i.idle;
    l0 = ((flushed_entries e.active, flushed_entries-Ascending e.active i.sorted, it), i.l0);
    l1 = i.l1;
    l2 = i.l2;
  }

  empty_active : (m : MemTable) (key : ℕ) → is_empty m ≡ true → Map.find key m ≡ none
  unfolding Map.find
  empty_active [] key e = refl
  empty_active (x ∷ m) key e = absurd (ground (arith, e))

  -- A flush returns, if the memtable has few enough entries for the size of an index. It
  -- keeps what `get` returns for every key, but for the keys that the memtable holds as removed:
  -- for these `get` returns none from then on, and for no key `get` throws.
  pub flush_locked-get_value :
      (e : LsmEngine)
      → IsEngine hash e
      → length e.active * index_entry_size < 2 ^ 32
      → (e' : LsmEngine) × (flush_locked hash rounded e ≡ done e')
        × IsEngine hash e'
        × ((key : ℕ)
            → get_value hash e' key
              ≡ (if is_buried (Map.find key e.active) then none else get_value hash e key))
        × ((key : ℕ) → get_value_throws hash e' key ≡ false)
  unfolding flush_locked Map.find search_tables
  flush_locked-get_value e i h = elim (Bool-cases (is_empty e.active)) [
    | inl nothing ↦ (
      e,
      rw (nothing, flush_locked) refl,
      i,
      λ key. rw (empty_active e.active key nothing) refl,
      λ key. get_value_throws-never hash e key i,
    )
    | inr some_left ↦
        let (t, flushes, it) = flush_mem_table-done e.active e i.sorted h i.small in
        let e' = flushed (with_l0_table e.manifest.next_sst_id t (with_sst_id e)) in
        let i' = flush_mem_table-IsEngine e t i it in
        (
          e',
          rw (some_left, flushes, flush_locked) refl,
          i',
          λ key.
              get_value-read_node hash e' i' key
              ∙ on_disk-flushed e t key it
              ∙ ap (λ (o : Option (List ℕ)). if is_buried (Map.find key e.active) then none else o)
                  (sym (get_value-read_node hash e i key)),
          λ key. get_value_throws-never hash e' key i',
        )
  ]
