-- ===== src/Lsm/Engine/Compact.antt =====
-- A compaction merges a level into one table, which becomes the last of the next level.
use amind.Prelude.{
  ℕ, sym, ==_refl, ◌==◌, suc, ◌+◌, ◌*◌, ◌^◌, ◌≤◌, ◌<◌, ◌≡◌, refl, ap, ◌∙◌, false, Option, none,
  some, List, [], ◌∷◌, ◌++◌, arith, ltb, length,
}
use amind.Prelude.Map
use amind.Lsm.Entries.{Entry, Ascending, or_else, AllAbove-get_elem?, find-get_elem?}
use amind.Lsm.SsTable.{SsTableReader, index_entry_size}
use amind.Lsm.SsTable.Writer.{AllSmall, max_value_size}
use amind.Lsm.SsTable.Written.{IsTable, write_file-IsTable}
use amind.Lsm.Merge.Newest.{live, total}
use amind.Lsm.Merge.Merged.{IsMerged, merge_loop-IsMerged}
use amind.Lsm.Levels.{
  Table, LsmEngine, done, Level, zeroth, first, source_tables, cursors_of, estimated_entries,
  merged_entries, retire, l1_table, l2_table, push_back, install,
}
use amind.Lsm.Engine.{search_tables, compact_one}
use amind.Lsm.Engine.Reads.{
  AllTables, append-AllTables, IsEngine, search_tables-find, search_tables-append,
  cursors_of-AllSound, newest-search_tables, search_tables-small, merge_throws-never,
  total-estimated_entries,
}

pub estimated_entries-append :
    (ts us : List Table)
    → estimated_entries (ts ++ us) ≡ estimated_entries ts + estimated_entries us
estimated_entries-append [] us = omega arith
estimated_entries-append (t ∷ ts) us = omega (arith, estimated_entries-append ts us)

source-AllTables :
    (hash : (key seed : ℕ) → ℕ) (level : Level) (e : LsmEngine)
    → IsEngine hash e
    → AllTables hash (source_tables level e)
source-AllTables hash zeroth e i = i.l0
source-AllTables hash first e i = i.l1

-- A table that is the merge of `ts`.
pub record IsMergeOf (hash : (key seed : ℕ) → ℕ) (ts : List Table) (t : SsTableReader)
    : Type 0 where
  pub entries : List Entry
  pub up : Ascending entries
  pub table : IsTable hash entries t
  pub finds : (key : ℕ) → Map.find key entries ≡ live (search_tables hash ts key)
  pub bounded : t.entry_count ≤ estimated_entries ts

live-some : (o : Option (List ℕ)) (v : List ℕ) → live o ≡ some v → o ≡ some v
live-some none v e = e
live-some (some []) v e = absurd (cc)
live-some (some (b ∷ u)) v e = e

-- Entries are small if whatever is found among them is.
AllSmall-found :
    (es : List Entry)
    → Ascending es
    → ((key : ℕ) (v : List ℕ) → Map.find key es ≡ some v → length v ≤ max_value_size)
    → AllSmall es
unfolding Map.find
AllSmall-found [] up h = tt
AllSmall-found ((k, w) ∷ es) up h = (
  h k w (ground (arith, ==_refl k)),
  AllSmall-found es up.1 (λ key v found. h key v (rw (elsewhere key v found) found)),
)
  where
    elsewhere : (key : ℕ) (v : List ℕ) → Map.find key es ≡ some v → (k == key) ≡ false
    elsewhere key v found =
        let (i, within, at_i) = find-get_elem? es key v found in
        ground (arith, AllAbove-get_elem? k es i key v up.0 at_i)

module _ (hash : (key seed : ℕ) → ℕ) (rounded : ℕ) where
  merged_entries-IsMerged :
      (ts : List Table)
      → AllTables hash ts
      → (es : List Entry) × (merged_entries ts ≡ some es) × IsMerged none (cursors_of ts) es
  merged_entries-IsMerged ts a =
      merge_loop-IsMerged (suc (total (cursors_of ts))) (cursors_of ts) none
        (cursors_of-AllSound hash ts a) tt (omega arith)

  -- The merge of tables ends within its fuel. Its entries have rising keys, and are no more than
  -- the tables have; for each key they have the value of the first table that holds the key, unless
  -- this value is empty.
  pub merged_entries-search_tables :
      (ts : List Table)
      → AllTables hash ts
      → (es : List Entry) × (merged_entries ts ≡ some es)
        × Ascending es
        × (length es ≤ estimated_entries ts)
        × ((key : ℕ) → Map.find key es ≡ live (search_tables hash ts key))
  merged_entries-search_tables ts a =
      let (es, merges, m) = merged_entries-IsMerged ts a in
      (
        es,
        merges,
        m.rising,
        omega (arith, m.bounded, total-estimated_entries hash ts a),
        λ key. m.finds key refl ∙ ap live (newest-search_tables hash ts key a),
      )

  merged-small :
      (ts : List Table) (es : List Entry) (key : ℕ) (v : List ℕ)
      → AllTables hash ts
      → ((j : ℕ) → Map.find j es ≡ live (search_tables hash ts j))
      → Map.find key es ≡ some v
      → length v ≤ max_value_size
  merged-small ts es key v a finds found =
      search_tables-small hash ts key v a
        (live-some (search_tables hash ts key) v (sym (finds key) ∙ found))

  pub compact_one-done :
      (level : Level) (e : LsmEngine)
      → IsEngine hash e
      → 2 ≤ length (source_tables level e)
      → estimated_entries (source_tables level e) * index_entry_size < 2 ^ 32
      → (t : SsTableReader) × (compact_one hash rounded level e
          ≡ done (push_back level e.next_sst_id t (retire level e)))
        × IsMergeOf hash (source_tables level e) t
  unfolding compact_one
  compact_one-done level e i two h =
      let source = source_tables level e in
      let a = source-AllTables hash level e i in
      let (es, merges, up, few, finds) = merged_entries-search_tables source a in
      let (f, t, written, opened, it) =
        write_file-IsTable hash rounded (estimated_entries source) es few h up
          (AllSmall-found es up (λ k v found. merged-small source es k v a finds found)) in
      (
        t,
        rw (many, merge_throws-never hash source a, merges, written, compact_one, opened, install)
            refl,
        record {
          entries = es;
          up = up;
          table = it;
          finds = finds;
          bounded = omega (arith, few, it.counts);
        },
      )
    where
      many : ltb (length (source_tables level e)) 2 ≡ false
      many = ground arith

  pub appended :
      (ts us : List Table) (t : Table) (key : ℕ)
      → IsMergeOf hash ts t.reader
      → search_tables hash (us ++ t ∷ []) key
        ≡ or_else (search_tables hash us key) (live (search_tables hash ts key))
  unfolding search_tables
  appended ts us t key m =
      search_tables-append hash us (t ∷ []) key
      ∙ ap (or_else (search_tables hash us key)) (
          search_tables-find hash t [] m.entries key m.table
          ∙ or_else-none (Map.find key m.entries)
          ∙ m.finds key)
    where
      or_else-none : (o : Option (List ℕ)) → or_else o none ≡ o
      or_else-none none = refl
      or_else-none (some v) = refl

  pub compact_one-IsEngine :
      (level : Level) (e : LsmEngine) (t : SsTableReader)
      → IsEngine hash e
      → IsMergeOf hash (source_tables level e) t
      → IsEngine hash (push_back level e.next_sst_id t (retire level e))
  compact_one-IsEngine zeroth e t i m = record {
    sorted = i.sorted;
    small = i.small;
    idle = i.idle;
    l0 = tt;
    l1 =
        append-AllTables hash e.l1_tables (l1_table e.next_sst_id t ∷ []) i.l1
          ((m.entries, m.up, m.table), tt);
    l2 = i.l2;
  }
  compact_one-IsEngine first e t i m = record {
    sorted = i.sorted;
    small = i.small;
    idle = i.idle;
    l0 = i.l0;
    l1 = tt;
    l2 =
        append-AllTables hash e.l2_tables (l2_table e.next_sst_id t ∷ []) i.l2
          ((m.entries, m.up, m.table), tt);
  }
