-- ===== src/Lsm/Tests.antt =====
-- The theorems on the storage engine at concrete tables.
use amind.Prelude.{
  ℕ, ◌+◌, ◌*◌, ◌%◌, ◌^◌, ◌≤◌, ◌≡◌, refl, false, true, none, some, List, [], ◌∷◌, arith,
  if◌then◌else◌, length,
}
use amind.Prelude.Map
use amind.Lsm.Entries.{Entry, Ascending}
use amind.Lsm.Block.{find_key, entry_value}
use amind.Lsm.Block.Search.{find_key-find}
use amind.Lsm.SsTable.{TableFile, SsTableReader, write_file, load}
use amind.Lsm.SsTable.Writer.{AllSmall}
use amind.Lsm.MemTable.{flushed_entries}
use amind.Lsm.SsTable.Written.{IsTable, write_file-IsTable}
use amind.Lsm.Merge.Newest.{live}
use amind.Lsm.Manifest.{sst, l1_sst}
use amind.Lsm.Levels.{Table, LsmEngine, done, new_engine, merged_entries, estimated_entries}
use amind.Lsm.Engine.{
  search_tables, get_value, get_value_throws, flush_locked, compact_l0, force_compact,
}
use amind.Lsm.Engine.Reads.{IsEngine, search_tables-find}
use amind.Lsm.Engine.Flush.{is_buried, flush_locked-get_value}
use amind.Lsm.Engine.Compact.{merged_entries-search_tables}
use amind.Lsm.Engine.Cascade.{IsCompacted, compact_l0-IsCompacted}
use amind.Lsm.Engine.Stale.{force_compact-stale}
use amind.Lsm.Engine.Refine.{Write, written, put_all, put_all-refines}

abbrev mix : (key seed : ℕ) → ℕ
mix key seed = (key * 31 + seed * 17 + 5) % 2 ^ 64

abbrev older : List Entry
older = (3, 7 ∷ []) ∷ (5, 8 ∷ 9 ∷ []) ∷ []

abbrev newer : List Entry
newer = (3, 1 ∷ []) ∷ (4, []) ∷ []

older-Ascending : Ascending older
older-Ascending = ((omega arith, tt), (tt, tt))

newer-Ascending : Ascending newer
newer-Ascending = ((omega arith, tt), (tt, tt))

find_key-find_example : entry_value older (find_key older 5) ≡ Map.find 5 older
find_key-find_example = find_key-find older 5 older-Ascending

write_file-IsTable_example :
    (f : TableFile) × (t : SsTableReader) × (write_file mix 7 2 older ≡ some f)
    × (load f ≡ some t)
    × IsTable mix older t
write_file-IsTable_example =
    write_file-IsTable mix 7 2 older (omega arith) (omega arith) older-Ascending
      (omega arith, (omega arith, tt))

abbrev IsMade : List Entry → Type 0
IsMade es = (t : SsTableReader) × IsTable mix es t

make : (es : List Entry) → length es ≤ 2 → Ascending es → AllSmall es → IsMade es
make es h a s = let (f, t, _, _, i) = write_file-IsTable mix 7 2 es h (omega arith) a s in (t, i)

older-IsMade : IsMade older
older-IsMade = make older (omega arith) older-Ascending (omega arith, (omega arith, tt))

newer-IsMade : IsMade newer
newer-IsMade = make newer (omega arith) newer-Ascending (omega arith, (omega arith, tt))

abbrev table_0 : Table
table_0 = record { file = sst 0; reader = newer-IsMade.0 }

abbrev table_1 : Table
table_1 = record { file = sst 1; reader = newer-IsMade.0 }

abbrev table_2 : Table
table_2 = record { file = l1_sst 0; reader = older-IsMade.0 }

-- Two tables on level 0 and an older one on level 1
abbrev engine : LsmEngine
engine = record new_engine {
  l0_tables = table_1 ∷ table_0 ∷ [];
  l1_tables = table_2 ∷ [];
  active = (6, record { value = 2 ∷ []; is_tombstone = true }) ∷ [];
}

engine-IsEngine : IsEngine mix engine
unfolding flushed_entries
engine-IsEngine = record {
  sorted = (tt, tt);
  idle = refl;
  l0 = ((newer, newer-Ascending, newer-IsMade.1), ((newer, newer-Ascending, newer-IsMade.1), tt));
  l1 = ((older, older-Ascending, older-IsMade.1), tt);
  l2 = tt;
  small = (omega arith, tt);
}

engine-entries : estimated_entries engine.l0_tables + estimated_entries engine.l1_tables ≡ 6
engine-entries = omega (arith, newer-IsMade.1.counts, older-IsMade.1.counts)

level_0 : search_tables mix engine.l0_tables 3 ≡ some (1 ∷ [])
unfolding Map.find
level_0 = search_tables-find mix table_1 (table_0 ∷ []) newer 3 newer-IsMade.1

level_1 : search_tables mix engine.l1_tables 3 ≡ some (7 ∷ [])
unfolding Map.find
level_1 = search_tables-find mix table_2 [] older 3 older-IsMade.1

merged_entries-search_tables_example :
    (es : List Entry) × (merged_entries engine.l0_tables ≡ some es)
    × Ascending es
    × (length es ≤ estimated_entries engine.l0_tables)
    × ((key : ℕ) → Map.find key es ≡ live (search_tables mix engine.l0_tables key))
merged_entries-search_tables_example =
    merged_entries-search_tables mix 7 engine.l0_tables engine-IsEngine.l0

flush_locked-get_value_example :
    (e' : LsmEngine) × (flush_locked mix 7 engine ≡ done e')
    × IsEngine mix e'
    × ((key : ℕ)
        → get_value mix e' key
          ≡ (if is_buried (Map.find key engine.active) then none else get_value mix engine key))
    × ((key : ℕ) → get_value_throws mix e' key ≡ false)
flush_locked-get_value_example = flush_locked-get_value mix 7 engine engine-IsEngine (omega arith)

compact_l0-IsCompacted_example :
    (e' : LsmEngine) × (compact_l0 mix 7 engine ≡ done e') × IsCompacted mix engine e'
compact_l0-IsCompacted_example =
    compact_l0-IsCompacted mix 7 engine engine-IsEngine (omega arith)
      (omega (arith, engine-entries))

force_compact-stale_example :
    (e' : LsmEngine) × (force_compact mix 7 engine ≡ done e')
    × (get_value mix engine 3 ≡ some (1 ∷ []))
    × (get_value mix e' 3 ≡ some (7 ∷ []))
unfolding Map.find
force_compact-stale_example =
    force_compact-stale mix 7 engine engine-IsEngine 3 1 7 [] [] (omega (arith, engine-entries))
      (omega arith) (omega arith) refl level_0 level_1

abbrev writes : List Write
writes =
    record { full = false; key = 4; head = 9; tail = [] }
    ∷ record { full = true; key = 2; head = 8; tail = 1 ∷ [] }
    ∷ record { full = true; key = 7; head = 6; tail = [] }
    ∷ []

put_all-refines_example :
    (e : LsmEngine) × (put_all mix 7 writes new_engine ≡ done e)
    × ((key : ℕ) → get_value_throws mix e key ≡ false)
    × ((key : ℕ) → get_value mix e key ≡ Map.find key (written writes))
unfolding Map.find
put_all-refines_example =
    put_all-refines mix 7 writes (refl, (refl, (refl, tt))) (omega arith)
      (omega arith, (omega arith, (omega arith, tt)))
