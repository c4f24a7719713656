-- ===== src/Wal/Recovery.antt =====
-- src/storage/recovery.{h,cpp}: the replay of the log's files. `deserialize` reads a record, and has
-- none for an error; the handlers are the list of their calls.
use amind.Prelude.{
  ℕ, ◌+◌, Option, none, some, List, [], ◌∷◌, ◌++◌, ◌==◌, leb, if◌then◌else◌, length,
}
use amind.Prelude.Ids.{is_empty}
use amind.Prelude.Bytes.{le_value, take}
use amind.Prelude.Files.{sort_files, contents}
use package.amind.Wal.{WalEntry, WriteAheadLog, put_type, delete_type, read_all}

pub data Applied (R : Type 0) : Type 0 where
  on_put : R → Applied R
  on_delete : ℕ → Applied R

pub record RecoveryStats (R : Type 0) : Type 0 where
  pub entries_replayed : ℕ
  pub puts_applied : ℕ
  pub deletes_applied : ℕ
  pub entries_skipped : ℕ
  pub wal_files_processed : ℕ
  pub applied : List (Applied R)

abbrev pub no_stats : {R : Type 0} → RecoveryStats R
no_stats = record {
  entries_replayed = 0;
  puts_applied = 0;
  deletes_applied = 0;
  entries_skipped = 0;
  wal_files_processed = 0;
  applied = [];
}

-- `walFiles`: the archived files, the oldest first, and the active file unless it is empty
unfoldable pub wal_files : WriteAheadLog → List (List ℕ)
wal_files w =
    let archived = contents (sort_files w.archived) in
    if is_empty w.bytes then archived else archived ++ w.bytes ∷ []

-- `++stats.wal_files_processed`
abbrev pub next_file : {R : Type 0} → RecoveryStats R → RecoveryStats R
next_file t = record t { wal_files_processed = t.wal_files_processed + 1 }

module _ {R : Type 0} (deserialize : List ℕ → Option R) where
  abbrev skip : RecoveryStats R → RecoveryStats R
  skip t = record t { entries_skipped = t.entries_skipped + 1 }

  -- The `switch` on the type of an entry
  unfoldable pub apply_entry : WalEntry → RecoveryStats R → RecoveryStats R
  apply_entry e t =
      if e.entry_type == put_type
      then (elim (deserialize e.payload) [
        | none ↦ skip t
        | some r ↦ record t {
          puts_applied = t.puts_applied + 1;
          applied = t.applied ++ on_put r ∷ [];
        }
      ])
      else if e.entry_type == delete_type
      then (if leb 8 (length e.payload)
          then record t {
            deletes_applied = t.deletes_applied + 1;
            applied = t.applied ++ on_delete (le_value (take 8 e.payload)) ∷ [];
          }
          else skip t)
      else skip t

  abbrev pub replay_entry : WalEntry → RecoveryStats R → RecoveryStats R
  replay_entry e t =
      let u = apply_entry e t in record u { entries_replayed = u.entries_replayed + 1 }

  unfoldable pub replay_entries : List WalEntry → RecoveryStats R → RecoveryStats R
  replay_entries [] t = t
  replay_entries (e ∷ es) t = replay_entries es (replay_entry e t)

  module _ (crc : List ℕ → ℕ) where
    unfoldable pub recover_files : List (List ℕ) → RecoveryStats R → RecoveryStats R
    recover_files [] t = t
    recover_files (bytes ∷ files) t =
        recover_files files (next_file (replay_entries (read_all crc bytes) t))

    unfoldable pub recover : WriteAheadLog → RecoveryStats R
    recover w = recover_files (wal_files w) no_stats

-- The entries of the files, in order
abbrev pub entries_of : (crc : List ℕ → ℕ) → List (List ℕ) → List WalEntry
entries_of crc [] = []
entries_of crc (bytes ∷ files) = read_all crc bytes ++ entries_of crc files
