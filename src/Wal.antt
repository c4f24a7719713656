-- ===== src/Wal.antt =====
-- src/storage/wal.{h,cpp}: the log of entries with a length and a checksum. A file is the list of its
-- bytes; `crc` is CRC32C. The lock, `fsync` and the errors of the file system are left out.
pub mod Framing
pub mod Crash
pub mod Recovery
pub mod Counters
pub mod History
pub mod Recovered
mod Tests
use amind.Prelude.{
  ℕ, zero, suc, ◌+◌, ◌-◌, ◌%◌, ◌^◌, Bool, true, false, Option, none, some, List, [], ◌∷◌, ◌++◌,
  ◌==◌, ltb, if◌then◌else◌, length,
}
use amind.Prelude.Map.{assign}
use amind.Prelude.Bytes.{le_bytes, le_value, take, drop}

-- The type is the byte of the file; `WalEntryType` names 1 and 2.
pub record WalEntry : Type 0 where
  pub entry_type : ℕ
  pub payload : List ℕ

abbrev pub put_type : ℕ
put_type = 1

abbrev pub delete_type : ℕ
delete_type = 2

-- `diskSize`
abbrev pub disk_size : WalEntry → ℕ
disk_size e = 4 + 1 + length e.payload + 4

-- The file, its entries since the last rotation, and the files that were rotated out, by number
pub record WriteAheadLog : Type 0 where
  pub bytes : List ℕ
  pub entry_count : ℕ
  pub rotation_seq : ℕ
  pub archived : List (ℕ × List ℕ)

-- The constructor; the files are those on disk.
abbrev pub open_log : List ℕ → List (ℕ × List ℕ) → WriteAheadLog
open_log bytes archived = record {
  bytes = bytes;
  entry_count = 0;
  rotation_seq = 0;
  archived = archived;
}

-- The bytes under the checksum: the length, on 32 bits, the type and the payload
unfoldable pub crc_region : WalEntry → List ℕ
crc_region e = le_bytes 4 ((1 + length e.payload) % 2 ^ 32) ++ e.entry_type ∷ e.payload

abbrev pub byte_at_start : List ℕ → ℕ
byte_at_start [] = 0
byte_at_start (b ∷ bs) = b

module _ (crc : List ℕ → ℕ) where
  unfoldable pub entry_bytes : WalEntry → List ℕ
  entry_bytes e = crc_region e ++ le_bytes 4 (crc (crc_region e))

  unfoldable pub append_entry : WalEntry → WriteAheadLog → WriteAheadLog
  append_entry e w = record w { bytes = w.bytes ++ entry_bytes e; entry_count = w.entry_count + 1 }

  abbrev pub append_put : List ℕ → WriteAheadLog → WriteAheadLog
  append_put payload w = append_entry (record { entry_type = put_type; payload = payload }) w

  abbrev pub append_delete : List ℕ → WriteAheadLog → WriteAheadLog
  append_delete payload w = append_entry (record { entry_type = delete_type; payload = payload }) w

  -- One turn of the loop of `readAll`, on the bytes from the offset on: the entry and the bytes behind
  -- it, or none where the loop stops.
  unfoldable pub read_entry : List ℕ → Option (WalEntry × List ℕ)
  read_entry rest =
      let n = le_value (take 4 rest) in
      if ltb (length rest) 4
      then none
      else if ltb n 1
      then none
      else if ltb (length rest) (4 + n + 4)
      then none
      else if crc (take (4 + n) rest) == le_value (take 4 (drop (4 + n) rest))
      then some (
        record { entry_type = byte_at_start (drop 4 rest); payload = take (n - 1) (drop 5 rest) },
        drop (4 + n + 4) rest,
      )
      else none

  unfoldable pub read_entries : (fuel : ℕ) → List ℕ → List WalEntry
  read_entries zero rest = []
  read_entries (suc fuel) rest = elim (read_entry rest) [
    | none ↦ []
    | some found ↦ found.0 ∷ read_entries fuel found.1
  ]

  -- `readAll`; an entry has more than one byte.
  abbrev pub read_all : List ℕ → List WalEntry
  read_all bytes = read_entries (length bytes) bytes

-- `rotate`; a file of the new number is overwritten.
unfoldable pub rotate : WriteAheadLog → WriteAheadLog
rotate w = record {
  bytes = [];
  entry_count = 0;
  rotation_seq = w.rotation_seq + 1;
  archived = assign (w.rotation_seq + 1) w.bytes w.archived;
}
