-- ===== src/Lsm/Log.antt =====
-- src/lsm/lsm_wal.{h,cpp}: the log of the storage engine in bytes. A file is the list of its bytes;
-- `crc` is CRC32C, `now` the clock in seconds. `fsync` and the errors of the file system are left out.
pub mod Framing
pub mod Header
pub mod Data
pub mod Replay
pub mod Crash
pub mod Replayed
pub mod Segments
pub mod Durable
mod Tests
use amind.Prelude.{
  ℕ, zero, suc, ◌+◌, ◌-◌, ◌*◌, ◌%◌, ◌^◌, Bool, true, false, not, ◌&&◌, List, [], ◌∷◌, ◌++◌, ◌==◌,
  ltb, leb, if◌then◌else◌, length, keep,
}
use amind.Prelude.Map.{assign}
use amind.Prelude.Ids.{is_empty}
use amind.Prelude.Bytes.{le_bytes, le_value, take, drop}
use amind.Prelude.Files.{sort_files, contents}

-- A record; the type is the byte of the file, 0 for a put and 1 for a removal.
pub record LogRecord : Type 0 where
  pub record_type : ℕ
  pub seq : ℕ
  pub key : ℕ
  pub data_bytes : List ℕ

abbrev pub wal_magic : ℕ
wal_magic = 0x574c

abbrev pub wal_version : ℕ
wal_version = 1

abbrev pub delete_type : ℕ
delete_type = 1

-- 64 MB
abbrev pub max_data_len : ℕ
max_data_len = 64 * 1024 * 1024

abbrev pub data_len : LogRecord → ℕ
data_len r = length r.data_bytes % 2 ^ 32

-- The 28 bytes under the checksum of the header
unfoldable pub header_fields : LogRecord → List ℕ
header_fields r =
    le_bytes 2 wal_magic
    ++ (le_bytes 2 wal_version
        ++ ((r.record_type ∷ 0 ∷ 0 ∷ 0 ∷ [])
            ++ (le_bytes 8 r.seq ++ (le_bytes 8 r.key ++ le_bytes 4 (data_len r)))))

-- What one turn of the loop of `replay` does: it ends the file, quietly or as corrupted, it skips a
-- corrupted record, or it has a record; with the bytes that are left.
pub data Turn : Type 0 where
  ends corrupted : Turn
  skips : List ℕ → Turn
  finds : LogRecord → List ℕ → Turn

-- A record without data, or with data whose checksum holds, unless it is a removal with data
abbrev pub checked : LogRecord → List ℕ → Turn
checked r rest =
    if r.record_type == delete_type && ltb 0 (length r.data_bytes) then corrupted else finds r rest

abbrev pub with_data : LogRecord → List ℕ → LogRecord
with_data r bytes = record r { data_bytes = bytes }

abbrev pub byte_at : ℕ → List ℕ → ℕ
byte_at n bytes = le_value (take 1 (drop n bytes))

module _ (crc : List ℕ → ℕ) where
  unfoldable pub header : LogRecord → List ℕ
  header r = header_fields r ++ le_bytes 4 (crc (header_fields r))

  unfoldable pub data_part : LogRecord → List ℕ
  data_part r = if ltb 0 (data_len r) then r.data_bytes ++ le_bytes 4 (crc r.data_bytes) else []

  -- What `writeRecord` writes
  unfoldable pub record_bytes : LogRecord → List ℕ
  record_bytes r = header r ++ data_part r

  -- The data behind a header that is in order
  unfoldable pub read_data : LogRecord → (len : ℕ) → List ℕ → Turn
  read_data r len rest =
      if ltb 0 len
      then (if ltb (length rest) len
          then corrupted
          else if ltb (length (drop len rest)) 4
          then corrupted
          else if crc (take len rest) == le_value (take 4 (drop len rest))
          then checked (with_data r (take len rest)) (drop (len + 4) rest)
          else skips (drop (len + 4) rest))
      else checked r rest

  unfoldable pub read_turn : List ℕ → Turn
  read_turn bytes =
      let len = le_value (take 4 (drop 24 bytes)) in
      let rest = drop 32 bytes in
      if ltb (length bytes) 32
      then ends
      else if not (le_value (take 2 bytes) == wal_magic)
      then corrupted
      else if not (le_value (take 2 (drop 2 bytes)) == wal_version)
      then corrupted
      else if not (crc (take 28 bytes) == le_value (take 4 (drop 28 bytes)))
      then skips (if ltb 0 len then drop ((len + 4) % 2 ^ 32) rest else rest)
      else if ltb max_data_len len
      then corrupted
      else read_data
          (record {
            record_type = byte_at 4 bytes;
            seq = le_value (take 8 (drop 8 bytes));
            key = le_value (take 8 (drop 16 bytes));
            data_bytes = [];
          })
          len rest
