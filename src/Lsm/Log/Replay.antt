-- ===== src/Lsm/Log/Replay.antt =====
-- The operations of src/lsm/lsm_wal.cpp: writes, batches, rotation, expiry and the replay.
use amind.Prelude.{
  ℕ, zero, suc, ◌+◌, ◌-◌, ◌%◌, ◌^◌, Bool, true, false, not, List, [], ◌∷◌, ◌++◌, ltb, leb,
  if◌then◌else◌, length, keep,
}
use amind.Prelude.Map.{assign}
use amind.Prelude.Files.{sort_files, contents}
use package.amind.Lsm.Log.{
  LogRecord, delete_type, data_len, ends, corrupted, skips, finds, record_bytes, read_turn,
}

-- `synced` counts the bytes of the active file that `flushAndSync` has put on the disk; `segments` are
-- the files that were rotated out, by time.
pub record LsmWriteAheadLog : Type 0 where
  pub bytes : List ℕ
  pub synced : ℕ
  pub segments : List (ℕ × List ℕ)
  pub max_segment_size : ℕ
  pub max_segment_age : ℕ
  pub current_size : ℕ
  pub in_batch : Bool

-- The constructor, for the files on disk
abbrev pub open_log : (bytes : List ℕ) → List (ℕ × List ℕ) → (size age : ℕ) → LsmWriteAheadLog
open_log bytes segments size age = record {
  bytes = bytes;
  synced = length bytes;
  segments = segments;
  max_segment_size = size;
  max_segment_age = age;
  current_size = length bytes;
  in_batch = false;
}

abbrev pub flush_and_sync : LsmWriteAheadLog → LsmWriteAheadLog
flush_and_sync w = record w { synced = length w.bytes }

abbrev pub begin_batch : LsmWriteAheadLog → LsmWriteAheadLog
begin_batch w = record w { in_batch = true }

abbrev pub end_batch : LsmWriteAheadLog → LsmWriteAheadLog
end_batch w = flush_and_sync (record w { in_batch = false })

abbrev pub truncate : LsmWriteAheadLog → LsmWriteAheadLog
truncate w = record w { bytes = []; synced = 0; current_size = 0 }

-- The age is a difference on 64 bits.
abbrev pub is_young : (now age : ℕ) → ℕ × List ℕ → Bool
is_young now age (timestamp, bytes) = not (ltb age ((now + 2 ^ 64 - timestamp) % 2 ^ 64))

unfoldable pub expire_old_segments : (now : ℕ) → LsmWriteAheadLog → LsmWriteAheadLog
expire_old_segments now w = record w { segments = keep (is_young now w.max_segment_age) w.segments }

-- A segment of the same second is overwritten.
unfoldable pub rotate : (now : ℕ) → LsmWriteAheadLog → LsmWriteAheadLog
rotate now w = expire_old_segments now (record w {
  bytes = [];
  synced = 0;
  current_size = 0;
  segments = assign now w.bytes w.segments;
})

-- `delete_type` and 0 are the types of `appendDelete` and `appendPut`.
abbrev pub put_entry : (seq key : ℕ) (given : List ℕ) → LogRecord
put_entry seq key given = record { record_type = 0; seq = seq; key = key; data_bytes = given }

abbrev pub delete_entry : (seq key : ℕ) → LogRecord
delete_entry seq key = record { record_type = delete_type; seq = seq; key = key; data_bytes = [] }

-- What a replay has done: the largest sequence number, the calls of the visitor, and the count of
-- corrupted records
pub record Replayed : Type 0 where
  pub max_seq : ℕ
  pub visited : List LogRecord
  pub corrupted_count : ℕ

abbrev pub new_replayed : Replayed
new_replayed = record { max_seq = 0; visited = []; corrupted_count = 0 }

unfoldable pub visit : (min_seq : ℕ) → LogRecord → Replayed → Replayed
visit min_seq r t =
    let u = record t { max_seq = if ltb t.max_seq r.seq then r.seq else t.max_seq } in
    if leb r.seq min_seq then u else record u { visited = u.visited ++ r ∷ [] }

abbrev pub count_corrupted : Replayed → Replayed
count_corrupted t = record t { corrupted_count = t.corrupted_count + 1 }

module _ (crc : List ℕ → ℕ) where
  unfoldable pub write_record : (now : ℕ) → LogRecord → LsmWriteAheadLog → LsmWriteAheadLog
  write_record now r w =
      let added = record w {
        bytes = w.bytes ++ record_bytes crc r;
        current_size = w.current_size + (32 + data_len r + (if ltb 0 (data_len r) then 4 else 0));
      } in
      let kept = if added.in_batch then added else flush_and_sync added in
      if leb kept.max_segment_size kept.current_size then rotate now kept else kept

  -- The loop over a file
  unfoldable pub replay_loop : (fuel min_seq : ℕ) → List ℕ → Replayed → Replayed
  replay_loop zero min_seq bytes t = t
  replay_loop (suc fuel) min_seq bytes t = elim (read_turn crc bytes) [
    | ends ↦ t
    | corrupted ↦ count_corrupted t
    | skips rest ↦ replay_loop fuel min_seq rest (count_corrupted t)
    | finds r rest ↦ replay_loop fuel min_seq rest (visit min_seq r t)
  ]

  unfoldable pub replay_files : (min_seq : ℕ) → List (List ℕ) → Replayed → Replayed
  replay_files min_seq [] t = t
  replay_files min_seq (bytes ∷ files) t =
      replay_files min_seq files (replay_loop (length bytes) min_seq bytes t)

  -- `replay`: the active file stands with the time 0 among the segments, which are sorted by time.
  unfoldable pub replay : (min_seq : ℕ) → LsmWriteAheadLog → Replayed
  replay min_seq w =
      replay_files min_seq (contents (sort_files ((0, w.bytes) ∷ w.segments))) new_replayed
