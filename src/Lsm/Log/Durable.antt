-- ===== src/Lsm/Log/Durable.antt =====
-- What the writes and batches of src/lsm/lsm_wal.cpp leave on the disk.
use amind.Prelude.{
  ℕ, ◌+◌, ◌≡◌, refl, sym, ap, ◌∙◌, true, false, inl, inr, List, [], ◌∷◌, ◌++◌, arith, ltb, leb,
  if◌then◌else◌, length, length-append, Bool-cases,
}
use amind.Prelude.Bytes.{take, append_nil, append_assoc, length-le_bytes, le_bytes, take_all}
use package.amind.Lsm.Log.{LogRecord, data_len, header, data_part, record_bytes}
use package.amind.Lsm.Log.Framing.{IsLogged, IsCrc}
use package.amind.Lsm.Log.Header.{length-header}
use package.amind.Lsm.Log.Replay.{
  LsmWriteAheadLog, Replayed, begin_batch, end_batch, truncate, rotate, expire_old_segments,
  write_record, replay_loop,
}
use package.amind.Lsm.Log.Crash.{AllLogged, log_bytes, visit_all}
use package.amind.Lsm.Log.Replayed.{replay_loop-log_bytes}

pub data Operation : Type 0 where
  writes : (now : ℕ) → LogRecord → Operation
  begins stops cuts : Operation

abbrev pub AllWritable : List Operation → Type 0
AllWritable [] = Unit {0}
AllWritable (writes now r ∷ os) = IsLogged r × AllWritable os
AllWritable (begins ∷ os) = AllWritable os
AllWritable (stops ∷ os) = AllWritable os
AllWritable (cuts ∷ os) = AllWritable os

module _ (crc : List ℕ → ℕ) where
  abbrev operate : Operation → LsmWriteAheadLog → LsmWriteAheadLog
  operate (writes now r) w = write_record crc now r w
  operate begins w = begin_batch w
  operate stops w = end_batch w
  operate cuts w = truncate w

  unfoldable pub operate_all : List Operation → LsmWriteAheadLog → LsmWriteAheadLog
  operate_all [] w = w
  operate_all (o ∷ os) w = operate_all os (operate o w)

  abbrev grown : LogRecord → LsmWriteAheadLog → ℕ
  grown r w = w.current_size + (32 + data_len r + (if ltb 0 (data_len r) then 4 else 0))

  -- The records of the active file after an operation: a write that reaches the limit of a segment
  -- leaves an empty one.
  abbrev active_after : Operation → LsmWriteAheadLog → List LogRecord → List LogRecord
  active_after (writes now r) w rs = if leb w.max_segment_size (grown r w) then [] else rs ++ r ∷ []
  active_after begins w rs = rs
  active_after stops w rs = rs
  active_after cuts w rs = []

  unfoldable pub active_records :
      List Operation → LsmWriteAheadLog → List LogRecord → List LogRecord
  active_records [] w rs = rs
  active_records (o ∷ os) w rs = active_records os (operate o w) (active_after o w rs)

  pub record IsWritten (w : LsmWriteAheadLog) (rs : List LogRecord) : Type 0 where
    pub written : w.bytes ≡ log_bytes crc rs
    pub sized : w.current_size ≡ length w.bytes
    pub on_disk : w.in_batch ≡ false → w.synced ≡ length w.bytes
    pub logged : AllLogged rs

  module _ (crc32 : IsCrc crc) where
    length-record_bytes :
        (r : LogRecord)
        → IsLogged r
        → length (record_bytes crc r) ≡ 32 + data_len r + (if ltb 0 (data_len r) then 4 else 0)
    unfolding record_bytes data_part
    length-record_bytes r l = elim (Bool-cases (ltb 0 (data_len r))) [
      | inl p ↦
          rw (p, data_part)
            (omega (
              arith,
              l.data_fits,
              length-append (header crc r) (r.data_bytes ++ le_bytes 4 (crc r.data_bytes)),
              length-append r.data_bytes (le_bytes 4 (crc r.data_bytes)),
              length-le_bytes 4 (crc r.data_bytes),
              length-header crc crc32 r l,
            ))
      | inr p ↦
          let none_there : data_len r ≡ 0 = ground (arith, p) in
          rw (p, data_part)
            (omega
              (arith, none_there, length-append (header crc r) [], length-header crc crc32 r l))
    ]

    log_bytes_last :
        (rs : List LogRecord) (r : LogRecord)
        → log_bytes crc (rs ++ r ∷ []) ≡ log_bytes crc rs ++ record_bytes crc r
    unfolding log_bytes
    log_bytes_last [] r = append_nil (record_bytes crc r)
    log_bytes_last (q ∷ rs) r =
        ap (λ (t : List ℕ). record_bytes crc q ++ t) (log_bytes_last rs r)
        ∙ sym (append_assoc (record_bytes crc q) (log_bytes crc rs) (record_bytes crc r))

    logged_last :
        (rs : List LogRecord) (r : LogRecord) → AllLogged rs → IsLogged r → AllLogged (rs ++ r ∷ [])
    logged_last [] r a l = (l, tt)
    logged_last (q ∷ rs) r a l = (a.0, logged_last rs r a.1 l)

    write-IsWritten :
        (now : ℕ) (r : LogRecord) (w : LsmWriteAheadLog) (rs : List LogRecord)
        → IsLogged r
        → IsWritten w rs
        → IsWritten (write_record crc now r w) (active_after (writes now r) w rs)
    unfolding write_record rotate expire_old_segments log_bytes
    write-IsWritten now r w rs l i = elim (Bool-cases (leb w.max_segment_size (grown r w))) [
      | inl full ↦ elim (Bool-cases w.in_batch) [
        | inl b ↦
            rw (b, full, write_record)
              (record { written = refl; sized = refl; on_disk = λ e. refl; logged = tt })
        | inr b ↦
            rw (b, full, write_record)
              (record { written = refl; sized = refl; on_disk = λ e. refl; logged = tt })
      ]
      | inr room ↦ elim (Bool-cases w.in_batch) [
        | inl b ↦
            rw (b, room, write_record)
              (record {
                written = longer;
                sized = counted;
                on_disk = λ e. absurd (differ e);
                logged = logged_last rs r i.logged l;
              })
        | inr b ↦
            rw (b, room, write_record)
              (record {
                written = longer;
                sized = counted;
                on_disk = λ e. refl;
                logged = logged_last rs r i.logged l;
              })
      ]
    ]
      where
        longer : w.bytes ++ record_bytes crc r ≡ log_bytes crc (rs ++ r ∷ [])
        longer = ap (λ (t : List ℕ). t ++ record_bytes crc r) i.written ∙ sym (log_bytes_last rs r)

        counted : grown r w ≡ length (w.bytes ++ record_bytes crc r)
        counted =
            omega
              (arith, i.sized, length-append w.bytes (record_bytes crc r), length-record_bytes r l)

        differ : true ≡ false → ⊥
        differ e = ground (arith, e)

    operate-IsWritten :
        (o : Operation) (os : List Operation) (w : LsmWriteAheadLog) (rs : List LogRecord)
        → AllWritable (o ∷ os)
        → IsWritten w rs
        → IsWritten (operate o w) (active_after o w rs) × AllWritable os
    unfolding log_bytes
    operate-IsWritten (writes now r) os w rs a i = (write-IsWritten now r w rs a.0 i, a.1)
    operate-IsWritten begins os w rs a i = (
      record {
        written = i.written;
        sized = i.sized;
        on_disk = λ e. absurd (ground (arith, e));
        logged = i.logged;
      },
      a,
    )
    operate-IsWritten stops os w rs a i =
        (record { written = i.written; sized = i.sized; on_disk = λ e. refl; logged = i.logged }, a)
    operate-IsWritten cuts os w rs a i =
        (record { written = refl; sized = refl; on_disk = λ e. refl; logged = tt }, a)

    operate_all-IsWritten :
        (os : List Operation) (w : LsmWriteAheadLog) (rs : List LogRecord)
        → AllWritable os
        → IsWritten w rs
        → IsWritten (operate_all os w) (active_records os w rs)
    unfolding operate_all active_records
    operate_all-IsWritten [] w rs a i = i
    operate_all-IsWritten (o ∷ os) w rs a i =
        let (j, b) = operate-IsWritten o os w rs a i in
        operate_all-IsWritten os (operate o w) (active_after o w rs) b j

    -- After any writes, batches and truncations of a log whose active file was whole, if no batch is
    -- open, the size that decides on a rotation is that of the active file, and all of it is on the
    -- disk: a replay after a crash visits every record written since the file was last emptied.
    pub operate_all-durable :
        (os : List Operation) (w : LsmWriteAheadLog) (rs : List LogRecord) (min_seq : ℕ)
        (t : Replayed)
        → AllWritable os
        → IsWritten w rs
        → (operate_all os w).in_batch ≡ false
        → let v = operate_all os w in
          (v.current_size ≡ length v.bytes)
          × (replay_loop crc (length (take v.synced v.bytes)) min_seq (take v.synced v.bytes) t
              ≡ visit_all crc min_seq (active_records os w rs) t)
    operate_all-durable os w rs min_seq t a i e =
        let j = operate_all-IsWritten os w rs a i in
        let v = operate_all os w in
        (
          j.sized,
          ap (λ (b : List ℕ). replay_loop crc (length b) min_seq b t)
                (ap (λ (n : ℕ). take n v.bytes) (j.on_disk e) ∙ take_all v.bytes ∙ j.written)
              ∙ replay_loop-log_bytes crc crc32 min_seq (active_records os w rs) t j.logged,
        )
