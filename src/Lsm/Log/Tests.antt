-- ===== src/Lsm/Log/Tests.antt =====
-- The theorems on the log of the storage engine at small files.
use amind.Prelude.{
  ℕ, ◌+◌, ◌%◌, ◌^◌, ◌≤◌, ◌≡◌, refl, false, List, [], ◌∷◌, ◌++◌, arith, ◌==◌, length,
}
use amind.Prelude.Bytes.{le_bytes, le_value, take}
use amind.Prelude.Files.{sort_files, contents}
use package.amind.Lsm.Log.{LogRecord, header}
use package.amind.Lsm.Log.Framing.{IsLogged, IsCrc}
use package.amind.Lsm.Log.Replay.{
  LsmWriteAheadLog, new_replayed, open_log, put_entry, delete_entry, count_corrupted, write_record,
  replay_loop, replay_files, replay,
}
use package.amind.Lsm.Log.Crash.{AllLogged, log_bytes, whole, visit_all}
use package.amind.Lsm.Log.Replayed.{replay_loop-take, replay_loop-tampered}
use package.amind.Lsm.Log.Segments.{replay-active_first}
use package.amind.Lsm.Log.Durable.{
  Operation, writes, begins, stops, operate_all, active_records, IsWritten, operate_all-durable,
}

abbrev sum32 : List ℕ → ℕ
sum32 bs = le_value bs % 2 ^ 32

sum32-IsCrc : IsCrc sum32
sum32-IsCrc bs = omega arith

abbrev put_five : LogRecord
put_five = put_entry 1 5 (7 ∷ 8 ∷ [])

abbrev delete_five : LogRecord
delete_five = delete_entry 2 5

put_five-IsLogged : IsLogged put_five
put_five-IsLogged = record {
  type_byte = omega arith;
  seq_fits = omega arith;
  key_fits = omega arith;
  data_fits = omega arith;
  bare_delete = refl;
}

delete_five-IsLogged : IsLogged delete_five
delete_five-IsLogged = record {
  type_byte = omega arith;
  seq_fits = omega arith;
  key_fits = omega arith;
  data_fits = omega arith;
  bare_delete = refl;
}

abbrev both : List LogRecord
both = put_five ∷ delete_five ∷ []

both-AllLogged : AllLogged both
both-AllLogged = (put_five-IsLogged, (delete_five-IsLogged, tt))

replay_loop-take_example :
    (c : ℕ) × (c ≤ (visit_all sum32 0 (whole sum32 50 both) new_replayed).corrupted_count + 1)
    × (replay_loop sum32
          (length (take 50 (log_bytes sum32 both)))
          0
          (take 50 (log_bytes sum32 both))
          new_replayed
        ≡ record (visit_all sum32 0 (whole sum32 50 both) new_replayed) { corrupted_count = c })
replay_loop-take_example = replay_loop-take sum32 sum32-IsCrc 0 50 both new_replayed both-AllLogged

abbrev broken : List ℕ
broken =
    header sum32 put_five
    ++ ((7 ∷ 9 ∷ []) ++ (le_bytes 4 (sum32 (7 ∷ 8 ∷ [])) ++ log_bytes sum32 (delete_five ∷ [])))

broken_sum : (sum32 (7 ∷ 9 ∷ []) == sum32 (7 ∷ 8 ∷ [])) ≡ false
unfolding le_value
broken_sum = refl

replay_loop-tampered_example :
    replay_loop sum32
      (length (log_bytes sum32 both ++ broken))
      0
      (log_bytes sum32 both ++ broken)
      new_replayed
    ≡ visit_all sum32 0 (delete_five ∷ []) (count_corrupted (visit_all sum32 0 both new_replayed))
replay_loop-tampered_example =
    replay_loop-tampered sum32 sum32-IsCrc 0 put_five put_five-IsLogged (7 ∷ 9 ∷ [])
      (sum32 (7 ∷ 8 ∷ [])) (delete_five ∷ []) (delete_five-IsLogged, tt) refl (omega arith)
      (omega arith) broken_sum both new_replayed both-AllLogged

abbrev rotated : LsmWriteAheadLog
rotated =
    open_log (log_bytes sum32 (delete_five ∷ [])) ((100, log_bytes sum32 (put_five ∷ [])) ∷ []) 1000
      1000

replay-active_first_example :
    replay sum32 0 rotated
    ≡ replay_files sum32 0
        (contents (sort_files rotated.segments))
        (visit_all sum32 0 (delete_five ∷ []) new_replayed)
replay-active_first_example =
    replay-active_first sum32 sum32-IsCrc rotated (delete_five ∷ []) 0 refl
      (delete_five-IsLogged, tt)

abbrev fresh : LsmWriteAheadLog
fresh = open_log [] [] 1000 1000

fresh-IsWritten : IsWritten sum32 fresh []
unfolding log_bytes
fresh-IsWritten = record { written = refl; sized = refl; on_disk = λ e. refl; logged = tt }

abbrev batch : List Operation
batch = begins ∷ writes 10 put_five ∷ writes 11 delete_five ∷ stops ∷ []

batch_closed : (operate_all sum32 batch fresh).in_batch ≡ false
unfolding operate_all write_record
batch_closed = refl

operate_all-durable_example :
    ((operate_all sum32 batch fresh).current_size ≡ length (operate_all sum32 batch fresh).bytes)
    × (replay_loop sum32
          (length
            (take (operate_all sum32 batch fresh).synced (operate_all sum32 batch fresh).bytes))
          0
          (take (operate_all sum32 batch fresh).synced (operate_all sum32 batch fresh).bytes)
          new_replayed
        ≡ visit_all sum32 0 (active_records sum32 batch fresh []) new_replayed)
operate_all-durable_example =
    operate_all-durable sum32 sum32-IsCrc batch fresh [] 0 new_replayed
      (put_five-IsLogged, (delete_five-IsLogged, tt)) fresh-IsWritten batch_closed
