-- ===== src/Lsm/Log/Segments.antt =====
-- Writes and rotations of src/lsm/lsm_wal.cpp, and the order in which a replay takes the files.
use amind.Prelude.{ℕ, ◌≡◌, refl, ap, ◌∙◌, false, List, [], ◌∷◌, arith, ltb, length}
use amind.Prelude.Files.{insert_file, sort_files, contents}
use package.amind.Lsm.Log.{LogRecord}
use package.amind.Lsm.Log.Framing.{IsCrc}
use package.amind.Lsm.Log.Replay.{
  LsmWriteAheadLog, Replayed, new_replayed, replay_loop, replay_files, replay,
}
use package.amind.Lsm.Log.Crash.{AllLogged, log_bytes, visit_all}
use package.amind.Lsm.Log.Replayed.{replay_loop-log_bytes}

first_file : (b : List ℕ) (files : List (ℕ × List ℕ)) → insert_file (0, b) files ≡ (0, b) ∷ files
unfolding insert_file
first_file b [] = refl
first_file b ((n, c) ∷ files) =
    let later : ltb n 0 ≡ false = ground arith in rw (later, insert_file) refl

module _ (crc : List ℕ → ℕ) (crc32 : IsCrc crc) where
  -- The records of the active file are visited before those of the segments.
  pub replay-active_first :
      (w : LsmWriteAheadLog) (rs : List LogRecord) (min_seq : ℕ)
      → w.bytes ≡ log_bytes crc rs
      → AllLogged rs
      → replay crc min_seq w
        ≡ replay_files crc min_seq
            (contents (sort_files w.segments))
            (visit_all crc min_seq rs new_replayed)
  unfolding replay replay_files sort_files
  replay-active_first w rs min_seq h a =
      ap (λ (f : List (ℕ × List ℕ)). replay_files crc min_seq (contents f) new_replayed)
        (first_file w.bytes (sort_files w.segments))
      ∙ ap (λ (t : Replayed). replay_files crc min_seq (contents (sort_files w.segments)) t)
          (ap (λ (b : List ℕ). replay_loop crc (length b) min_seq b new_replayed) h
            ∙ replay_loop-log_bytes crc crc32 min_seq rs new_replayed a)
