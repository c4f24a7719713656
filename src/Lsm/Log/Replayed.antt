-- ===== src/Lsm/Log/Replayed.antt =====
-- What the replay of src/lsm/lsm_wal.cpp visits of a file.
use amind.Prelude.{
  ℕ, zero, suc, ◌+◌, ◌^◌, ◌≤◌, ◌<◌, ◌≡◌, refl, sym, ap, ◌∙◌, false, inl, inr, List, [], ◌∷◌, ◌++◌,
  arith, ◌==◌, length, length-append,
}
use amind.Prelude.Bytes.{le_bytes, take, append_assoc, append_nil}
use package.amind.Lsm.Log.{LogRecord, skips, finds, header, record_bytes, read_turn}
use package.amind.Lsm.Log.Framing.{IsLogged, IsCrc}
use package.amind.Lsm.Log.Header.{length-header, read_turn-header}
use package.amind.Lsm.Log.Data.{read_turn-record_bytes, read_data-tampered}
use package.amind.Lsm.Log.Replay.{Replayed, visit, count_corrupted, replay_loop}
use package.amind.Lsm.Log.Crash.{
  AllLogged, log_bytes, whole, visit_all, whole-AllLogged, Stops, nothing_left, header_long,
  cut_apart,
}

module _ (crc : List ℕ → ℕ) (crc32 : IsCrc crc) (min_seq : ℕ) where
  loop_finds :
      (fuel : ℕ) (bytes rest : List ℕ) (r : LogRecord) (t : Replayed)
      → read_turn crc bytes ≡ finds r rest
      → replay_loop crc (suc fuel) min_seq bytes t
        ≡ replay_loop crc fuel min_seq rest (visit min_seq r t)
  unfolding replay_loop
  loop_finds fuel bytes rest r t h = rw (h, replay_loop) refl

  loop_skips :
      (fuel : ℕ) (bytes rest : List ℕ) (t : Replayed)
      → read_turn crc bytes ≡ skips rest
      → replay_loop crc (suc fuel) min_seq bytes t
        ≡ replay_loop crc fuel min_seq rest (count_corrupted t)
  unfolding replay_loop
  loop_skips fuel bytes rest t h = rw (h, replay_loop) refl

  loop_nothing : (fuel : ℕ) (t : Replayed) → replay_loop crc fuel min_seq [] t ≡ t
  unfolding replay_loop
  loop_nothing zero t = refl
  loop_nothing (suc fuel) t = rw (nothing_left crc crc32, replay_loop) refl

  stopped_lem :
      (fuel : ℕ) (bytes : List ℕ) (t : Replayed)
      → Stops crc bytes
      → (c : ℕ) × (c ≤ t.corrupted_count + 1)
        × (replay_loop crc fuel min_seq bytes t ≡ record t { corrupted_count = c })
  unfolding replay_loop
  stopped_lem zero bytes t h = (t.corrupted_count, omega arith, refl)
  stopped_lem (suc fuel) bytes t (inl h) =
      (t.corrupted_count, omega arith, rw (h, replay_loop) refl)
  stopped_lem (suc fuel) bytes t (inr h) =
      (t.corrupted_count + 1, omega arith, rw (h, replay_loop) refl)

  -- Records at the front of a file are visited, one after the other.
  loop_prefix :
      (fuel : ℕ) (rs : List LogRecord) (rest : List ℕ) (t : Replayed)
      → AllLogged rs
      → length (log_bytes crc rs ++ rest) ≤ fuel
      → (left : ℕ) × (length rest ≤ left)
        × (replay_loop crc fuel min_seq (log_bytes crc rs ++ rest) t
            ≡ replay_loop crc left min_seq rest (visit_all crc min_seq rs t))
  unfolding log_bytes visit_all
  loop_prefix fuel [] rest t a h = (fuel, h, refl)
  loop_prefix zero (r ∷ rs) rest t a h = absurd (
      omega (
        arith,
        h,
        length-append (record_bytes crc r ++ log_bytes crc rs) rest,
        length-append (record_bytes crc r) (log_bytes crc rs),
        header_long crc crc32 r a.0,
      ))
  loop_prefix (suc fuel) (r ∷ rs) rest t a h =
      let (left, le, e) = loop_prefix fuel rs rest (visit min_seq r t) a.1 (
        omega (
          arith,
          h,
          length-append (record_bytes crc r ++ log_bytes crc rs) rest,
          length-append (record_bytes crc r) (log_bytes crc rs),
          length-append (log_bytes crc rs) rest,
          header_long crc crc32 r a.0,
        )) in
      (
        left,
        le,
        ap (λ (bytes : List ℕ). replay_loop crc (suc fuel) min_seq bytes t)
              (append_assoc (record_bytes crc r) (log_bytes crc rs) rest)
            ∙ loop_finds fuel _ _ r t
                (read_turn-record_bytes crc crc32 r a.0 (log_bytes crc rs ++ rest))
            ∙ e,
      )

  -- Of a file of records that a crash cut after any byte, the replay visits the records that stand
  -- whole, in order, and counts at most one as corrupted.
  pub replay_loop-take :
      (k : ℕ) (rs : List LogRecord) (t : Replayed)
      → AllLogged rs
      → let file = take k (log_bytes crc rs) in
        (c : ℕ) × (c ≤ (visit_all crc min_seq (whole crc k rs) t).corrupted_count + 1)
        × (replay_loop crc (length file) min_seq file t
            ≡ record (visit_all crc min_seq (whole crc k rs) t) { corrupted_count = c })
  replay_loop-take k rs t a =
      let (tail, e, stops) = cut_apart crc crc32 k rs a in
      let (left, le, f) =
        loop_prefix (length (take k (log_bytes crc rs))) (whole crc k rs) tail t
          (whole-AllLogged crc k rs a) (omega (arith, ap length e)) in
      let (c, small, g) = stopped_lem left tail (visit_all crc min_seq (whole crc k rs) t) stops in
      (
        c,
        small,
        ap
              (λ (bytes : List ℕ).
                replay_loop crc (length (take k (log_bytes crc rs))) min_seq bytes t)
              e
            ∙ f
            ∙ g,
      )

  loop_all :
      (fuel : ℕ) (rs : List LogRecord) (t : Replayed)
      → AllLogged rs
      → length (log_bytes crc rs) ≤ fuel
      → replay_loop crc fuel min_seq (log_bytes crc rs) t ≡ visit_all crc min_seq rs t
  loop_all fuel rs t a h =
      let (left, le, e) =
        loop_prefix fuel rs [] t a (omega (arith, h, ap length (append_nil (log_bytes crc rs)))) in
      ap (λ (bytes : List ℕ). replay_loop crc fuel min_seq bytes t)
        (sym (append_nil (log_bytes crc rs)))
      ∙ e
      ∙ loop_nothing left (visit_all crc min_seq rs t)

  -- The replay of a whole file visits its records, and counts none as corrupted.
  pub replay_loop-log_bytes :
      (rs : List LogRecord) (t : Replayed)
      → AllLogged rs
      → replay_loop crc (length (log_bytes crc rs)) min_seq (log_bytes crc rs) t
        ≡ visit_all crc min_seq rs t
  replay_loop-log_bytes rs t a = loop_all (length (log_bytes crc rs)) rs t a (omega arith)

  module _ (r : LogRecord) (l : IsLogged r) (given : List ℕ) (sum : ℕ) (qs : List LogRecord)
      (a : AllLogged qs) (size : length given ≡ length r.data_bytes)
      (some_data : 0 < length r.data_bytes) (fits : sum < 2 ^ 32)
      (wrong : (crc given == sum) ≡ false) where
    abbrev tampered : List ℕ
    tampered = header crc r ++ (given ++ (le_bytes 4 sum ++ log_bytes crc qs))

    tampered_size : length (log_bytes crc qs) + 1 ≤ length tampered
    tampered_size = omega (
      arith,
      length-append (header crc r) (given ++ (le_bytes 4 sum ++ log_bytes crc qs)),
      length-append given (le_bytes 4 sum ++ log_bytes crc qs),
      length-append (le_bytes 4 sum) (log_bytes crc qs),
      length-header crc crc32 r l,
    )

    skip_tampered :
        (fuel : ℕ) (t : Replayed)
        → length tampered ≤ fuel
        → replay_loop crc fuel min_seq tampered t ≡ visit_all crc min_seq qs (count_corrupted t)
    skip_tampered zero t h = absurd (omega (arith, h, tampered_size))
    skip_tampered (suc fuel) t h =
        loop_skips fuel tampered (log_bytes crc qs) t (
          read_turn-header crc crc32 r l (given ++ (le_bytes 4 sum ++ log_bytes crc qs))
          ∙ read_data-tampered crc crc32 r l given (log_bytes crc qs) size sum some_data fits wrong)
        ∙ loop_all fuel qs (count_corrupted t) a (omega (arith, h, tampered_size))

    -- A record whose data no longer fits its checksum is skipped and counted; the records before it and
    -- behind it are all visited.
    pub replay_loop-tampered :
        (rs : List LogRecord) (t : Replayed)
        → AllLogged rs
        → replay_loop crc
            (length (log_bytes crc rs ++ tampered))
            min_seq
            (log_bytes crc rs ++ tampered)
            t
          ≡ visit_all crc min_seq qs (count_corrupted (visit_all crc min_seq rs t))
    replay_loop-tampered rs t b =
        let (left, le, e) =
          loop_prefix (length (log_bytes crc rs ++ tampered)) rs tampered t b (omega arith) in
        e ∙ skip_tampered left (visit_all crc min_seq rs t) le
