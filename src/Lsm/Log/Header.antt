-- ===== src/Lsm/Log/Header.antt =====
-- The header of a record of src/lsm/lsm_wal.cpp, as the replay reads it.
use amind.Prelude.{
  ℕ, ◌≡◌, refl, ap, ◌∙◌, true, false, List, [], ◌++◌, arith, ◌==◌, ltb, length, length-append,
}
use amind.Prelude.Bytes.{
  le_bytes, le_value, take, drop, length-le_bytes, le_value-le_bytes, append_assoc, take_front,
  drop_front,
}
use package.amind.Lsm.Log.{
  LogRecord, wal_magic, wal_version, max_data_len, data_len, header_fields, header, read_data,
  byte_at, read_turn,
}
use package.amind.Lsm.Log.Framing.{
  IsLogged, IsCrc, data_len_fits, from_magic, fields_apart, at_version, at_type, at_seq, at_key,
  at_len, at_behind, length-header_fields,
}

-- The record that the header gives, before its data is read
abbrev pub blank : LogRecord → LogRecord
blank r = record r { data_bytes = [] }

module _ (crc : List ℕ → ℕ) (crc32 : IsCrc crc) (r : LogRecord) (l : IsLogged r) where
  pub length-header : length (header crc r) ≡ 32
  unfolding header
  length-header = omega (
    arith,
    length-append (header_fields r) (le_bytes 4 (crc (header_fields r))),
    length-header_fields r,
    length-le_bytes 4 (crc (header_fields r)),
  )

  -- A header that was written is read, whatever follows.
  module _ (behind : List ℕ) where
    abbrev bytes : List ℕ
    bytes = header crc r ++ behind

    abbrev sum_on : List ℕ
    sum_on = le_bytes 4 (crc (header_fields r)) ++ behind

    apart : bytes ≡ header_fields r ++ sum_on
    unfolding header
    apart = append_assoc (header_fields r) (le_bytes 4 (crc (header_fields r))) behind

    fields : bytes ≡ from_magic r sum_on
    fields = apart ∙ fields_apart r sum_on

    long : ltb (length bytes) 32 ≡ false
    long = ground (arith, length-append (header crc r) behind, length-header)

    magic_read : (le_value (take 2 bytes) == wal_magic) ≡ true
    magic_read =
        let value : le_value (take 2 bytes) ≡ wal_magic =
          ap (λ (t : List ℕ). le_value (take 2 t)) fields
          ∙ ap le_value (take_front 2 (le_bytes 2 wal_magic) _ (length-le_bytes 2 wal_magic))
          ∙ le_value-le_bytes 2 wal_magic (omega arith) in
        ground (arith, value)

    version_read : (le_value (take 2 (drop 2 bytes)) == wal_version) ≡ true
    version_read =
        let value : le_value (take 2 (drop 2 bytes)) ≡ wal_version =
          ap (λ (t : List ℕ). le_value (take 2 (drop 2 t))) fields
          ∙ ap (λ (t : List ℕ). le_value (take 2 t)) (at_version r sum_on)
          ∙ ap le_value (take_front 2 (le_bytes 2 wal_version) _ (length-le_bytes 2 wal_version))
          ∙ le_value-le_bytes 2 wal_version (omega arith) in
        ground (arith, value)

    type_read : byte_at 4 bytes ≡ r.record_type
    unfolding le_value
    type_read =
        ap (λ (t : List ℕ). le_value (take 1 (drop 4 t))) fields
        ∙ ap (λ (t : List ℕ). le_value (take 1 t)) (at_type r sum_on)
        ∙ omega arith

    seq_read : le_value (take 8 (drop 8 bytes)) ≡ r.seq
    seq_read =
        ap (λ (t : List ℕ). le_value (take 8 (drop 8 t))) fields
        ∙ ap (λ (t : List ℕ). le_value (take 8 t)) (at_seq r sum_on)
        ∙ ap le_value (take_front 8 (le_bytes 8 r.seq) _ (length-le_bytes 8 r.seq))
        ∙ le_value-le_bytes 8 r.seq (omega (arith, l.seq_fits))

    key_read : le_value (take 8 (drop 16 bytes)) ≡ r.key
    key_read =
        ap (λ (t : List ℕ). le_value (take 8 (drop 16 t))) fields
        ∙ ap (λ (t : List ℕ). le_value (take 8 t)) (at_key r sum_on)
        ∙ ap le_value (take_front 8 (le_bytes 8 r.key) _ (length-le_bytes 8 r.key))
        ∙ le_value-le_bytes 8 r.key (omega (arith, l.key_fits))

    len_read : le_value (take 4 (drop 24 bytes)) ≡ length r.data_bytes
    len_read =
        ap (λ (t : List ℕ). le_value (take 4 (drop 24 t))) fields
        ∙ ap (λ (t : List ℕ). le_value (take 4 t)) (at_len r sum_on)
        ∙ ap le_value (take_front 4 (le_bytes 4 (data_len r)) _ (length-le_bytes 4 (data_len r)))
        ∙ le_value-le_bytes 4 (data_len r) (omega arith)
        ∙ data_len_fits r l

    sum_read : (crc (take 28 bytes) == le_value (take 4 (drop 28 bytes))) ≡ true
    sum_read =
        let computed : take 28 bytes ≡ header_fields r =
          ap (take 28) apart ∙ take_front 28 (header_fields r) sum_on (length-header_fields r) in
        let stored : le_value (take 4 (drop 28 bytes)) ≡ crc (header_fields r) =
          ap (λ (t : List ℕ). le_value (take 4 (drop 28 t))) fields
          ∙ ap (λ (t : List ℕ). le_value (take 4 t)) (at_behind r sum_on)
          ∙ ap le_value
              (take_front 4 (le_bytes 4 (crc (header_fields r))) behind (length-le_bytes 4 _))
          ∙ le_value-le_bytes 4 (crc (header_fields r)) (omega (arith, crc32 (header_fields r))) in
        rw (computed, stored) (ground arith)

    rest_read : drop 32 bytes ≡ behind
    rest_read = drop_front 32 (header crc r) behind length-header

    pub read_turn-header :
        read_turn crc bytes ≡ read_data crc (blank r) (length r.data_bytes) behind
    unfolding read_turn
    read_turn-header =
        let small : ltb max_data_len (length r.data_bytes) ≡ false = ground (arith, l.data_fits) in
        rw
          (
            long, magic_read, version_read, sum_read, type_read, seq_read, key_read, len_read,
            small, rest_read, read_turn,
          )
          refl
