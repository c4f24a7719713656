-- ===== src/Lsm/Log/Framing.antt =====
-- What is read back of a record of src/lsm/lsm_wal.cpp.
use amind.Prelude.{
  ℕ, ◌+◌, ◌^◌, ◌≤◌, ◌<◌, ◌≡◌, refl, sym, ap, ◌∙◌, false, ◌&&◌, List, [], ◌∷◌, ◌++◌, arith, ◌==◌,
  ltb, length, length-append,
}
use amind.Prelude.Bytes.{
  le_bytes, drop, length-le_bytes, append_assoc, append_nil, drop_front, drop_over,
}
use package.amind.Lsm.Log.{
  LogRecord, wal_magic, wal_version, delete_type, max_data_len, data_len, header_fields,
}

-- What `appendPut` and `appendDelete` are called with: numbers that fit their fields, data within
-- the limit of the replay, and no data for a removal.
pub record IsLogged (r : LogRecord) : Type 0 where
  pub type_byte : r.record_type < 256
  pub seq_fits : r.seq < 2 ^ 64
  pub key_fits : r.key < 2 ^ 64
  pub data_fits : length r.data_bytes ≤ max_data_len
  pub bare_delete : (r.record_type == delete_type && ltb 0 (length r.data_bytes)) ≡ false

abbrev pub IsCrc : (List ℕ → ℕ) → Type 0
IsCrc crc = (bs : List ℕ) → crc bs < 2 ^ 32

pub data_len_fits : (r : LogRecord) → IsLogged r → data_len r ≡ length r.data_bytes
data_len_fits r l = omega (arith, l.data_fits)

abbrev pub type_part : LogRecord → List ℕ
type_part r = r.record_type ∷ 0 ∷ 0 ∷ 0 ∷ []

-- The fields of the header, one after the other, and what follows them
module _ (r : LogRecord) (behind : List ℕ) where
  abbrev pub from_len : List ℕ
  from_len = le_bytes 4 (data_len r) ++ behind

  abbrev pub from_key : List ℕ
  from_key = le_bytes 8 r.key ++ from_len

  abbrev pub from_seq : List ℕ
  from_seq = le_bytes 8 r.seq ++ from_key

  abbrev pub from_type : List ℕ
  from_type = type_part r ++ from_seq

  abbrev pub from_version : List ℕ
  from_version = le_bytes 2 wal_version ++ from_type

  abbrev pub from_magic : List ℕ
  from_magic = le_bytes 2 wal_magic ++ from_version

  -- The fields, the length the last
  abbrev seq_on : List ℕ
  seq_on = le_bytes 8 r.seq ++ (le_bytes 8 r.key ++ le_bytes 4 (data_len r))

  seq_apart : seq_on ++ behind ≡ from_seq
  seq_apart =
      append_assoc (le_bytes 8 r.seq) (le_bytes 8 r.key ++ le_bytes 4 (data_len r)) behind
      ∙ ap (λ (t : List ℕ). le_bytes 8 r.seq ++ t)
          (append_assoc (le_bytes 8 r.key) (le_bytes 4 (data_len r)) behind)

  version_apart : (le_bytes 2 wal_version ++ (type_part r ++ seq_on)) ++ behind ≡ from_version
  version_apart =
      append_assoc (le_bytes 2 wal_version) (type_part r ++ seq_on) behind
      ∙ ap (λ (t : List ℕ). le_bytes 2 wal_version ++ (type_part r ++ t)) seq_apart

  pub fields_apart : header_fields r ++ behind ≡ from_magic
  unfolding header_fields
  fields_apart =
      append_assoc (le_bytes 2 wal_magic) (le_bytes 2 wal_version ++ (type_part r ++ seq_on)) behind
      ∙ ap (λ (t : List ℕ). le_bytes 2 wal_magic ++ t) version_apart

  pub at_version : drop 2 from_magic ≡ from_version
  at_version = drop_front 2 (le_bytes 2 wal_magic) from_version (length-le_bytes 2 wal_magic)

  pub at_type : drop 4 from_magic ≡ from_type
  at_type =
      drop_over 2 2 (le_bytes 2 wal_magic) from_version (length-le_bytes 2 wal_magic)
      ∙ drop_front 2 (le_bytes 2 wal_version) from_type (length-le_bytes 2 wal_version)

  behind_type : (k : ℕ) → drop (8 + k) from_magic ≡ drop k from_seq
  behind_type k =
      let four : 8 + k ≡ 2 + (2 + (4 + k)) = omega arith in
      ap (λ (n : ℕ). drop n from_magic) four
      ∙ drop_over 2 (2 + (4 + k)) (le_bytes 2 wal_magic) from_version (length-le_bytes 2 wal_magic)
      ∙ drop_over 2 (4 + k) (le_bytes 2 wal_version) from_type (length-le_bytes 2 wal_version)
      ∙ drop_over 4 k (type_part r) from_seq refl

  pub at_seq : drop 8 from_magic ≡ from_seq
  at_seq = behind_type 0

  pub at_key : drop 16 from_magic ≡ from_key
  at_key = behind_type 8 ∙ drop_front 8 (le_bytes 8 r.seq) from_key (length-le_bytes 8 r.seq)

  pub at_len : drop 24 from_magic ≡ from_len
  at_len =
      behind_type 16
      ∙ drop_over 8 8 (le_bytes 8 r.seq) from_key (length-le_bytes 8 r.seq)
      ∙ drop_front 8 (le_bytes 8 r.key) from_len (length-le_bytes 8 r.key)

  pub at_behind : drop 28 from_magic ≡ behind
  at_behind =
      behind_type 20
      ∙ drop_over 8 12 (le_bytes 8 r.seq) from_key (length-le_bytes 8 r.seq)
      ∙ drop_over 8 4 (le_bytes 8 r.key) from_len (length-le_bytes 8 r.key)
      ∙ drop_front 4 (le_bytes 4 (data_len r)) behind (length-le_bytes 4 (data_len r))

pub length-header_fields : (r : LogRecord) → length (header_fields r) ≡ 28
length-header_fields r = omega (
  arith,
  ap length (sym (append_nil (header_fields r)) ∙ fields_apart r []),
  length-append (le_bytes 2 wal_magic) (from_version r []),
  length-append (le_bytes 2 wal_version) (from_type r []),
  length-append (type_part r) (from_seq r []),
  length-append (le_bytes 8 r.seq) (from_key r []),
  length-append (le_bytes 8 r.key) (from_len r []),
  length-append (le_bytes 4 (data_len r)) [],
  length-le_bytes 2 wal_magic,
  length-le_bytes 2 wal_version,
  length-le_bytes 8 r.seq,
  length-le_bytes 8 r.key,
  length-le_bytes 4 (data_len r),
)
