-- ===== src/Lsm/Log/Data.antt =====
-- The data of a record of src/lsm/lsm_wal.cpp, as the replay reads it.
use amind.Prelude.{
  ℕ, ◌+◌, ◌^◌, ◌<◌, ◌≡◌, refl, sym, ap, ◌∙◌, true, false, ◌&&◌, List, [], ◌∷◌, ◌++◌, arith, ◌==◌,
  ltb, if◌then◌else◌, length, length-append, Bool-cases, inl, inr,
}
use amind.Prelude.Bytes.{
  le_bytes, le_value, take, drop, length-le_bytes, le_value-le_bytes, append_assoc, take_front,
  drop_front, drop_over,
}
use package.amind.Lsm.Log.{
  LogRecord, delete_type, data_len, skips, finds, header, data_part, record_bytes, checked,
  with_data, read_data, read_turn,
}
use package.amind.Lsm.Log.Framing.{IsLogged, IsCrc, data_len_fits}
use package.amind.Lsm.Log.Header.{blank, read_turn-header}

nil_of : (xs : List ℕ) → length xs ≡ 0 → xs ≡ []
nil_of [] h = refl
nil_of (x ∷ xs) h = absurd (omega (arith, h))

module _ (crc : List ℕ → ℕ) (crc32 : IsCrc crc) (r : LogRecord) (l : IsLogged r) where
  checked_found : (rest : List ℕ) → checked r rest ≡ finds r rest
  checked_found rest = rw (l.bare_delete, checked) refl

  -- The data of a record, or other bytes in its place whose checksum fails
  module _ (given rest : List ℕ) (size : length given ≡ length r.data_bytes) (sum : ℕ) where
    abbrev stored_data : List ℕ
    stored_data = given ++ (le_bytes 4 sum ++ rest)

    length-stored_data : length stored_data ≡ length r.data_bytes + (4 + length rest)
    length-stored_data = omega (
      arith,
      size,
      length-append given (le_bytes 4 sum ++ rest),
      length-append (le_bytes 4 sum) rest,
      length-le_bytes 4 sum,
    )

    data_taken : take (length r.data_bytes) stored_data ≡ given
    data_taken = take_front (length r.data_bytes) given (le_bytes 4 sum ++ rest) size

    sum_on_data : drop (length r.data_bytes) stored_data ≡ le_bytes 4 sum ++ rest
    sum_on_data = drop_front (length r.data_bytes) given (le_bytes 4 sum ++ rest) size

    rest_left : drop (length r.data_bytes + 4) stored_data ≡ rest
    rest_left =
        drop_over (length r.data_bytes) 4 given (le_bytes 4 sum ++ rest) size
        ∙ drop_front 4 (le_bytes 4 sum) rest (length-le_bytes 4 sum)

    sum_taken : sum < 2 ^ 32 → le_value (take 4 (drop (length r.data_bytes) stored_data)) ≡ sum
    sum_taken h =
        ap (λ (t : List ℕ). le_value (take 4 t)) sum_on_data
        ∙ ap le_value (take_front 4 (le_bytes 4 sum) rest (length-le_bytes 4 sum))
        ∙ le_value-le_bytes 4 sum (omega (arith, h))

    read_data-stored :
        0 < length r.data_bytes
        → sum < 2 ^ 32
        → read_data crc (blank r) (length r.data_bytes) stored_data
          ≡ (if crc given == sum then checked (with_data (blank r) given) rest else skips rest)
    unfolding read_data
    read_data-stored some_data h =
        let present : ltb 0 (length r.data_bytes) ≡ true = ground arith in
        let enough : ltb (length stored_data) (length r.data_bytes) ≡ false =
          ground (arith, length-stored_data) in
        let four : ltb (length (drop (length r.data_bytes) stored_data)) 4 ≡ false = ground (
          arith,
          ap length sum_on_data,
          length-append (le_bytes 4 sum) rest,
          length-le_bytes 4 sum,
        ) in
        rw (present, enough, four, data_taken, sum_taken h, rest_left, read_data) refl

    -- Data with the wrong checksum is skipped.
    pub read_data-tampered :
        0 < length r.data_bytes
        → sum < 2 ^ 32
        → (crc given == sum) ≡ false
        → read_data crc (blank r) (length r.data_bytes) stored_data ≡ skips rest
    read_data-tampered some_data h wrong = read_data-stored some_data h ∙ rw wrong refl

  pub data_part_some :
      0 < length r.data_bytes → data_part crc r ≡ r.data_bytes ++ le_bytes 4 (crc r.data_bytes)
  unfolding data_part
  data_part_some h =
      let present : ltb 0 (data_len r) ≡ true = ground (arith, data_len_fits r l) in
      rw (present, data_part) refl

  pub data_part_none : length r.data_bytes ≡ 0 → data_part crc r ≡ []
  unfolding data_part
  data_part_none h =
      let absent : ltb 0 (data_len r) ≡ false = ground (arith, data_len_fits r l) in
      rw (absent, data_part) refl

  bare_found : (rest : List ℕ) → length r.data_bytes ≡ 0 → checked (blank r) rest ≡ finds r rest
  bare_found rest h =
      let no_data : (r.record_type == delete_type && ltb 0 0) ≡ false = ground arith in
      rw (no_data, checked)
        (ap (λ (d : List ℕ). finds (record r { data_bytes = d }) rest)
          (sym (nil_of r.data_bytes h)))

  read_data-data_part :
      (rest : List ℕ)
      → read_data crc (blank r) (length r.data_bytes) (data_part crc r ++ rest) ≡ finds r rest
  unfolding read_data
  read_data-data_part rest = elim (Bool-cases (ltb 0 (length r.data_bytes))) [
    | inl h ↦
        let positive : 0 < length r.data_bytes = ground (arith, h) in
        let sum : (crc r.data_bytes == crc r.data_bytes) ≡ true = ground arith in
        ap (λ (t : List ℕ). read_data crc (blank r) (length r.data_bytes) (t ++ rest))
          (data_part_some positive)
        ∙ ap (read_data crc (blank r) (length r.data_bytes))
            (append_assoc r.data_bytes (le_bytes 4 (crc r.data_bytes)) rest)
        ∙ read_data-stored r.data_bytes rest refl (crc r.data_bytes) positive (crc32 r.data_bytes)
        ∙ rw sum (checked_found rest)
    | inr h ↦
        let none_left : length r.data_bytes ≡ 0 = ground (arith, h) in
        ap (λ (t : List ℕ). read_data crc (blank r) (length r.data_bytes) (t ++ rest))
          (data_part_none none_left)
        ∙ rw (h, read_data) (bare_found rest none_left)
  ]

  -- A record that was written is read, whatever follows.
  pub read_turn-record_bytes :
      (rest : List ℕ) → read_turn crc (record_bytes crc r ++ rest) ≡ finds r rest
  unfolding record_bytes
  read_turn-record_bytes rest =
      ap (read_turn crc) (append_assoc (header crc r) (data_part crc r) rest)
      ∙ read_turn-header crc crc32 r l (data_part crc r ++ rest)
      ∙ read_data-data_part rest
