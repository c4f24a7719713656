-- ===== src/Lsm/Log/Crash.antt =====
-- The replay of src/lsm/lsm_wal.cpp of files that a crash cut short or whose data was corrupted.
use amind.Prelude.{
  ℕ, zero, suc, ◌+◌, ◌-◌, ◌≤◌, ◌<◌, ◌≡◌, refl, sym, ap, ◌∙◌, true, ◌⊎◌, inl, inr, List, [], ◌∷◌,
  ◌++◌, arith, ltb, leb, if◌then◌else◌, length, length-append, Bool-cases,
}
use amind.Prelude.Bytes.{
  le_bytes, take, drop, length-le_bytes, append_assoc, take_beyond, length-take_le, length-drop,
}
use package.amind.Lsm.Log.{
  LogRecord, ends, corrupted, header, data_part, record_bytes, read_data, read_turn,
}
use package.amind.Lsm.Log.Framing.{IsLogged, IsCrc}
use package.amind.Lsm.Log.Header.{blank, length-header, read_turn-header}
use package.amind.Lsm.Log.Data.{data_part_some, data_part_none}
use package.amind.Lsm.Log.Replay.{Replayed, visit}

abbrev pub AllLogged : List LogRecord → Type 0
AllLogged [] = Unit {0}
AllLogged (r ∷ rs) = IsLogged r × AllLogged rs

module _ (crc : List ℕ → ℕ) where
  unfoldable pub log_bytes : List LogRecord → List ℕ
  log_bytes [] = []
  log_bytes (r ∷ rs) = record_bytes crc r ++ log_bytes rs

  -- The records that stand whole in the first `k` bytes
  unfoldable pub whole : (k : ℕ) → List LogRecord → List LogRecord
  whole k [] = []
  whole k (r ∷ rs) =
      let size = length (record_bytes crc r) in
      let rest = whole (k - size) rs in if leb size k then r ∷ rest else []

  unfoldable pub visit_all : (min_seq : ℕ) → List LogRecord → Replayed → Replayed
  visit_all min_seq [] t = t
  visit_all min_seq (r ∷ rs) t = visit_all min_seq rs (visit min_seq r t)

  pub whole-AllLogged : (k : ℕ) (rs : List LogRecord) → AllLogged rs → AllLogged (whole k rs)
  unfolding whole
  whole-AllLogged k [] a = tt
  whole-AllLogged k (r ∷ rs) a = elim (Bool-cases (leb (length (record_bytes crc r)) k)) [
    | inl fits ↦ rw (fits, whole) (a.0, whole-AllLogged (k - length (record_bytes crc r)) rs a.1)
    | inr cut ↦ rw (cut, whole) tt
  ]

  -- The loop ends at these bytes.
  abbrev pub Stops : List ℕ → Type 0
  Stops bytes = (read_turn crc bytes ≡ ends) ⊎ (read_turn crc bytes ≡ corrupted)

  module _ (crc32 : IsCrc crc) where
    -- Data or its checksum that was cut ends the replay as corrupted.
    read_data-cut :
        (r : LogRecord) (bytes : List ℕ)
        → 0 < length r.data_bytes
        → length bytes < length r.data_bytes + 4
        → read_data crc (blank r) (length r.data_bytes) bytes ≡ corrupted
    unfolding read_data
    read_data-cut r bytes p h =
        let present : ltb 0 (length r.data_bytes) ≡ true = ground arith in
        elim (Bool-cases (ltb (length bytes) (length r.data_bytes))) [
          | inl short ↦ rw (present, short, read_data) refl
          | inr long ↦
              let few : ltb (length (drop (length r.data_bytes) bytes)) 4 ≡ true =
                ground (arith, long, length-drop (length r.data_bytes) bytes) in
              rw (present, long, few, read_data) refl
        ]

    take_nil : (k : ℕ) → take {A = ℕ} k [] ≡ []
    take_nil zero = refl
    take_nil (suc k) = refl

    pub nothing_left : read_turn crc [] ≡ ends
    unfolding read_turn
    nothing_left = refl

    pub header_long : (r : LogRecord) → IsLogged r → 32 ≤ length (record_bytes crc r)
    unfolding record_bytes
    header_long r l =
        omega (arith, length-append (header crc r) (data_part crc r), length-header crc crc32 r l)

    cut-Stops :
        (r : LogRecord) (rest : List ℕ) (k : ℕ)
        → IsLogged r
        → k < length (record_bytes crc r)
        → Stops (take k (record_bytes crc r ++ rest))
    unfolding record_bytes read_turn
    cut-Stops r rest k l h = elim (Bool-cases (ltb k 32)) [
      | inl short ↦
          let few : ltb (length cut) 32 ≡ true =
            ground (arith, short, length-take_le k ((header crc r ++ data_part crc r) ++ rest)) in
          inl (rw (few, read_turn) refl)
      | inr long ↦ inr (
          ap (read_turn crc) (beyond (ground (arith, long)))
          ∙ read_turn-header crc crc32 r l (take (k - 32) (data_part crc r ++ rest))
          ∙ read_data-cut r (take (k - 32) (data_part crc r ++ rest))
              (some_data (ground (arith, long)))
              (few_left (ground (arith, long)) (some_data (ground (arith, long)))))
    ]
      where
        cut : List ℕ
        cut = take k ((header crc r ++ data_part crc r) ++ rest)

        beyond : 32 ≤ k → cut ≡ header crc r ++ take (k - 32) (data_part crc r ++ rest)
        beyond b =
            ap (take k) (append_assoc (header crc r) (data_part crc r) rest)
            ∙ take_beyond k (header crc r) (data_part crc r ++ rest)
                (omega (arith, b, length-header crc crc32 r l))
            ∙ ap (λ (n : ℕ). header crc r ++ take (k - n) (data_part crc r ++ rest))
                (length-header crc crc32 r l)

        size : k < 32 + length (data_part crc r)
        size =
            omega (
              arith,
              h,
              length-append (header crc r) (data_part crc r),
              length-header crc crc32 r l,
            )

        some_data : 32 ≤ k → 0 < length r.data_bytes
        some_data b = elim (Bool-cases (ltb 0 (length r.data_bytes))) [
          | inl p ↦ ground (arith, p)
          | inr p ↦
              let empty : length r.data_bytes ≡ 0 = ground (arith, p) in
              absurd (omega (arith, b, size, ap length (data_part_none crc crc32 r l empty)))
        ]

        few_left :
            32 ≤ k
            → 0 < length r.data_bytes
            → length (take (k - 32) (data_part crc r ++ rest)) < length r.data_bytes + 4
        few_left b p = omega (
          arith,
          b,
          size,
          length-take_le (k - 32) (data_part crc r ++ rest),
          ap length (data_part_some crc crc32 r l p),
          length-append r.data_bytes (le_bytes 4 (crc r.data_bytes)),
          length-le_bytes 4 (crc r.data_bytes),
        )

    pub cut_apart :
        (k : ℕ) (rs : List LogRecord)
        → AllLogged rs
        → (tail : List ℕ) × (take k (log_bytes rs) ≡ log_bytes (whole k rs) ++ tail) × Stops tail
    unfolding log_bytes whole
    cut_apart k [] a = ([], take_nil k, inl nothing_left)
    cut_apart k (r ∷ rs) a = elim (Bool-cases (leb (length (record_bytes crc r)) k)) [
      | inr cut ↦ (
        take k (record_bytes crc r ++ log_bytes rs),
        rw (cut, whole) refl,
        cut-Stops r (log_bytes rs) k a.0 (ground (arith, cut)),
      )
      | inl fits ↦
          let (tail, e, stops) = cut_apart (k - length (record_bytes crc r)) rs a.1 in
          (
            tail,
            rw (fits, whole)
                (take_beyond k (record_bytes crc r) (log_bytes rs) (ground (arith, fits))
                  ∙ ap (λ (t : List ℕ). record_bytes crc r ++ t) e
                  ∙ sym (
                      append_assoc (record_bytes crc r)
                        (log_bytes (whole (k - length (record_bytes crc r)) rs)) tail)),
            stops,
          )
    ]
