-- ===== src/Wal/Crash.antt =====
-- A file of src/storage/wal.cpp that a crash cut short, or that is whole.
use amind.Prelude.{
  ℕ, zero, suc, ◌+◌, ◌-◌, ◌≤◌, ◌<◌, ◌≡◌, refl, sym, ap, ◌∙◌, true, false, none, some, List, [], ◌∷◌,
  ◌++◌, arith, ltb, leb, if◌then◌else◌, length, length-append, Bool-cases, inl, inr,
}
use amind.Prelude.Bytes.{
  le_value, take, append_assoc, take_beyond, take-take_le, length-take_le, take_all,
}
use package.amind.Wal.{WalEntry, disk_size, entry_bytes, read_entry, read_entries, read_all}
use package.amind.Wal.Framing.{
  IsSmall, IsCrc, length-entry_bytes, read_length, read_entry-entry_bytes,
}

abbrev pub AllSmall : List WalEntry → Type 0
AllSmall [] = Unit {0}
AllSmall (e ∷ es) = IsSmall e × AllSmall es

-- The entries that stand whole in the first `k` bytes
unfoldable pub whole : (k : ℕ) → List WalEntry → List WalEntry
whole k [] = []
whole k (e ∷ es) =
    let rest = whole (k - disk_size e) es in if leb (disk_size e) k then e ∷ rest else []

module _ (crc : List ℕ → ℕ) where
  unfoldable pub log_bytes : List WalEntry → List ℕ
  log_bytes [] = []
  log_bytes (e ∷ es) = entry_bytes crc e ++ log_bytes es

  pub log_bytes-append :
      (es fs : List WalEntry) → log_bytes (es ++ fs) ≡ log_bytes es ++ log_bytes fs
  unfolding log_bytes
  log_bytes-append [] fs = refl
  log_bytes-append (e ∷ es) fs =
      ap (λ (t : List ℕ). entry_bytes crc e ++ t) (log_bytes-append es fs)
      ∙ sym (append_assoc (entry_bytes crc e) (log_bytes es) (log_bytes fs))

  module _ (crc32 : IsCrc crc) where
    -- Of an entry that was cut nothing is read.
    read_entry-cut :
        (e : WalEntry) (rest : List ℕ) (k : ℕ)
        → IsSmall e
        → k < disk_size e
        → read_entry crc (take k (entry_bytes crc e ++ rest)) ≡ none
    unfolding read_entry
    read_entry-cut e rest k small h = elim (Bool-cases (ltb (length cut) 4)) [
      | inl short ↦ rw (short, read_entry) refl
      | inr long ↦
          let four : 4 ≤ k = ground (arith, long, length-take_le k (entry_bytes crc e ++ rest)) in
          let n : le_value (take 4 cut) ≡ 1 + length e.payload =
            ap le_value (take-take_le 4 k (entry_bytes crc e ++ rest) four)
            ∙ read_length crc e rest small crc32 in
          let typed : ltb (1 + length e.payload) 1 ≡ false = ground arith in
          let part : ltb (length cut) (4 + (1 + length e.payload) + 4) ≡ true =
            ground (arith, h, length-take_le k (entry_bytes crc e ++ rest)) in
          rw (n, long, typed, part, read_entry) refl
    ]
      where
        cut : List ℕ
        cut = take k (entry_bytes crc e ++ rest)

    take_nil : (k : ℕ) → take {A = ℕ} k [] ≡ []
    take_nil zero = refl
    take_nil (suc k) = refl

    read_nothing : (fuel : ℕ) → read_entries crc fuel [] ≡ []
    unfolding read_entries read_entry
    read_nothing zero = refl
    read_nothing (suc fuel) = refl

    read_entries-none :
        (fuel : ℕ) (bs : List ℕ) → read_entry crc bs ≡ none → read_entries crc fuel bs ≡ []
    unfolding read_entries
    read_entries-none zero bs h = refl
    read_entries-none (suc fuel) bs h = rw (h, read_entries) refl

    read_entries-some :
        (fuel : ℕ) (e : WalEntry) (bs rest : List ℕ)
        → read_entry crc bs ≡ some (e, rest)
        → read_entries crc (suc fuel) bs ≡ e ∷ read_entries crc fuel rest
    unfolding read_entries
    read_entries-some fuel e bs rest h = rw (h, read_entries) refl

    beyond :
        (e : WalEntry) (es : List WalEntry) (k : ℕ)
        → disk_size e ≤ k
        → take k (entry_bytes crc e ++ log_bytes es)
          ≡ entry_bytes crc e ++ take (k - disk_size e) (log_bytes es)
    beyond e es k h =
        take_beyond k (entry_bytes crc e) (log_bytes es)
          (omega (arith, h, length-entry_bytes crc e))
        ∙ ap (λ (n : ℕ). entry_bytes crc e ++ take (k - n) (log_bytes es))
            (length-entry_bytes crc e)

    left :
        (e : WalEntry) (es : List WalEntry) (k fuel : ℕ)
        → disk_size e ≤ k
        → length (take k (entry_bytes crc e ++ log_bytes es)) ≤ fuel
        → length (take (k - disk_size e) (log_bytes es)) + 1 ≤ fuel
    left e es k fuel fits h = omega (
      arith,
      h,
      ap length (beyond e es k fits),
      length-append (entry_bytes crc e) (take (k - disk_size e) (log_bytes es)),
      length-entry_bytes crc e,
    )

    -- Of a file of entries that was cut anywhere, the entries that stand whole are read.
    read_entries-take :
        (fuel k : ℕ) (es : List WalEntry)
        → AllSmall es
        → length (take k (log_bytes es)) ≤ fuel
        → read_entries crc fuel (take k (log_bytes es)) ≡ whole k es
    unfolding log_bytes whole read_entries
    read_entries-take fuel k [] a h = ap (read_entries crc fuel) (take_nil k) ∙ read_nothing fuel
    read_entries-take zero k (e ∷ es) a h = elim (Bool-cases (leb (disk_size e) k)) [
      | inr cut ↦ rw (cut, whole) refl
      | inl fits ↦ absurd (omega (arith, left e es k 0 (ground (arith, fits)) h))
    ]
    read_entries-take (suc fuel) k (e ∷ es) a h = elim (Bool-cases (leb (disk_size e) k)) [
      | inr cut ↦
          read_entries-none (suc fuel) _
            (read_entry-cut e (log_bytes es) k a.0 (ground (arith, cut)))
          ∙ rw (cut, whole) refl
      | inl fits ↦
          let fit : disk_size e ≤ k = ground (arith, fits) in
          ap (read_entries crc (suc fuel)) (beyond e es k fit)
          ∙ read_entries-some fuel e _ _
              (read_entry-entry_bytes crc e (take (k - disk_size e) (log_bytes es)) a.0 crc32)
          ∙ ap (λ (t : List WalEntry). e ∷ t)
              (read_entries-take fuel (k - disk_size e) es a.1
                (omega (arith, left e es k (suc fuel) fit h)))
          ∙ rw (fits, whole) refl
    ]

    -- `readAll` of the first `k` bytes of a log gives the entries that stand whole in them.
    pub read_all-take :
        (k : ℕ) (es : List WalEntry)
        → AllSmall es
        → read_all crc (take k (log_bytes es)) ≡ whole k es
    read_all-take k es a = read_entries-take (length (take k (log_bytes es))) k es a (omega arith)

    whole_all : (k : ℕ) (es : List WalEntry) → length (log_bytes es) ≤ k → whole k es ≡ es
    unfolding whole log_bytes
    whole_all k [] h = refl
    whole_all k (e ∷ es) h =
        let size : length (entry_bytes crc e ++ log_bytes es)
            ≡ disk_size e + length (log_bytes es) =
          omega
            (arith, length-append (entry_bytes crc e) (log_bytes es), length-entry_bytes crc e) in
        let fits : leb (disk_size e) k ≡ true = ground (arith, size, h) in
        rw (fits, whole)
          (ap (λ (t : List WalEntry). e ∷ t)
            (whole_all (k - disk_size e) es (omega (arith, size, h))))

    pub read_all-log_bytes : (es : List WalEntry) → AllSmall es → read_all crc (log_bytes es) ≡ es
    read_all-log_bytes es a =
        ap (read_all crc) (sym (take_all (log_bytes es)))
        ∙ read_all-take (length (log_bytes es)) es a
        ∙ whole_all (length (log_bytes es)) es (omega arith)
