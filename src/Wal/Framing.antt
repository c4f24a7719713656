-- ===== src/Wal/Framing.antt =====
-- What is read back of the entries of src/storage/wal.cpp.
use amind.Prelude.{
  ℕ, zero, suc, ◌+◌, ◌-◌, ◌%◌, ◌^◌, ◌<◌, ◌≡◌, refl, ap, ◌∙◌, true, false, some, List, [], ◌∷◌, ◌++◌,
  arith, ◌==◌, ltb, length, length-append,
}
use amind.Prelude.Bytes.{
  le_bytes, le_value, take, drop, length-le_bytes, le_value-le_bytes, append_assoc, take_front,
  drop_front,
}
use package.amind.Wal.{WalEntry, disk_size, crc_region, byte_at_start, entry_bytes, read_entry}

-- The length fits its 32 bits.
abbrev pub IsSmall : WalEntry → Type 0
IsSmall e = 1 + length e.payload < 2 ^ 32

-- A checksum of 32 bits
abbrev pub IsCrc : (List ℕ → ℕ) → Type 0
IsCrc crc = (bs : List ℕ) → crc bs < 2 ^ 32

-- The bytes that follow the length
abbrev body : WalEntry → List ℕ
body e = e.entry_type ∷ e.payload

field_length :
    (e : WalEntry)
    → IsSmall e
    → le_value (le_bytes 4 ((1 + length e.payload) % 2 ^ 32)) ≡ 1 + length e.payload
field_length e h =
    le_value-le_bytes 4 ((1 + length e.payload) % 2 ^ 32) (omega arith) ∙ omega (arith, h)

length-crc_region : (e : WalEntry) → length (crc_region e) ≡ 4 + (1 + length e.payload)
unfolding crc_region
length-crc_region e = omega (
  arith,
  length-append (le_bytes 4 ((1 + length e.payload) % 2 ^ 32)) (body e),
  length-le_bytes 4 ((1 + length e.payload) % 2 ^ 32),
)

drop_next : {A : Type 0} (n : ℕ) (xs : List A) → drop (suc n) xs ≡ drop 1 (drop n xs)
drop_next zero xs = refl
drop_next (suc n) [] = refl
drop_next (suc n) (x ∷ xs) = drop_next n xs

module _ (crc : List ℕ → ℕ) where
  pub length-entry_bytes : (e : WalEntry) → length (entry_bytes crc e) ≡ disk_size e
  unfolding entry_bytes
  length-entry_bytes e = omega (
    arith,
    length-append (crc_region e) (le_bytes 4 (crc (crc_region e))),
    length-crc_region e,
    length-le_bytes 4 (crc (crc_region e)),
  )

  -- An entry, and what follows it, as the reader takes it apart.
  module _ (e : WalEntry) (rest : List ℕ) where
    abbrev trailer : List ℕ
    trailer = le_bytes 4 (crc (crc_region e))

    abbrev all : List ℕ
    all = entry_bytes crc e ++ rest

    by_region : all ≡ crc_region e ++ (trailer ++ rest)
    unfolding entry_bytes
    by_region = append_assoc (crc_region e) trailer rest

    by_length : all ≡ le_bytes 4 ((1 + length e.payload) % 2 ^ 32) ++ (body e ++ (trailer ++ rest))
    unfolding crc_region
    by_length =
        by_region
        ∙ append_assoc (le_bytes 4 ((1 + length e.payload) % 2 ^ 32)) (body e) (trailer ++ rest)

    take-length : take 4 all ≡ le_bytes 4 ((1 + length e.payload) % 2 ^ 32)
    take-length = ap (take 4) by_length ∙ take_front 4 _ _ (length-le_bytes 4 _)

    drop_length : drop 4 all ≡ body e ++ (trailer ++ rest)
    drop_length = ap (drop 4) by_length ∙ drop_front 4 _ _ (length-le_bytes 4 _)

    take_region : take (4 + (1 + length e.payload)) all ≡ crc_region e
    take_region =
        ap (take (4 + (1 + length e.payload))) by_region ∙ take_front _ _ _ (length-crc_region e)

    drop_region : drop (4 + (1 + length e.payload)) all ≡ trailer ++ rest
    drop_region =
        ap (drop (4 + (1 + length e.payload))) by_region ∙ drop_front _ _ _ (length-crc_region e)

    drop_all : drop (4 + (1 + length e.payload) + 4) all ≡ rest
    drop_all =
        drop_front (4 + (1 + length e.payload) + 4) (entry_bytes crc e) rest
          (omega (arith, length-entry_bytes e))

    length-all : length all ≡ disk_size e + length rest
    length-all = omega (arith, length-append (entry_bytes crc e) rest, length-entry_bytes e)

    module _ (small : IsSmall e) (crc32 : IsCrc crc) where
      pub read_length : le_value (take 4 all) ≡ 1 + length e.payload
      read_length = ap le_value take-length ∙ field_length e small

      read_stored : le_value (take 4 (drop (4 + (1 + length e.payload)) all)) ≡ crc (crc_region e)
      read_stored =
          ap (λ (bs : List ℕ). le_value (take 4 bs)) drop_region
          ∙ ap le_value (take_front 4 trailer rest (length-le_bytes 4 _))
          ∙ le_value-le_bytes 4 (crc (crc_region e)) (omega (arith, crc32 (crc_region e)))

      read_payload : take (1 + length e.payload - 1) (drop 5 all) ≡ e.payload
      read_payload =
          let size : 1 + length e.payload - 1 ≡ length e.payload = omega arith in
          ap (λ (bs : List ℕ). take (1 + length e.payload - 1) bs)
            (drop_next 4 all ∙ ap (drop 1) drop_length)
          ∙ ap (λ (n : ℕ). take n (e.payload ++ (trailer ++ rest))) size
          ∙ take_front (length e.payload) e.payload (trailer ++ rest) refl

      -- An entry that was written is read, whatever follows.
      pub read_entry-entry_bytes : read_entry crc all ≡ some (e, rest)
      unfolding read_entry
      read_entry-entry_bytes =
          let long : ltb (length all) 4 ≡ false = ground (arith, length-all) in
          let typed : ltb (1 + length e.payload) 1 ≡ false = ground arith in
          let whole : ltb (length all) (4 + (1 + length e.payload) + 4) ≡ false =
            ground (arith, length-all) in
          let sum : (crc (crc_region e) == crc (crc_region e)) ≡ true = ground arith in
          let kind : byte_at_start (drop 4 all) ≡ e.entry_type = ap byte_at_start drop_length in
          rw
            (
              read_length, long, typed, whole, take_region, read_stored, sum, kind, read_payload,
              drop_all, read_entry,
            )
            refl
