-- ===== src/Lsm/SsTable/Written.antt =====
-- A table that was written from rising entries is the map of these entries.
use mathlib.Core.List.{append-nil}
use amind.Prelude.{
  ℕ, zero, suc, ◌/◌, ◌∷◌, [], true, length-append, ◌*◌, ◌^◌, ◌%◌, ◌≤◌, ◌<◌, ◌≡◌, refl, ap, subst,
  sym, ◌∙◌, some, List, ◌++◌, arith, length, Bool-cases, Option-cases, inl, inr,
}
use amind.Prelude.Map
use amind.Bloom.{BloomFilter, init, may_contain}
use amind.Bloom.Member.{IsSized, may_contain-added, add_all-IsSized}
use amind.Bloom.Bytes.{init-IsSized, deserialize-serialize}
use amind.Lsm.Entries.{Entry, Ascending}
use amind.Prelude.Bytes.{take}
use amind.Lsm.Block.{all_open}
use amind.Lsm.SsTable.{
  TableFile, SsTableWriter, SsTableReader, new_writer, flush_data_block, finish, load, write_file,
  find_block_index, value_in, get, for_each, bloom_bits_per_key, index_entry_size,
}
use amind.Lsm.SsTable.Index.{
  AllFilled, first_keys, find_block_index-count_le, Rising-first_keys, search_blocks-for_each,
}
use amind.Lsm.SsTable.Writer.{
  keys_of, contains-keys_of, AllSmall, IsWritten, flush-IsWritten, add_entries-IsWritten,
  new_writer-IsWritten,
}

-- What a reader of the entries `es` offers.
pub record IsTable (hash : (key seed : ℕ) → ℕ) (es : List Entry) (t : SsTableReader) : Type 0 where
  pub gets : (key : ℕ) → get hash t key ≡ Map.find key es
  pub walks : for_each t.blocks ≡ es
  pub counts : t.entry_count ≡ length es
  pub filled : AllFilled t.blocks
  pub opened : all_open t.blocks ≡ true
  pub small : AllSmall es

reader_of : SsTableWriter → SsTableReader
reader_of w = record {
  blocks = w.blocks;
  index_entries = w.index_entries;
  bloom_filter = w.bloom_filter;
  entry_count = w.entry_count % 2 ^ 32;
}

take_all : (xs : List ℕ) (n : ℕ) → n ≡ length xs → take n xs ≡ xs
take_all [] zero h = refl
take_all [] (suc n) h = refl
take_all (x ∷ xs) zero h = absurd (omega (arith, h))
take_all (x ∷ xs) (suc n) h = ap (λ (t : List ℕ). x ∷ t) (take_all xs n (omega (arith, h)))

-- A table has no more blocks than entries.
length-first_keys :
    (blocks : List (List Entry))
    → AllFilled blocks
    → length (first_keys blocks) ≤ length (for_each blocks)
unfolding first_keys for_each
length-first_keys [] f = omega arith
length-first_keys ([] ∷ blocks) f = elim f [ ]
length-first_keys (((k, v) ∷ es) ∷ blocks) f =
    omega (arith, length-first_keys blocks f, length-append {0} es (for_each blocks))

load-finish :
    (w : SsTableWriter)
    → IsSized (flush_data_block w).bloom_filter
    → (flush_data_block w).bloom_filter.num_hash_funcs < 2 ^ 32
    → length (flush_data_block w).index_entries * index_entry_size < 2 ^ 32
    → load (finish w) ≡ some (reader_of (flush_data_block w))
unfolding load finish reader_of
load-finish w s h few =
    let index = (flush_data_block w).index_entries in
    rw
      (
        deserialize-serialize (flush_data_block w).bloom_filter s h,
        take_all index ((length index * index_entry_size) % 2 ^ 32 / index_entry_size)
            (omega (arith, few)),
        load,
      )
      refl

module _ (hash : (key seed : ℕ) → ℕ) (bloom : BloomFilter) where
  whole :
      (w : SsTableWriter) (es : List Entry)
      → IsWritten hash bloom w es
      → w.block_builder.entries ≡ []
      → for_each w.blocks ≡ es
  whole w es i e =
      sym (append-nil (for_each w.blocks))
      ∙ ap (λ (xs : List Entry). for_each w.blocks ++ xs) (sym e)
      ∙ i.all

  get-reader_of :
      (w : SsTableWriter) (es : List Entry) (key : ℕ)
      → IsSized bloom
      → IsWritten hash bloom w es
      → w.block_builder.entries ≡ []
      → Ascending es
      → get hash (reader_of w) key ≡ Map.find key es
  unfolding get reader_of
  get-reader_of w es key s i e a = elim (Bool-cases (may_contain hash w.bloom_filter key)) [
    | inl maybe ↦
        rw (maybe, get)
          (ap (value_in w.blocks key) (
              ap (λ (ix : List ℕ). find_block_index ix key) i.indexed
              ∙ find_block_index-count_le (first_keys w.blocks) key
                  (Rising-first_keys w.blocks i.filled up))
            ∙ search_blocks-for_each w.blocks key i.filled up
            ∙ ap (Map.find key) (whole w es i e))
    | inr never ↦
        rw (never, get)
          (elim (Option-cases (Map.find key es)) [
            | inl absent ↦ sym absent
            | inr (v, present) ↦ absurd (
                ground (
                  arith,
                  never,
                  ap (λ (b : BloomFilter). may_contain hash b key) i.filter,
                  may_contain-added hash (keys_of es) bloom key s
                      (contains-keys_of es key v present),
                ))
          ])
  ]
    where
      up : Ascending (for_each w.blocks)
      up = subst Ascending (sym (whole w es i e)) a

-- A table that is written from entries with rising keys, no more than expected, few enough for the
-- 32 bits of the index's size, and with values that fit a block of 64 MiB, opens, and offers exactly
-- these: the lookup of each key, the entries in order and their number. No block of it makes a
-- reader throw.
pub write_file-IsTable :
    (hash : (key seed : ℕ) → ℕ) (rounded expected : ℕ) (es : List Entry)
    → length es ≤ expected
    → expected * index_entry_size < 2 ^ 32
    → Ascending es
    → AllSmall es
    → (f : TableFile) × (t : SsTableReader) × (write_file hash rounded expected es ≡ some f)
      × (load f ≡ some t)
      × IsTable hash es t
unfolding write_file reader_of new_writer
write_file-IsTable hash rounded expected es few_entries h a small =
    let bloom = init rounded expected bloom_bits_per_key in
    let (sized, _, _, _, few) =
      init-IsSized rounded expected bloom_bits_per_key (omega (arith, h)) in
    let (w, e, i) =
      add_entries-IsWritten hash bloom es (new_writer rounded expected) []
        (new_writer-IsWritten hash rounded expected) a (omega arith) small in
    let (j, done) = flush-IsWritten hash bloom w es i in
    let (sized', same) = add_all-IsSized hash (keys_of es) bloom sized in
    (
      finish w,
      reader_of (flush_data_block w),
      rw (e, write_file) refl,
      load-finish w (subst IsSized (sym j.filter) sized')
          (omega (arith, few, same, ap (λ (b : BloomFilter). b.num_hash_funcs) j.filter))
          (index_fits (flush_data_block w) j done),
      record {
        gets = λ key. get-reader_of hash bloom (flush_data_block w) es key sized j done a;
        walks = whole hash bloom (flush_data_block w) es j done;
        counts = ground (arith, j.counted, few_entries, h);
        filled = j.filled;
        opened = j.open_blocks;
        small = small;
      },
    )
  where
    index_fits :
        (w : SsTableWriter)
        → IsWritten hash (init rounded expected bloom_bits_per_key) w es
        → w.block_builder.entries ≡ []
        → length w.index_entries * index_entry_size < 2 ^ 32
    index_fits w j done = omega (
      arith,
      length-first_keys w.blocks j.filled,
      ap length j.indexed,
      ap length (whole hash (init rounded expected bloom_bits_per_key) w es j done),
      few_entries,
      h,
    )
