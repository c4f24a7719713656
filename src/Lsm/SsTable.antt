-- ===== src/Lsm/SsTable.antt =====
-- src/lsm/sstable_writer.cpp and sstable_reader.cpp. A file is the list of its data blocks, the
-- first key of each block (the index; the positions are left out with the bytes of the blocks), the
-- size of the index in bytes, on 32 bits, the
-- bytes of its Bloom filter and its count, which has 32 bits. `hash` is XXH64 and `rounded` the rounded number of hash
-- functions, as in Bloom; `none` is an exception.
pub mod Index
pub mod Writer
pub mod Written
pub mod Cursor
use amind.Prelude.{
  ℕ, zero, suc, ◌+◌, ◌-◌, ◌/◌, ◌%◌, ◌^◌, Bool, true, false, ◌&&◌, not, Option, none, some, List, [],
  ◌∷◌, ◌++◌, ◌*◌, ltb, leb, if◌then◌else◌, length, get_elem?,
}
use amind.Prelude.Ids.{is_empty}
use amind.Prelude.Bytes.{take}
use amind.Bloom.{BloomFilter, init, add, may_contain, serialize, deserialize}
use amind.Lsm.Entries.{Entry}
use amind.Lsm.Block.{BlockBuilder, new_builder, append, is_full, opens, find_key, entry_value}

pub record TableFile : Type 0 where
  pub blocks : List (List Entry)
  pub index : List ℕ
  pub index_size : ℕ
  pub bloom_bytes : List ℕ
  pub entry_count : ℕ

pub record SsTableWriter : Type 0 where
  pub block_builder : BlockBuilder
  pub blocks : List (List Entry)
  pub index_entries : List ℕ
  pub bloom_filter : BloomFilter
  pub entry_count : ℕ
  pub last_key : ℕ

pub record SsTableReader : Type 0 where
  pub blocks : List (List Entry)
  pub index_entries : List ℕ
  pub bloom_filter : BloomFilter
  pub entry_count : ℕ

abbrev pub bloom_bits_per_key : ℕ
bloom_bits_per_key = 10

-- The bytes of an entry of the index
abbrev pub index_entry_size : ℕ
index_entry_size = 20

unfoldable pub flush_data_block : SsTableWriter → SsTableWriter
flush_data_block w = if is_empty w.block_builder.entries then w else record w {
  block_builder = new_builder;
  blocks = w.blocks ++ w.block_builder.entries ∷ [];
  index_entries = w.index_entries ++ w.block_builder.first_key ∷ [];
}

unfoldable pub new_writer : (rounded expected_entries : ℕ) → SsTableWriter
new_writer rounded expected_entries = record {
  block_builder = new_builder;
  blocks = [];
  index_entries = [];
  bloom_filter = init rounded expected_entries bloom_bits_per_key;
  entry_count = 0;
  last_key = 0;
}

module _ (hash : (key seed : ℕ) → ℕ) where
  abbrev with_entry : Entry → SsTableWriter → SsTableWriter
  with_entry (key, value) w = record w {
    bloom_filter = add hash w.bloom_filter key;
    block_builder = append (key, value) w.block_builder;
    entry_count = w.entry_count + 1;
    last_key = key;
  }

  -- `SSTableWriter::add`, before `finish`
  unfoldable pub add_entry : Entry → SsTableWriter → Option SsTableWriter
  unfolding flush_data_block append
  add_entry (key, value) w =
      let w' = with_entry (key, value) w in
      if ltb 0 w.entry_count && leb key w.last_key
      then none
      else some (if is_full w'.block_builder then flush_data_block w' else w')

  unfoldable pub add_entries : List Entry → SsTableWriter → Option SsTableWriter
  add_entries [] w = some w
  add_entries (e ∷ es) w = elim (add_entry e w) [ none ↦ none | some w' ↦ add_entries es w' ]

unfoldable pub finish : SsTableWriter → TableFile
unfolding flush_data_block
finish w =
    let w' = flush_data_block w in
    record {
      blocks = w'.blocks;
      index = w'.index_entries;
      index_size = (length w'.index_entries * index_entry_size) % 2 ^ 32;
      bloom_bytes = serialize w'.bloom_filter;
      entry_count = w'.entry_count % 2 ^ 32;
    }

unfoldable pub load : TableFile → Option SsTableReader
load f = elim (deserialize f.bloom_bytes) [
  | none ↦ none
  | some bloom ↦ some (record {
    blocks = f.blocks;
    index_entries = take (f.index_size / index_entry_size) f.index;
    bloom_filter = bloom;
    entry_count = f.entry_count;
  })
]

-- The loop of `findBlockIndex`, on fuel; `bound` is `high + 1`, and `none` is -1.
unfoldable pub block_loop :
    (fuel : ℕ) → List ℕ → (key low bound : ℕ) → (result : Option ℕ) → Option ℕ
block_loop zero index key low bound result = none
block_loop (suc fuel) index key low bound result =
    let mid = low + (bound - 1 - low) / 2 in
    elim (ltb low bound) [
      | false ↦ result
      | true ↦ elim (get_elem? index mid) [
        | none ↦ none
        | some first_key ↦ elim (leb first_key key) [
          | true ↦ block_loop fuel index key (mid + 1) bound (some mid)
          | false ↦ block_loop fuel index key low mid result
        ]
      ]
    ]

unfoldable pub find_block_index : List ℕ → ℕ → Option ℕ
unfolding block_loop
find_block_index index key = block_loop (suc (length index)) index key 0 (length index) none

-- The block that `readBlock` decodes.
abbrev pub value_in : List (List Entry) → ℕ → Option ℕ → Option (List ℕ)
value_in blocks key none = none
value_in blocks key (some i) = elim (get_elem? blocks i) [
  | none ↦ none
  | some block ↦ entry_value block (find_key block key)
]

unfoldable pub get : ((key seed : ℕ) → ℕ) → SsTableReader → ℕ → Option (List ℕ)
get hash t key =
    if may_contain hash t.bloom_filter key
    then value_in t.blocks key (find_block_index t.index_entries key)
    else none

-- Whether the block that `get` reads makes it throw.
abbrev pub block_throws : List (List Entry) → Option ℕ → Bool
block_throws blocks none = false
block_throws blocks (some i) = elim (get_elem? blocks i) [
  | none ↦ false
  | some block ↦ not (opens block)
]

-- Whether `get` throws; else it returns what `get` is.
unfoldable pub get_throws : ((key seed : ℕ) → ℕ) → SsTableReader → ℕ → Bool
get_throws hash t key =
    may_contain hash t.bloom_filter key
    && block_throws t.blocks (find_block_index t.index_entries key)

-- What `forEach` passes to its callback, in order.
unfoldable pub for_each : List (List Entry) → List Entry
for_each [] = []
for_each (block ∷ blocks) = block ++ for_each blocks

-- A file that is written from entries, as a flush and a compaction do.
unfoldable pub write_file :
    ((key seed : ℕ) → ℕ) → (rounded expected_entries : ℕ) → List Entry → Option TableFile
write_file hash rounded expected_entries entries =
    elim (add_entries hash entries (new_writer rounded expected_entries)) [
      | none ↦ none
      | some w ↦ some (finish w)
    ]
