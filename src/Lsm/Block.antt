-- ===== src/Lsm/Block.antt =====
-- src/lsm/block.h and block.cpp: the data block of a table, as the entries of a reader that has
-- parsed its bytes, and the search among them.
pub mod Search
use amind.Prelude.{
  ℕ, zero, suc, ◌+◌, ◌-◌, ◌/◌, ◌++◌, Bool, leb, true, false, ◌&&◌, Option, none, some, List, [],
  ◌∷◌, ltb, ◌==◌, if◌then◌else◌, length, get_elem?,
}
use amind.Prelude.Ids.{is_empty}
use amind.Lsm.Entries.{Entry}

abbrev pub data_block_size : ℕ
data_block_size = 4096

pub record BlockBuilder : Type 0 where
  pub entries : List Entry
  pub uncompressed_size : ℕ
  pub first_key : ℕ

abbrev pub new_builder : BlockBuilder
new_builder = record { entries = []; uncompressed_size = 4; first_key = 0 }

-- `BlockBuilder::add`
unfoldable pub append : Entry → BlockBuilder → BlockBuilder
append (key, value) b = record {
  entries = b.entries ++ (key, value) ∷ [];
  uncompressed_size = b.uncompressed_size + (8 + 4 + length value);
  first_key = if is_empty b.entries then key else b.first_key;
}

abbrev pub is_full : BlockBuilder → Bool
is_full b = leb data_block_size b.uncompressed_size

-- The bytes of a block: the number of entries, and for each the key, the length and the value
abbrev pub block_size : List Entry → ℕ
block_size [] = 4
block_size ((key, value) ∷ entries) = 8 + 4 + length value + block_size entries

abbrev pub max_block_size : ℕ
max_block_size = 67108864

-- Whether `BlockReader` takes the block, or throws.
abbrev pub opens : List Entry → Bool
opens entries = leb (block_size entries) max_block_size

abbrev pub all_open : List (List Entry) → Bool
all_open [] = true
all_open (block ∷ blocks) = opens block && all_open blocks

-- The loop of `findKey`, on fuel; `bound` is `high + 1`, since `high` can be -1, and `none` is -1.
-- A read past the entries, which cannot happen, ends the search.
unfoldable pub search_loop : (fuel : ℕ) → List Entry → (key low bound : ℕ) → Option ℕ
search_loop zero entries key low bound = none
search_loop (suc fuel) entries key low bound =
    let mid = low + (bound - 1 - low) / 2 in
    elim (ltb low bound) [
      | false ↦ none
      | true ↦ elim (get_elem? entries mid) [
        | none ↦ none
        | some (mid_key, value) ↦ elim (mid_key == key) [
          | true ↦ some mid
          | false ↦ elim (ltb mid_key key) [
            | true ↦ search_loop fuel entries key (mid + 1) bound
            | false ↦ search_loop fuel entries key low mid
          ]
        ]
      ]
    ]

unfoldable pub find_key : List Entry → ℕ → Option ℕ
unfolding search_loop
find_key entries key = search_loop (suc (length entries)) entries key 0 (length entries)

-- The value that `entryAt` gives at what `findKey` returned.
unfoldable pub entry_value : List Entry → Option ℕ → Option (List ℕ)
entry_value entries none = none
entry_value entries (some i) = elim (get_elem? entries i) [
  | none ↦ none
  | some (key, value) ↦ some value
]
