-- ===== src/Lsm/SsTable/Writer.antt =====
-- What a writer has taken: its blocks, its index, its filter and its count go with the entries.
use mathlib.Core.List.{append_assoc, append-nil}
use amind.Prelude.{
  ℕ, ◌+◌, ◌≤◌, ◌<◌, ◌≡◌, refl, ap, subst, sym, ◌∙◌, true, false, ◌&&◌, some, List, [], ◌∷◌, ◌++◌,
  arith, ltb, leb, if◌then◌else◌, length, length-append, Bool-cases, inl, inr, ◌⊎◌,
}
use amind.Prelude.Map
use amind.Prelude.Ids.{contains, is_empty}
use amind.Bloom.{BloomFilter, init, add, add_all}
use amind.Bloom.Member.{add_all-append}
use amind.Lsm.Entries.{Entry, Ascending}
use amind.Lsm.Block.{
  BlockBuilder, append, is_full, data_block_size, block_size, max_block_size, opens, all_open,
}
use amind.Lsm.SsTable.{
  with_entry, SsTableWriter, new_writer, add_entry, add_entries, flush_data_block, for_each,
  bloom_bits_per_key,
}
use amind.Lsm.SsTable.Index.{AllFilled, first_keys}

for_each-append :
    (blocks : List (List Entry)) (block : List Entry)
    → for_each (blocks ++ block ∷ []) ≡ for_each blocks ++ block
unfolding for_each
for_each-append [] block = rw append-nil
for_each-append (b ∷ blocks) block =
    rw (for_each-append blocks block) (sym (append_assoc b (for_each blocks) block))

AllFilled-append :
    (blocks : List (List Entry)) (e : Entry) (es : List Entry)
    → AllFilled blocks
    → AllFilled (blocks ++ (e ∷ es) ∷ [])
AllFilled-append [] e es f = tt
AllFilled-append ([] ∷ blocks) e es f = elim f [ ]
AllFilled-append ((d ∷ ds) ∷ blocks) e es f = AllFilled-append blocks e es f

first_keys-append :
    (blocks : List (List Entry)) (k : ℕ) (v : List ℕ) (es : List Entry)
    → AllFilled blocks
    → first_keys (blocks ++ ((k, v) ∷ es) ∷ []) ≡ first_keys blocks ++ k ∷ []
unfolding first_keys
first_keys-append [] k v es f = refl
first_keys-append ([] ∷ blocks) k v es f = elim f [ ]
first_keys-append (((j, w) ∷ ds) ∷ blocks) k v es f =
    ap (λ (ks : List ℕ). j ∷ ks) (first_keys-append blocks k v es f)

abbrev pub keys_of : List Entry → List ℕ
keys_of [] = []
keys_of ((k, v) ∷ es) = k ∷ keys_of es

keys_of-append :
    (es : List Entry) (k : ℕ) (v : List ℕ) → keys_of (es ++ (k, v) ∷ []) ≡ keys_of es ++ k ∷ []
keys_of-append [] k v = refl
keys_of-append ((j, w) ∷ es) k v = ap (λ (ks : List ℕ). j ∷ ks) (keys_of-append es k v)

pub contains-keys_of :
    (es : List Entry) (k : ℕ) (v : List ℕ) → Map.find k es ≡ some v → contains k (keys_of es) ≡ true
unfolding Map.find contains
contains-keys_of [] k v e = absurd (cc)
contains-keys_of ((j, w) ∷ es) k v e = ground (arith, contains-keys_of es k v)

-- The largest value that fits a block behind entries that leave it open.
abbrev pub max_value_size : ℕ
max_value_size = 67104756

abbrev pub AllSmall : List Entry → Type 0
AllSmall [] = Unit {0}
AllSmall ((k, v) ∷ es) = (length v ≤ max_value_size) × AllSmall es

block_size-append :
    (es : List Entry) (k : ℕ) (v : List ℕ)
    → block_size (es ++ (k, v) ∷ []) ≡ block_size es + (8 + 4 + length v)
block_size-append [] k v = omega arith
block_size-append ((j, w) ∷ es) k v = omega (arith, block_size-append es k v)

all_open-append :
    (blocks : List (List Entry)) (block : List Entry)
    → all_open blocks ≡ true
    → block_size block ≤ max_block_size
    → all_open (blocks ++ block ∷ []) ≡ true
all_open-append [] block o h = ground (arith, h)
all_open-append (b ∷ blocks) block o h =
    let front : (opens b ≡ true) × (all_open blocks ≡ true) =
      (ground (arith, o), ground (arith, o)) in
    rw (front.0) (all_open-append blocks block front.1 h)

abbrev FirstIs : List Entry → ℕ → Type 0
FirstIs [] k = Unit {0}
FirstIs ((j, v) ∷ es) k = k ≡ j

-- The entries end with the key, if there are any.
abbrev EndsWith : List Entry → (count key : ℕ) → Type 0
EndsWith es count key =
    (count ≡ 0) ⊎ ((front : List Entry) × (v : List ℕ) × (es ≡ front ++ (key, v) ∷ []))

module _ (hash : (key seed : ℕ) → ℕ) (bloom : BloomFilter) where
  -- The writer has taken the entries `es`.
  pub record IsWritten (w : SsTableWriter) (es : List Entry) : Type 0 where
    pub all : for_each w.blocks ++ w.block_builder.entries ≡ es
    pub filled : AllFilled w.blocks
    pub indexed : w.index_entries ≡ first_keys w.blocks
    pub first : FirstIs w.block_builder.entries w.block_builder.first_key
    pub filter : w.bloom_filter ≡ add_all hash bloom (keys_of es)
    pub counted : w.entry_count ≡ length es
    pub ended : EndsWith es w.entry_count w.last_key
    pub sized : w.block_builder.uncompressed_size ≡ block_size w.block_builder.entries
    pub room : w.block_builder.uncompressed_size ≤ max_block_size
    pub open_blocks : all_open w.blocks ≡ true

  flush_entries :
      (entries : List Entry) (size first : ℕ) (w : SsTableWriter) (es : List Entry)
      → let b : BlockBuilder = record {
        entries = entries;
        uncompressed_size = size;
        first_key = first;
      } in
        IsWritten (record w { block_builder = b }) es
        → IsWritten (flush_data_block (record w { block_builder = b })) es
          × ((flush_data_block (record w { block_builder = b })).block_builder.entries ≡ [])
  unfolding flush_data_block
  flush_entries [] size first w es i = (i, refl)
  flush_entries ((k, v) ∷ rest) size first w es i = (
    record {
      all = rw append-nil (for_each-append w.blocks ((k, v) ∷ rest) ∙ i.all);
      filled = AllFilled-append w.blocks (k, v) rest i.filled;
      indexed =
          ap (λ (ks : List ℕ). ks ++ first ∷ []) i.indexed
          ∙ ap (λ (j : ℕ). first_keys w.blocks ++ j ∷ []) i.first
          ∙ sym (first_keys-append w.blocks k v rest i.filled);
      first = tt;
      filter = i.filter;
      counted = i.counted;
      ended = i.ended;
      sized = refl;
      room = omega arith;
      open_blocks =
          all_open-append w.blocks ((k, v) ∷ rest) i.open_blocks (omega (arith, i.sized, i.room));
    },
    refl,
  )

  pub flush-IsWritten :
      (w : SsTableWriter) (es : List Entry)
      → IsWritten w es
      → IsWritten (flush_data_block w) es × ((flush_data_block w).block_builder.entries ≡ [])
  flush-IsWritten w es i =
      flush_entries w.block_builder.entries w.block_builder.uncompressed_size
        w.block_builder.first_key w es i

  with_entry-IsWritten :
      (k : ℕ) (v : List ℕ) (w : SsTableWriter) (es : List Entry)
      → IsWritten w es
      → w.block_builder.uncompressed_size < data_block_size
      → length v ≤ max_value_size
      → IsWritten (with_entry hash (k, v) w) (es ++ (k, v) ∷ [])
  unfolding append
  with_entry-IsWritten k v w es i open_block small = record {
    all =
        sym (append_assoc (for_each w.blocks) w.block_builder.entries ((k, v) ∷ []))
        ∙ ap (λ (xs : List Entry). xs ++ (k, v) ∷ []) i.all;
    filled = i.filled;
    indexed = i.indexed;
    first = first_lem w.block_builder.entries w.block_builder.first_key k v i.first;
    filter =
        ap (λ (b : BloomFilter). add hash b k) i.filter
        ∙ sym (add_all-append hash (keys_of es) bloom k)
        ∙ ap (add_all hash bloom) (sym (keys_of-append es k v));
    counted = omega (arith, length-append {0} es ((k, v) ∷ []), i.counted);
    ended = inr (es, v, refl);
    sized = omega (arith, block_size-append w.block_builder.entries k v, i.sized);
    room = omega (arith, open_block, small);
    open_blocks = i.open_blocks;
  }
    where
      first_lem :
          (entries : List Entry) (first k : ℕ) (v : List ℕ)
          → FirstIs entries first
          → FirstIs (entries ++ (k, v) ∷ []) (if is_empty entries then k else first)
      first_lem [] first k v f = refl
      first_lem (e ∷ entries) first k v f = f

  -- The last key is below what comes next.
  last-lt :
      (front : List Entry) (j k : ℕ) (u v : List ℕ) (rest : List Entry)
      → Ascending ((front ++ (j, u) ∷ []) ++ (k, v) ∷ rest)
      → j < k
  last-lt [] j k u v rest a = a.0.0
  last-lt ((i, x) ∷ front) j k u v rest a = last-lt front j k u v rest a.1

  in_order :
      (k : ℕ) (v : List ℕ) (w : SsTableWriter) (es rest : List Entry)
      → IsWritten w es
      → Ascending (es ++ (k, v) ∷ rest)
      → (ltb 0 w.entry_count && leb k w.last_key) ≡ false
  in_order k v w es rest i a = elim i.ended [
    | inl none_yet ↦ ground (arith, none_yet)
    | inr (front, u, e) ↦ ground (
      arith,
      last-lt front w.last_key k u v rest
          (subst (λ (xs : List Entry). Ascending (xs ++ (k, v) ∷ rest)) e a),
    )
  ]

  add_entry-IsWritten :
      (k : ℕ) (v : List ℕ) (w : SsTableWriter) (es rest : List Entry)
      → IsWritten w es
      → Ascending (es ++ (k, v) ∷ rest)
      → w.block_builder.uncompressed_size < data_block_size
      → length v ≤ max_value_size
      → (w' : SsTableWriter) × (add_entry hash (k, v) w ≡ some w')
        × IsWritten w' (es ++ (k, v) ∷ [])
        × (w'.block_builder.uncompressed_size < data_block_size)
  unfolding add_entry append
  add_entry-IsWritten k v w es rest i a open_block small =
      let taken = with_entry-IsWritten k v w es i open_block small in
      elim (Bool-cases (is_full (with_entry hash (k, v) w).block_builder)) [
        | inl full ↦
            let (flushes, emptied) =
              flush-IsWritten (with_entry hash (k, v) w) (es ++ (k, v) ∷ []) taken in
            (
              flush_data_block (with_entry hash (k, v) w),
              rw (in_order k v w es rest i a, full, add_entry) refl,
              flushes,
              omega (arith, flushes.sized, ap block_size emptied),
            )
        | inr room ↦ (
          with_entry hash (k, v) w,
          rw (in_order k v w es rest i a, room, add_entry) refl,
          taken,
          ground (arith, room),
        )
      ]

  pub add_entries-IsWritten :
      (more : List Entry) (w : SsTableWriter) (es : List Entry)
      → IsWritten w es
      → Ascending (es ++ more)
      → w.block_builder.uncompressed_size < data_block_size
      → AllSmall more
      → (w' : SsTableWriter) × (add_entries hash more w ≡ some w') × IsWritten w' (es ++ more)
  unfolding add_entries
  add_entries-IsWritten [] w es i a open_block small =
      (w, refl, subst (IsWritten w) (sym (append-nil es)) i)
  add_entries-IsWritten ((k, v) ∷ more) w es i a open_block small =
      let (w1, e1, i1, open1) = add_entry-IsWritten k v w es more i a open_block small.0 in
      let (w2, e2, i2) =
        add_entries-IsWritten more w1 (es ++ (k, v) ∷ []) i1
          (subst Ascending (sym (append_assoc es ((k, v) ∷ []) more)) a) open1 small.1 in
      (w2, rw (e1, e2, add_entries), subst (IsWritten w2) (append_assoc es ((k, v) ∷ []) more) i2)

pub new_writer-IsWritten :
    (hash : (key seed : ℕ) → ℕ) (rounded expected : ℕ)
    → IsWritten hash (init rounded expected bloom_bits_per_key) (new_writer rounded expected) []
unfolding new_writer for_each first_keys add_all
new_writer-IsWritten hash rounded expected = record {
  all = refl;
  filled = tt;
  indexed = refl;
  first = tt;
  filter = refl;
  counted = refl;
  ended = inl refl;
  sized = refl;
  room = omega arith;
  open_blocks = refl;
}
