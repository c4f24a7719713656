-- ===== src/Lsm/Engine/Reads.antt =====
-- What `get` finds in an engine whose tables are the maps of rising entries.
use amind.Prelude.{
  ℕ, ◌≡◌, refl, ap, sym, ◌∙◌, subst, ◌≤◌, zero, suc, true, false, Option, none, some, List, [], ◌∷◌,
  ◌++◌, arith, length, ◌==◌, Bool-cases, Option-cases, inl, inr,
}
use amind.Prelude.Map
use amind.Bloom.{may_contain}
use amind.Lsm.Entries.{Entry, Ascending, or_else}
use amind.Lsm.Block.{all_open}
use amind.Lsm.SsTable.{SsTableReader, get, get_throws, block_throws, find_block_index}
use amind.Lsm.SsTable.Cursor.{
  remaining, start_cursor, IsFilled, load_current-IsFilled, remaining-load_current,
  start_cursor-load_current, walk_throws-open,
}
use amind.Lsm.SsTable.Writer.{AllSmall, max_value_size}
use amind.Lsm.SsTable.Written.{IsTable}
use amind.Lsm.MemTable.{get_raw, flushed_entries}
use amind.Lsm.Merge.Newest.{newest, live, total, AllSound}
use amind.Lsm.Levels.{Table, LsmEngine, cursors_of, merge_throws, estimated_entries}
use amind.Lsm.Engine.{
  search_tables, search_throws, unless_empty, immutable_raw, get_value, get_value_throws,
}

-- The values of the layers, from the newest to the oldest.
abbrev pub in_layers : (a i s0 s1 s2 : Option (List ℕ)) → Option (List ℕ)
in_layers a i s0 s1 s2 = live (or_else a (or_else i (or_else s0 (or_else s1 s2))))

live-unless_empty : (v : List ℕ) → unless_empty v ≡ live (some v)
live-unless_empty [] = refl
live-unless_empty (b ∷ v) = refl

-- `get` reads the layers in this order.
pub get_value-in_layers :
    (hash : (key seed : ℕ) → ℕ) (e : LsmEngine) (key : ℕ)
    → get_value hash e key
      ≡ in_layers
          (get_raw key e.active)
          (immutable_raw e.immutable key)
          (search_tables hash e.l0_tables key)
          (search_tables hash e.l1_tables key)
          (search_tables hash e.l2_tables key)
unfolding get_value
get_value-in_layers hash e key =
    chain (get_raw key e.active) (immutable_raw e.immutable key)
      (search_tables hash e.l0_tables key) (search_tables hash e.l1_tables key)
      (search_tables hash e.l2_tables key)
  where
    chain :
        (a i s0 s1 s2 : Option (List ℕ))
        → elim a [
          | some v ↦ unless_empty v
          | none ↦ elim i [
            | some v ↦ unless_empty v
            | none ↦ elim s0 [
              | some v ↦ unless_empty v
              | none ↦ elim s1 [
                | some v ↦ unless_empty v
                | none ↦ elim s2 [ some v ↦ unless_empty v | none ↦ none ]
              ]
            ]
          ]
        ]
          ≡ in_layers a i s0 s1 s2
    chain (some v) i s0 s1 s2 = live-unless_empty v
    chain none (some v) s0 s1 s2 = live-unless_empty v
    chain none none (some v) s1 s2 = live-unless_empty v
    chain none none none (some v) s2 = live-unless_empty v
    chain none none none none (some v) = live-unless_empty v
    chain none none none none none = refl

pub search_tables-append :
    (hash : (key seed : ℕ) → ℕ) (ts us : List Table) (key : ℕ)
    → search_tables hash (ts ++ us) key
      ≡ or_else (search_tables hash ts key) (search_tables hash us key)
unfolding search_tables
search_tables-append hash [] us key = refl
search_tables-append hash (t ∷ ts) us key =
    let rest = search_tables-append hash ts us key in
    elim (Bool-cases (may_contain hash t.reader.bloom_filter key)) [
      | inl maybe ↦ elim (Option-cases (get hash t.reader key)) [
        | inl absent ↦ rw (maybe, absent) rest
        | inr (v, present) ↦ rw (maybe, present) refl
      ]
      | inr never ↦ rw never rest
    ]

-- Every table is the map of some rising entries.
abbrev pub AllTables : ((key seed : ℕ) → ℕ) → List Table → Type 0
AllTables hash [] = Unit {0}
AllTables hash (t ∷ ts) =
    ((es : List Entry) × Ascending es × IsTable hash es t.reader) × AllTables hash ts

pub append-AllTables :
    (hash : (key seed : ℕ) → ℕ) (ts us : List Table)
    → AllTables hash ts
    → AllTables hash us
    → AllTables hash (ts ++ us)
append-AllTables hash [] us a b = b
append-AllTables hash (t ∷ ts) us a b = (a.0, append-AllTables hash ts us a.1 b)

pub record IsEngine (hash : (key seed : ℕ) → ℕ) (e : LsmEngine) : Type 0 where
  pub sorted : Ascending e.active
  pub idle : e.immutable ≡ none
  pub l0 : AllTables hash e.l0_tables
  pub l1 : AllTables hash e.l1_tables
  pub l2 : AllTables hash e.l2_tables
  pub small : AllSmall (flushed_entries e.active)

module _ (hash : (key seed : ℕ) → ℕ) where
  get-never :
      (t : SsTableReader) (key : ℕ)
      → may_contain hash t.bloom_filter key ≡ false
      → get hash t key ≡ none
  unfolding get
  get-never t key never = rw never refl

  pub search_tables-find :
      (t : Table) (ts : List Table) (es : List Entry) (key : ℕ)
      → IsTable hash es t.reader
      → search_tables hash (t ∷ ts) key ≡ or_else (Map.find key es) (search_tables hash ts key)
  unfolding search_tables
  search_tables-find t ts es key i =
      elim (Bool-cases (may_contain hash t.reader.bloom_filter key)) [
        | inl maybe ↦ elim (Option-cases (get hash t.reader key)) [
          | inl absent ↦ rw (maybe, sym (i.gets key), absent) refl
          | inr (v, present) ↦ rw (maybe, sym (i.gets key), present) refl
        ]
        | inr never ↦ rw never (
            ap (λ (o : Option (List ℕ)). or_else o (search_tables hash ts key))
              (sym (get-never t.reader key never) ∙ i.gets key))
      ]

  whole :
      (t : Table) (es : List Entry)
      → IsTable hash es t.reader
      → remaining (start_cursor t.reader.blocks) ≡ es
  whole t es i =
      ap remaining (start_cursor-load_current t.reader.blocks i.opened)
      ∙ remaining-load_current t.reader.blocks i.filled
      ∙ i.walks

  pub merge_throws-never : (ts : List Table) → AllTables hash ts → merge_throws ts ≡ false
  merge_throws-never [] a = refl
  merge_throws-never (t ∷ ts) ((es, up, i), a) =
      rw (walk_throws-open t.reader.blocks i.opened) (merge_throws-never ts a)

  find-small :
      (es : List Entry) (key : ℕ) (v : List ℕ)
      → AllSmall es
      → Map.find key es ≡ some v
      → length v ≤ max_value_size
  unfolding Map.find
  find-small [] key v s e = absurd (cc)
  find-small ((k, w) ∷ es) key v s e = elim (Bool-cases (k == key)) [
    | inl here ↦ ground (arith, here, e, s.0)
    | inr other ↦ find-small es key v s.1 (ground (arith, other, e))
  ]

  pub search_tables-small :
      (ts : List Table) (key : ℕ) (v : List ℕ)
      → AllTables hash ts
      → search_tables hash ts key ≡ some v
      → length v ≤ max_value_size
  unfolding search_tables
  search_tables-small [] key v a e = absurd (cc)
  search_tables-small (t ∷ ts) key v ((es, up, i), a) e =
      by_value (Map.find key es) refl (sym found ∙ e) (search_tables-small ts key v a)
    where
      found :
          search_tables hash (t ∷ ts) key ≡ or_else (Map.find key es) (search_tables hash ts key)
      found = search_tables-find t ts es key i

      by_value :
          (o : Option (List ℕ))
          → Map.find key es ≡ o
          → or_else o (search_tables hash ts key) ≡ some v
          → (search_tables hash ts key ≡ some v → length v ≤ max_value_size)
          → length v ≤ max_value_size
      by_value none absent e older = older e
      by_value (some w) present e older = find-small es key v i.small (present ∙ e)

  -- No table makes a search throw.
  opens-block :
      (blocks : List (List Entry)) (n : Option ℕ)
      → all_open blocks ≡ true
      → block_throws blocks n ≡ false
  opens-block blocks none o = refl
  opens-block [] (some i) o = refl
  opens-block (b ∷ blocks) (some zero) o = ground (arith, o)
  opens-block (b ∷ blocks) (some (suc i)) o = opens-block blocks (some i) (ground (arith, o))

  search_throws-never :
      (ts : List Table) (key : ℕ) → AllTables hash ts → search_throws hash ts key ≡ false
  unfolding search_throws get_throws
  search_throws-never [] key a = refl
  search_throws-never (t ∷ ts) key ((es, up, i), a) = ground (
    arith,
    opens-block t.reader.blocks (find_block_index t.reader.index_entries key) i.opened,
    search_throws-never ts key a,
  )

  -- `get` never throws on such an engine.
  pub get_value_throws-never :
      (e : LsmEngine) (key : ℕ) → IsEngine hash e → get_value_throws hash e key ≡ false
  unfolding get_value_throws
  get_value_throws-never e key i = ground (
    arith,
    search_throws-never e.l0_tables key i.l0,
    search_throws-never e.l1_tables key i.l1,
    search_throws-never e.l2_tables key i.l2,
  )

  -- The merge starts from the tables' entries.
  pub cursors_of-AllSound : (ts : List Table) → AllTables hash ts → AllSound (cursors_of ts)
  cursors_of-AllSound [] a = tt
  cursors_of-AllSound (t ∷ ts) ((es, up, i), a) = (
    subst Ascending (sym (whole t es i)) up,
    subst IsFilled (sym (start_cursor-load_current t.reader.blocks i.opened))
        (load_current-IsFilled t.reader.blocks i.filled),
    cursors_of-AllSound ts a,
  )

  pub newest-search_tables :
      (ts : List Table) (key : ℕ)
      → AllTables hash ts
      → newest key (cursors_of ts) ≡ search_tables hash ts key
  unfolding search_tables
  newest-search_tables [] key a = refl
  newest-search_tables (t ∷ ts) key ((es, up, i), a) =
      ap (λ (xs : List Entry). or_else (Map.find key xs) (newest key (cursors_of ts)))
        (whole t es i)
      ∙ ap (or_else (Map.find key es)) (newest-search_tables ts key a)
      ∙ sym (search_tables-find t ts es key i)

  pub total-estimated_entries :
      (ts : List Table) → AllTables hash ts → total (cursors_of ts) ≡ estimated_entries ts
  total-estimated_entries [] a = refl
  total-estimated_entries (t ∷ ts) ((es, up, i), a) =
      omega (arith, ap length (whole t es i), i.counts, total-estimated_entries ts a)
