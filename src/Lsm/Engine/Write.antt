-- ===== src/Lsm/Engine/Write.antt =====
-- Writes, removals and flushes, by what `get` returns after them.
use amind.Prelude.{
  ℕ, ◌≤◌, [], ◌∷◌, ltb, length, ◌≡◌, refl, ap, sym, ◌∙◌, Bool, false, Option, none, some, List,
  ◌==◌, if◌then◌else◌, Bool-cases, inl, inr,
}
use amind.Prelude.Map
use amind.Lsm.Entries.{or_else}
use amind.Lsm.MemTable
use amind.Lsm.SsTable.Writer.{AllSmall, max_value_size}
use amind.Lsm.MemTable.{MemTable, Node, flushed_entries, get_raw, live_value}
use amind.Lsm.MemTable.Reads.{put-Ascending, get_raw-find, find-put}
use amind.Lsm.Merge.Newest.{live}
use amind.Lsm.Levels.{LsmEngine}
use amind.Lsm.Engine.{search_tables, immutable_raw, get_value, logged_put}
use amind.Lsm.Engine.Reads.{in_layers, get_value-in_layers, IsEngine}

-- Whether the memtable holds the key as removed.
abbrev pub is_buried : Option Node → Bool
is_buried none = false
is_buried (some n) = n.is_tombstone

-- The tables on disk alone.
abbrev pub on_disk : ((key seed : ℕ) → ℕ) → LsmEngine → ℕ → Option (List ℕ)
on_disk hash e key =
    or_else (search_tables hash e.l0_tables key)
      (or_else (search_tables hash e.l1_tables key) (search_tables hash e.l2_tables key))

put-AllSmall :
    (key : ℕ) (value : List ℕ) (m : MemTable)
    → length value ≤ max_value_size
    → AllSmall (flushed_entries m)
    → AllSmall (flushed_entries (MemTable.put key value m))
unfolding MemTable.put flushed_entries
put-AllSmall key value [] h s = (h, tt)
put-AllSmall key value ((k, n) ∷ m) h s = elim (Bool-cases (ltb k key)) [
  | inl past ↦ rw (past, MemTable.put) (s.0, put-AllSmall key value m h s.1)
  | inr here ↦ elim (Bool-cases (k == key)) [
    | inl same ↦ rw (here, same, MemTable.put) (h, s.1)
    | inr new ↦ rw (here, new, MemTable.put) (h, s)
  ]
]

module _ (hash : (key seed : ℕ) → ℕ) (e : LsmEngine) (i : IsEngine hash e) where
  -- What `get` returns, by the memtable's node for the key.
  get_value-find :
      (key : ℕ)
      → get_value hash e key
        ≡ live (
            or_else
              (elim (Map.find key e.active) [ none ↦ none | some n ↦ live_value n ])
              (on_disk hash e key))
  get_value-find key =
      get_value-in_layers hash e key
      ∙ ap
          (λ (m : Option MemTable).
            in_layers (get_raw key e.active) (immutable_raw m key)
              (search_tables hash e.l0_tables key) (search_tables hash e.l1_tables key)
              (search_tables hash e.l2_tables key))
          i.idle
      ∙ ap (λ (a : Option (List ℕ)). live (or_else a (on_disk hash e key)))
          (get_raw-find key e.active i.sorted)

  pub logged_put-IsEngine :
      (key : ℕ) (value : List ℕ)
      → length value ≤ max_value_size
      → IsEngine hash (logged_put key value e)
  logged_put-IsEngine key value fits = record {
    sorted = put-Ascending key value e.active i.sorted;
    small = put-AllSmall key value e.active fits i.small;
    idle = i.idle;
    l0 = i.l0;
    l1 = i.l1;
    l2 = i.l2;
  }

-- What `get` returns, by the node that the memtable has for the key.
abbrev pub read_node : Option Node → Option (List ℕ) → Option (List ℕ)
read_node none below = live below
read_node (some n) below = live (or_else (live_value n) below)

module _ (hash : (key seed : ℕ) → ℕ) (e : LsmEngine) (i : IsEngine hash e) where
  pub get_value-read_node :
      (key : ℕ) → get_value hash e key ≡ read_node (Map.find key e.active) (on_disk hash e key)
  get_value-read_node key = get_value-find hash e i key ∙ node_lem (Map.find key e.active)
    where
      node_lem :
          (o : Option Node)
          → live (or_else (elim o [ none ↦ none | some n ↦ live_value n ]) (on_disk hash e key))
            ≡ read_node o (on_disk hash e key)
      node_lem none = refl
      node_lem (some n) = refl

module _ (hash : (key seed : ℕ) → ℕ) (e : LsmEngine) (i : IsEngine hash e) where
  -- After a write to the memtable `get` returns the written value for its key, none if the value is
  -- empty, and for every other key what it returned before.
  logged_put-get_value :
      (key : ℕ) (value : List ℕ)
      → length value ≤ max_value_size
      → IsEngine hash (logged_put key value e)
        × ((j : ℕ)
            → get_value hash (logged_put key value e) j
              ≡ (if key == j then live (some value) else get_value hash e j))
  logged_put-get_value key value fits = (
    after,
    λ j.
        get_value-read_node hash (logged_put key value e) after j
        ∙ ap (λ (o : Option Node). read_node o (on_disk hash e j))
            (find-put key j value e.active i.sorted)
        ∙ elim (Bool-cases (key == j)) [
          | inl here ↦ rw here refl
          | inr other ↦ rw other (sym (get_value-read_node hash e i j))
        ],
  )
    where
      after : IsEngine hash (logged_put key value e)
      after = logged_put-IsEngine hash e i key value fits
