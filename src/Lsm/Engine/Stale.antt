-- ===== src/Lsm/Engine/Stale.antt =====
-- What a compaction does to the reads when a key stands on more than one level.
use amind.Prelude.{
  ℕ, ◌*◌, ◌^◌, ◌≤◌, ◌<◌, ◌≡◌, refl, ◌∙◌, Bool, true, false, Option, none, some, List, [], ◌∷◌,
  arith, leb, length, Bool-cases, inl, inr,
}
use amind.Prelude.Map
use amind.Lsm.Entries.{or_else}
use amind.Lsm.SsTable.{index_entry_size}
use amind.Lsm.MemTable.{Node}
use amind.Lsm.Merge.Newest.{live}
use amind.Lsm.Levels.{LsmEngine, done}
use amind.Lsm.Engine.{search_tables, get_value, force_compact}
use amind.Lsm.Engine.Reads.{IsEngine}
use amind.Lsm.Engine.Write.{read_node, get_value-read_node}
use amind.Lsm.Engine.Cascade.{
  first_after, second_after, cascades, upper_entries, IsCompacted, compact_l0-IsCompacted,
}

-- What `read_node` gives for the layers after a compaction.
read_after : Bool → Option Node → (s0 s1 s2 : Option (List ℕ)) → Option (List ℕ)
read_after c o s0 s1 s2 = read_node o (or_else (first_after c s0 s1 s2) (second_after c s0 s1 s2))

live-live : (s : Option (List ℕ)) → live (live s) ≡ live s
live-live none = refl
live-live (some []) = refl
live-live (some (b ∷ v)) = refl

or_else-none : (s : Option (List ℕ)) → or_else s none ≡ s
or_else-none none = refl
or_else-none (some v) = refl

new_after :
    (c : Bool) (o : Option Node) (s0 : Option (List ℕ))
    → read_after c o s0 none none ≡ read_node o (or_else s0 (or_else none none))
unfolding read_after
new_after c o none = by_node c o
  where
    by_node : (c : Bool) (o : Option Node) → read_after c o none none none ≡ read_node o none
    by_node false o = refl
    by_node true o = refl
new_after c o (some (b ∷ v)) = by_node c o
  where
    by_node :
        (c : Bool) (o : Option Node)
        → read_after c o (some (b ∷ v)) none none ≡ read_node o (some (b ∷ v))
    by_node false o = refl
    by_node true o = refl
new_after c none (some []) = by_flag c
  where
    by_flag : (c : Bool) → read_after c none (some []) none none ≡ none
    by_flag false = refl
    by_flag true = refl
new_after c (some n) (some []) = by_flag c n.is_tombstone refl
  where
    by_flag :
        (c flag : Bool)
        → n.is_tombstone ≡ flag
        → read_after c (some n) (some []) none none ≡ read_node (some n) (some [])
    by_flag false true e = rw e refl
    by_flag true true e = rw e refl
    by_flag false false e = rw e refl
    by_flag true false e = rw e refl

module _ (hash : (key seed : ℕ) → ℕ) (rounded : ℕ) (e : LsmEngine) (i : IsEngine hash e) where
  after-read :
      (e' : LsmEngine) (key : ℕ)
      → IsCompacted hash e e'
      → get_value hash e' key
        ≡ read_after
            (cascades e)
            (Map.find key e.active)
            (search_tables hash e.l0_tables key)
            (search_tables hash e.l1_tables key)
            (search_tables hash e.l2_tables key)
  unfolding read_after search_tables
  after-read e' key c =
      get_value-read_node hash e' c.engine key
      ∙ rw (c.kept, c.cleared, c.second key, c.third key) refl

  -- A forced compaction returns, and keeps what `get` returns for a key that no table of level 1 or
  -- 2 holds, if the tables of levels 0 and 1 have few enough entries for the size of an index.
  force_compact-get_value :
      (key : ℕ)
      → upper_entries e * index_entry_size < 2 ^ 32
      → search_tables hash e.l1_tables key ≡ none
      → search_tables hash e.l2_tables key ≡ none
      → (e' : LsmEngine) × (force_compact hash rounded e ≡ done e')
        × IsEngine hash e'
        × (get_value hash e' key ≡ get_value hash e key)
  unfolding force_compact
  force_compact-get_value key h e1 e2 = elim (Bool-cases (leb 2 (length e.l0_tables))) [
    | inl many ↦
        let (e', compacts, c) = compact_l0-IsCompacted hash rounded e i (ground (arith, many)) h in
        (
          e',
          rw (many, force_compact) compacts,
          c.engine,
          after-read e' key c
              ∙ rw (get_value-read_node hash e i key, e1, e2)
                  (new_after (cascades e) (Map.find key e.active)
                    (search_tables hash e.l0_tables key)),
        )
    | inr few ↦ (e, rw (few, force_compact) refl, i, refl)
  ]

  -- Suppose that the memtable does not have a key, and that both level 0, of two tables or more, and
  -- level 1, of at most two tables, have a value for it that is not empty. Before a forced
  -- compaction `get` returns the value of level 0; the compaction returns, if the tables of levels 0
  -- and 1 have few enough entries for the size of an index, and after it `get` returns the
  -- value of level 1, the older one.
  pub force_compact-stale :
      (key a b : ℕ) (new old : List ℕ)
      → upper_entries e * index_entry_size < 2 ^ 32
      → 2 ≤ length e.l0_tables
      → length e.l1_tables < 3
      → Map.find key e.active ≡ none
      → search_tables hash e.l0_tables key ≡ some (a ∷ new)
      → search_tables hash e.l1_tables key ≡ some (b ∷ old)
      → (e' : LsmEngine) × (force_compact hash rounded e ≡ done e')
        × (get_value hash e key ≡ some (a ∷ new))
        × (get_value hash e' key ≡ some (b ∷ old))
  unfolding force_compact read_after
  force_compact-stale key a b new old h two few eo e0 e1 =
      let (e', compacts, c) = compact_l0-IsCompacted hash rounded e i two h in
      (
        e',
        rw (many, force_compact) compacts,
        get_value-read_node hash e i key ∙ rw (eo, e0) refl,
        after-read e' key c ∙ rw (alone, eo, e1) refl,
      )
    where
      many : leb 2 (length e.l0_tables) ≡ true
      many = ground arith

      alone : cascades e ≡ false
      alone = ground arith
