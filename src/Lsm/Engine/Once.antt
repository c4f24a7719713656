-- ===== src/Lsm/Engine/Once.antt =====
-- Writes of new keys, with the flushes and compactions that they start.
use amind.Prelude.{
  ℕ, ◌+◌, ◌*◌, ◌^◌, ◌≤◌, ◌<◌, ◌≡◌, refl, ap, ◌∙◌, Option, none, some, List, [], ◌∷◌, arith, leb,
  length, Bool-cases, inl, inr,
}
use amind.Prelude.Map
use amind.Lsm.Entries.{or_else}
use amind.Lsm.SsTable.{SsTableReader, index_entry_size}
use amind.Lsm.SsTable.Written.{IsTable}
use amind.Lsm.MemTable.{flushed_entries, flushed_value}
use amind.Lsm.MemTable.Reads.{find-flushed_entries, flushed_entries-Ascending}
use amind.Lsm.Manifest.{sst}
use amind.Lsm.Levels.{LsmEngine, done, l0_compaction_threshold}
use amind.Lsm.Engine.{
  search_tables, maybe_compact, flush_and_compact, after_flush, with_l0_table, with_sst_id,
}
use amind.Lsm.Engine.Reads.{IsEngine, search_tables-find}
use amind.Lsm.Engine.Flush.{flush_mem_table-done, length-flushed_entries}
use amind.Lsm.Engine.Cascade.{upper_entries, compact_l0-IsCompacted}
use amind.Lsm.Engine.Store.{
  in_memory, in_l0, in_l1, in_l2, Holds, Lacks, compacted-Holds, compacted-Lacks,
}

-- All the entries that a flush and a compaction may write.
abbrev pub entries_of : LsmEngine → ℕ
entries_of e = length e.active + upper_entries e

-- Every key keeps its value.
pub record IsKept (hash : (key seed : ℕ) → ℕ) (e e' : LsmEngine) : Type 0 where
  pub engine : IsEngine hash e'
  pub holds : (key b : ℕ) (v : List ℕ) → Holds hash e key (b ∷ v) → Holds hash e' key (b ∷ v)
  pub lacks : (key : ℕ) → Lacks hash e key → Lacks hash e' key
  pub bounded : entries_of e' ≤ entries_of e

module _ (hash : (key seed : ℕ) → ℕ) (rounded : ℕ) where
  maybe_compact-IsKept :
      (e : LsmEngine)
      → IsEngine hash e
      → upper_entries e * index_entry_size < 2 ^ 32
      → (e' : LsmEngine) × (maybe_compact hash rounded e ≡ done e') × IsKept hash e e'
  unfolding maybe_compact
  maybe_compact-IsKept e i h =
      elim (Bool-cases (leb l0_compaction_threshold (length e.l0_tables))) [
        | inl many ↦
            let (e', compacts, c) =
              compact_l0-IsCompacted hash rounded e i (ground (arith, many)) h in
            (
              e',
              rw (many, maybe_compact) compacts,
              record {
                engine = c.engine;
                holds = λ key b v. compacted-Holds hash e e' key c b v;
                lacks = λ key. compacted-Lacks hash e e' key c;
                bounded = omega (arith, c.bounded, ap length c.kept);
              },
            )
        | inr few ↦ (
          e,
          rw (few, maybe_compact) refl,
          record { engine = i; holds = λ key b v x. x; lacks = λ key x. x; bounded = omega arith },
        )
      ]

  -- The engine between the flush of the memtable and the compaction.
  abbrev between : LsmEngine → SsTableReader → LsmEngine
  between e t = after_flush (
      with_l0_table e.manifest.next_sst_id t
        (with_sst_id (record e { immutable = some e.active; active = [] })))

  module _ (e : LsmEngine) (t : SsTableReader) (i : IsEngine hash e)
      (it : IsTable hash (flushed_entries e.active) t) where
    between-l0 :
        (key : ℕ)
        → search_tables hash (between e t).l0_tables key
          ≡ or_else
              (elim (Map.find key e.active) [ none ↦ none | some n ↦ some (flushed_value n) ])
              (search_tables hash e.l0_tables key)
    between-l0 key =
        search_tables-find hash (record { file = sst e.manifest.next_sst_id; reader = t })
          e.l0_tables (flushed_entries e.active) key it
        ∙ ap (λ (o : Option (List ℕ)). or_else o (search_tables hash e.l0_tables key))
            (find-flushed_entries key e.active)

    between-Holds :
        (key b : ℕ) (v : List ℕ) → Holds hash e key (b ∷ v) → Holds hash (between e t) key (b ∷ v)
    unfolding Map.find
    between-Holds key b v h = elim h [
      | in_memory eo e0 e1 e2 ↦ in_l0 refl (between-l0 key ∙ rw eo refl) e1 e2
      | in_l0 eo e0 e1 e2 ↦ in_l0 refl (between-l0 key ∙ rw (eo, e0) refl) e1 e2
      | in_l1 eo e0 e1 e2 ↦ in_l1 refl (between-l0 key ∙ rw (eo, e0) refl) e1 e2
      | in_l2 eo e0 e1 e2 ↦ in_l2 refl (between-l0 key ∙ rw (eo, e0) refl) e1 e2
    ]

    between-Lacks : (key : ℕ) → Lacks hash e key → Lacks hash (between e t) key
    unfolding Map.find
    between-Lacks key (eo, e0, e1, e2) = (refl, between-l0 key ∙ rw (eo, e0) refl, e1, e2)

    between-IsKept : IsKept hash e (between e t)
    unfolding flushed_entries
    between-IsKept = record {
      engine = record {
        sorted = tt;
        small = tt;
        idle = refl;
        l0 = ((flushed_entries e.active, flushed_entries-Ascending e.active i.sorted, it), i.l0);
        l1 = i.l1;
        l2 = i.l2;
      };
      holds = between-Holds;
      lacks = between-Lacks;
      bounded = omega (arith, it.counts, length-flushed_entries e.active);
    }

  -- A flush with the compaction that may follow it returns, and every key keeps its value, if the
  -- values stand in one layer each.
  pub flush_and_compact-IsKept :
      (e : LsmEngine)
      → IsEngine hash e
      → entries_of e * index_entry_size < 2 ^ 32
      → (e' : LsmEngine) × (flush_and_compact hash rounded e ≡ done e') × IsKept hash e e'
  unfolding flush_and_compact
  flush_and_compact-IsKept e i h =
      let (t, flushes, it) =
        flush_mem_table-done hash rounded e.active
          (record e { immutable = some e.active; active = [] }) i.sorted (omega (arith, h))
          i.small in
      let k1 = between-IsKept e t i it in
      let (e', compacts, k2) =
        maybe_compact-IsKept (between e t) k1.engine (omega (arith, h, k1.bounded)) in
      (
        e',
        rw (flushes, flush_and_compact) compacts,
        record {
          engine = k2.engine;
          holds = λ key b v x. k2.holds key b v (k1.holds key b v x);
          lacks = λ key x. k2.lacks key (k1.lacks key x);
          bounded = omega (arith, k1.bounded, k2.bounded);
        },
      )
