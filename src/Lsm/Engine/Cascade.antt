-- ===== src/Lsm/Engine/Cascade.antt =====
-- A compaction of level 0, with the compaction of level 1 that may follow it.
use amind.Prelude.{
  ℕ, ◌+◌, ◌*◌, ◌^◌, ◌≤◌, ◌<◌, ◌≡◌, refl, ap, ◌∙◌, Bool, true, false, Option, none, List, [], ◌∷◌,
  ◌++◌, arith, ltb, leb, length, length-append, Bool-cases, inl, inr,
}
use amind.Lsm.Entries.{or_else}
use amind.Lsm.SsTable.{SsTableReader, index_entry_size}
use amind.Lsm.Merge.Newest.{live}
use amind.Lsm.Levels.{
  LsmEngine, done, zeroth, first, estimated_entries, retire, l1_table, l2_table, push_back,
  l1_compaction_threshold,
}
use amind.Lsm.Engine.{search_tables, compact_l0}
use amind.Lsm.Engine.Reads.{IsEngine}
use amind.Lsm.Engine.Compact.{
  estimated_entries-append, IsMergeOf, compact_one-done, compact_one-IsEngine, appended,
}

-- What level 1 and level 2 have for a key after a compaction of level 0, by what the levels had.
abbrev pub first_after : (cascade : Bool) (s0 s1 s2 : Option (List ℕ)) → Option (List ℕ)
first_after false s0 s1 s2 = or_else s1 (live s0)
first_after true s0 s1 s2 = none

abbrev pub second_after : (cascade : Bool) (s0 s1 s2 : Option (List ℕ)) → Option (List ℕ)
second_after false s0 s1 s2 = s2
second_after true s0 s1 s2 = or_else s2 (live (or_else s1 (live s0)))

abbrev pub cascades : LsmEngine → Bool
cascades e = leb l1_compaction_threshold (length e.l1_tables + 1)

-- The entries of the tables that a compaction may read.
abbrev pub upper_entries : LsmEngine → ℕ
upper_entries e = estimated_entries e.l0_tables + estimated_entries e.l1_tables

-- What a compaction of level 0 does.
pub record IsCompacted (hash : (key seed : ℕ) → ℕ) (e e' : LsmEngine) : Type 0 where
  pub engine : IsEngine hash e'
  pub kept : e'.active ≡ e.active
  pub cleared : e'.l0_tables ≡ []
  pub second :
      (key : ℕ)
      → search_tables hash e'.l1_tables key
        ≡ first_after
            (cascades e)
            (search_tables hash e.l0_tables key)
            (search_tables hash e.l1_tables key)
            (search_tables hash e.l2_tables key)
  pub third :
      (key : ℕ)
      → search_tables hash e'.l2_tables key
        ≡ second_after
            (cascades e)
            (search_tables hash e.l0_tables key)
            (search_tables hash e.l1_tables key)
            (search_tables hash e.l2_tables key)
  pub bounded : upper_entries e' ≤ upper_entries e

module _ (hash : (key seed : ℕ) → ℕ) (rounded : ℕ) (e : LsmEngine) where
  many : 2 ≤ length e.l0_tables → ltb (length e.l0_tables) 2 ≡ false
  many two = ground arith

  full_level :
      (t : SsTableReader)
      → leb 4 (length (e.l1_tables ++ l1_table e.next_sst_id t ∷ [])) ≡ cascades e
  full_level t = ap (leb 4) (length-append {0} e.l1_tables (l1_table e.next_sst_id t ∷ []))

  alone-IsCompacted :
      (t : SsTableReader)
      → IsEngine hash e
      → IsMergeOf hash e.l0_tables t
      → cascades e ≡ false
      → IsCompacted hash e (push_back zeroth e.next_sst_id t (retire zeroth e))
  alone-IsCompacted t i m alone = record {
    engine = compact_one-IsEngine hash rounded zeroth e t i m;
    kept = refl;
    cleared = refl;
    second = λ key.
        rw alone (appended hash rounded e.l0_tables e.l1_tables (l1_table e.next_sst_id t) key m);
    third = λ key. rw alone refl;
    bounded =
        omega
          (arith, m.bounded, estimated_entries-append e.l1_tables (l1_table e.next_sst_id t ∷ []));
  }

  cascade-IsCompacted :
      (t : SsTableReader)
      → IsMergeOf hash e.l0_tables t
      → let e1 = push_back zeroth e.next_sst_id t (retire zeroth e) in
        (t2 : SsTableReader)
        → IsEngine hash e1
        → IsMergeOf hash e1.l1_tables t2
        → cascades e ≡ true
        → IsCompacted hash e (push_back first e1.next_sst_id t2 (retire first e1))
  unfolding search_tables
  cascade-IsCompacted t m t2 i1 m2 cascade =
      let e1 = push_back zeroth e.next_sst_id t (retire zeroth e) in
      record {
        engine = compact_one-IsEngine hash rounded first e1 t2 i1 m2;
        kept = refl;
        cleared = refl;
        second = λ key. rw cascade refl;
        third = λ key. rw cascade (
            appended hash rounded e1.l1_tables e.l2_tables (l2_table e1.next_sst_id t2) key m2
            ∙ ap (λ (o : Option (List ℕ)). or_else (search_tables hash e.l2_tables key) (live o))
                (appended hash rounded e.l0_tables e.l1_tables (l1_table e.next_sst_id t) key m));
        bounded = omega arith;
      }

  -- A compaction of two or more tables of level 0 returns, if the tables that it reads have few
  -- enough entries for the size of an index. It clears level 0; level 1 has for each key what
  -- it had, and else the newest value of level 0, unless it is empty; and if the level is full then,
  -- level 2 has what it had, and else this value of level 1.
  pub compact_l0-IsCompacted :
      IsEngine hash e
      → 2 ≤ length e.l0_tables
      → upper_entries e * index_entry_size < 2 ^ 32
      → (e' : LsmEngine) × (compact_l0 hash rounded e ≡ done e') × IsCompacted hash e e'
  unfolding compact_l0
  compact_l0-IsCompacted i two h =
      let (t, compacts, m) = compact_one-done hash rounded zeroth e i two (omega (arith, h)) in
      let e1 = push_back zeroth e.next_sst_id t (retire zeroth e) in
      let i1 = compact_one-IsEngine hash rounded zeroth e t i m in
      let new = l1_table e.next_sst_id t in
      elim (Bool-cases (cascades e)) [
        | inl cascade ↦
            let (t2, compacts2, m2) =
              compact_one-done hash rounded first e1 i1
                (ground (arith, length-append {0} e.l1_tables (new ∷ []), cascade))
                (omega (arith, h, m.bounded, estimated_entries-append e.l1_tables (new ∷ []))) in
            (
              push_back first e1.next_sst_id t2 (retire first e1),
              rw (many two, compacts, full_level t ∙ cascade, compacts2, compact_l0) refl,
              cascade-IsCompacted t m t2 i1 m2 cascade,
            )
        | inr alone ↦ (
          e1,
          rw (many two, compacts, full_level t ∙ alone, compact_l0) refl,
          alone-IsCompacted t i m alone,
        )
      ]
