-- ===== src/Lsm/Engine/Store.antt =====
-- Values that stand in one layer only: every operation finds them again.
use amind.Prelude.{ℕ, ◌≡◌, refl, ap, ◌∙◌, Bool, true, false, Option, none, some, List, ◌∷◌}
use amind.Prelude.Map
use amind.Lsm.MemTable.{Node, live_node}
use amind.Lsm.Levels.{Table, LsmEngine}
use amind.Lsm.Engine.{search_tables, get_value}
use amind.Lsm.Engine.Reads.{IsEngine}
use amind.Lsm.Engine.Write.{get_value-read_node}
use amind.Lsm.Engine.Cascade.{first_after, second_after, cascades, IsCompacted}

-- The value of a key in one layer, by what the memtable and the three levels have for it.
pub data IsHeld (v : List ℕ) (o : Option Node) (s0 s1 s2 : Option (List ℕ)) : Type 0 where
  in_memory : o ≡ some (live_node v) → s0 ≡ none → s1 ≡ none → s2 ≡ none → IsHeld v o s0 s1 s2
  in_l0 : o ≡ none → s0 ≡ some v → s1 ≡ none → s2 ≡ none → IsHeld v o s0 s1 s2
  in_l1 : o ≡ none → s0 ≡ none → s1 ≡ some v → s2 ≡ none → IsHeld v o s0 s1 s2
  in_l2 : o ≡ none → s0 ≡ none → s1 ≡ none → s2 ≡ some v → IsHeld v o s0 s1 s2

abbrev pub AllNone : (o : Option Node) (s0 s1 s2 : Option (List ℕ)) → Type 0
AllNone o s0 s1 s2 = (o ≡ none) × (s0 ≡ none) × (s1 ≡ none) × (s2 ≡ none)

after_lem :
    (c : Bool) (b : ℕ) (v : List ℕ) (o : Option Node) (s0 s1 s2 : Option (List ℕ))
    → IsHeld (b ∷ v) o s0 s1 s2
    → IsHeld (b ∷ v) o none (first_after c s0 s1 s2) (second_after c s0 s1 s2)
after_lem false b v o s0 s1 s2 (in_memory eo e0 e1 e2) = in_memory eo refl (rw (e1, e0) refl) e2
after_lem true b v o s0 s1 s2 (in_memory eo e0 e1 e2) =
    in_memory eo refl refl (rw (e2, e1, e0) refl)
after_lem false b v o s0 s1 s2 (in_l0 eo e0 e1 e2) = in_l1 eo refl (rw (e1, e0) refl) e2
after_lem true b v o s0 s1 s2 (in_l0 eo e0 e1 e2) = in_l2 eo refl refl (rw (e2, e1, e0) refl)
after_lem false b v o s0 s1 s2 (in_l1 eo e0 e1 e2) = in_l1 eo refl (rw e1 refl) e2
after_lem true b v o s0 s1 s2 (in_l1 eo e0 e1 e2) = in_l2 eo refl refl (rw (e2, e1) refl)
after_lem false b v o s0 s1 s2 (in_l2 eo e0 e1 e2) = in_l2 eo refl (rw (e1, e0) refl) e2
after_lem true b v o s0 s1 s2 (in_l2 eo e0 e1 e2) = in_l2 eo refl refl (rw e2 refl)

after_none :
    (c : Bool) (o : Option Node) (s0 s1 s2 : Option (List ℕ))
    → AllNone o s0 s1 s2
    → AllNone o none (first_after c s0 s1 s2) (second_after c s0 s1 s2)
after_none false o s0 s1 s2 (eo, e0, e1, e2) = (eo, refl, rw (e1, e0) refl, e2)
after_none true o s0 s1 s2 (eo, e0, e1, e2) = (eo, refl, refl, rw (e2, e1, e0) refl)

module _ (hash : (key seed : ℕ) → ℕ) where
  -- The key has the value `v` in one layer, and in no other.
  abbrev pub Holds : LsmEngine → ℕ → List ℕ → Type 0
  Holds e key v =
      IsHeld v (Map.find key e.active) (search_tables hash e.l0_tables key)
        (search_tables hash e.l1_tables key) (search_tables hash e.l2_tables key)

  abbrev pub Lacks : LsmEngine → ℕ → Type 0
  Lacks e key =
      AllNone (Map.find key e.active) (search_tables hash e.l0_tables key)
        (search_tables hash e.l1_tables key) (search_tables hash e.l2_tables key)

  pub Holds-get_value :
      (e : LsmEngine) (key b : ℕ) (v : List ℕ)
      → IsEngine hash e
      → Holds e key (b ∷ v)
      → get_value hash e key ≡ some (b ∷ v)
  Holds-get_value e key b v i h = get_value-read_node hash e i key ∙ elim h [
    | in_memory eo e0 e1 e2 ↦ rw eo refl
    | in_l0 eo e0 e1 e2 ↦ rw (eo, e0) refl
    | in_l1 eo e0 e1 e2 ↦ rw (eo, e0, e1) refl
    | in_l2 eo e0 e1 e2 ↦ rw (eo, e0, e1, e2) refl
  ]

  pub Lacks-get_value :
      (e : LsmEngine) (key : ℕ) → IsEngine hash e → Lacks e key → get_value hash e key ≡ none
  Lacks-get_value e key i (eo, e0, e1, e2) =
      get_value-read_node hash e i key ∙ rw (eo, e0, e1, e2) refl

  -- The layers of a key are the same after a step.
  module _ (e e' : LsmEngine) (key : ℕ) (c : IsCompacted hash e e') where
    memory_kept : Map.find key e'.active ≡ Map.find key e.active
    memory_kept = ap (Map.find key) c.kept

    l0_cleared : search_tables hash e'.l0_tables key ≡ none
    unfolding search_tables
    l0_cleared = ap (λ (ts : List Table). search_tables hash ts key) c.cleared

    pub compacted-Holds : (b : ℕ) (v : List ℕ) → Holds e key (b ∷ v) → Holds e' key (b ∷ v)
    compacted-Holds b v h =
        rw (memory_kept, l0_cleared, c.second key, c.third key)
          (after_lem (cascades e) b v (Map.find key e.active) (search_tables hash e.l0_tables key)
            (search_tables hash e.l1_tables key) (search_tables hash e.l2_tables key) h)

    pub compacted-Lacks : Lacks e key → Lacks e' key
    compacted-Lacks h =
        rw (memory_kept, l0_cleared, c.second key, c.third key)
          (after_none (cascades e) (Map.find key e.active) (search_tables hash e.l0_tables key)
            (search_tables hash e.l1_tables key) (search_tables hash e.l2_tables key) h)
