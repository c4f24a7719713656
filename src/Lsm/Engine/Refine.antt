-- ===== src/Lsm/Engine/Refine.antt =====
-- The engine refines a map from keys to values, as long as every key is written once.
use amind.Prelude.{
  ℕ, ◌+◌, ◌*◌, ◌^◌, ◌≤◌, ◌<◌, ◌≡◌, ◌≢◌, refl, ◌∙◌, subst, Bool, true, false, Option, none, some,
  List, [], ◌∷◌, arith, ◌==◌, length, Bool-cases, inl, inr,
}
use amind.Prelude.Map
use amind.Lsm.SsTable.{index_entry_size}
use amind.Lsm.MemTable
use amind.Lsm.SsTable.Writer.{AllSmall, max_value_size}
use amind.Lsm.MemTable.{MemTable, Node, live_node, flushed_entries}
use amind.Lsm.MemTable.Reads.{find-put}
use amind.Lsm.Levels.{LsmEngine, Outcome, done, then_do, new_engine}
use amind.Lsm.Engine.{search_tables, get_value, get_value_throws, logged_put, put_raw}
use amind.Lsm.Engine.Reads.{IsEngine, get_value_throws-never}
use amind.Lsm.Engine.Write.{logged_put-IsEngine}
use amind.Lsm.Engine.Store.{in_memory, Holds, Lacks, Holds-get_value, Lacks-get_value}
use amind.Lsm.Engine.Once.{entries_of, flush_and_compact-IsKept}

-- A call of `putRaw`, with the answer that `shouldFlush` gives; the value is `head ∷ tail`.
pub record Write : Type 0 where
  pub full : Bool
  pub key : ℕ
  pub head : ℕ
  pub tail : List ℕ

-- The map that the writes make.
abbrev pub written : List Write → List (ℕ × List ℕ)
written [] = []
written (w ∷ ws) = (w.key, w.head ∷ w.tail) ∷ written ws

-- No key is written twice.
abbrev pub AllNew : List Write → Type 0
AllNew [] = Unit {0}
AllNew (w ∷ ws) = (Map.find w.key (written ws) ≡ none) × AllNew ws

length-put : (key : ℕ) (v : List ℕ) (m : MemTable) → length (MemTable.put key v m) ≤ length m + 1
unfolding MemTable.put
length-put key v [] = omega arith
length-put key v ((k, n) ∷ m) = ground (arith, length-put key v m)

module _ (hash : (key seed : ℕ) → ℕ) (rounded : ℕ) where
  unfoldable pub put_all : List Write → LsmEngine → Outcome
  put_all [] e = done e
  put_all (w ∷ ws) e = then_do (put_raw hash rounded w.full w.key (w.head ∷ w.tail) e) (put_all ws)

  other_kept :
      (e : LsmEngine) (key j : ℕ) (v : List ℕ)
      → IsEngine hash e
      → key ≢ j
      → Map.find j (MemTable.put key v e.active) ≡ Map.find j e.active
  other_kept e key j v i d = find-put key j v e.active i.sorted ∙ ground arith

  -- What a write of a new key does to the layers.
  record IsPut (e e' : LsmEngine) (key b : ℕ) (v : List ℕ) : Type 0 where
    engine : IsEngine hash e'
    here : Holds hash e' key (b ∷ v)
    holds : (j c : ℕ) (w : List ℕ) → key ≢ j → Holds hash e j (c ∷ w) → Holds hash e' j (c ∷ w)
    lacks : (j : ℕ) → key ≢ j → Lacks hash e j → Lacks hash e' j
    bounded : entries_of e' ≤ entries_of e + 1

  logged_put-IsPut :
      (e : LsmEngine) (key b : ℕ) (v : List ℕ)
      → IsEngine hash e
      → Lacks hash e key
      → length (b ∷ v) ≤ max_value_size
      → IsPut e (logged_put key (b ∷ v) e) key b v
  logged_put-IsPut e key b v i (eo, e0, e1, e2) fits = record {
    engine = logged_put-IsEngine hash e i key (b ∷ v) fits;
    here = in_memory (find-put key key (b ∷ v) e.active i.sorted ∙ ground arith) e0 e1 e2;
    holds = λ j c w d h. rw (other_kept e key j (b ∷ v) i d) h;
    lacks = λ j d h. rw (other_kept e key j (b ∷ v) i d) h;
    bounded = omega (arith, length-put key (b ∷ v) e.active);
  }

  put_raw-IsPut :
      (full : Bool) (e : LsmEngine) (key b : ℕ) (v : List ℕ)
      → IsEngine hash e
      → Lacks hash e key
      → (entries_of e + 1) * index_entry_size < 2 ^ 32
      → length (b ∷ v) ≤ max_value_size
      → (e' : LsmEngine) × (put_raw hash rounded full key (b ∷ v) e ≡ done e') × IsPut e e' key b v
  unfolding put_raw
  put_raw-IsPut false e key b v i l h fits =
      (logged_put key (b ∷ v) e, refl, logged_put-IsPut e key b v i l fits)
  put_raw-IsPut true e key b v i l h fits =
      let p = logged_put-IsPut e key b v i l fits in
      let (e', flushes, k) =
        flush_and_compact-IsKept hash rounded (logged_put key (b ∷ v) e) p.engine
          (omega (arith, h, p.bounded)) in
      (
        e',
        flushes,
        record {
          engine = k.engine;
          here = k.holds key b v p.here;
          holds = λ j c w d x. k.holds j c w (p.holds j c w d x);
          lacks = λ j d x. k.lacks j (p.lacks j d x);
          bounded = omega (arith, p.bounded, k.bounded);
        },
      )

  abbrev AllLacking : LsmEngine → List Write → Type 0
  AllLacking e [] = Unit {0}
  AllLacking e (w ∷ ws) = Lacks hash e w.key × AllLacking e ws

  still_lacking :
      (e e' : LsmEngine) (key b : ℕ) (v : List ℕ) (ws : List Write)
      → IsPut e e' key b v
      → Map.find key (written ws) ≡ none
      → AllLacking e ws
      → AllLacking e' ws
  unfolding Map.find
  still_lacking e e' key b v [] p n l = tt
  still_lacking e e' key b v (w ∷ ws) p n l = (
    p.lacks w.key (ground (arith, n)) l.0,
    still_lacking e e' key b v ws p (ground (arith, n)) l.1,
  )

  -- From an engine that lacks all the keys.
  put_all-Holds :
      (ws : List Write) (e : LsmEngine)
      → IsEngine hash e
      → AllNew ws
      → AllLacking e ws
      → (entries_of e + length ws) * index_entry_size < 2 ^ 32
      → AllSmall (written ws)
      → (e' : LsmEngine) × (put_all ws e ≡ done e')
        × IsEngine hash e'
        × ((j c : ℕ) (w : List ℕ)
            → Map.find j (written ws) ≡ none
            → Holds hash e j (c ∷ w)
            → Holds hash e' j (c ∷ w))
        × ((j c : ℕ) (w : List ℕ)
            → Map.find j (written ws) ≡ some (c ∷ w)
            → Holds hash e' j (c ∷ w))
        × ((j : ℕ) → Map.find j (written ws) ≡ none → Lacks hash e j → Lacks hash e' j)
  unfolding put_all Map.find
  put_all-Holds [] e i n l h fits = (e, refl, i, λ j c w d x. x, λ j c w d. absurd (cc), λ j d x. x)
  put_all-Holds (w ∷ ws) e i n l h fits =
      let (e1, puts, p) =
        put_raw-IsPut w.full e w.key w.head w.tail i l.0 (omega (arith, h)) fits.0 in
      let (e', rest, i', holds, finds, lacks) =
        put_all-Holds ws e1 p.engine n.1 (still_lacking e e1 w.key w.head w.tail ws p n.0 l.1)
          (omega (arith, h, p.bounded)) fits.1 in
      (
        e',
        rw (puts, put_all) rest,
        i',
        λ j c u d x. holds j c u (ground (arith, d)) (p.holds j c u (ground (arith, d)) x),
        λ j c u d. elim (Bool-cases (w.key == j)) [
          | inl here ↦
              subst (λ (k : ℕ). Holds hash e' k (c ∷ u)) (ground (arith, here))
                (subst (Holds hash e' w.key) (ground (arith, here, d))
                  (holds w.key w.head w.tail n.0 p.here))
          | inr other ↦ finds j c u (ground (arith, other, d))
        ],
        λ j d x. lacks j (ground (arith, d)) (p.lacks j (ground (arith, d)) x),
      )

-- From an empty directory, any writes of values that are not empty, to keys that are all different,
-- return, whenever the memtable is flushed and the levels are compacted on the way, if the writes
-- are few enough for the size of an index and the values fit a block of 64 MiB. Then `get` does
-- not throw, and is the lookup in the map of what was written.
pub put_all-refines :
    (hash : (key seed : ℕ) → ℕ) (rounded : ℕ) (ws : List Write)
    → AllNew ws
    → length ws * index_entry_size < 2 ^ 32
    → AllSmall (written ws)
    → (e : LsmEngine) × (put_all hash rounded ws new_engine ≡ done e)
      × ((key : ℕ) → get_value_throws hash e key ≡ false)
      × ((key : ℕ) → get_value hash e key ≡ Map.find key (written ws))
unfolding Map.find search_tables flushed_entries
put_all-refines hash rounded ws n h fits =
    let (e, puts, i, holds, finds, lacks) =
      put_all-Holds hash rounded ws new_engine
        (record { sorted = tt; idle = refl; l0 = tt; l1 = tt; l2 = tt; small = tt }) n (nothing ws)
        (omega (arith, h)) fits in
    (
      e,
      puts,
      λ key. get_value_throws-never hash e key i,
      λ key. reads e key i (Map.find key (written ws)) refl (finds key) (lacks key),
    )
  where
    nothing : (ws : List Write) → AllLacking hash rounded new_engine ws
    nothing [] = tt
    nothing (w ∷ ws) = ((refl, refl, refl, refl), nothing ws)

    reads :
        (e : LsmEngine) (key : ℕ)
        → IsEngine hash e
        → (o : Option (List ℕ)) → Map.find key (written ws) ≡ o
        → ((c : ℕ) (u : List ℕ)
            → Map.find key (written ws) ≡ some (c ∷ u)
            → Holds hash e key (c ∷ u))
        → (Map.find key (written ws) ≡ none → Lacks hash new_engine key → Lacks hash e key)
        → get_value hash e key ≡ o
    reads e key i none d finds lacks =
        Lacks-get_value hash e key i (lacks d (refl, refl, refl, refl))
    reads e key i (some []) d finds lacks = absurd (never ws d)
      where
        never : (ws : List Write) → Map.find key (written ws) ≡ some [] → ⊥
        never [] d = cc
        never (w ∷ ws) d = ground (arith, d, never ws)
    reads e key i (some (c ∷ u)) d finds lacks = Holds-get_value hash e key c u i (finds c u d)
