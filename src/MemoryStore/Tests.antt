-- ===== src/MemoryStore/Tests.antt =====
-- The theorems on the memory store at a small engine and codec.
use amind.Prelude.{
  ◌==◌, if◌then◌else◌, ℕ, ◌+◌, ◌-◌, ◌*◌, ◌/◌, ◌≤◌, ◌≡◌, refl, false, none, some, List, [], ◌∷◌,
  arith, ltb, leb, length,
}
use amind.Prelude.Map.{find, assign}
use amind.Prelude.Ids
use amind.Prelude.Ids.{is_empty}
use amind.Record.{MemoryRecord}
use amind.Record.Sample
use package.amind.MemoryStore.{MemoryStore, Config, peek}
use package.amind.MemoryStore.Parts.{corrupted_data, Result, ok, err, Floats, Backend}
use package.amind.MemoryStore.Operations.{fast_store, update}
use package.amind.MemoryStore.Versions.{IsSuperseded, IsNextVersion, update-IsNextVersion}
use package.amind.MemoryStore.Distinct.{HasKeys}
use package.amind.MemoryStore.Bound.{fast_store-bounded}

abbrev counting : Floats
counting = record {
  add = λ a b. a + b;
  sub = λ a b. a - b;
  mul = λ a b. a * b;
  div = λ a b. a / b;
  neg = λ a. a;
  exp = λ a. a;
  of_nat = λ a. a;
  less = ltb;
  at_least = λ a b. leb b a;
}

abbrev encode_record : MemoryRecord → List ℕ
encode_record r = r.memory_id ∷ r.flags ∷ r.access_count ∷ r.content

abbrev decode : List ℕ → Result MemoryRecord
decode (id ∷ flags ∷ count ∷ content) =
    ok (record Sample.note {
      memory_id = id;
      flags = flags;
      access_count = count;
      content = content;
    })
decode _ = err corrupted_data

unfoldable walk_keys : List (ℕ × List ℕ) → List (ℕ × List ℕ) → List (ℕ × List ℕ)
walk_keys e [] = []
walk_keys e ((k, v) ∷ keys) =
    let rest = walk_keys e keys in elim (find k e) [ none ↦ rest | some w ↦ (k, w) ∷ rest ]

abbrev toy : Backend
toy = record {
  Engine = List (ℕ × List ℕ);
  get_raw = λ e k. find k e;
  put_raw = assign;
  flush_engine = λ e. e;
  live_entries = λ e. walk_keys e e;
  serialize = encode_record;
  deserialize = decode;
  Index = List ℕ;
  insert_vector = λ id v index. Ids.insert id index;
  soft_delete = Ids.erase;
  has_vector = Ids.contains;
  search = λ index v k. [];
  floats = counting;
}

abbrev settings : Config
settings = record {
  conflict_similarity_threshold = 0x3f59999a;
  decay_rate = 0x3c23d70a;
  exponential_decay_enabled = false;
  promotion_working_access_count = 3;
  promotion_working_importance = 0x3f19999a;
  promotion_short_access_count = 10;
  promotion_short_importance = 0x3f333333;
  max_cache_size = 4;
}

abbrev holding : MemoryStore toy
holding = record {
  config = settings;
  lsm = (17, 17 ∷ 1 ∷ 0 ∷ 5 ∷ []) ∷ [];
  hnsw = [];
  cache = (17, record Sample.note { content = 6 ∷ [] }) ∷ [];
  dirty_ids = 17 ∷ [];
}

holding-HasKeys : HasKeys toy holding
unfolding find
holding-HasKeys = (refl, tt)

fast_store-bounded_example :
    length (fast_store toy 21 200 Sample.note holding).1.cache ≤ holding.config.max_cache_size
fast_store-bounded_example =
    fast_store-bounded toy holding 21 200 Sample.note holding-HasKeys (omega arith) (omega arith)

update-IsNextVersion_example :
    let (answer, t) = update toy 300 18 17 (8 ∷ []) [] holding in
    let old = record Sample.note { content = 6 ∷ [] } in
    (v : MemoryRecord) × (q : MemoryRecord) × (answer ≡ ok 18)
    × IsSuperseded old v
    × IsNextVersion 300 18 (8 ∷ []) [] old q
    × ((j : ℕ)
        → find j t.cache
          ≡ (if 18 == j then some q else if 17 == j then some v else find j holding.cache))
unfolding peek find
update-IsNextVersion_example =
    update-IsNextVersion toy 300 18 17 (8 ∷ []) [] holding (record Sample.note { content = 6 ∷ [] })
      refl
