-- ===== src/MemoryStore/Evict.antt =====
-- `evictIfNeeded` of src/memory/memory_store.cpp. `std::partial_sort` of pairs of a count and an id
-- is a sort of which a prefix is used.
use amind.Prelude.{
  ℕ, zero, suc, ◌/◌, Bool, ◌&&◌, ◌||◌, List, [], ◌∷◌, ◌==◌, ltb, leb, if◌then◌else◌, length,
}
use amind.Prelude.Map.{erase}
use amind.Record.{MemoryRecord, MemoryPhase}
use package.amind.MemoryStore.{MemoryStore, flush_dirty_records}
use package.amind.MemoryStore.Parts.{Backend}

-- A tombstone goes first.
abbrev pub eviction_count : MemoryRecord → ℕ
eviction_count r = elim r.phase [ MemoryPhase.tombstone ↦ 0 | _ ↦ r.access_count ]

unfoldable pub candidates : List (ℕ × MemoryRecord) → List (ℕ × ℕ)
candidates [] = []
candidates ((id, r) ∷ cache) = (eviction_count r, id) ∷ candidates cache

-- The order of `std::pair`
abbrev pub before : ℕ × ℕ → ℕ × ℕ → Bool
before (c, i) (d, j) = ltb c d || c == d && ltb i j

unfoldable pub insert_sorted : ℕ × ℕ → List (ℕ × ℕ) → List (ℕ × ℕ)
insert_sorted c [] = c ∷ []
insert_sorted c (d ∷ ds) = if before d c then d ∷ insert_sorted c ds else c ∷ d ∷ ds

unfoldable pub sort_candidates : List (ℕ × ℕ) → List (ℕ × ℕ)
unfolding insert_sorted
sort_candidates [] = []
sort_candidates (c ∷ cs) = insert_sorted c (sort_candidates cs)

-- The loop that erases the first `n` candidates
unfoldable pub erase_first :
    (n : ℕ) → List (ℕ × ℕ) → List (ℕ × MemoryRecord) → List (ℕ × MemoryRecord)
erase_first zero cs cache = cache
erase_first (suc n) [] cache = cache
erase_first (suc n) ((c, id) ∷ cs) cache = erase_first n cs (erase id cache)

abbrev pub evicted : List (ℕ × MemoryRecord) → List (ℕ × MemoryRecord)
evicted cache = erase_first (length cache / 5) (sort_candidates (candidates cache)) cache

unfoldable pub evict_if_needed : (P : Backend) → MemoryStore P → MemoryStore P
evict_if_needed P s =
    if leb (length s.cache) s.config.max_cache_size
    then s
    else let t = flush_dirty_records P s in record t { cache = evicted t.cache }
