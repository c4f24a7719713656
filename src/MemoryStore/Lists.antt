-- ===== src/MemoryStore/Lists.antt =====
-- The queries of src/memory/memory_store.cpp over the whole cache. `std::sort` is a stable sort; the
-- page numbers are positive, and their product fits an `int`.
use Prim.Native.String.{String}
use amind.Prelude.{
  ℕ, Bool, true, false, ◌&&◌, ◌||◌, none, some, List, [], ◌∷◌, ◌==◌, ltb, if◌then◌else◌, length,
  keep, map,
}
use amind.Prelude.Map.{find}
use amind.Prelude.Ids.{is_empty}
use amind.Record.{MemoryRecord, MemoryScope, MemoryPhase, MemoryLayer, is_alive}
use amind.Record.Names.{same_name, scope_to_string, memory_type_to_string, memory_tier_to_string}
use package.amind.MemoryStore.{MemoryStore}
use package.amind.MemoryStore.Parts.{Backend}

abbrev pub phase_to_string : MemoryPhase → String
phase_to_string MemoryPhase.active = "Active"
phase_to_string MemoryPhase.versioned = "Versioned"
phase_to_string MemoryPhase.archived = "Archived"
phase_to_string MemoryPhase.tombstone = "Tombstone"
phase_to_string MemoryPhase.invalidated = "Invalidated"

abbrev pub layer_to_string : MemoryLayer → String
layer_to_string MemoryLayer.raw = "Raw"
layer_to_string MemoryLayer.derived = "Derived"

-- `std::string::compare` of a prefix, and `find`
unfoldable pub has_prefix : (prefix text : List ℕ) → Bool
has_prefix [] text = true
has_prefix (p ∷ ps) [] = false
has_prefix (p ∷ ps) (c ∷ cs) = p == c && has_prefix ps cs

unfoldable pub has_substring : (query text : List ℕ) → Bool
unfolding has_prefix
has_substring query [] = has_prefix query []
has_substring query (c ∷ cs) = has_prefix query (c ∷ cs) || has_substring query cs

unfoldable pub same_text : (a b : List ℕ) → Bool
same_text [] [] = true
same_text [] (y ∷ ys) = false
same_text (x ∷ xs) [] = false
same_text (x ∷ xs) (y ∷ ys) = x == y && same_text xs ys

-- An empty string filters nothing.
pub record ListFilter : Type 0 where
  pub page : ℕ
  pub per_page : ℕ
  pub scope_filter : String
  pub memory_type_filter : String
  pub phase_filter : String
  pub query : List ℕ
  pub user_id_filter : List ℕ
  pub layer_filter : String
  pub tier_filter : String
  pub include_tombstone : Bool

abbrev passes : (name filter : String) → Bool
passes name filter = same_name filter "" || same_name name filter

-- A record that none of the loop's `continue` skips
unfoldable pub matches : ListFilter → MemoryRecord → Bool
unfolding has_substring same_text
matches f r =
    (is_alive r || f.include_tombstone)
    && passes (scope_to_string r.scope) f.scope_filter
    && passes (memory_type_to_string r.memory_type) f.memory_type_filter
    && passes (phase_to_string r.phase) f.phase_filter
    && passes (layer_to_string r.layer) f.layer_filter
    && passes (memory_tier_to_string r.tier) f.tier_filter
    && (is_empty f.query || has_substring f.query r.content)
    && (is_empty f.user_id_filter || same_text r.user_id f.user_id_filter)

abbrev pub records_of : List (ℕ × MemoryRecord) → List MemoryRecord
records_of [] = []
records_of ((id, r) ∷ cache) = r ∷ records_of cache

-- The newest first
unfoldable pub insert_newest : MemoryRecord → List MemoryRecord → List MemoryRecord
insert_newest r [] = r ∷ []
insert_newest r (q ∷ qs) =
    if ltb r.created_at q.created_at then q ∷ insert_newest r qs else r ∷ q ∷ qs

unfoldable pub sort_newest : List MemoryRecord → List MemoryRecord
unfolding insert_newest
sort_newest [] = []
sort_newest (r ∷ rs) = insert_newest r (sort_newest rs)

module _ (P : Backend) (s : MemoryStore P) where
  unfoldable pub matched : ListFilter → List MemoryRecord
  unfolding matches sort_newest
  matched f = sort_newest (keep (matches f) (records_of s.cache))

  unfoldable pub scan_by_content_prefix : List ℕ → List MemoryRecord
  unfolding has_prefix
  scan_by_content_prefix prefix = keep (λ r. has_prefix prefix r.content) (records_of s.cache)

  abbrev pub total_memories : ℕ
  total_memories = length s.cache

  abbrev is_private : MemoryScope → Bool
  is_private MemoryScope.private = true
  is_private MemoryScope.agent_shared = false

  unfoldable pub peek_scope_match : (memory_id : ℕ) (user_id : List ℕ) → Bool
  unfolding same_text
  peek_scope_match memory_id user_id = elim (find memory_id s.cache) [
    | none ↦ true
    | some r ↦
        if is_alive r
        then (if is_private r.scope then is_empty user_id || same_text r.user_id user_id else true)
        else false
  ]

  -- A distance becomes a similarity.
  unfoldable pub search_similar : (query : List ℕ) (top_k : ℕ) → List (ℕ × ℕ)
  search_similar query top_k =
      map (λ (found : ℕ × ℕ). (found.0, P.floats.sub 0x3f800000 found.1))
        (P.search s.hnsw query top_k)

  unfoldable pub find_conflicts : (embedding : List ℕ) → List (ℕ × ℕ)
  unfolding search_similar
  find_conflicts embedding =
      keep (λ (found : ℕ × ℕ). P.floats.at_least found.1 s.config.conflict_similarity_threshold)
        (search_similar embedding 10)
