-- ===== src/Conflict.antt =====
-- src/conflict/conflict_resolver.{h,cpp}: the six levels at which a conflict of two records is
-- decided, and the counters. The language model behind level 5 is the callback `llm_judge`.
mod Rank
mod Counters
mod Tests
use amind.Prelude.{
  ℕ, ◌+◌, ◌*◌, ◌%◌, ◌^◌, Bool, true, false, Option, none, some, List, ltb, ◌==◌, if◌then◌else◌,
}
use amind.Record.{
  MemoryRecord, Confidence, verified, inferred, stale, conflicted, SourceTier, behavioral,
  assertion, inference,
}

pub data ResolutionLevel : Type 0 where
  version_ancestor confidence recency source_tier llm_judge coexist : ResolutionLevel

-- The text `reason`, which only describes the decision, is left out.
pub record ConflictResolution : Type 0 where
  pub winner_id : ℕ
  pub loser_id : ℕ
  pub level : ResolutionLevel
  pub coexist : Bool

abbrev pub LlmJudgeFunc : Type 0
LlmJudgeFunc = (id_a : ℕ) (content_a : List ℕ) (id_b : ℕ) (content_b : List ℕ) → Option ℕ

pub record ConflictResolverConfig : Type 0 where
  pub enable_llm_judge : Bool
  pub high_importance_threshold : ℕ

pub record Stats : Type 0 where
  pub total_resolved : ℕ
  pub by_version : ℕ
  pub by_confidence : ℕ
  pub by_recency : ℕ
  pub by_source_tier : ℕ
  pub by_llm : ℕ
  pub by_coexist : ℕ

pub record ConflictResolver : Type 0 where
  pub config : ConflictResolverConfig
  pub stats : Stats
  pub judge : Option LlmJudgeFunc

unfoldable pub confidence_rank : Confidence → ℕ
confidence_rank verified = 4
confidence_rank inferred = 3
confidence_rank stale = 2
confidence_rank conflicted = 1

unfoldable pub source_tier_rank : SourceTier → ℕ
source_tier_rank behavioral = 3
source_tier_rank assertion = 2
source_tier_rank inference = 1

-- `a_wins ? a : b` as the winner, and the other record as the loser.
abbrev pub decide : Bool → MemoryRecord → MemoryRecord → ResolutionLevel → ConflictResolution
decide a_wins a b level = record {
  winner_id = if a_wins then a.memory_id else b.memory_id;
  loser_id = if a_wins then b.memory_id else a.memory_id;
  level = level;
  coexist = false;
}

unfoldable pub try_version_ancestor : MemoryRecord → MemoryRecord → Option ConflictResolution
try_version_ancestor a b =
    if b.parent_id == a.memory_id
    then some (decide false a b version_ancestor)
    else if a.parent_id == b.memory_id
    then some (decide true a b version_ancestor)
    else none

unfoldable pub try_confidence : MemoryRecord → MemoryRecord → Option ConflictResolution
try_confidence a b =
    let rank_a = confidence_rank a.confidence_level in
    let rank_b = confidence_rank b.confidence_level in
    if rank_a == rank_b then none else some (decide (ltb rank_b rank_a) a b confidence)

unfoldable pub try_recency : MemoryRecord → MemoryRecord → Option ConflictResolution
try_recency a b =
    if a.created_at == b.created_at
    then none
    else some (decide (ltb b.created_at a.created_at) a b recency)

unfoldable pub try_source_tier : MemoryRecord → MemoryRecord → Option ConflictResolution
try_source_tier a b =
    let rank_a = source_tier_rank a.source_tier in
    let rank_b = source_tier_rank b.source_tier in
    if rank_a == rank_b then none else some (decide (ltb rank_b rank_a) a b source_tier)

unfoldable pub try_llm_judge :
    ConflictResolver → MemoryRecord → MemoryRecord → Option ConflictResolution
try_llm_judge r a b = elim r.judge [
  | none ↦ none
  | some ask ↦ elim (ask a.memory_id a.content b.memory_id b.content) [
    | none ↦ none
    | some winner ↦ some (record {
      winner_id = winner;
      loser_id = if winner == a.memory_id then b.memory_id else a.memory_id;
      level = llm_judge;
      coexist = false;
    })
  ]
]

unfoldable pub coexisting : MemoryRecord → MemoryRecord → ConflictResolution
coexisting a b = record (decide true a b coexist) { coexist = true }

-- `stats_.total_resolved++` and the counter of the level, on 64 bits.
abbrev increment : ℕ → ℕ
increment n = (n + 1) % 2 ^ 64

unfoldable pub count : ResolutionLevel → Stats → Stats
count version_ancestor s = record s {
  total_resolved = increment s.total_resolved;
  by_version = increment s.by_version;
}
count confidence s = record s {
  total_resolved = increment s.total_resolved;
  by_confidence = increment s.by_confidence;
}
count recency s = record s {
  total_resolved = increment s.total_resolved;
  by_recency = increment s.by_recency;
}
count source_tier s = record s {
  total_resolved = increment s.total_resolved;
  by_source_tier = increment s.by_source_tier;
}
count llm_judge s = record s {
  total_resolved = increment s.total_resolved;
  by_llm = increment s.by_llm;
}
count coexist s = record s {
  total_resolved = increment s.total_resolved;
  by_coexist = increment s.by_coexist;
}

abbrev resolved :
    ConflictResolver → ResolutionLevel → ConflictResolution → ConflictResolver × ConflictResolution
resolved r level result = (record r { stats = count level r.stats }, result)

-- The levels in their order.
unfoldable pub resolve :
    ConflictResolver → MemoryRecord → MemoryRecord → ConflictResolver × ConflictResolution
resolve r a b = elim (try_version_ancestor a b) [
  | some result ↦ resolved r version_ancestor result
  | none ↦ elim (try_confidence a b) [
    | some result ↦ resolved r confidence result
    | none ↦ elim (try_recency a b) [
      | some result ↦ resolved r recency result
      | none ↦ elim (try_source_tier a b) [
        | some result ↦ resolved r source_tier result
        | none ↦ elim (if r.config.enable_llm_judge then try_llm_judge r a b else none) [
          | some result ↦ resolved r llm_judge result
          | none ↦ resolved r coexist (coexisting a b)
        ]
      ]
    ]
  ]
]

unfoldable pub set_llm_judge : ConflictResolver → Option LlmJudgeFunc → ConflictResolver
set_llm_judge r judge = record r { judge = judge }

abbrev pub no_stats : Stats
no_stats = record {
  total_resolved = 0;
  by_version = 0;
  by_confidence = 0;
  by_recency = 0;
  by_source_tier = 0;
  by_llm = 0;
  by_coexist = 0;
}

unfoldable pub reset_stats : ConflictResolver → ConflictResolver
reset_stats r = record r { stats = no_stats }
