-- ===== src/Conflict/Counters.antt =====
-- The counters of a resolver.
use amind.Prelude.{◌+◌, ◌%◌, ◌^◌, ◌≡◌, refl, arith}
use amind.Record.{MemoryRecord}
use amind.Conflict.{
  ConflictResolver, ResolutionLevel, version_ancestor, confidence, recency, source_tier, llm_judge,
  coexist, Stats, count, try_version_ancestor, try_confidence, try_recency, try_source_tier,
  try_llm_judge, coexisting, resolve,
}

-- The total agrees, on 64 bits, with the counters of the six levels.
abbrev pub IsBalanced : Stats → Type 0
IsBalanced s =
    s.total_resolved % 2 ^ 64
    ≡ (s.by_version + s.by_confidence + s.by_recency + s.by_source_tier + s.by_llm + s.by_coexist)
      % 2 ^ 64

count-IsBalanced : (level : ResolutionLevel) (s : Stats) → IsBalanced s → IsBalanced (count level s)
unfolding count
count-IsBalanced version_ancestor s h = omega arith
count-IsBalanced confidence s h = omega arith
count-IsBalanced recency s h = omega arith
count-IsBalanced source_tier s h = omega arith
count-IsBalanced llm_judge s h = omega arith
count-IsBalanced coexist s h = omega arith

-- Each level names itself in its result.
levels :
    (r : ConflictResolver) (a b : MemoryRecord)
    → (resolve r a b).0 ≡ record r { stats = count (resolve r a b).1.level r.stats }
unfolding resolve try_version_ancestor try_confidence try_recency try_source_tier try_llm_judge
    coexisting
levels r a b = ground arith

-- A call counts the conflict once, under the level that its result names, keeps the total in
-- balance with the six counters, and changes neither the configuration nor the judge.
resolve-IsBalanced :
    (r : ConflictResolver) (a b : MemoryRecord)
    → IsBalanced r.stats
    → let (r', result) = resolve r a b in
      (r'.stats ≡ count result.level r.stats)
      × IsBalanced r'.stats
      × (r'.config ≡ r.config)
      × (r'.judge ≡ r.judge)
resolve-IsBalanced r a b h =
    rw (levels r a b) (refl, count-IsBalanced (resolve r a b).1.level r.stats h, refl, refl)
