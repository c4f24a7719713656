-- ===== src/Conflict/Rank.antt =====
-- The order in which two unrelated records are ranked, and who wins.
use amind.Prelude.{
  ℕ, ◌<◌, ◌≡◌, ◌≢◌, ◌⊎◌, inl, inr, false, true, refl, ap, none, some, Option, arith, ◌==◌,
  if◌then◌else◌, Bool-cases,
}
use amind.Record.{
  MemoryRecord, Confidence, verified, inferred, stale, conflicted, SourceTier, behavioral,
  assertion, inference,
}
use amind.Conflict.{
  ConflictResolver, ConflictResolution, ResolutionLevel, LlmJudgeFunc, confidence_rank,
  source_tier_rank, try_version_ancestor, try_confidence, try_recency, try_source_tier,
  try_llm_judge, coexisting, resolve,
}

-- Neither record is recorded as the version before the other.
abbrev pub Unrelated : MemoryRecord → MemoryRecord → Type 0
Unrelated a b = (b.parent_id ≢ a.memory_id) × (a.parent_id ≢ b.memory_id)

-- The confidences from the most to the least trusted, and the sources likewise
pub data Trusts : Confidence → Confidence → Type 0 where
  verified_inferred : Trusts verified inferred
  verified_stale : Trusts verified stale
  verified_conflicted : Trusts verified conflicted
  inferred_stale : Trusts inferred stale
  inferred_conflicted : Trusts inferred conflicted
  stale_conflicted : Trusts stale conflicted

pub data Prefers : SourceTier → SourceTier → Type 0 where
  behavioral_assertion : Prefers behavioral assertion
  behavioral_inference : Prefers behavioral inference
  assertion_inference : Prefers assertion inference

-- Confidence first, then the creation time, then the source.
abbrev pub Outranks : MemoryRecord → MemoryRecord → Type 0
Outranks a b =
    Trusts a.confidence_level b.confidence_level
    ⊎ ((a.confidence_level ≡ b.confidence_level)
        × ((b.created_at < a.created_at)
            ⊎ ((a.created_at ≡ b.created_at) × Prefers a.source_tier b.source_tier)))

ranked_confidence : {c d : Confidence} → Trusts c d → confidence_rank d < confidence_rank c
unfolding confidence_rank
ranked_confidence verified_inferred = omega arith
ranked_confidence verified_stale = omega arith
ranked_confidence verified_conflicted = omega arith
ranked_confidence inferred_stale = omega arith
ranked_confidence inferred_conflicted = omega arith
ranked_confidence stale_conflicted = omega arith

ranked_source : {s t : SourceTier} → Prefers s t → source_tier_rank t < source_tier_rank s
unfolding source_tier_rank
ranked_source behavioral_assertion = omega arith
ranked_source behavioral_inference = omega arith
ranked_source assertion_inference = omega arith

abbrev pub Wins : ConflictResolution → MemoryRecord → MemoryRecord → Type 0
Wins c a b = (c.winner_id ≡ a.memory_id) × (c.loser_id ≡ b.memory_id) × (c.coexist ≡ false)

-- Of two unrelated records the one that outranks the other wins, in whichever order they are
-- given, and the other loses: the more trusted confidence, then the later creation, then the
-- preferred source.
pub resolve-Outranks :
    (r : ConflictResolver) (a b : MemoryRecord)
    → Unrelated a b
    → Outranks a b
    → Wins (resolve r a b).1 a b × Wins (resolve r b a).1 a b
unfolding resolve try_version_ancestor try_confidence try_recency try_source_tier
resolve-Outranks r a b u (inl h) = ground (arith, ranked_confidence h)
resolve-Outranks r a b u (inr (e, inl h)) = ground (arith, ap confidence_rank e)
resolve-Outranks r a b u (inr (e, inr (e', h))) =
    ground (arith, ap confidence_rank e, ranked_source h)

-- The two records tie in confidence, creation time and source.
abbrev pub Ties : MemoryRecord → MemoryRecord → Type 0
Ties a b =
    (a.confidence_level ≡ b.confidence_level)
    × (a.created_at ≡ b.created_at)
    × (a.source_tier ≡ b.source_tier)

-- What a judge answers about two records, if it is enabled and set.
pub data Answers (r : ConflictResolver) (a b : MemoryRecord) : Option ℕ → Type 0 where
  disabled : r.config.enable_llm_judge ≡ false → Answers r a b none
  unset : r.judge ≡ none → Answers r a b none
  asked :
      (ask : LlmJudgeFunc)
      → r.config.enable_llm_judge ≡ true
      → r.judge ≡ some ask
      → (answer : Option ℕ) → ask a.memory_id a.content b.memory_id b.content ≡ answer
      → Answers r a b answer

no_rank_decides :
    (r : ConflictResolver) (a b : MemoryRecord)
    → Unrelated a b
    → Ties a b
    → (try_version_ancestor a b ≡ none)
      × (try_confidence a b ≡ none)
      × (try_recency a b ≡ none)
      × (try_source_tier a b ≡ none)
unfolding try_version_ancestor try_confidence try_recency try_source_tier
no_rank_decides r a b u (c, t, s) = (
  ground arith,
  ground (arith, ap confidence_rank c),
  ground arith,
  ground (arith, ap source_tier_rank s),
)

-- Unrelated records that tie coexist if no judge is enabled, set and answers, with the first as the
-- winner. A judge's answer becomes the winner, unchecked, and the records do not coexist; the loser
-- is the second record if the answer is the first, and the first otherwise.
pub resolve-Ties :
    (r : ConflictResolver) (a b : MemoryRecord) (answer : Option ℕ)
    → Unrelated a b
    → Ties a b
    → Answers r a b answer
    → (resolve r a b).1 ≡ elim answer [
      | none ↦ record {
        winner_id = a.memory_id;
        loser_id = b.memory_id;
        level = ResolutionLevel.coexist;
        coexist = true;
      }
      | some winner ↦ record {
        winner_id = winner;
        loser_id = if winner == a.memory_id then b.memory_id else a.memory_id;
        level = ResolutionLevel.llm_judge;
        coexist = false;
      }
    ]
unfolding resolve try_llm_judge coexisting
resolve-Ties r a b answer u t (disabled e) =
    let (v, c, n, s) = no_rank_decides r a b u t in rw (v, c, n, s, e, resolve) refl
resolve-Ties r a b answer u t (unset e) =
    let (v, c, n, s) = no_rank_decides r a b u t in
    elim (Bool-cases r.config.enable_llm_judge) [
      | inl on ↦ rw (v, c, n, s, on, e, resolve, try_llm_judge) refl
      | inr off ↦ rw (v, c, n, s, off, resolve) refl
    ]
resolve-Ties r a b answer u t (asked ask on e none h) =
    let (v, c, n, s) = no_rank_decides r a b u t in
    rw (v, c, n, s, on, e, h, resolve, try_llm_judge) refl
resolve-Ties r a b answer u t (asked ask on e (some winner) h) =
    let (v, c, n, s) = no_rank_decides r a b u t in
    rw (v, c, n, s, on, e, h, resolve, try_llm_judge) refl

-- A record whose parent is the other one wins, whatever their ranks and in whichever order the two
-- are given, unless each is recorded as the other's parent.
resolve-child :
    (r : ConflictResolver) (a b : MemoryRecord)
    → b.parent_id ≡ a.memory_id
    → a.parent_id ≢ b.memory_id
    → Wins (resolve r a b).1 b a × Wins (resolve r b a).1 b a
unfolding resolve try_version_ancestor
resolve-child r a b e h = ground arith
