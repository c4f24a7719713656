-- ===== src/Conflict/Tests.antt =====
-- The theorems on the resolver at concrete records.
use amind.Prelude.{◌≡◌, refl, inl, true, false, none, some, arith}
use amind.Record.{MemoryRecord, Confidence}
use amind.Record.Sample.{note}
use amind.Conflict.{ConflictResolver, llm_judge, no_stats, resolve}
use amind.Conflict.Rank.{Wins, resolve-Outranks, resolve-Ties, verified_inferred, asked}

abbrev quiet : ConflictResolver
quiet = record {
  config = record { enable_llm_judge = false; high_importance_threshold = 0x3f4ccccd };
  stats = no_stats;
  judge = none;
}

-- A judge that answers with an id of neither record.
abbrev careless : ConflictResolver
careless = record quiet {
  config = record { enable_llm_judge = true; high_importance_threshold = 0x3f4ccccd };
  judge = some (λ a x b y. some 99);
}

abbrev other : MemoryRecord
other = record note { memory_id = 18 }

abbrev confirmed : MemoryRecord
confirmed = record other { confidence_level = Confidence.verified }

abbrev newer : MemoryRecord
newer = record note { memory_id = 19; parent_id = 17 }

resolve-Outranks_example :
    Wins (resolve quiet confirmed note).1 confirmed note
    × Wins (resolve quiet note confirmed).1 confirmed note
resolve-Outranks_example =
    resolve-Outranks quiet confirmed note (omega arith) (inl verified_inferred)

resolve-Ties_example :
    (resolve careless note other).1
    ≡ record { winner_id = 99; loser_id = 17; level = llm_judge; coexist = false }
resolve-Ties_example =
    resolve-Ties careless note other (some 99) (omega arith) (refl, refl, refl)
      (asked (λ _ _ _ _. some 99) refl refl (some 99) refl)
