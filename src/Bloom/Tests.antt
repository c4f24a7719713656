-- ===== src/Bloom/Tests.antt =====
-- The theorems on the filter at a concrete filter and hash function.
use amind.Prelude.{ℕ, ◌+◌, ◌*◌, ◌%◌, ◌^◌, ◌≡◌, refl, true, some, [], ◌∷◌, arith}
use amind.Prelude.Ids.{contains}
use amind.Bloom.{BloomFilter, add_all, may_contain, serialize, deserialize}
use amind.Bloom.Member.{IsSized, may_contain-added}
use amind.Bloom.Bytes.{deserialize-serialize}

abbrev mix : (key seed : ℕ) → ℕ
mix key seed = (key * 31 + seed * 17 + 5) % 2 ^ 64

abbrev filter : BloomFilter
filter = record { bits = 0 ∷ 4 ∷ 0 ∷ []; num_bits = 24; num_hash_funcs = 7 }

filter-IsSized : IsSized filter
filter-IsSized = record { whole = refl; some_bits = omega arith }

may_contain-added_example : may_contain mix (add_all mix filter (40 ∷ 7 ∷ [])) 7 ≡ true
unfolding contains
may_contain-added_example = may_contain-added mix (40 ∷ 7 ∷ []) filter 7 filter-IsSized refl

deserialize-serialize_example : deserialize (serialize filter) ≡ some filter
deserialize-serialize_example = deserialize-serialize filter filter-IsSized (omega arith)
