-- ===== src/MemoryStore/Tiers.antt =====
-- The tiers of a record: reads promote it and the decay demotes it (src/memory/memory_store.cpp).
use amind.Prelude.{ℕ, ◌+◌, ◌≡◌, ◌≤◌, arith}
use amind.Record.{MemoryRecord, MemoryTier}
use package.amind.MemoryStore.{Config, try_promote}
use package.amind.MemoryStore.Parts.{Floats}
use package.amind.MemoryStore.Decay.{decay_active, decay}

abbrev tier_rank : MemoryTier → ℕ
tier_rank MemoryTier.working = 0
tier_rank MemoryTier.short_term = 1
tier_rank MemoryTier.long_term = 2

-- A promotion raises the tier of a record by at most one, and the decay lowers it by at most one and
-- changes neither the phase nor the count of accesses.
tiers_move :
    (F : Floats) (c : Config) (now : ℕ) (r : MemoryRecord)
    → (tier_rank r.tier ≤ tier_rank (try_promote F c r).tier)
      × (tier_rank (try_promote F c r).tier ≤ tier_rank r.tier + 1)
      × (tier_rank (decay F c now r).tier ≤ tier_rank r.tier)
      × (tier_rank r.tier ≤ tier_rank (decay F c now r).tier + 1)
      × ((decay F c now r).phase ≡ r.phase)
      × ((decay F c now r).access_count ≡ r.access_count)
unfolding try_promote decay decay_active
tiers_move F c now r = ground arith
