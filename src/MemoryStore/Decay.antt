-- ===== src/MemoryStore/Decay.antt =====
-- `applyDecay` of src/memory/memory_store.cpp. The float constants are the bit patterns of the
-- source's literals.
use amind.Prelude.{
  ℕ, ◌+◌, ◌-◌, ◌%◌, ◌^◌, ◌≡◌, sym, ap, ◌∙◌, Bool, true, false, not, ◌&&◌, ◌⊎◌, inl, inr, Option,
  none, some, List, [], ◌∷◌, arith, ◌==◌, if◌then◌else◌, Bool-cases,
}
use amind.Prelude.Map.{find, find_here, find_there, map_values}
use amind.Prelude.Ids
use amind.Record.{MemoryRecord, MemoryTier, Confidence, is_active}
use package.amind.MemoryStore.{MemoryStore, Config}
use package.amind.MemoryStore.Parts.{Floats, Backend}

-- `kTierDecayMultiplier`: 2, 1 and 1/2
abbrev pub tier_decay_multiplier : MemoryTier → ℕ
tier_decay_multiplier MemoryTier.working = 0x40000000
tier_decay_multiplier MemoryTier.short_term = 0x3f800000
tier_decay_multiplier MemoryTier.long_term = 0x3f000000

-- `kTierStaleHours`: 72, 360 and 720
abbrev pub tier_stale_hours : MemoryTier → ℕ
tier_stale_hours MemoryTier.working = 0x42900000
tier_stale_hours MemoryTier.short_term = 0x43b40000
tier_stale_hours MemoryTier.long_term = 0x44340000

-- `kDemotionThreshold`: 0.1
abbrev pub demotion_threshold : ℕ
demotion_threshold = 0x3dcccccd

abbrev pub demote_tier : MemoryTier → MemoryTier
demote_tier MemoryTier.long_term = MemoryTier.short_term
demote_tier MemoryTier.short_term = MemoryTier.working
demote_tier MemoryTier.working = MemoryTier.working

abbrev is_verified : Confidence → Bool
is_verified Confidence.verified = true
is_verified _ = false

module _ (F : Floats) where
  -- `static_cast<float>(now - last_accessed) / 3600.0f`, the difference on 32 bits
  abbrev pub age_hours : (now : ℕ) → MemoryRecord → ℕ
  age_hours now r = F.div (F.of_nat ((now + 2 ^ 32 - r.last_accessed) % 2 ^ 32)) 0x45610000

  -- `decay_rate * multiplier * age_hours / 24.0f`
  abbrev pub decay_exponent : (rate multiplier age : ℕ) → ℕ
  decay_exponent rate multiplier age = F.div (F.mul (F.mul rate multiplier) age) 0x41c00000

  abbrev pub decayed_importance : Config → (multiplier age importance : ℕ) → ℕ
  decayed_importance c multiplier age importance =
      let v =
        if c.exponential_decay_enabled
        then F.mul importance (F.exp (decay_exponent (F.neg c.decay_rate) multiplier age))
        else F.mul importance (F.sub 0x3f800000 (decay_exponent c.decay_rate multiplier age)) in
      if F.less v 0 then 0 else v

  -- The body of the loop, for an active record
  unfoldable pub decay_active : Config → (now : ℕ) → MemoryRecord → MemoryRecord
  decay_active c now r =
      let age = age_hours now r in
      let importance = decayed_importance c (tier_decay_multiplier r.tier) age r.importance in
      record r {
        importance = importance;
        confidence_level =
            if F.less (tier_stale_hours r.tier) age && not (is_verified r.confidence_level)
            then Confidence.stale
            else r.confidence_level;
        tier = if F.less importance demotion_threshold then demote_tier r.tier else r.tier;
      }

  unfoldable pub decay : Config → (now : ℕ) → MemoryRecord → MemoryRecord
  decay c now r = if is_active r then decay_active c now r else r

-- `dirty_ids_.insert(id)` for each active record
unfoldable pub mark_active_dirty : List (ℕ × MemoryRecord) → List ℕ → List ℕ
mark_active_dirty [] dirty = dirty
mark_active_dirty ((id, r) ∷ cache) dirty =
    mark_active_dirty cache (if is_active r then Ids.insert id dirty else dirty)

unfoldable pub apply_decay : (P : Backend) → (now : ℕ) → MemoryStore P → MemoryStore P
apply_decay P now s = record s {
  cache = map_values (decay P.floats s.config now) s.cache;
  dirty_ids = mark_active_dirty s.cache s.dirty_ids;
}

dirty_kept :
    (cache : List (ℕ × MemoryRecord)) (dirty : List ℕ) (j : ℕ)
    → Ids.contains j (mark_active_dirty cache dirty) ≡ false
    → Ids.contains j dirty ≡ false
unfolding mark_active_dirty
dirty_kept [] dirty j h = h
dirty_kept ((id, r) ∷ cache) dirty j h =
    let rest = dirty_kept cache (if is_active r then Ids.insert id dirty else dirty) j h in
    ground (arith, rest, Ids.contains-insert id j dirty)

pub find_nothing : (j : ℕ) (r : MemoryRecord) → find j [] ≡ some r → ⊥
unfolding find
find_nothing j r e = ground (arith, e)

-- A cached record that is not dirty after the decay is not active, and was not dirty.
mark_active_dirty-clean :
    (cache : List (ℕ × MemoryRecord)) (dirty : List ℕ) (j : ℕ) (r : MemoryRecord)
    → find j cache ≡ some r
    → Ids.contains j (mark_active_dirty cache dirty) ≡ false
    → (is_active r ≡ false) × (Ids.contains j dirty ≡ false)
unfolding mark_active_dirty
mark_active_dirty-clean [] dirty j r h d = absurd (find_nothing j r h)
mark_active_dirty-clean ((id, q) ∷ cache) dirty j r h d = elim (Bool-cases (id == j)) [
  | inl e ↦
      let before : Ids.contains j (if is_active q then Ids.insert id dirty else dirty) ≡ false =
        dirty_kept cache (if is_active q then Ids.insert id dirty else dirty) j d in
      let one : q ≡ r =
        ap (λ (o : Option MemoryRecord). elim o [ none ↦ q | some x ↦ x ])
          (sym (find_here id j q cache e) ∙ h) in
      head one e before (Bool-cases (is_active q))
  | inr e ↦
      let rest : (is_active r ≡ false)
          × (Ids.contains j (if is_active q then Ids.insert id dirty else dirty) ≡ false) =
        mark_active_dirty-clean cache (if is_active q then Ids.insert id dirty else dirty) j r
          (sym (find_there id j q cache e) ∙ h) d in
      (rest.0, ground (arith, rest.1, Ids.contains-insert id j dirty))
]
  where
    head :
        q ≡ r
        → (id == j) ≡ true
        → Ids.contains j (if is_active q then Ids.insert id dirty else dirty) ≡ false
        → (is_active q ≡ true) ⊎ (is_active q ≡ false)
        → (is_active r ≡ false) × (Ids.contains j dirty ≡ false)
    head same e b (inl a) = absurd (ground (arith, a, b, e, Ids.contains-insert id j dirty))
    head same e b (inr a) = (sym (ap is_active same) ∙ a, ground (arith, a, b))
