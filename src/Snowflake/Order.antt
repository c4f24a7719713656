-- ===== src/Snowflake/Order.antt =====
-- The ids of one generator rise, whatever the clock does.
use amind.Prelude.{
  ℕ, zero, suc, ◌+◌, ◌≤◌, ◌<◌, ◌≡◌, refl, subst, ◌⊎◌, Option, none, some, List, [], ◌∷◌, arith,
}
use amind.Prelude.Bits.{and_twelve_ones}
use amind.Snowflake.Layout.{InRange, encode-sum}
use amind.Snowflake.{
  SnowflakeGenerator, Outcome, Clocked, returned, threw, blocked, ◌>>=◌, pure, max_worker_id,
  max_sequence, current_time_ms, wait_backwards, wait_next_ms, catch_up, exhausted, advance, encode,
  next_id,
}

abbrev pub AllInRange : List ℕ → Type 0
AllInRange [] = Unit {0}
AllInRange (t ∷ ts) = InRange t × AllInRange ts

-- A call that returns meets `P`, and leaves readings in range.
abbrev Ensures : {A : Type 0} → (A → Type 0) → Outcome A → Type 0
Ensures P (returned a rest) = P a × AllInRange rest
Ensures P threw = Unit {0}
Ensures P blocked = Unit {0}

-- The timestamp and the sequence number come after the ones issued last.
abbrev Follows : Option ℕ → ℕ → ℕ → ℕ → Type 0
Follows none s t s' = Unit {0}
Follows (some l) s t s' = (l < t) ⊎ ((l ≡ t) × (s < s'))

abbrev NotBefore : Option ℕ → ℕ → Type 0
NotBefore none t = Unit {0}
NotBefore (some l) t = l ≤ t

wait_backwards-Ensures :
    (last t : ℕ) (clock : List ℕ)
    → InRange t
    → AllInRange clock
    → Ensures (λ a. InRange a × (last < a)) (wait_backwards last t clock)
unfolding wait_backwards
wait_backwards-Ensures last t (c ∷ n ∷ clock) r rs =
    ground (arith, wait_backwards-Ensures last n clock rs.1.0 rs.1.1)
wait_backwards-Ensures last t (c ∷ []) r rs = ground arith
wait_backwards-Ensures last t [] r rs = ground arith

wait_next_ms-Ensures :
    (last t : ℕ) (clock : List ℕ)
    → InRange t
    → AllInRange clock
    → Ensures (λ a. InRange a × (last < a)) (wait_next_ms last t clock)
unfolding wait_next_ms
wait_next_ms-Ensures last t (n ∷ clock) r rs =
    ground (arith, wait_next_ms-Ensures last n clock rs.0 rs.1)
wait_next_ms-Ensures last t [] r rs = ground arith

catch_up-Ensures :
    (last : Option ℕ) (t : ℕ) (clock : List ℕ)
    → InRange t
    → AllInRange clock
    → Ensures (λ a. InRange a × NotBefore last a) (catch_up last t clock)
unfolding catch_up
catch_up-Ensures none t clock r rs = ground arith
catch_up-Ensures (some l) t clock r rs = ground (arith, wait_backwards-Ensures l t clock)

advance-Ensures :
    (last : Option ℕ) (s t : ℕ) (clock : List ℕ)
    → s ≤ max_sequence
    → NotBefore last t
    → InRange t
    → AllInRange clock
    → Ensures
        (λ p. InRange p.0 × (p.1 ≤ max_sequence) × Follows last s p.0 p.1)
        (advance last s t clock)
unfolding advance exhausted
advance-Ensures none s t clock hs hl r rs = ground arith
advance-Ensures (some l) s t clock hs hl r rs =
    ground (arith, and_twelve_ones (s + 1), wait_next_ms-Ensures l t clock)

abbrev LastInRange : Option ℕ → Type 0
LastInRange none = Unit {0}
LastInRange (some l) = InRange l

-- What holds of a generator between calls.
pub record IsValid (g : SnowflakeGenerator) : Type 0 where
  pub worker : g.worker_id ≤ max_worker_id
  pub bounded : g.sequence ≤ max_sequence
  pub last : LastInRange g.last_timestamp_ms

-- The generator's last id lies below `x`.
abbrev LastBelow : Option ℕ → (w s x : ℕ) → Type 0
LastBelow none w s x = Unit {0}
LastBelow (some l) w s x = encode l w s < x

abbrev IdBelow : SnowflakeGenerator → ℕ → Type 0
IdBelow g x = LastBelow g.last_timestamp_ms g.worker_id g.sequence x

Follows-LastBelow :
    (last : Option ℕ) (w s t s' : ℕ)
    → LastInRange last
    → w ≤ max_worker_id
    → s ≤ max_sequence
    → InRange t
    → s' ≤ max_sequence
    → Follows last s t s'
    → LastBelow last w s (encode t w s')
Follows-LastBelow none w s t s' lr hw hs r hs' f = tt
Follows-LastBelow (some l) w s t s' lr hw hs r hs' f =
    ground (arith, encode-sum l w s lr hw hs, encode-sum t w s' r hw hs')

-- A call's result: the generator is valid again, the id is the one of its new state, and the id
-- lies above the one issued before.
abbrev IsIssued : SnowflakeGenerator → SnowflakeGenerator × ℕ → Type 0
IsIssued g r =
    IsValid r.0
    × (r.0.worker_id ≡ g.worker_id)
    × ((l : ℕ) × (r.0.last_timestamp_ms ≡ some l) × (r.1 ≡ encode l g.worker_id r.0.sequence))
    × IdBelow g r.1

issue : SnowflakeGenerator → ℕ × ℕ → Clocked (SnowflakeGenerator × ℕ)
issue g p =
    pure (record g { last_timestamp_ms = some p.0; sequence = p.1 }, encode p.0 g.worker_id p.1)

issue-Ensures :
    (g : SnowflakeGenerator) (o : Outcome (ℕ × ℕ))
    → IsValid g
    → Ensures
        (λ p. InRange p.0 × (p.1 ≤ max_sequence) × Follows g.last_timestamp_ms g.sequence p.0 p.1)
        o
    → Ensures (IsIssued g) (((λ _. o) >>= issue g) [])
unfolding issue
issue-Ensures g (returned (t, s) rest) v ((r, hs, f), rs) = (
  (
    record { worker = v.worker; bounded = hs; last = r },
    refl,
    (t, refl, refl),
    Follows-LastBelow g.last_timestamp_ms g.worker_id g.sequence t s v.last v.worker v.bounded r hs
        f,
  ),
  rs,
)
issue-Ensures g threw v h = tt
issue-Ensures g blocked v h = tt

advance-issue-Ensures :
    (g : SnowflakeGenerator) (o : Outcome ℕ)
    → IsValid g
    → Ensures (λ a. InRange a × NotBefore g.last_timestamp_ms a) o
    → Ensures
        (IsIssued g)
        (((λ _. o) >>= λ t. advance g.last_timestamp_ms g.sequence t >>= issue g) [])
advance-issue-Ensures g (returned t rest) v ((r, nb), rs) =
    issue-Ensures g (advance g.last_timestamp_ms g.sequence t rest) v
      (advance-Ensures g.last_timestamp_ms g.sequence t rest v.bounded nb r rs)
advance-issue-Ensures g threw v h = tt
advance-issue-Ensures g blocked v h = tt

next_id-Ensures :
    (g : SnowflakeGenerator) (clock : List ℕ)
    → IsValid g
    → AllInRange clock
    → Ensures (IsIssued g) (next_id g clock)
unfolding next_id current_time_ms issue
next_id-Ensures g [] v rs = tt
next_id-Ensures g (now ∷ clock) v rs =
    advance-issue-Ensures g (catch_up g.last_timestamp_ms now clock) v
      (catch_up-Ensures g.last_timestamp_ms now clock rs.0 rs.1)

-- The ids of `n` calls in a row.
unfoldable pub next_ids : ℕ → SnowflakeGenerator → Clocked (List ℕ)
next_ids zero g = pure []
next_ids (suc n) g = do (g', id) ← next_id g; ids ← next_ids n g'; pure (id ∷ ids)

-- Each id is above the one before it.
abbrev pub IsRising : (List ℕ) → Type 0
IsRising [] = Unit {0}
IsRising (x ∷ []) = Unit {0}
IsRising (x ∷ y ∷ ids) = (x < y) × IsRising (y ∷ ids)

abbrev FirstAbove : SnowflakeGenerator → List ℕ → Type 0
FirstAbove g [] = Unit {0}
FirstAbove g (x ∷ ids) = IdBelow g x

abbrev Rises : SnowflakeGenerator → List ℕ → Type 0
Rises g ids = FirstAbove g ids × IsRising ids

IdBelow-issued :
    (g g' : SnowflakeGenerator) (id x : ℕ) → IsIssued g (g', id) → IdBelow g' x → id < x
IdBelow-issued g g' id x i b = step g'.last_timestamp_ms (i.2.1) b
  where
    step :
        (last : Option ℕ) → last ≡ some i.2.0 → LastBelow last g'.worker_id g'.sequence x → id < x
    step none e b = absurd (cc)
    step (some l) e b = ground (arith, i.2.2, i.1)

cons-Ensures :
    (g g' : SnowflakeGenerator) (id : ℕ) (o : Outcome (List ℕ))
    → IsIssued g (g', id)
    → Ensures (Rises g') o
    → Ensures (Rises g) (((λ _. o) >>= λ ids. pure (id ∷ ids)) [])
cons-Ensures g g' id (returned [] rest) i (b, rs) = ((i.3, tt), rs)
cons-Ensures g g' id (returned (x ∷ ids) rest) i (b, rs) =
    ((i.3, (IdBelow-issued g g' id x i b.0, b.1)), rs)
cons-Ensures g g' id threw i h = tt
cons-Ensures g g' id blocked i h = tt

next_ids-Ensures :
    (n : ℕ) (g : SnowflakeGenerator) (clock : List ℕ)
    → IsValid g
    → AllInRange clock
    → Ensures (Rises g) (next_ids n g clock)
unfolding next_ids
next_ids-Ensures zero g clock v rs = ((tt, tt), rs)
next_ids-Ensures (suc n) g clock v rs =
    after (next_id g clock) (next_id-Ensures g clock v rs) (next_ids-Ensures n)
  where
    after :
        (o : Outcome (SnowflakeGenerator × ℕ))
        → Ensures (IsIssued g) o
        → ((g' : SnowflakeGenerator) (clock' : List ℕ)
            → IsValid g'
            → AllInRange clock'
            → Ensures (Rises g') (next_ids n g' clock'))
        → Ensures (Rises g) (((λ _. o) >>= λ p. next_ids n p.0 >>= λ ids. pure (p.1 ∷ ids)) [])
    after (returned (g', id) rest) (i, rs) ih =
        cons-Ensures g g' id (next_ids n g' rest) i (ih g' rest i.0 rs)
    after threw h ih = tt
    after blocked h ih = tt

-- From a valid generator, the ids that calls in a row return rise strictly, whatever the clock does between its readings,
-- as long as these lie in the range of the layout.
pub next_ids-IsRising :
    (n : ℕ) (g : SnowflakeGenerator) (clock : List ℕ) {ids rest : List ℕ}
    → IsValid g
    → AllInRange clock
    → next_ids n g clock ≡ returned ids rest
    → IsRising ids
next_ids-IsRising n g clock v rs e =
    (subst (Ensures (Rises g)) e (next_ids-Ensures n g clock v rs)).0.1
