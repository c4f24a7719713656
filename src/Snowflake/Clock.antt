-- ===== src/Snowflake/Clock.antt =====
-- When a call waits for the clock, and when it gives up.
use amind.Prelude.{
  ℕ, ◌+◌, ◌≤◌, ◌<◌, ◌≡◌, some, List, [], ◌∷◌, ◌++◌, arith, ltb, if◌then◌else◌, Bool-cases, inl, inr,
}
use amind.Prelude.Bits.{and_twelve_ones}
use amind.Snowflake.{
  SnowflakeGenerator, returned, blocked, max_sequence, current_time_ms, wait_backwards,
  wait_next_ms, catch_up, exhausted, advance, encode, next_id,
}

abbrev AllAtMost : ℕ → List ℕ → Type 0
AllAtMost n [] = Unit {0}
AllAtMost n (t ∷ ts) = (t ≤ n) × AllAtMost n ts

wait_backwards-blocked :
    (last t : ℕ) (clock : List ℕ)
    → t ≤ last
    → AllAtMost last clock
    → wait_backwards last t clock ≡ blocked
unfolding wait_backwards
wait_backwards-blocked last t (c ∷ n ∷ clock) h hs =
    ground (arith, wait_backwards-blocked last n clock hs.1.0 hs.1.1)
wait_backwards-blocked last t (c ∷ []) h hs = ground arith
wait_backwards-blocked last t [] h hs = ground arith

-- While the clock stays at or behind the last timestamp after it moved backwards, a call neither
-- returns nor throws, however many readings it takes.
next_id-blocked :
    (g : SnowflakeGenerator) (last now : ℕ) (clock : List ℕ)
    → g.last_timestamp_ms ≡ some last
    → now < last
    → AllAtMost last clock
    → next_id g (now ∷ clock) ≡ blocked
unfolding next_id current_time_ms catch_up
next_id-blocked g last now clock e h hs =
    rw e (ground (arith, wait_backwards-blocked last now clock))

wait_next_ms-append :
    (last t later : ℕ) (stale rest : List ℕ)
    → t ≤ last
    → AllAtMost last stale
    → last < later
    → wait_next_ms last t (stale ++ later ∷ rest) ≡ returned later rest
unfolding wait_next_ms
wait_next_ms-append last t later [] [] h hs l = ground arith
wait_next_ms-append last t later [] (r ∷ rest) h hs l = ground arith
wait_next_ms-append last t later (s ∷ stale) rest h hs l =
    ground (arith, wait_next_ms-append last s later stale rest hs.0 hs.1 l)

-- After a first id, with a sequence number in range and a clock that gets past the last timestamp, a
-- call whose first reading is not behind that timestamp returns: in a new
-- millisecond with sequence number 0; in the same millisecond with the next sequence number, or,
-- when these are used up, at the first reading of a later millisecond, with sequence number 0.
pub next_id-returned :
    (g : SnowflakeGenerator) (last later : ℕ) (stale rest : List ℕ)
    → g.last_timestamp_ms ≡ some last
    → g.sequence ≤ max_sequence
    → AllAtMost last stale
    → last < later
    → (next_id g (later ∷ rest)
        ≡ returned
            (record g { last_timestamp_ms = some later; sequence = 0 }, encode later g.worker_id 0)
            rest)
      × (next_id g (last ∷ stale ++ later ∷ rest) ≡ (
          if ltb g.sequence max_sequence
          then returned
              (
                record g { last_timestamp_ms = some last; sequence = g.sequence + 1 },
                encode last g.worker_id (g.sequence + 1),
              )
              (stale ++ later ∷ rest)
          else returned
              (
                record g { last_timestamp_ms = some later; sequence = 0 },
                encode later g.worker_id 0,
              )
              rest))
unfolding next_id current_time_ms catch_up advance exhausted
next_id-returned g last later stale rest e hs st l = (
  rw e (ground arith),
  elim (Bool-cases (ltb g.sequence max_sequence)) [
    | inl more ↦ rw (e, more) (ground (arith, and_twelve_ones (g.sequence + 1)))
    | inr full ↦
        rw (e, full)
          (ground (
            arith,
            and_twelve_ones (g.sequence + 1),
            wait_next_ms-append last last later stale rest,
          ))
  ],
)
