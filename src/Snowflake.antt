-- ===== src/Snowflake.antt =====
-- src/core/snowflake.h and snowflake.cpp: the generator of 64-bit ids. The system clock is an
-- argument, the list of the readings that successive calls of `currentTimeMs` return, as natural
-- numbers (milliseconds after 1970). A call that waits longer than the list lasts is `blocked`.
mod Layout
mod Order
mod Clock
mod Tests
use amind.Prelude.{
  ℕ, ◌+◌, ◌-◌, ◌*◌, ◌/◌, ◌%◌, ◌^◌, Bool, false, Option, none, some, List, [], ◌∷◌, bit_and, bit_or,
  ltb, leb, ◌==◌, if◌then◌else◌,
}

abbrev pub custom_epoch_ms : ℕ
custom_epoch_ms = 1735689600000

abbrev pub max_worker_id : ℕ
max_worker_id = 1023

abbrev pub max_sequence : ℕ
max_sequence = 4095

abbrev pub max_clock_wait_ms : ℕ
max_clock_wait_ms = 5000

-- `last_timestamp_ms` is `none` for the initial -1, which is below every reading.
pub record SnowflakeGenerator : Type 0 where
  pub worker_id : ℕ
  pub last_timestamp_ms : Option ℕ
  pub sequence : ℕ

-- What a call that reads the clock does: it returns with the readings that are left, throws, or
-- still waits when the readings end.
pub data Outcome (A : Type 0) : Type 0 where
  returned : A → List ℕ → Outcome A
  threw : Outcome A
  blocked : Outcome A

abbrev pub Clocked : Type 0 → Type 0
Clocked A = List ℕ → Outcome A

infixl 5 ◌>>=◌
abbrev pub ◌>>=◌ : {A B : Type 0} → Clocked A → (A → Clocked B) → Clocked B
◌>>=◌ m f clock = elim (m clock) [ returned a rest ↦ f a rest | threw ↦ threw | blocked ↦ blocked ]

abbrev pub pure : {A : Type 0} → A → Clocked A
pure a clock = returned a clock

-- `currentTimeMs`
pub current_time_ms : Clocked ℕ
current_time_ms [] = blocked
current_time_ms (now ∷ clock) = returned now clock

-- The constructor: `none` is `std::invalid_argument`. A negative argument is not a natural number.
pub init : ℕ → Option SnowflakeGenerator
init worker_id =
    if ltb max_worker_id worker_id
    then none
    else some (record { worker_id = worker_id; last_timestamp_ms = none; sequence = 0 })

-- The loop that waits for a clock that moved backwards; each round reads the clock twice.
pub wait_backwards : (last timestamp : ℕ) → Clocked ℕ
wait_backwards last timestamp (check ∷ next ∷ clock) =
    let again = wait_backwards last next clock in
    if leb timestamp last
    then (if ltb (last + max_clock_wait_ms) check then threw else again)
    else returned timestamp (check ∷ next ∷ clock)
wait_backwards last timestamp (check ∷ []) =
    if leb timestamp last
    then (if ltb (last + max_clock_wait_ms) check then threw else blocked)
    else returned timestamp (check ∷ [])
wait_backwards last timestamp [] = if leb timestamp last then blocked else returned timestamp []

-- The loop that waits for the next millisecond.
pub wait_next_ms : (last timestamp : ℕ) → Clocked ℕ
wait_next_ms last timestamp (next ∷ clock) =
    let again = wait_next_ms last next clock in
    if leb timestamp last then again else returned timestamp (next ∷ clock)
wait_next_ms last timestamp [] = if leb timestamp last then blocked else returned timestamp []

-- The first `if` of `nextId`.
pub catch_up : Option ℕ → ℕ → Clocked ℕ
unfolding wait_backwards
catch_up none timestamp = pure timestamp
catch_up (some last) timestamp =
    if ltb timestamp last then wait_backwards last timestamp else pure timestamp

exhausted : (last timestamp sequence : ℕ) → Clocked (ℕ × ℕ)
unfolding wait_next_ms
exhausted last timestamp sequence =
    if sequence == 0
    then (do later ← wait_next_ms last timestamp; pure (later, sequence))
    else pure (timestamp, sequence)

-- The second `if` of `nextId`: the timestamp and the sequence number of the new id.
pub advance : Option ℕ → (sequence timestamp : ℕ) → Clocked (ℕ × ℕ)
unfolding exhausted
advance none sequence timestamp = pure (timestamp, 0)
advance (some last) sequence timestamp =
    if timestamp == last
    then exhausted last timestamp (bit_and (sequence + 1) max_sequence)
    else pure (timestamp, 0)

-- `elapsed << 22 | worker_id << 12 | sequence`, on 64 bits.
pub encode : (timestamp worker_id sequence : ℕ) → ℕ
encode timestamp worker_id sequence =
    let elapsed = (timestamp + 2 ^ 64 - custom_epoch_ms) % 2 ^ 64 in
    bit_or (bit_or (elapsed * 2 ^ 22 % 2 ^ 64) (worker_id * 2 ^ 12)) sequence

pub next_id : SnowflakeGenerator → Clocked (SnowflakeGenerator × ℕ)
unfolding current_time_ms catch_up advance
next_id g = do
  now ← current_time_ms
  timestamp ← catch_up g.last_timestamp_ms now
  (issued, sequence) ← advance g.last_timestamp_ms g.sequence timestamp
  pure (
    record g { last_timestamp_ms = some issued; sequence = sequence },
    encode issued g.worker_id sequence,
  )

pub extract_timestamp : ℕ → ℕ
extract_timestamp snowflake_id = snowflake_id / 2 ^ 22 + custom_epoch_ms

pub extract_worker_id : ℕ → ℕ
extract_worker_id snowflake_id = bit_and (snowflake_id / 2 ^ 12) max_worker_id

pub extract_sequence : ℕ → ℕ
extract_sequence snowflake_id = bit_and snowflake_id max_sequence
