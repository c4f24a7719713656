-- ===== src/Snowflake/Tests.antt =====
-- Runs of the generator, and its theorems at concrete inputs.
use amind.Prelude.{◌<◌, ◌^◌, ℕ, ◌+◌, ◌-◌, ◌*◌, ◌^◌, ◌≡◌, refl, none, some, [], ◌∷◌, arith}
use amind.Snowflake.{
  SnowflakeGenerator, returned, threw, encode, next_id, init, extract_timestamp, extract_worker_id,
  extract_sequence,
}
use amind.Snowflake.Layout.{extract-encode}
use amind.Snowflake.Order.{next_ids, IsRising, next_ids-IsRising}
use amind.Snowflake.Clock.{next_id-returned}

abbrev day : ℕ
day = 1735776000000

abbrev fresh : SnowflakeGenerator
fresh = record { worker_id = 7; last_timestamp_ms = none; sequence = 0 }

abbrev used : SnowflakeGenerator
used = record fresh { last_timestamp_ms = some day; sequence = 4095 }

init_too_large : init 1024 ≡ none
unfolding init
init_too_large = refl

-- A jump ahead by more than five seconds while a call waits makes it throw.
next_id_throws : next_id used ((day - 9) ∷ (day + 5001) ∷ (day + 5001) ∷ []) ≡ threw
unfolding next_id
next_id_throws = refl

extract-encode_example :
    (encode day 7 3 < 2 ^ 63)
    × (extract_timestamp (encode day 7 3) ≡ day)
    × (extract_worker_id (encode day 7 3) ≡ 7)
    × (extract_sequence (encode day 7 3) ≡ 3)
extract-encode_example =
    extract-encode day 7 3 (omega arith) (omega arith) (omega arith) (omega arith)

abbrev first_id : ℕ
first_id = 86400000 * 2 ^ 22 + 7 * 2 ^ 12

next_ids-IsRising_example : IsRising (first_id ∷ (first_id + 1) ∷ (first_id + 2 ^ 22) ∷ [])
unfolding next_ids next_id encode
next_ids-IsRising_example =
    next_ids-IsRising 3 fresh (day ∷ day ∷ (day - 5) ∷ day ∷ (day + 1) ∷ []) {rest = []}
      (record { worker = omega arith; bounded = omega arith; last = tt }) (omega arith) refl

next_id-returned_example :
    next_id used (day ∷ day ∷ (day + 2) ∷ [])
    ≡ returned
        (record used { last_timestamp_ms = some (day + 2); sequence = 0 }, encode (day + 2) 7 0)
        []
next_id-returned_example =
    (next_id-returned used day (day + 2) (day ∷ []) [] refl (omega arith) (omega arith)
      (omega arith)).1
