-- ===== src/Wal/Tests.antt =====
-- The theorems on the storage log at a small log.
use amind.Prelude.{ℕ, ◌%◌, ◌^◌, ◌≡◌, Option, none, some, List, [], ◌∷◌, ◌++◌, arith}
use amind.Prelude.Bytes.{le_value}
use package.amind.Wal.{open_log}
use package.amind.Wal.Framing.{IsCrc}
use package.amind.Wal.Crash.{whole}
use package.amind.Wal.Recovery.{no_stats, replay_entries, recover}
use package.amind.Wal.History.{Event, appends, rotates, AllSmallEvents, split, run}
use package.amind.Wal.Recovered.{cut, recover-run}

abbrev sum32 : List ℕ → ℕ
sum32 bs = le_value bs % 2 ^ 32

sum32-IsCrc : IsCrc sum32
sum32-IsCrc bs = omega arith

abbrev first_byte : List ℕ → Option ℕ
first_byte [] = none
first_byte (b ∷ bs) = some b

abbrev history : List Event
history =
    appends (record { entry_type = 1; payload = 7 ∷ 8 ∷ [] })
    ∷ rotates
    ∷ appends (record { entry_type = 1; payload = [] })
    ∷ appends (record { entry_type = 2; payload = 9 ∷ 0 ∷ 0 ∷ 0 ∷ 0 ∷ 0 ∷ 0 ∷ 0 ∷ [] })
    ∷ []

history-AllSmallEvents : AllSmallEvents history
history-AllSmallEvents = (omega arith, (tt, (omega arith, (omega arith, tt))))

recover-run_example :
    (recover first_byte sum32 (cut 20 (run sum32 history (open_log [] [])))).applied
    ≡ (replay_entries first_byte
        ((split history [] []).0 ++ whole 20 (split history [] []).1)
        no_stats).applied
recover-run_example = recover-run sum32 sum32-IsCrc first_byte history 20 history-AllSmallEvents
