-- ===== src/Session/Tests.antt =====
-- The theorems on sessions at concrete managers.
use amind.Prelude.{ℕ, false, some, List, [], ◌∷◌, arith}
use amind.Session.{Session, SessionManager, new_session, active_count}
use amind.Session.Limit.{IsLimited, Call, perform_all, perform_all-IsLimited}

abbrev chat : Session
chat = new_session 100 1 [] []

abbrev ended : Session
ended = record (new_session 90 2 [] []) { active = false }

abbrev two : SessionManager
two = record { sessions = (1, chat) ∷ (2, ended) ∷ []; has_llm = false; wal = some [] }

abbrev no_intent : Session → List ℕ
no_intent s = []

abbrev no_facts : Session → List ℕ → List ℕ
no_facts s input = []

two-IsLimited : IsLimited two
unfolding IsLimited active_count
two-IsLimited = omega arith

abbrev calls : List Call
calls =
    Call.starts 110 3 [] []
    ∷ Call.begins 120 1 (5 ∷ [])
    ∷ Call.closes 1
    ∷ Call.finishes 1 chat (5 ∷ []) [] [] []
    ∷ []

perform_all-IsLimited_example : IsLimited (perform_all calls two)
perform_all-IsLimited_example = perform_all-IsLimited calls two two-IsLimited
