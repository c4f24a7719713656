-- ===== src/Session/Summary.antt =====
-- `getSessionSummary` of src/session/session_manager.cpp.
use amind.Prelude.{ℕ, Bool, none, some, List, length}
use amind.Prelude.Map
use amind.Session.{Session, SessionManager, Result, ok, err, session_not_found}

pub record SessionSummary : Type 0 where
  pub session_id : ℕ
  pub agent_id : List ℕ
  pub user_id : List ℕ
  pub turn_count : ℕ
  pub current_intent : List ℕ
  pub memory_count : ℕ
  pub fact_count : ℕ
  pub started_at : ℕ
  pub last_turn_at : ℕ
  pub active : Bool

unfoldable pub summarize : Session → SessionSummary
summarize s = record {
  session_id = s.session_id;
  agent_id = s.agent_id;
  user_id = s.user_id;
  turn_count = s.turn_count;
  current_intent = s.current_intent;
  memory_count = length s.memory_ids;
  fact_count = length s.extracted_facts;
  started_at = s.started_at;
  last_turn_at = s.last_turn_at;
  active = s.active;
}

unfoldable pub get_session_summary : SessionManager → ℕ → Result SessionSummary
unfolding summarize
get_session_summary g session_id = elim (Map.find session_id g.sessions) [
  | none ↦ err session_not_found
  | some s ↦ ok (summarize s)
]
