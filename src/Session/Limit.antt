-- ===== src/Session/Limit.antt =====
-- The limit on active sessions.
use amind.Prelude.{
  ℕ, ◌+◌, ◌%◌, ◌^◌, ◌≤◌, ◌≡◌, refl, true, false, Option, none, some, List, [], ◌∷◌, ◌++◌, arith,
  if◌then◌else◌, inl, inr, Option-cases,
}
use amind.Prelude.Map
use amind.Session.{
  Session, SessionManager, max_active, is_expired, purge, active_count, new_session, start_session,
  begin_turn, finish_turn, set_turn, close_session, add_memory_to_session,
}

abbrev activity : Option Session → ℕ
activity none = 0
activity (some s) = if s.active then 1 else 0

active_count-assign :
    (k : ℕ) (v : Session) (m : List (ℕ × Session))
    → active_count (Map.assign k v m) + activity (Map.find k m) ≡ active_count m + activity (some v)
unfolding active_count Map.assign Map.find
active_count-assign k v [] = ground arith
active_count-assign k v ((j, w) ∷ m) = ground (arith, active_count-assign k v m)

active_count-purge :
    (now : ℕ) (m : List (ℕ × Session)) → active_count (purge now m) ≡ active_count m
unfolding active_count purge is_expired
active_count-purge now [] = refl
active_count-purge now ((j, w) ∷ m) = ground (arith, active_count-purge now m)

-- What the manager promises of itself.
unfoldable pub IsLimited : SessionManager → Type 0
IsLimited g = active_count g.sessions ≤ max_active

-- A session written back that is not newly active.
rewrite-le :
    (g : SessionManager) (k : ℕ) (s v : Session)
    → active_count g.sessions ≤ max_active
    → Map.find k g.sessions ≡ some s
    → (v.active ≡ true → s.active ≡ true)
    → active_count (Map.assign k v g.sessions) ≤ max_active
rewrite-le g k s v h e a = ground (arith, counted)
  where
    counted :
        active_count (Map.assign k v g.sessions) + activity (some s)
        ≡ active_count g.sessions + activity (some v)
    counted = rw e at (active_count-assign k v g.sessions)

start_session-IsLimited :
    (now id : ℕ) (g : SessionManager) (agent_id user_id : List ℕ)
    → IsLimited g
    → IsLimited (start_session now id g agent_id user_id).0
unfolding IsLimited start_session
start_session-IsLimited now id g agent_id user_id h = ground (
  arith,
  active_count-purge now g.sessions,
  active_count-assign id (new_session now id agent_id user_id) (purge now g.sessions),
)

begin_turn-IsLimited :
    (now : ℕ) (g : SessionManager) (session_id : ℕ) (user_input : List ℕ)
    → IsLimited g
    → IsLimited (begin_turn now g session_id user_input).0
unfolding IsLimited begin_turn
begin_turn-IsLimited now g session_id user_input h =
    elim (Option-cases (Map.find session_id g.sessions)) [
      | inl e ↦ rw (e, begin_turn) h
      | inr (s, e) ↦
          rw (e, begin_turn)
            (ground (
              arith,
              rewrite-le g session_id s
                  (record s { turn_count = (s.turn_count + 1) % 2 ^ 16; last_turn_at = now }) h e
                  (λ a. a),
            ))
    ]

finish_turn-IsLimited :
    (g : SessionManager) (session_id : ℕ) (copy : Session)
    → (user_input agent_response intent ids : List ℕ) → IsLimited g
    → IsLimited (finish_turn g session_id copy user_input agent_response intent ids)
unfolding IsLimited finish_turn
finish_turn-IsLimited g session_id copy user_input agent_response intent ids h =
    elim (Option-cases (Map.find session_id g.sessions)) [
      | inl e ↦ rw (e, finish_turn) h
      | inr (s, e) ↦ rw (e, finish_turn) (rewrite-le g session_id s _ h e (λ a. a))
    ]

set_turn-IsLimited :
    (now : ℕ) (g : SessionManager) (session_id turn_num : ℕ)
    → IsLimited g
    → IsLimited (set_turn now g session_id turn_num).0
unfolding IsLimited set_turn
set_turn-IsLimited now g session_id turn_num h =
    elim (Option-cases (Map.find session_id g.sessions)) [
      | inl e ↦ rw (e, set_turn) h
      | inr (s, e) ↦
          rw (e, set_turn)
            (ground (
              arith,
              rewrite-le g session_id s (record s { turn_count = turn_num; last_turn_at = now }) h e
                  (λ a. a),
            ))
    ]

close_session-IsLimited :
    (g : SessionManager) (session_id : ℕ) → IsLimited g → IsLimited (close_session g session_id).0
unfolding IsLimited close_session
close_session-IsLimited g session_id h = elim (Option-cases (Map.find session_id g.sessions)) [
  | inl e ↦ rw (e, close_session) h
  | inr (s, e) ↦
      rw (e, close_session)
        (rewrite-le g session_id s (record s { active = false }) h e (λ a. ground arith))
]

add_memory-IsLimited :
    (g : SessionManager) (session_id memory_id : ℕ)
    → IsLimited g
    → IsLimited (add_memory_to_session g session_id memory_id)
unfolding IsLimited add_memory_to_session
add_memory-IsLimited g session_id memory_id h =
    elim (Option-cases (Map.find session_id g.sessions)) [
      | inl e ↦ rw (e, add_memory_to_session) h
      | inr (s, e) ↦
          rw (e, add_memory_to_session)
            (rewrite-le g session_id s (record s { memory_ids = s.memory_ids ++ memory_id ∷ [] }) h
              e (λ a. a))
    ]

-- The calls of several threads, in the order in which they take the lock; the two phases of
-- `recordTurn` are calls of their own, since it waits for the language model without the lock.
pub data Call : Type 0 where
  starts : (now id : ℕ) (agent_id user_id : List ℕ) → Call
  begins : (now session_id : ℕ) (user_input : List ℕ) → Call
  finishes : (session_id : ℕ) → Session → (user_input agent_response intent ids : List ℕ) → Call
  sets : (now session_id turn_num : ℕ) → Call
  closes : (session_id : ℕ) → Call
  adds : (session_id memory_id : ℕ) → Call

unfoldable pub perform : Call → SessionManager → SessionManager
perform (starts now id agent_id user_id) g = (start_session now id g agent_id user_id).0
perform (begins now session_id user_input) g = (begin_turn now g session_id user_input).0
perform (finishes session_id copy user_input agent_response intent ids) g =
    finish_turn g session_id copy user_input agent_response intent ids
perform (sets now session_id turn_num) g = (set_turn now g session_id turn_num).0
perform (closes session_id) g = (close_session g session_id).0
perform (adds session_id memory_id) g = add_memory_to_session g session_id memory_id

unfoldable pub perform_all : List Call → SessionManager → SessionManager
perform_all [] g = g
perform_all (c ∷ cs) g = perform_all cs (perform c g)

perform-IsLimited : (c : Call) (g : SessionManager) → IsLimited g → IsLimited (perform c g)
unfolding perform
perform-IsLimited (starts now id agent_id user_id) g h =
    start_session-IsLimited now id g agent_id user_id h
perform-IsLimited (begins now session_id user_input) g h =
    begin_turn-IsLimited now g session_id user_input h
perform-IsLimited (finishes session_id copy user_input agent_response intent ids) g h =
    finish_turn-IsLimited g session_id copy user_input agent_response intent ids h
perform-IsLimited (sets now session_id turn_num) g h =
    set_turn-IsLimited now g session_id turn_num h
perform-IsLimited (closes session_id) g h = close_session-IsLimited g session_id h
perform-IsLimited (adds session_id memory_id) g h = add_memory-IsLimited g session_id memory_id h

-- From a manager with at most 1000 active sessions, however the calls of several threads follow one
-- another, at most 1000 are active.
pub perform_all-IsLimited :
    (cs : List Call) (g : SessionManager) → IsLimited g → IsLimited (perform_all cs g)
unfolding perform_all
perform_all-IsLimited [] g h = h
perform_all-IsLimited (c ∷ cs) g h =
    perform_all-IsLimited cs (perform c g) (perform-IsLimited c g h)
