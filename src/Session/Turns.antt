-- ===== src/Session/Turns.antt =====
-- What a call leaves in the sessions.
use amind.Prelude.{
  ℕ, ◌+◌, ◌%◌, ◌^◌, ◌≡◌, ◌≢◌, refl, ◌∙◌, true, false, not, ◌&&◌, none, some, List, [], ◌∷◌, ◌++◌,
  length, arith, ltb, leb,
}
use amind.Prelude.Map
use amind.Prelude.Map.{find-assign, find-assign_self, find-assign_ne}
use amind.Prelude.Ids.{is_empty}
use amind.Session.{
  Session, SessionManager, TurnRecord, Result, Error, ok, err, is_expired, purge, start_session,
  begin_turn, finish_turn, record_turn, set_turn, close_session, new_session,
}

-- A session that the cleanup keeps is found as before.
find-purge_kept :
    (now k : ℕ) (s : Session) (m : List (ℕ × Session))
    → Map.find k m ≡ some s
    → is_expired now s ≡ false
    → Map.find k (purge now m) ≡ some s
unfolding Map.find purge
find-purge_kept now k s [] h x = h
find-purge_kept now k s ((j, w) ∷ m) h x = ground (arith, find-purge_kept now k s m)

-- A start of a session under a new id leaves every active session as it was, also when it fails.
start_session-keeps :
    (now id k : ℕ) (g : SessionManager) (agent_id user_id : List ℕ) (s : Session)
    → id ≢ k
    → Map.find k g.sessions ≡ some s
    → s.active ≡ true
    → Map.find k (start_session now id g agent_id user_id).0.sessions ≡ some s
unfolding start_session is_expired
start_session-keeps now id k g agent_id user_id s ne h a = ground (
  arith,
  find-purge_kept now k s g.sessions h,
  find-assign id k (new_session now id agent_id user_id) (purge now g.sessions),
)

-- A session with one turn more, whose number and time are those of the session.
record IsExtended (now : ℕ) (s s' : Session) (t : TurnRecord) : Type 0 where
  pub turns : s'.turns ≡ s.turns ++ t ∷ []
  pub number : t.turn_number ≡ (s.turn_count + 1) % 2 ^ 16
  pub count : s'.turn_count ≡ t.turn_number
  pub time : (t.timestamp ≡ now) × (s'.last_turn_at ≡ now)
  pub memories : s'.memory_ids ≡ s.memory_ids ++ t.extracted_memory_ids
  pub still_active : s'.active ≡ true

abbrev pub counted : (now : ℕ) → Session → Session
counted now s = record s { turn_count = (s.turn_count + 1) % 2 ^ 16; last_turn_at = now }

begin_turn-active :
    (now : ℕ) (g : SessionManager) (session_id : ℕ) (user_input : List ℕ) (s : Session)
    → Map.find session_id g.sessions ≡ some s
    → s.active ≡ true
    → begin_turn now g session_id user_input ≡ (
      record g { sessions = Map.assign session_id (counted now s) g.sessions },
      ok (record {
        session_copy = counted now s;
        needs_intent = g.has_llm && leb 2 (length s.turns);
        needs_facts = g.has_llm && (not (is_empty user_input) && ltb 10 (length user_input));
      }),
    )
unfolding begin_turn
begin_turn-active now g session_id user_input s h a = rw (h, begin_turn) (rw a refl)

begin_turn-missing :
    (now : ℕ) (g : SessionManager) (session_id : ℕ) (user_input : List ℕ)
    → Map.find session_id g.sessions ≡ none
    → begin_turn now g session_id user_input ≡ (g, err Error.session_not_found)
unfolding begin_turn
begin_turn-missing now g session_id user_input h = rw (h, begin_turn) refl

begin_turn-closed :
    (now : ℕ) (g : SessionManager) (session_id : ℕ) (user_input : List ℕ) (s : Session)
    → Map.find session_id g.sessions ≡ some s
    → s.active ≡ false
    → begin_turn now g session_id user_input ≡ (g, err Error.session_closed)
unfolding begin_turn
begin_turn-closed now g session_id user_input s h a = rw (h, begin_turn) (rw a refl)

module _ (now : ℕ) (detect_intent : Session → List ℕ) (extract_facts : Session → List ℕ → List ℕ)
    (g : SessionManager) (session_id : ℕ) (user_input agent_response : List ℕ) where
  abbrev recorded : SessionManager × Result (Unit {0})
  recorded = record_turn now detect_intent extract_facts g session_id user_input agent_response

  -- A turn on an active session succeeds and adds one turn to it, with the next number and the
  -- current time, and its memories; every other session stays as it was.
  record_turn-IsExtended :
      (s : Session) (other : ℕ)
      → Map.find session_id g.sessions ≡ some s
      → s.active ≡ true
      → session_id ≢ other
      → (recorded.1 ≡ ok tt)
        × ((s' : Session) × (t : TurnRecord) × (Map.find session_id recorded.0.sessions ≡ some s')
            × IsExtended now s s' t)
        × (Map.find other recorded.0.sessions ≡ Map.find other g.sessions)
  unfolding record_turn begin_turn finish_turn
  record_turn-IsExtended s other h a ne =
      rw (begin_turn-active now g session_id user_input s h a, record_turn)
        (rw (find-assign_self session_id (counted now s) g.sessions, finish_turn)
          (
            refl,
            (
              _,
              _,
              find-assign_self session_id _ (Map.assign session_id (counted now s) g.sessions),
              record {
                turns = refl;
                number = refl;
                count = refl;
                time = (refl, refl);
                memories = refl;
                still_active = a;
              },
            ),
            find-assign_ne session_id other _ (Map.assign session_id (counted now s) g.sessions) ne
                ∙ find-assign_ne session_id other (counted now s) g.sessions ne,
          ))

-- Both ways to record a turn refuse a closed session and a missing one, change nothing, and tell
-- the two apart.
turns-refused :
    (now : ℕ) (detect_intent : Session → List ℕ) (extract_facts : Session → List ℕ → List ℕ)
    → (g : SessionManager) (session_id missing turn_num : ℕ) (user_input agent_response : List ℕ)
    → (s : Session) → Map.find session_id g.sessions ≡ some s
    → s.active ≡ false
    → Map.find missing g.sessions ≡ none
    → (record_turn now detect_intent extract_facts g session_id user_input agent_response
        ≡ (g, err Error.session_closed))
      × (record_turn now detect_intent extract_facts g missing user_input agent_response
          ≡ (g, err Error.session_not_found))
      × (set_turn now g session_id turn_num ≡ (g, err Error.session_closed))
      × (set_turn now g missing turn_num ≡ (g, err Error.session_not_found))
unfolding record_turn set_turn
turns-refused now detect_intent extract_facts g session_id missing turn_num user_input
      agent_response s h a m =
    (
      rw (begin_turn-closed now g session_id user_input s h a, record_turn) refl,
      rw (begin_turn-missing now g missing user_input m, record_turn) refl,
      rw (h, set_turn) (rw a refl),
      rw (m, set_turn) refl,
    )

-- A turn whose session is closed while the language model works is added to the closed session.
finish_turn-closed :
    (now : ℕ) (g : SessionManager) (session_id : ℕ) (s : Session)
    → (user_input agent_response intent ids : List ℕ) → Map.find session_id g.sessions ≡ some s
    → s.active ≡ true
    → (let begun = (begin_turn now g session_id user_input).0 in
        let closed = (close_session begun session_id).0 in
        (s' : Session) × (t : TurnRecord) × (Map.find session_id
            (finish_turn closed session_id
              (counted now s)
              user_input
              agent_response
              intent
              ids).sessions
          ≡ some s')
        × (s'.active ≡ false)
        × (s'.turns ≡ s.turns ++ t ∷ []))
unfolding close_session finish_turn
finish_turn-closed now g session_id s user_input agent_response intent ids h a =
    rw (begin_turn-active now g session_id user_input s h a) (
      rw (find-assign_self session_id (counted now s) g.sessions, close_session)
        (rw
          (
            find-assign_self session_id (record (counted now s) { active = false })
                (Map.assign session_id (counted now s) g.sessions),
            finish_turn,
          )
          (
            _,
            _,
            find-assign_self session_id _ (
                Map.assign session_id (record (counted now s) { active = false })
                  (Map.assign session_id (counted now s) g.sessions)),
            refl,
            refl,
          )))
