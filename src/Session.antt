-- ===== src/Session.antt =====
-- src/session/session_manager.{h,cpp}: conversations, their turns and their end. Texts are lists of
-- bytes; `now` is the reading of `currentTimeSec`, `id` the new id of the generator. What the
-- language model answers (`detectIntent`, `extractFacts`) is an argument of the phase that stores
-- it. The log is the list of its entries; its file is src/session/session_wal.cpp's, not modelled.
pub mod Limit
pub mod Turns
pub mod Summary
mod Tests
use amind.Prelude.{
  ℕ, suc, ◌+◌, ◌-◌, ◌%◌, ◌^◌, Bool, true, false, not, ◌&&◌, ◌||◌, Option, none, some, List, [], ◌∷◌,
  ◌++◌, length, ltb, leb, if◌then◌else◌,
}
use amind.Prelude.Map
use amind.Prelude.Ids.{is_empty}

pub record TurnRecord : Type 0 where
  pub turn_number : ℕ
  pub user_input : List ℕ
  pub agent_response : List ℕ
  pub detected_intent : List ℕ
  pub extracted_memory_ids : List ℕ
  pub timestamp : ℕ

pub record Session : Type 0 where
  pub session_id : ℕ
  pub agent_id : List ℕ
  pub user_id : List ℕ
  pub started_at : ℕ
  pub last_turn_at : ℕ
  pub turn_count : ℕ
  pub active : Bool
  pub memory_ids : List ℕ
  pub turns : List TurnRecord
  pub current_intent : List ℕ
  pub extracted_facts : List (List ℕ)

pub data WalEntry : Type 0 where
  starts : Session → WalEntry
  turns : (session_id : ℕ) → TurnRecord → WalEntry
  closes : (session_id : ℕ) → WalEntry

pub record SessionManager : Type 0 where
  pub sessions : List (ℕ × Session)
  pub has_llm : Bool
  pub wal : Option (List WalEntry)

pub data Error : Type 0 where
  invalid_argument session_not_found session_closed : Error

pub data Result (A : Type 0) : Type 0 where
  ok : A → Result A
  err : Error → Result A

abbrev pub session_ttl_sec : ℕ
session_ttl_sec = 3600

abbrev pub max_active : ℕ
max_active = 1000

abbrev append_wal : WalEntry → Option (List WalEntry) → Option (List WalEntry)
append_wal e none = none
append_wal e (some log) = some (log ++ e ∷ [])

-- `now - last_turn_at` is taken on 32 bits.
unfoldable pub is_expired : (now : ℕ) → Session → Bool
is_expired now s = not s.active && ltb session_ttl_sec ((now + 2 ^ 32 - s.last_turn_at) % 2 ^ 32)

unfoldable pub purge : (now : ℕ) → List (ℕ × Session) → List (ℕ × Session)
purge now [] = []
purge now ((id, s) ∷ m) = if is_expired now s then purge now m else (id, s) ∷ purge now m

unfoldable pub active_count : List (ℕ × Session) → ℕ
active_count [] = 0
active_count ((id, s) ∷ m) = if s.active then suc (active_count m) else active_count m

abbrev pub new_session : (now id : ℕ) (agent_id user_id : List ℕ) → Session
new_session now id agent_id user_id = record {
  session_id = id;
  agent_id = agent_id;
  user_id = user_id;
  started_at = now;
  last_turn_at = now;
  turn_count = 0;
  active = true;
  memory_ids = [];
  turns = [];
  current_intent = [];
  extracted_facts = [];
}

unfoldable pub start_session :
    (now id : ℕ) → SessionManager → (agent_id user_id : List ℕ) → SessionManager × Result Session
start_session now id g agent_id user_id =
    let left = purge now g.sessions in
    let s = new_session now id agent_id user_id in
    if leb max_active (active_count left)
    then (record g { sessions = left }, err invalid_argument)
    else (record g { sessions = Map.assign id s left; wal = append_wal (starts s) g.wal }, ok s)

-- What the first phase of `recordTurn` hands to the calls of the language model.
pub record Pending : Type 0 where
  pub session_copy : Session
  pub needs_intent : Bool
  pub needs_facts : Bool

unfoldable pub begin_turn :
    (now : ℕ)
    → SessionManager
    → (session_id : ℕ) (user_input : List ℕ) → SessionManager × Result Pending
begin_turn now g session_id user_input = elim (Map.find session_id g.sessions) [
  | none ↦ (g, err session_not_found)
  | some s ↦
      let s' = record s { turn_count = (s.turn_count + 1) % 2 ^ 16; last_turn_at = now } in
      if s.active
      then (
        record g { sessions = Map.assign session_id s' g.sessions },
        ok (record {
          session_copy = s';
          needs_intent = g.has_llm && leb 2 (length s'.turns);
          needs_facts = g.has_llm && (not (is_empty user_input) && ltb 10 (length user_input));
        }),
      )
      else (g, err session_closed)
]

-- The third phase: `intent` and `ids` are empty where the model was not asked.
unfoldable pub finish_turn :
    SessionManager
    → (session_id : ℕ) → Session
    → (user_input agent_response intent ids : List ℕ) → SessionManager
finish_turn g session_id copy user_input agent_response intent ids =
    elim (Map.find session_id g.sessions) [
      | none ↦ g
      | some s ↦
          let turn = record_of_turn in
          record g {
            sessions = Map.assign session_id (extended s) g.sessions;
            wal = append_wal (WalEntry.turns session_id turn) g.wal;
          }
    ]
  where
    record_of_turn : TurnRecord
    record_of_turn = record {
      turn_number = copy.turn_count;
      user_input = user_input;
      agent_response = agent_response;
      detected_intent = intent;
      extracted_memory_ids = ids;
      timestamp = copy.last_turn_at;
    }

    extended : Session → Session
    extended s = record s {
      current_intent = if is_empty intent then s.current_intent else intent;
      memory_ids = s.memory_ids ++ ids;
      turns = s.turns ++ record_of_turn ∷ [];
    }

-- `recordTurn` with nothing in between: the model's answers are functions of what it is asked.
unfoldable pub record_turn :
    (now : ℕ) (detect_intent : Session → List ℕ) (extract_facts : Session → List ℕ → List ℕ)
    → SessionManager
    → (session_id : ℕ) (user_input agent_response : List ℕ) → SessionManager × Result (Unit {0})
record_turn now detect_intent extract_facts g session_id user_input agent_response =
    finish (begin_turn now g session_id user_input)
  where
    finish : SessionManager × Result Pending → SessionManager × Result (Unit {0})
    finish (g', err e) = (g', err e)
    finish (g', ok p) = (
      finish_turn g' session_id p.session_copy user_input agent_response
          (if p.needs_intent then detect_intent p.session_copy else [])
          (if p.needs_facts then extract_facts p.session_copy user_input else []),
      ok tt,
    )

-- The second `recordTurn`, which sets the count.
unfoldable pub set_turn :
    (now : ℕ) → SessionManager → (session_id turn_num : ℕ) → SessionManager × Result (Unit {0})
set_turn now g session_id turn_num = elim (Map.find session_id g.sessions) [
  | none ↦ (g, err session_not_found)
  | some s ↦
      let s' = record s { turn_count = turn_num; last_turn_at = now } in
      if s.active
      then (record g { sessions = Map.assign session_id s' g.sessions }, ok tt)
      else (g, err session_closed)
]

-- The count of persisted memories is only logged.
unfoldable pub close_session :
    SessionManager → (session_id : ℕ) → SessionManager × Result (Unit {0})
close_session g session_id = elim (Map.find session_id g.sessions) [
  | none ↦ (g, err session_not_found)
  | some s ↦ (
    record g {
      sessions = Map.assign session_id (record s { active = false }) g.sessions;
      wal = append_wal (closes session_id) g.wal;
    },
    ok tt,
  )
]

unfoldable pub get_session : SessionManager → ℕ → Result Session
get_session g session_id = elim (Map.find session_id g.sessions) [
  | none ↦ err session_not_found
  | some s ↦ ok s
]

unfoldable pub add_memory_to_session : SessionManager → (session_id memory_id : ℕ) → SessionManager
add_memory_to_session g session_id memory_id = elim (Map.find session_id g.sessions) [
  | none ↦ g
  | some s ↦ record g {
    sessions =
        Map.assign session_id (record s { memory_ids = s.memory_ids ++ memory_id ∷ [] }) g.sessions;
  }
]
