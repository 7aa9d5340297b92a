-- ===== src/Store.antt =====
-- internal/store: the tables of sessions and events (session.go, event.go). A transaction that fails
-- leaves the tables as they were, so an operation is a function to a `Result`. The archive row that
-- copies an event, the subscribers that are told of it, and errors of the database itself are left
-- out; the id and the time of an event are arguments. `events` keeps the order of the insertions.
pub mod Sequence
pub mod Mirror
pub mod Returns
mod Examples
use text.Mathlib.Text.{◌==◌ as str_eq}
use alt_tui.Prelude.{
  ℕ, ◌+◌, String, Option, none, some, Bool, true, false, ◌&&◌, ◌||◌, List, [], ◌∷◌, ◌++◌, keep, any,
  ltb, leb, ◌==◌, if◌then◌else◌, Result, ok, err, ◌>>=◌, ◌>>◌, reject_if,
}
use alt_tui.Prelude.Int.{ℤ}
use alt_tui.Prelude.Dict.{Dict, lookup, update}
use alt_tui.Event.{
  Event, Draft, Body, materialize, leadership_transferred, final_completed, session_failed,
  session_cancelled,
}

pub data SessionStatus : Type 0 where
  session_running session_completed session_failed_status session_cancelled_status : SessionStatus

pub record Session : Type 0 where
  pub id : String
  pub conversation_id : String
  pub profile_id : String
  pub profile_revision : ℤ
  pub profile_digest : String
  pub title : String
  pub task : String
  pub workspace : String
  pub leader_id : String
  pub status : SessionStatus
  pub final_answer : String
  pub created_at : ℕ
  pub updated_at : ℕ

pub record Tables : Type 0 where
  pub sessions : Dict Session
  pub events : List Event

pub data StoreError : Type 0 where
  duplicate_event : String → StoreError
  corrupt_event : String → StoreError
  unknown_session : String → StoreError

abbrev pub of_session : String → Event → Bool
of_session session_id e = str_eq e.session_id session_id

-- SELECT COALESCE(MAX(sequence), 0), of Store.LastSequence
pub max_sequence : List Event → ℕ
max_sequence [] = 0
max_sequence (e ∷ rest) = let n = max_sequence rest in if ltb n e.sequence then e.sequence else n

pub last_sequence : Tables → String → ℕ
last_sequence t session_id = max_sequence (keep (of_session session_id) t.events)

-- the unique columns of the table
abbrev pub clashes : Event → Event → Bool
clashes item e =
    str_eq e.id item.id || (str_eq e.session_id item.session_id && e.sequence == item.sequence)

-- insertEvent
pub insert_event : Event → List Event → Result StoreError (List Event)
insert_event item events =
    if any (clashes item) events then err (duplicate_event item.id) else ok (events ++ item ∷ [])

-- what an event changes of its session: a text "" and `none` are no change
pub record Change : Type 0 where
  pub leader_id : String
  pub status : Option SessionStatus
  pub final : String

abbrev pub no_change : Change
no_change = record { leader_id = ""; status = none; final = "" }

-- the switch of applySessionProjection
unfoldable pub change_of : Body → String → Result StoreError Change
change_of (leadership_transferred (some d)) id = ok (record no_change { leader_id = d.to_agent_id })
change_of (leadership_transferred none) id = err (corrupt_event id)
change_of (final_completed (some answer)) id =
    ok (record no_change { status = some session_completed; final = answer })
change_of (final_completed none) id = err (corrupt_event id)
change_of (session_failed _) id = ok (record no_change { status = some session_failed_status })
change_of (session_cancelled _) id =
    ok (record no_change { status = some session_cancelled_status })
change_of _ id = ok no_change

abbrev or_else : Option SessionStatus → SessionStatus → SessionStatus
or_else none s = s
or_else (some s) _ = s

-- the UPDATE of applySessionProjection
unfoldable pub changed : Change → ℕ → Session → Session
changed c at s = record s {
  updated_at = at;
  leader_id = if str_eq c.leader_id "" then s.leader_id else c.leader_id;
  status = or_else c.status s.status;
  final_answer = if str_eq c.final "" then s.final_answer else c.final;
}

abbrev pub update_row :
    String → (Session → Session) → Dict Session → Option Session → Result StoreError (Dict Session)
update_row id f sessions none = err (unknown_session id)
update_row id f sessions (some _) = ok (update id f sessions)

-- applySessionProjection
pub apply_session_projection : Event → Dict Session → Result StoreError (Dict Session)
apply_session_projection item sessions = do
  c ← change_of item.body item.id
  update_row item.session_id (changed c item.at) sessions (lookup item.session_id sessions)

-- Store.Append
pub append : Tables → String → Draft → String → ℕ → Result StoreError (Tables × Event)
append t session_id draft id now = do
  events ←
      insert_event (materialize draft id session_id (last_sequence t session_id + 1) now) t.events
  sessions ←
      apply_session_projection
        (materialize draft id session_id (last_sequence t session_id + 1) now) t.sessions
  ok (
    record { sessions = sessions; events = events },
    materialize draft id session_id (last_sequence t session_id + 1) now,
  )

unfoldable pub insert_by_sequence : Event → List Event → List Event
insert_by_sequence e [] = e ∷ []
insert_by_sequence e (f ∷ rest) =
    let later = insert_by_sequence e rest in
    if ltb f.sequence e.sequence then f ∷ later else e ∷ f ∷ rest

-- ORDER BY sequence
unfoldable pub order_by_sequence : List Event → List Event
order_by_sequence [] = []
order_by_sequence (e ∷ rest) = insert_by_sequence e (order_by_sequence rest)

-- the rows of Store.Events
abbrev pub selects : String → ℕ → Event → Bool
selects session_id after e = of_session session_id e && ltb after e.sequence

-- Store.Events
unfoldable pub events_after : Tables → String → ℕ → List Event
events_after t session_id after = order_by_sequence (keep (selects session_id after) t.events)
