-- ===== src/Store/Examples.antt =====
-- Examples of appending events.
use alt_tui.Prelude.{
  ℕ, ◌+◌, String, ◌≡◌, refl, inl, keep, some, [], ◌∷◌, ◌++◌, ok, length, if◌then◌else◌,
}
use text.Mathlib.Text.{◌==◌ as str_eq}
use alt_tui.Prelude.Int.{pos}
use alt_tui.Prelude.Dict.{lookup, insert, update}
use alt_tui.Event.{Draft, Event, session_created, final_completed, materialize}
use alt_tui.Projection.{start, replay, replay_from}
use alt_tui.Store.{
  Session, session_running, session_completed, Tables, append, insert_event,
  apply_session_projection, change_of, changed, last_sequence, max_sequence, events_after,
  order_by_sequence,
}
use alt_tui.Store.Sequence.{append-IsNumbered}
use alt_tui.Store.Sequence.Reading.{IsNumbered, rows, drop}
use alt_tui.Store.Mirror.Rows.{end_of}
use alt_tui.Store.Mirror.{Mirrors, append-Mirrors}

abbrev row : Session
row = record {
  id = "s";
  conversation_id = "s";
  profile_id = "core-team";
  profile_revision = pos 1;
  profile_digest = "d";
  title = "t";
  task = "do it";
  workspace = "/w";
  leader_id = "";
  status = session_running;
  final_answer = "";
  created_at = 0;
  updated_at = 0;
}

abbrev empty : Tables
empty = record { sessions = ("s", row) ∷ []; events = [] }

abbrev asked : Draft
asked = record {
  actor = "user";
  correlation_id = "";
  body = session_created (some (record { task = "do it"; input = [] }));
}

abbrev answered : Draft
answered = record { actor = "lead"; correlation_id = ""; body = final_completed (some "done") }

abbrev first : Event
first = materialize asked "e1" "s" 1 10

abbrev one : Tables
one = record { sessions = ("s", record row { updated_at = 10 }) ∷ []; events = first ∷ [] }

appended_one : append empty "s" asked "e1" 10 ≡ ok (one, first)
unfolding append insert_event apply_session_projection change_of changed last_sequence max_sequence
    lookup insert update keep
appended_one = refl

abbrev second : Event
second = materialize answered "e2" "s" 2 20

abbrev two : Tables
two = record {
  sessions =
      ("s", record row { updated_at = 20; status = session_completed; final_answer = "done" }) ∷ [];
  events = first ∷ second ∷ [];
}

appended_two : append one "s" answered "e2" 20 ≡ ok (two, second)
unfolding append insert_event apply_session_projection change_of changed last_sequence max_sequence
    lookup insert update keep
appended_two = refl

empty-IsNumbered : IsNumbered empty
unfolding keep
empty-IsNumbered session_id = tt

one-IsNumbered : IsNumbered one
one-IsNumbered =
    (append-IsNumbered empty one "s" asked "e1" 10 first empty-IsNumbered appended_one).0

append-IsNumbered_example :
    IsNumbered two
    × (second.sequence ≡ length (rows one "s") + 1)
    × ((reader : String) (after : ℕ)
        → events_after two reader after
          ≡ drop after
              (if str_eq "s" reader then rows one reader ++ second ∷ [] else rows one reader))
append-IsNumbered_example =
    append-IsNumbered one two "s" answered "e2" 20 second one-IsNumbered appended_two

empty-Mirrors : Mirrors empty "s"
unfolding replay replay_from start events_after order_by_sequence lookup keep end_of
empty-Mirrors = (
  record {
    running = refl;
    as_failed = refl;
    as_cancelled = refl;
    leader = inl refl;
    answer = inl refl;
  },
  refl,
)

one-Mirrors : Mirrors one "s"
one-Mirrors =
    append-Mirrors empty one "s" asked "e1" 10 first "s" empty-IsNumbered empty-Mirrors appended_one

append-Mirrors_example : Mirrors two "s"
append-Mirrors_example =
    append-Mirrors one two "s" answered "e2" 20 second "s" one-IsNumbered one-Mirrors appended_two
