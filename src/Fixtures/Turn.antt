-- ===== src/Fixtures/Turn.antt =====
-- The state of the turn of the examples.
use alt_tui.Prelude.{◌≡◌, refl, Result, ok, err, ◌∷◌, [], ◌++◌, List}
use alt_tui.Prelude.Dict.{lookup, insert, update}
use alt_tui.Content.{is_empty, text_input}
use alt_tui.Event.{Event, session_failed}
use alt_tui.Fixtures.{turn_events, event_at}
use alt_tui.Projection.{
  Projection, ApplyError, start, replay, replay_from, apply, apply_body, created, started, finished,
}

abbrev pub or_start : Result ApplyError Projection → Projection
or_start (ok p) = p
or_start (err _) = start ""

abbrev pub turn_state : Projection
turn_state = or_start (replay "s" turn_events)

pub turn_replayed : replay "s" turn_events ≡ ok turn_state
unfolding replay replay_from apply apply_body start created started finished lookup insert update
    is_empty text_input
turn_replayed = refl

-- the turn after a failure
abbrev pub failure : List Event
failure = record (event_at "e7" (session_failed "model")) { sequence = 7 } ∷ []

abbrev pub failed_state : Projection
failed_state = or_start (replay "s" (turn_events ++ failure))

pub failure_replayed : replay "s" (turn_events ++ failure) ≡ ok failed_state
unfolding replay replay_from apply apply_body start created started finished lookup insert update
    is_empty text_input
failure_replayed = refl
