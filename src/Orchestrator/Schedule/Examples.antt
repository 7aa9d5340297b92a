-- ===== src/Orchestrator/Schedule/Examples.antt =====
-- An example of scheduling: a delegation and a peer turn that have not started.
use alt_tui.Prelude.{◌≡◌, refl, [], ◌∷◌, List, All, some}
use alt_tui.Prelude.Dict.{lookup, insert, update}
use alt_tui.Prelude.Text.{concat, itoa}
use alt_tui.Fixtures.{turn_events, event_at, question}
use alt_tui.Fixtures.Turn.{or_start}
use alt_tui.Content.{is_empty, text_input}
use alt_tui.Event.{Event, peer_turn_created}
use alt_tui.Profile.{contains_id}
use alt_tui.Projection.{
  Projection, start, replay, replay_from, apply, apply_body, created, started, finished,
}
use alt_tui.Projection.Views.{
  sorted_delegations, sorted_peer_turns, sorted_work, insert_by_id, all_completed,
}
use alt_tui.Orchestrator.Schedule.{Launch, delegation, peer_turn, schedule, schedule_ready}
use alt_tui.Orchestrator.Schedule.Once.{IsDue, schedule_ready-IsDue, schedule_ready_again}

-- a delegation is created, and then a peer turn
abbrev planning : List Event → List Event
planning (first ∷ second ∷ third ∷ _) =
    first
    ∷ second
    ∷ third
    ∷ record (event_at "e4" (peer_turn_created (some question))) { sequence = 4 }
    ∷ []
planning _ = []

abbrev planned_work : Projection
planned_work = or_start (replay "s" (planning turn_events))

abbrev both_launches : List Launch
both_launches = delegation "d1" 1 ∷ peer_turn "p1" 1 ∷ []

both_launched :
    schedule_ready planned_work []
    ≡ record { launches = both_launches; launched = "peer:p1:1" ∷ "d1:1" ∷ [] }
unfolding schedule_ready schedule contains_id sorted_delegations sorted_peer_turns sorted_work
    insert_by_id all_completed replay replay_from apply apply_body start created started finished
    lookup insert update is_empty text_input concat itoa
both_launched = refl

schedule_ready-IsDue_example : All (IsDue planned_work []) (schedule_ready planned_work []).launches
schedule_ready-IsDue_example = schedule_ready-IsDue planned_work []

schedule_ready_again_example :
    schedule_ready planned_work (schedule_ready planned_work []).launched
    ≡ record { launches = []; launched = (schedule_ready planned_work []).launched }
schedule_ready_again_example = schedule_ready_again planned_work []
