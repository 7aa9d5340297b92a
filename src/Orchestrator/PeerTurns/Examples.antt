-- ===== src/Orchestrator/PeerTurns/Examples.antt =====
-- An example of planned peer turns.
use alt_tui.Prelude.{◌≡◌, refl, [], ◌∷◌, List, ok, map, All}
use alt_tui.Prelude.Dict.{lookup, insert, update}
use alt_tui.Prelude.Text.{trim_space, concat, itoa}
use alt_tui.Fixtures.{team, lead, uuid, or_nothing}
use alt_tui.Fixtures.Turn.{turn_state}
use alt_tui.Content.{is_empty, text_input, attachment_refs, refs_from}
use alt_tui.Event.{PeerTurnSpec}
use alt_tui.Profile.{contains_id, peer_agent_for, agent}
use alt_tui.Projection.{start, replay, replay_from, apply, apply_body, created, started, finished}
use alt_tui.Projection.Views.{sorted_peer_turns}
use alt_tui.Profile.Peers.{Distinct}
use alt_tui.Orchestrator.{
  ProposedPeerTurn, unique_strings, unique_from, sort_strings, insert_string,
  validate_attachment_selection, check_selection, projection_attachment_references,
}
use alt_tui.Orchestrator.PeerTurns.{
  materialize_peer_turns, plan_peer_turns, plan_peer_turn, known_collaborations,
}
use alt_tui.Orchestrator.PeerTurns.Planned.Steps.{Consultable}
use alt_tui.Orchestrator.PeerTurns.Planned.{Continues, materialize_peer_turns_plan}

abbrev peer_proposals : List ProposedPeerTurn
peer_proposals =
    record {
      key = "again";
      peer_id = "reviewer";
      collaboration_id = "c1";
      objective = "look again";
      context = "";
      attachments = [];
    }
    ∷ record {
      key = "other";
      peer_id = "reviewer";
      collaboration_id = "";
      objective = "look elsewhere";
      context = "";
      attachments = [];
    }
    ∷ []

abbrev planned_turns : List PeerTurnSpec
planned_turns = or_nothing (materialize_peer_turns team turn_state lead uuid 0 peer_proposals)

peer_turns_planned :
    materialize_peer_turns team turn_state lead uuid 0 peer_proposals ≡ ok planned_turns
unfolding materialize_peer_turns plan_peer_turns plan_peer_turn known_collaborations unique_strings
    unique_from sort_strings insert_string trim_space contains_id peer_agent_for agent
    sorted_peer_turns validate_attachment_selection check_selection projection_attachment_references
    attachment_refs refs_from replay replay_from apply apply_body start created started finished
    lookup insert update is_empty text_input concat itoa
peer_turns_planned = refl

materialize_peer_turns_plan_example :
    Distinct (map (λ s. s.key) planned_turns)
    × Distinct (map (λ s. s.collaboration_id) planned_turns)
    × All (λ s. Consultable team turn_state lead s × Continues team turn_state lead s) planned_turns
materialize_peer_turns_plan_example =
    materialize_peer_turns_plan team turn_state lead uuid 0 peer_proposals planned_turns
      peer_turns_planned
