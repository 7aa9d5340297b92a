-- ===== src/Orchestrator/Delegations/Examples.antt =====
-- An example of planned delegations.
use alt_tui.Prelude.{◌≡◌, refl, [], ◌∷◌, List, ok, map, All}
use alt_tui.Prelude.Dict.{lookup, insert, update}
use alt_tui.Prelude.Text.{trim_space, concat, itoa}
use alt_tui.Fixtures.{team, lead, uuid, or_nothing}
use alt_tui.Fixtures.Turn.{turn_state}
use alt_tui.Content.{is_empty, text_input, attachment_refs, refs_from}
use alt_tui.Event.{DelegationSpec}
use alt_tui.Profile.{contains_id, specialist_for, specialist}
use alt_tui.Projection.{start, replay, replay_from, apply, apply_body, created, started, finished}
use alt_tui.Profile.Peers.{Distinct}
use alt_tui.Orchestrator.{
  ProposedDelegation, unique_strings, unique_from, sort_strings, insert_string,
  validate_attachment_selection, check_selection, projection_attachment_references,
}
use alt_tui.Orchestrator.Delegations.{
  materialize_delegations, plan_delegations, plan_delegation, resolve_all, known_specs,
}
use alt_tui.Orchestrator.Delegations.Planned.{Grounded, materialize_delegations_plan}
use alt_tui.Orchestrator.Delegations.Planned.Steps.{Permitted}

abbrev delegations : List ProposedDelegation
delegations =
    record {
      key = "fix";
      specialist_id = "coder";
      objective = "fix it";
      context = "";
      attachments = [];
      depends_on = "d1" ∷ [];
    }
    ∷ record {
      key = "test";
      specialist_id = "coder";
      objective = "test it";
      context = "";
      attachments = [];
      depends_on = "fix" ∷ "d1" ∷ [];
    }
    ∷ []

abbrev planned : List DelegationSpec
planned = or_nothing (materialize_delegations team turn_state lead uuid 0 delegations)

delegations_planned : materialize_delegations team turn_state lead uuid 0 delegations ≡ ok planned
unfolding materialize_delegations plan_delegations plan_delegation resolve_all known_specs
    unique_strings unique_from sort_strings insert_string trim_space contains_id specialist_for
    specialist validate_attachment_selection check_selection projection_attachment_references
    attachment_refs refs_from replay replay_from apply apply_body start created started finished
    lookup insert update is_empty text_input concat itoa
delegations_planned = refl

materialize_delegations_plan_example :
    Distinct (map (λ s. s.key) planned)
    × All (λ s. Permitted team turn_state lead s × Grounded team turn_state lead planned s) planned
materialize_delegations_plan_example =
    materialize_delegations_plan team turn_state lead uuid 0 delegations planned delegations_planned
