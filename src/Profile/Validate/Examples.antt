-- ===== src/Profile/Validate/Examples.antt =====
-- Examples of validation, and of what it guarantees.
use alt_tui.Prelude.{String, ◌≡◌, refl, inl, none, some, true, false}
use alt_tui.Fixtures.{team, lead, coder}
use alt_tui.Profile.{
  AgentAssignment, SpecialistAssignment, agent, specialist, peer_agent_for, specialist_for,
  contains_id, model_identity,
}
use alt_tui.Profile.Validate.{
  validate, has_errors, collect_diagnostics, sort_stable, check_header, check_models, check_unused,
  insert_sorted, less,
}
use alt_tui.Profile.Validate.Members.{
  check, validate_id, check_agents, check_specialists, check_member, register_model,
  validate_definition, matches_identifier, add_id, agent_path, validate_model_reference,
}
use alt_tui.Profile.Validate.Edges.{
  check_all_edges, check_peers, check_calls, add_edge, add_used, edge_key,
}
use alt_tui.Profile.Validate.Sound.{IsSound, validate-IsSound}
use alt_tui.Profile.Authority.{validated_peer, validated_call, validated_roles}
use alt_tui.Prelude.Dict.{lookup, insert}
use alt_tui.Prelude.Text.{trim_space, concat, itoa, fields, join}

abbrev same_case : String → String
same_case s = s

team-valid : has_errors (validate same_case team) ≡ false
unfolding validate has_errors collect_diagnostics sort_stable check_header check_models check_unused
    insert_sorted less check validate_id check_agents check_specialists check_member register_model
    validate_definition matches_identifier add_id agent_path validate_model_reference
    check_all_edges check_peers check_calls add_edge add_used edge_key lookup insert trim_space
    concat itoa fields join contains_id model_identity
team-valid = refl

validate-IsSound_example : IsSound team
validate-IsSound_example = validate-IsSound same_case team team-valid

lead_peer : contains_id lead.peers "reviewer" ≡ true
unfolding contains_id
lead_peer = refl

validated_peer_example :
    (x : AgentAssignment) × (peer_agent_for team lead "reviewer" ≡ some x) × (x.id ≡ "reviewer")
validated_peer_example =
    validated_peer same_case team lead "reviewer" team-valid (inl refl) lead_peer

lead_call : contains_id lead.specialists "coder" ≡ true
unfolding contains_id
lead_call = refl

validated_call_example : (s : SpecialistAssignment) × (specialist_for team lead "coder" ≡ some s)
validated_call_example = validated_call same_case team lead "coder" team-valid (inl refl) lead_call

coder_found : specialist team "coder" ≡ some coder
unfolding specialist
coder_found = refl

validated_roles_example : agent team "coder" ≡ none
validated_roles_example = validated_roles same_case team "coder" coder team-valid coder_found
