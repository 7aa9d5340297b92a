-- ===== src/Orchestrator/Decision.antt =====
-- internal/orchestrator/runtime.go: the checks with which applyDecision begins, and the drafts that
-- it then appends. `spec_ids` and `turn_ids` give the ids of new delegations and peer turns.
pub mod Planned
use text.Mathlib.Text.{◌==◌ as str_eq}
use alt_tui.Prelude.{
  ℕ, zero, String, Option, none, some, Bool, true, false, not, ◌&&◌, ◌||◌, List, [], ◌∷◌, ◌++◌, map,
  length, ◌==◌, if◌then◌else◌, Result, ok, err, ◌>>=◌, ◌>>◌, reject_if,
}
use alt_tui.Prelude.Dict.{lookup}
use alt_tui.Prelude.Text.{trim_space}
use alt_tui.Profile.{Profile, AgentAssignment, agent, peer_agent_for, contains_id}
use alt_tui.Event.{
  Draft, Body, DelegationSpec, PeerTurnSpec, agent_decision, delegation_created, peer_turn_created,
  agent_turn_completed, leadership_transferred,
}
use alt_tui.Projection.{Projection}
use alt_tui.Orchestrator.{
  ProposedHandoff, AgentDecision, PlanError, absent_leader, not_exclusive, unknown_work,
  no_handoff_peer, no_handoff_reason, cancelled_dependency, unique_strings,
}
use alt_tui.Orchestrator.Delegations.{materialize_delegations}
use alt_tui.Orchestrator.PeerTurns.{materialize_peer_turns}

-- who leads next, and why
pub record Handoff : Type 0 where
  pub peer : AgentAssignment
  pub reason : String

-- what applyDecision has settled before its first append
pub record Plan : Type 0 where
  pub leader : AgentAssignment
  pub cancellations : List String
  pub handoff : Option Handoff
  pub specs : List DelegationSpec
  pub peer_specs : List PeerTurnSpec

abbrev pub is_some {ℓ} : {A : Type ℓ} → Option A → Bool
is_some none = false
is_some (some _) = true

abbrev pub is_nil {ℓ} : {A : Type ℓ} → List A → Bool
is_nil [] = true
is_nil (_ ∷ _) = false

abbrev pub or_absent : String → Option AgentAssignment → Result PlanError AgentAssignment
or_absent id none = err (absent_leader id)
or_absent id (some a) = ok a

-- `state.Delegations[id] == nil && state.PeerTurns[id] == nil`
abbrev pub is_known : Projection → String → Bool
is_known state id = is_some (lookup id state.delegations) || is_some (lookup id state.peer_turns)

-- the loop over the cancellations
unfoldable pub check_cancellations : Projection → List String → Result PlanError (Unit {0})
check_cancellations state [] = ok tt
check_cancellations state (id ∷ rest) =
    reject_if (not (is_known state id)) (unknown_work id) >> check_cancellations state rest

abbrev pub given_reason : AgentAssignment → String → Result PlanError (Option Handoff)
given_reason peer reason =
    if str_eq reason ""
    then err no_handoff_reason
    else ok (some (record { peer = peer; reason = reason }))

unfoldable pub plan_handoff :
    Profile → AgentAssignment → Option ProposedHandoff → Result PlanError (Option Handoff)
plan_handoff p a none = ok none
plan_handoff p a (some h) = elim (peer_agent_for p a (trim_space h.peer_id)) [
  | none ↦ err (no_handoff_peer a.id h.peer_id)
  | some peer ↦ given_reason peer (trim_space h.reason)
]

-- the loops over the specifications and their dependencies
unfoldable pub check_spec_dependencies :
    List String → String → List String → Result PlanError (Unit {0})
check_spec_dependencies cancellations key [] = ok tt
check_spec_dependencies cancellations key (d ∷ rest) =
    reject_if (contains_id cancellations d) (cancelled_dependency key d)
    >> check_spec_dependencies cancellations key rest

unfoldable pub check_dependencies : List String → List DelegationSpec → Result PlanError (Unit {0})
check_dependencies cancellations [] = ok tt
check_dependencies cancellations (spec ∷ rest) =
    check_spec_dependencies cancellations spec.key spec.depends_on
    >> check_dependencies cancellations rest

-- applyDecision, up to the materialized peer turns
unfoldable pub plan_decision :
    Profile → Projection → (ℕ → String) → (ℕ → String) → AgentDecision → Result PlanError Plan
plan_decision p state spec_ids turn_ids decision = do
  leader ← or_absent state.leader_id (agent p state.leader_id)
  reject_if
      (is_some decision.handoff
        && (not (is_nil decision.delegations) || not (is_nil decision.peer_turns)))
      not_exclusive
  check_cancellations state (unique_strings decision.cancel)
  handoff ← plan_handoff p leader decision.handoff
  specs ← materialize_delegations p state leader spec_ids 0 decision.delegations
  check_dependencies (unique_strings decision.cancel) specs
  peer_specs ← materialize_peer_turns p state leader turn_ids 0 decision.peer_turns
  ok (record {
    leader = leader;
    cancellations = unique_strings decision.cancel;
    handoff = handoff;
    specs = specs;
    peer_specs = peer_specs;
  })

-- `decision.Handoff == nil && len(specs) == 0 && len(peerSpecs) == 0 && decision.observedWork == 0`
abbrev pub is_idle : AgentDecision → Plan → Bool
is_idle decision plan =
    not (is_some decision.handoff)
    && is_nil plan.specs
    && is_nil plan.peer_specs
    && decision.observed_work == 0

-- handoffPeerID
abbrev pub handoff_peer_id : Option ProposedHandoff → String
handoff_peer_id none = ""
handoff_peer_id (some h) = trim_space h.peer_id

abbrev pub spec_draft : String → DelegationSpec → Draft
spec_draft actor spec = record {
  actor = actor;
  correlation_id = spec.id;
  body = delegation_created (some spec);
}

abbrev pub peer_spec_draft : String → PeerTurnSpec → Draft
peer_spec_draft actor spec = record {
  actor = actor;
  correlation_id = spec.id;
  body = peer_turn_created (some spec);
}

abbrev pub decision_draft : Projection → AgentDecision → Plan → Draft
decision_draft state decision plan = record {
  actor = plan.leader.id;
  correlation_id = "";
  body = agent_decision (record {
    agent_id = plan.leader.id;
    turn = state.agent_turns;
    assessment = decision.assessment;
    delegations = plan.specs;
    peer_turns = plan.peer_specs;
    cancellations = plan.cancellations;
    handoff_to = handoff_peer_id decision.handoff;
  });
}

abbrev pub turn_draft : Projection → AgentDecision → Plan → Draft
turn_draft state decision plan = record {
  actor = plan.leader.id;
  correlation_id = "";
  body = agent_turn_completed (record {
    agent_id = plan.leader.id;
    turn = state.agent_turns;
    signal_kinds = [];
    assessment = decision.assessment;
  });
}

-- what is appended after the cancellations, in its order
abbrev pub decision_drafts : Projection → AgentDecision → Plan → List Draft
decision_drafts state decision plan =
    decision_draft state decision plan
    ∷ (map (spec_draft plan.leader.id) plan.specs
        ++ (map (peer_spec_draft plan.leader.id) plan.peer_specs
            ++ (turn_draft state decision plan ∷ [])))

abbrev pub handoff_draft : Plan → Handoff → Draft
handoff_draft plan h = record {
  actor = plan.leader.id;
  correlation_id = "";
  body = leadership_transferred (
      some (record { from_agent_id = plan.leader.id; to_agent_id = h.peer.id; reason = h.reason }));
}
