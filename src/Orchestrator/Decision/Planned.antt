-- ===== src/Orchestrator/Decision/Planned.antt =====
-- internal/orchestrator/runtime.go: what holds of a decision that passes the checks of applyDecision.
use alt_tui.Prelude.{
  ℕ, String, ◌≡◌, sym, ap, ◌∙◌, Option, none, some, true, false, not, ◌&&◌, ◌||◌, List, [], ◌∷◌,
  arith, All, ok, >>=-eq-ok, ok-injective, passed, subst, implies,
}
use alt_tui.Profile.{Profile, AgentAssignment, agent}
use alt_tui.Event.{DelegationSpec, PeerTurnSpec}
use alt_tui.Projection.{Projection}
use alt_tui.Orchestrator.{
  ProposedHandoff, ProposedDelegation, ProposedPeerTurn, AgentDecision, unique_strings,
}
use alt_tui.Orchestrator.Delegations.{materialize_delegations, materialize_delegations-nil}
use alt_tui.Orchestrator.PeerTurns.{materialize_peer_turns, materialize_peer_turns-nil}
use alt_tui.Orchestrator.Decision.{
  Plan, Handoff, is_some, is_nil, is_known, or_absent, check_cancellations, plan_handoff,
  check_dependencies, plan_decision,
}

check_cancellations-known :
    (state : Projection) (ids : List String)
    → check_cancellations state ids ≡ ok tt
    → All (λ id. is_known state id ≡ true) ids
unfolding check_cancellations
check_cancellations-known state [] h = tt
check_cancellations-known state (id ∷ ids) h =
    let (known, rest) = passed (not (is_known state id)) _ _ h in
    (ground (arith, known), check_cancellations-known state ids rest)

no_handoff :
    (p : Profile) (a : AgentAssignment) (o : Option ProposedHandoff) (h : Option Handoff)
    → plan_handoff p a o ≡ ok h
    → is_some o ≡ false
    → is_some h ≡ false
unfolding plan_handoff
no_handoff p a none h e n = ap is_some (sym (ok-injective e))
no_handoff p a (some o) h e n = cc

-- What a plan has: known work to cancel, and new work or a new leader, not both.
pub record IsPlanned (state : Projection) (plan : Plan) : Type 0 where
  pub known : All (λ id. is_known state id ≡ true) plan.cancellations
  pub exclusive :
      implies (is_some plan.handoff) (is_nil plan.specs && is_nil plan.peer_specs) ≡ true

module _ (p : Profile) (state : Projection) (leader : AgentAssignment) (uuid : ℕ → String) where
  nil_specs :
      (l : List ProposedDelegation) (specs : List DelegationSpec)
      → materialize_delegations p state leader uuid 0 l ≡ ok specs
      → is_nil l ≡ true
      → is_nil specs ≡ true
  nil_specs [] specs h e =
      ap is_nil (sym (ok-injective (sym (materialize_delegations-nil p state leader uuid 0) ∙ h)))
  nil_specs (x ∷ l) specs h e = cc

  nil_peer_specs :
      (l : List ProposedPeerTurn) (specs : List PeerTurnSpec)
      → materialize_peer_turns p state leader uuid 0 l ≡ ok specs
      → is_nil l ≡ true
      → is_nil specs ≡ true
  nil_peer_specs [] specs h e =
      ap is_nil (sym (ok-injective (sym (materialize_peer_turns-nil p state leader uuid 0) ∙ h)))
  nil_peer_specs (x ∷ l) specs h e = cc

pub plan_decision-IsPlanned :
    (p : Profile) (state : Projection) (spec_ids turn_ids : ℕ → String) (decision : AgentDecision)
    (plan : Plan)
    → plan_decision p state spec_ids turn_ids decision ≡ ok plan
    → IsPlanned state plan
unfolding plan_decision
plan_decision-IsPlanned p state spec_ids turn_ids d plan h =
    let (leader, _, h₁) = >>=-eq-ok (or_absent state.leader_id (agent p state.leader_id)) _ h in
    let (apart, h₂) =
      passed (is_some d.handoff && (not (is_nil d.delegations) || not (is_nil d.peer_turns))) _ _
        h₁ in
    let (_, checked, h₃) = >>=-eq-ok (check_cancellations state (unique_strings d.cancel)) _ h₂ in
    let (handoff, by, h₄) = >>=-eq-ok (plan_handoff p leader d.handoff) _ h₃ in
    let (specs, made, h₅) =
      >>=-eq-ok (materialize_delegations p state leader spec_ids 0 d.delegations) _ h₄ in
    let (_, _, h₆) = >>=-eq-ok (check_dependencies (unique_strings d.cancel) specs) _ h₅ in
    let (peer_specs, asked, h₇) =
      >>=-eq-ok (materialize_peer_turns p state leader turn_ids 0 d.peer_turns) _ h₆ in
    subst (IsPlanned state) (ok-injective h₇) (record {
      known = check_cancellations-known state (unique_strings d.cancel) checked;
      exclusive = ground (
        arith,
        apart,
        no_handoff p leader d.handoff handoff by,
        nil_specs p state leader spec_ids d.delegations specs made,
        nil_peer_specs p state leader turn_ids d.peer_turns peer_specs asked,
      );
    })
