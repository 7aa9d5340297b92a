-- ===== src/Orchestrator/PeerTurns/Planned/Steps.antt =====
-- internal/orchestrator/runtime.go: what one planned peer turn adds.
use text.Mathlib.Text.{◌==◌ as str_eq}
use alt_tui.Prelude.{
  ℕ, ◌+◌, String, ◌≡◌, refl, sym, inl, inr, false, ◌||◌, List, [], ◌∷◌, arith, Option-cases, ok,
  >>=-eq-ok, ok-injective, subst, passed,
}
use alt_tui.Prelude.Dict.{Dict, lookup, insert}
use alt_tui.Prelude.Text.{is_blank, trim_space}
use alt_tui.Profile.{Profile, AgentAssignment, peer_agent_for, contains_id}
use alt_tui.Profile.Peers.{peer_agent_for-id}
use alt_tui.Profile.Validate.Members.{is_missing}
use alt_tui.Event.{PeerTurnSpec}
use alt_tui.Projection.{Projection}
use alt_tui.Orchestrator.{
  ProposedPeerTurn, validate_attachment_selection, check_selection,
  projection_attachment_references,
}
use alt_tui.Orchestrator.PeerTurns.{
  Collaboration, current_or_zero, collaboration_id_for, drawn_for, is_foreign, require_peer,
  plan_peer_turn, claimed, plan_peer_turns,
}

-- What the agent may ask for: a peer that it may consult, an objective, and attachments that the
-- turn has.
pub record Consultable (p : Profile) (state : Projection) (agent : AgentAssignment)
    (spec : PeerTurnSpec) : Type 0 where
  pub caller : spec.caller_id ≡ agent.id
  pub related : is_missing (peer_agent_for p agent spec.peer_id) ≡ false
  pub purposeful : str_eq spec.objective "" ≡ false
  pub available : check_selection (projection_attachment_references state) spec.attachments ≡ ok tt

-- what one planned turn adds to what is known
pub record Planned (known : Dict Collaboration) (keys used : List String) (id c : String)
    (spec : PeerTurnSpec) : Type 0 where
  pub at_id : spec.id ≡ id
  pub at_collaboration : spec.collaboration_id ≡ c
  pub new_key : contains_id keys spec.key ≡ false
  pub unused : contains_id used spec.collaboration_id ≡ false
  pub idle : (current_or_zero (lookup spec.collaboration_id known)).active ≡ false
  pub next_round : spec.round ≡ (current_or_zero (lookup spec.collaboration_id known)).round + 1

require_peer-found :
    (p : Profile) (a : AgentAssignment) (id : String) (x : AgentAssignment)
    → require_peer id (peer_agent_for p a id) ≡ ok x
    → is_missing (peer_agent_for p a x.id) ≡ false
require_peer-found p a id x h = elim (Option-cases (peer_agent_for p a id)) [
  | inl e ↦ absurd (ground (arith, e))
  | inr (y, e) ↦
      let same : y ≡ x = ground (arith, e) in
      let at = peer_agent_for-id p a id y e in
      subst (λ z. is_missing (peer_agent_for p a z.id) ≡ false) same
        (subst (λ j. is_missing (peer_agent_for p a j) ≡ false) (sym at) (rw e refl))
]

module _ (p : Profile) (state : Projection) (agent : AgentAssignment) where
  selection-available :
      (requested selected : List String)
      → validate_attachment_selection state requested ≡ ok selected
      → check_selection (projection_attachment_references state) selected ≡ ok tt
  unfolding validate_attachment_selection
  selection-available requested selected h = ground arith

  plan_peer_turn_lem :
      (known : Dict Collaboration) (keys used : List String) (c id : String)
      (proposal : ProposedPeerTurn) (spec : PeerTurnSpec)
      → plan_peer_turn p state agent known keys used c id proposal ≡ ok spec
      → Consultable p state agent spec × Planned known keys used id c spec
  unfolding plan_peer_turn
  plan_peer_turn_lem known keys used c id proposal spec h =
      let (_, h₁) = passed (is_blank proposal.key) _ _ h in
      let (new, h₂) = passed (contains_id keys (trim_space proposal.key)) _ _ h₁ in
      let (peer, found, h₃) =
        >>=-eq-ok (require_peer proposal.peer_id (peer_agent_for p agent proposal.peer_id)) _ h₂ in
      let (purposeful, h₄) = passed (is_blank proposal.objective) _ _ h₃ in
      let (attachments, selected, h₅) =
        >>=-eq-ok (validate_attachment_selection state proposal.attachments) _ h₄ in
      let (_, h₆) = passed (is_foreign agent.id peer.id (lookup c known)) _ _ h₅ in
      let (free, h₇) =
        passed ((current_or_zero (lookup c known)).active || contains_id used c) _ _ h₆ in
      subst (λ s. Consultable p state agent s × Planned known keys used id c s) (ok-injective h₇)
        (
          record {
            caller = refl;
            related = require_peer-found p agent proposal.peer_id peer found;
            purposeful = purposeful;
            available = selection-available proposal.attachments attachments selected;
          },
          record {
            at_id = refl;
            at_collaboration = refl;
            new_key = new;
            unused = ground (arith, free);
            idle = ground (arith, free);
            next_round = refl;
          },
        )

  pub plan_nil :
      (uuid : ℕ → String) (known : Dict Collaboration) (keys used : List String) (drawn : ℕ)
      (specs : List PeerTurnSpec)
      → plan_peer_turns p state agent uuid known keys used drawn [] ≡ ok specs
      → [] ≡ specs
  unfolding plan_peer_turns
  plan_nil uuid known keys used drawn specs h = ok-injective h

  pub plan_step :
      (uuid : ℕ → String) (known : Dict Collaboration) (keys used : List String) (drawn : ℕ)
      (proposal : ProposedPeerTurn) (rest : List ProposedPeerTurn) (specs : List PeerTurnSpec)
      → plan_peer_turns p state agent uuid known keys used drawn (proposal ∷ rest) ≡ ok specs
      → (spec : PeerTurnSpec) × (later : List PeerTurnSpec) × Consultable p state agent spec
        × Planned known keys used
            (uuid (drawn_for drawn proposal))
            (collaboration_id_for uuid drawn proposal)
            spec
        × (plan_peer_turns p state agent uuid
              (insert spec.collaboration_id (claimed p state agent spec) known)
              (spec.key ∷ keys)
              (spec.collaboration_id ∷ used)
              (drawn_for drawn proposal + 1)
              rest
            ≡ ok later)
        × (spec ∷ later ≡ specs)
  unfolding plan_peer_turns
  plan_step uuid known keys used drawn proposal rest specs h =
      let c = collaboration_id_for uuid drawn proposal in
      let id = uuid (drawn_for drawn proposal) in
      let (spec, first, h₁) =
        >>=-eq-ok (plan_peer_turn p state agent known keys used c id proposal) _ h in
      let (later, others, h₂) =
        >>=-eq-ok
          (plan_peer_turns p state agent uuid
            (insert spec.collaboration_id (claimed p state agent spec) known) (spec.key ∷ keys)
            (spec.collaboration_id ∷ used) (drawn_for drawn proposal + 1) rest)
          _ h₁ in
      let (may, planned) = plan_peer_turn_lem known keys used c id proposal spec first in
      (spec, later, may, planned, others, ok-injective h₂)
