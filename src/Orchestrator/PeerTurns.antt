-- ===== src/Orchestrator/PeerTurns.antt =====
-- internal/orchestrator/runtime.go: materializePeerTurns. `uuid` is the generator of ids, here a
-- function of how many ids have been drawn; the failure of the system's entropy source is left out.
pub mod Known
pub mod Planned
mod Examples
use text.Mathlib.Text.{◌==◌ as str_eq}
use alt_tui.Prelude.{
  ℕ, ◌+◌, String, ◌≡◌, refl, Option, none, some, Bool, true, false, not, ◌||◌, List, [], ◌∷◌, ltb,
  if◌then◌else◌, Result, ok, err, ◌>>=◌, ◌>>◌, reject_if,
}
use alt_tui.Prelude.Dict.{Dict, lookup, insert}
use alt_tui.Prelude.Text.{is_blank, trim_space}
use alt_tui.Profile.{Profile, AgentAssignment, peer_agent_for, contains_id}
use alt_tui.Event.{PeerTurnSpec}
use alt_tui.Projection.{Projection, PeerTurn}
use alt_tui.Projection.Views.{is_active, sorted_peer_turns}
use alt_tui.Orchestrator.{
  ProposedPeerTurn, PlanError, key_required, duplicate_key, no_peer, empty_objective,
  foreign_collaboration, busy_collaboration, validate_attachment_selection,
}

pub record Collaboration : Type 0 where
  pub caller_id : String
  pub peer_id : String
  pub round : ℕ
  pub active : Bool

-- a missing entry of the map reads as the zero value
abbrev pub current_or_zero : Option Collaboration → Collaboration
current_or_zero none = record { caller_id = ""; peer_id = ""; round = 0; active = false }
current_or_zero (some c) = c

-- the body of the loop over the sorted peer turns
abbrev pub joined : PeerTurn → Collaboration → Collaboration
joined turn c = record {
  caller_id = if str_eq c.peer_id "" then turn.spec.caller_id else c.caller_id;
  peer_id = if str_eq c.peer_id "" then turn.spec.peer_id else c.peer_id;
  round = if ltb c.round turn.spec.round then turn.spec.round else c.round;
  active = c.active || is_active turn;
}

abbrev pub join_turn : PeerTurn → Dict Collaboration → Dict Collaboration
join_turn turn known =
    insert turn.spec.collaboration_id
      (joined turn (current_or_zero (lookup turn.spec.collaboration_id known))) known

pub known_collaborations : List PeerTurn → Dict Collaboration → Dict Collaboration
known_collaborations [] known = known
known_collaborations (turn ∷ rest) known = known_collaborations rest (join_turn turn known)

-- the id of a proposal's collaboration, a new one where it names none, and the ids drawn then
abbrev pub collaboration_id_for : (ℕ → String) → ℕ → ProposedPeerTurn → String
collaboration_id_for uuid drawn proposal =
    if is_blank proposal.collaboration_id then uuid drawn else trim_space proposal.collaboration_id

abbrev pub drawn_for : ℕ → ProposedPeerTurn → ℕ
drawn_for drawn proposal = if is_blank proposal.collaboration_id then drawn + 1 else drawn

-- a collaboration that exists and belongs to others
abbrev pub is_foreign : String → String → Option Collaboration → Bool
is_foreign caller peer none = false
is_foreign caller peer (some c) = not (str_eq c.peer_id peer) || not (str_eq c.caller_id caller)

-- what PeerAgentFor found
abbrev pub require_peer : String → Option AgentAssignment → Result PlanError AgentAssignment
require_peer peer_id none = err (no_peer peer_id)
require_peer peer_id (some peer) = ok peer

module _ (p : Profile) (state : Projection) (agent : AgentAssignment) where
  -- one proposal, in the collaboration `c`, at the id that its turn gets
  pub plan_peer_turn :
      Dict Collaboration
      → List String
      → List String
      → String
      → String
      → ProposedPeerTurn
      → Result PlanError PeerTurnSpec
  plan_peer_turn known keys used c id proposal = do
    reject_if (is_blank proposal.key) key_required
    reject_if (contains_id keys (trim_space proposal.key)) (duplicate_key (trim_space proposal.key))
    peer ← require_peer proposal.peer_id (peer_agent_for p agent proposal.peer_id)
    reject_if (is_blank proposal.objective) (empty_objective (trim_space proposal.key))
    attachments ← validate_attachment_selection state proposal.attachments
    reject_if (is_foreign agent.id peer.id (lookup c known)) (foreign_collaboration c)
    reject_if ((current_or_zero (lookup c known)).active || contains_id used c)
        (busy_collaboration c)
    ok (record {
      id = id;
      key = trim_space proposal.key;
      collaboration_id = c;
      peer_id = peer.id;
      caller_id = agent.id;
      objective = trim_space proposal.objective;
      context = trim_space proposal.context;
      attachments = attachments;
      required_tools = [];
      round = (current_or_zero (lookup c known)).round + 1;
    })

  -- known[collaborationID] = collaboration{…}
  abbrev pub claimed : PeerTurnSpec → Collaboration
  claimed spec = record {
    caller_id = agent.id;
    peer_id = spec.peer_id;
    round = spec.round;
    active = true;
  }

  -- the loop over the proposals; `drawn` ids have been drawn
  pub plan_peer_turns :
      (ℕ → String)
      → Dict Collaboration
      → List String
      → List String
      → ℕ
      → List ProposedPeerTurn
      → Result PlanError (List PeerTurnSpec)
  plan_peer_turns uuid known keys used drawn [] = ok []
  plan_peer_turns uuid known keys used drawn (proposal ∷ rest) = do
    spec ←
        plan_peer_turn known keys used (collaboration_id_for uuid drawn proposal)
          (uuid (drawn_for drawn proposal)) proposal
    later ←
        plan_peer_turns uuid (insert spec.collaboration_id (claimed spec) known) (spec.key ∷ keys)
          (spec.collaboration_id ∷ used) (drawn_for drawn proposal + 1) rest
    ok (spec ∷ later)

  -- materializePeerTurns
  pub materialize_peer_turns :
      (ℕ → String) → ℕ → List ProposedPeerTurn → Result PlanError (List PeerTurnSpec)
  materialize_peer_turns uuid drawn proposals =
      plan_peer_turns uuid (known_collaborations (sorted_peer_turns state) []) [] [] drawn proposals

  -- no proposal, no peer turn
  pub materialize_peer_turns-nil :
      (uuid : ℕ → String) (drawn : ℕ) → materialize_peer_turns uuid drawn [] ≡ ok []
  unfolding materialize_peer_turns plan_peer_turns
  materialize_peer_turns-nil uuid drawn = refl
