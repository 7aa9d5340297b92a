-- ===== src/Fixtures.antt =====
-- A small Team and the events of one of its turns, for the examples.
pub mod Turn
use alt_tui.Prelude.{ℕ, String, Option, none, some, false, [], ◌∷◌, List, Result, ok, err}
use alt_tui.Prelude.Text.{concat, itoa}
use alt_tui.Prelude.Int.{pos}
use alt_tui.Profile.{ModelRef, AgentAssignment, SpecialistAssignment, Profile}
use alt_tui.Event.{
  Event, Body, DelegationSpec, PeerTurnSpec, session_created, leadership_transferred,
  delegation_created, delegation_started, peer_turn_created, peer_turn_completed,
}

abbrev pub model_named : String → ModelRef
model_named name = record {
  legacy_gateway = "";
  route = "route";
  name = name;
  reasoning_effort = "";
  options = [];
}

abbrev pub lead : AgentAssignment
lead = record {
  id = "lead";
  model = "large";
  definition = "leads the team";
  peers = "reviewer" ∷ [];
  specialists = "coder" ∷ [];
}

abbrev pub reviewer : AgentAssignment
reviewer = record {
  id = "reviewer";
  model = "medium";
  definition = "reviews the work";
  peers = [];
  specialists = "coder" ∷ [];
}

abbrev pub coder : SpecialistAssignment
coder = record { id = "coder"; model = "small"; definition = "writes the code" }

abbrev pub team : Profile
team = record {
  schema = pos 2;
  id = "core-team";
  revision = pos 1;
  name = "Core team";
  gateway = "gateway";
  models =
      ("large", model_named "a") ∷ ("medium", model_named "b") ∷ ("small", model_named "c") ∷ [];
  primary = lead;
  peers = reviewer ∷ [];
  specialists = coder ∷ [];
  policy = record { persist_reasoning = false };
  metadata = [];
}

abbrev pub event_at : String → Body → Event
event_at id body = record {
  id = id;
  session_id = "s";
  sequence = 0;
  at = 0;
  actor = "lead";
  correlation_id = "";
  body = body;
}

abbrev pub work : DelegationSpec
work = record {
  id = "d1";
  key = "code";
  specialist_id = "coder";
  caller_id = "lead";
  objective = "write it";
  context = "";
  attachments = [];
  depends_on = [];
  required_tools = [];
  depth = 1;
}

abbrev pub question : PeerTurnSpec
question = record {
  id = "p1";
  key = "ask";
  collaboration_id = "c1";
  peer_id = "reviewer";
  caller_id = "lead";
  objective = "look at it";
  context = "";
  attachments = [];
  required_tools = [];
  round = 1;
}

abbrev pub delegated : Event
delegated = record (event_at "e3" (delegation_created (some work))) { sequence = 3 }

-- a turn in which a specialist works and a peer has answered
abbrev pub turn_events : List Event
turn_events =
    record (event_at "e1" (session_created (some (record { task = "do it"; input = [] })))) {
      sequence = 1;
    }
    ∷ record (event_at "e2" (
        leadership_transferred
          (some (record { from_agent_id = ""; to_agent_id = "lead"; reason = "entry" })))) {
            sequence = 2;
          }
    ∷ delegated
    ∷ record (event_at "e4" (delegation_started (some (record { id = "d1"; attempt = 1 })))) {
      sequence = 4;
    }
    ∷ record (event_at "e5" (peer_turn_created (some question))) { sequence = 5 }
    ∷ record (event_at "e6" (
        peer_turn_completed (
          some (record {
            id = "p1";
            attempt = 1;
            result = "good";
            findings = [];
            risks = [];
            confidence = "0.9";
          })))) { sequence = 6 }
    ∷ []

-- ids, as a generator would draw them
abbrev pub uuid : ℕ → String
uuid n = concat ("id" ∷ itoa n ∷ [])

abbrev pub or_nothing : {E A : Type 0} → Result E (List A) → List A
or_nothing (ok l) = l
or_nothing (err _) = []
