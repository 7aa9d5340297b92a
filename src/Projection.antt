-- ===== src/Projection.antt =====
-- internal/orchestrator/state.go: the state of a turn, rebuilt from its events. Delegation and
-- PeerTurn differ in the type of their specification alone, and are one record over it. The archived
-- counters and the conversation history are not written by Apply, and are left out.
pub mod Views
pub mod Replay
pub mod Invariant
pub mod Keys
pub mod Counts
pub mod Sorted
mod Examples
use Prim.Native.String.{compare}
use text.Mathlib.Text.{◌==◌ as str_eq, is_lt}
use alt_tui.Prelude.{
  ℕ, ◌+◌, String, Option, none, some, Bool, true, false, not, ◌&&◌, ◌||◌, List, [], ◌∷◌, ◌++◌, map,
  ltb, leb, if◌then◌else◌, Result, ok, err, ◌>>=◌,
}
use alt_tui.Prelude.Int.{ℤ, pos, ◌+ℤ◌, int64}
use alt_tui.Prelude.Dict.{Dict, lookup, insert, update}
use alt_tui.Content
use alt_tui.Content.{Input, text_input}
use alt_tui.Event.{
  Event, Body, DelegationSpec, PeerTurnSpec, StartedData, CompletedData, FailedData, CancelledData,
  session_created, user_instruction, model_call_started, model_usage, leadership_transferred,
  agent_turn_started, delegation_created, delegation_started, tool_called, tool_completed,
  delegation_completed, delegation_failed, delegation_cancelled, peer_turn_created,
  peer_turn_started, peer_turn_completed, peer_turn_failed, peer_turn_cancelled, final_completed,
  session_failed, session_cancelled,
}

-- DelegationStatus
pub data Status : Type 0 where
  pending running completed failed cancelled : Status

-- store.ContextReferenceForEvent is a one-to-one text of the event's id; the text "" is `none`
pub record ContextReference : Type 0 where
  pub event_id : String

abbrev pub reference_for : Event → Option ContextReference
reference_for item = some (record { event_id = item.id })

-- Delegation, PeerTurn
pub record Work (S : Type 0) : Type 0 where
  pub spec : S
  pub spec_reference : Option ContextReference
  pub spec_sequence : ℕ
  pub status : Status
  pub attempt : ℕ
  pub interrupted : Bool
  pub result : String
  pub result_reference : Option ContextReference
  pub result_sequence : ℕ
  pub findings : List String
  pub risks : List String
  pub confidence : String
  pub error : String

abbrev pub Delegation : Type 0
Delegation = Work DelegationSpec

abbrev pub PeerTurn : Type 0
PeerTurn = Work PeerTurnSpec

-- ConversationTrace
pub record Trace : Type 0 where
  pub reference : Option ContextReference
  pub sequence : ℕ
  pub actor : String
  pub correlation_id : String
  pub body : Body

pub record Projection : Type 0 where
  pub session_id : String
  pub task : String
  pub task_input : Input
  pub task_reference : Option ContextReference
  pub user_instructions : List String
  pub user_instruction_inputs : List Input
  pub user_instruction_references : List (Option ContextReference)
  pub observable_trace : List Trace
  pub leader_id : String
  pub agent_turns : ℕ
  pub delegations : Dict Delegation
  pub peer_turns : Dict PeerTurn
  pub final_answer : String
  pub terminal : Bool
  pub failed : Bool
  pub cancelled : Bool
  pub model_calls : ℕ
  pub total_tokens : ℤ
  pub last_sequence : ℕ

-- the empty projection that Replay starts from
unfoldable pub start : String → Projection
start session_id = record {
  session_id = session_id;
  task = "";
  task_input = [];
  task_reference = none;
  user_instructions = [];
  user_instruction_inputs = [];
  user_instruction_references = [];
  observable_trace = [];
  leader_id = "";
  agent_turns = 0;
  delegations = [];
  peer_turns = [];
  final_answer = "";
  terminal = false;
  failed = false;
  cancelled = false;
  model_calls = 0;
  total_tokens = pos 0;
  last_sequence = 0;
}

module _ {S : Type 0} where
  -- the work that a Created event adds
  unfoldable pub created : S → Event → Work S
  created spec item = record {
    spec = spec;
    spec_reference = reference_for item;
    spec_sequence = item.sequence;
    status = pending;
    attempt = 0;
    interrupted = false;
    result = "";
    result_reference = none;
    result_sequence = 0;
    findings = [];
    risks = [];
    confidence = "";
    error = "";
  }

  unfoldable pub started : StartedData → Work S → Work S
  started d w = record w { status = running; attempt = d.attempt; interrupted = false; error = "" }

  unfoldable pub finished : CompletedData → Event → Work S → Work S
  finished d item w = record w {
    status = completed;
    attempt = d.attempt;
    result = d.result;
    result_reference = reference_for item;
    result_sequence = item.sequence;
    findings = d.findings;
    risks = d.risks;
    confidence = d.confidence;
    interrupted = false;
    error = "";
  }

  unfoldable pub broken : FailedData → Event → Work S → Work S
  broken d item w = record w {
    status = failed;
    attempt = d.attempt;
    error = d.error;
    interrupted = str_eq item.actor "recovery";
  }

  unfoldable pub stopped : Work S → Work S
  stopped w = record w { status = cancelled; interrupted = false }

pub data ApplyError : Type 0 where
  session_mismatch : String → String → ApplyError
  undecodable : String → ApplyError

-- an input that is empty falls back to its text
abbrev or_text : Input → String → Input
or_text input text =
    if Content.is_empty input && not (str_eq text "") then text_input text else input

-- `event.Decode` and the error branch behind it
abbrev decoded : {A : Type 0} → Event → Option A → (A → Projection) → Result ApplyError Projection
decoded item none f = err (undecodable item.id)
decoded item (some a) f = ok (f a)

-- p.ObservableTrace = append(…)
abbrev traced : Event → Projection → Projection
traced item p = record p {
  observable_trace =
      p.observable_trace
      ++ record {
        reference = reference_for item;
        sequence = item.sequence;
        actor = item.actor;
        correlation_id = item.correlation_id;
        body = item.body;
      }
        ∷ [];
}

-- the switch of Apply; a kind without a case changes nothing
unfoldable pub apply_body : Body → Event → Projection → Result ApplyError Projection
apply_body (session_created data') item p = decoded item data' λ d. record p {
  task = d.task;
  task_input = or_text d.input d.task;
  task_reference = reference_for item;
}
apply_body (user_instruction data') item p = decoded item data' λ d. record p {
  user_instructions = p.user_instructions ++ d.text ∷ [];
  user_instruction_inputs = p.user_instruction_inputs ++ or_text d.input d.text ∷ [];
  user_instruction_references = p.user_instruction_references ++ reference_for item ∷ [];
}
apply_body (leadership_transferred data') item p =
    decoded item data' λ d. record p { leader_id = d.to_agent_id }
apply_body (agent_turn_started data') item p =
    decoded item data'
      λ d. if ltb p.agent_turns d.turn then record p { agent_turns = d.turn } else p
apply_body (tool_called _) item p = ok (traced item p)
apply_body (tool_completed _) item p = ok (traced item p)
apply_body (delegation_created data') item p =
    decoded item data' λ d. record p { delegations = insert d.id (created d item) p.delegations }
apply_body (delegation_started data') item p =
    decoded item data' λ d. record p { delegations = update d.id (started d) p.delegations }
apply_body (delegation_completed data') item p =
    decoded item data' λ d. record p { delegations = update d.id (finished d item) p.delegations }
apply_body (delegation_failed data') item p =
    decoded item data' λ d. record p { delegations = update d.id (broken d item) p.delegations }
apply_body (delegation_cancelled data') item p =
    decoded item data' λ d. record p { delegations = update d.id stopped p.delegations }
apply_body (peer_turn_created data') item p =
    decoded item data' λ d. record p { peer_turns = insert d.id (created d item) p.peer_turns }
apply_body (peer_turn_started data') item p =
    decoded item data' λ d. record p { peer_turns = update d.id (started d) p.peer_turns }
apply_body (peer_turn_completed data') item p =
    decoded item data' λ d. record p { peer_turns = update d.id (finished d item) p.peer_turns }
apply_body (peer_turn_failed data') item p =
    decoded item data' λ d. record p { peer_turns = update d.id (broken d item) p.peer_turns }
apply_body (peer_turn_cancelled data') item p =
    decoded item data' λ d. record p { peer_turns = update d.id stopped p.peer_turns }
apply_body (model_call_started _) item p = ok (record p { model_calls = p.model_calls + 1 })
apply_body (model_usage data') item p =
    decoded item data' λ d. record p { total_tokens = int64 (p.total_tokens +ℤ d.total_tokens) }
apply_body (final_completed data') item p =
    decoded item data' λ answer. record p { final_answer = answer; terminal = true }
apply_body (session_failed _) item p = ok (record p { terminal = true; failed = true })
apply_body (session_cancelled _) item p = ok (record p { terminal = true; cancelled = true })
apply_body _ item p = ok p

-- p.LastSequence = item.Sequence
abbrev sealed : Event → Result ApplyError Projection → Result ApplyError Projection
sealed item (ok p) = ok (record p { last_sequence = item.sequence })
sealed item (err e) = err e

-- Projection.Apply
unfoldable pub apply : Projection → Event → Result ApplyError Projection
apply p item =
    if not (str_eq item.session_id p.session_id)
    then err (session_mismatch item.session_id p.session_id)
    else if leb item.sequence p.last_sequence
    then ok p
    else sealed item (apply_body item.body item p)

-- the loop of Replay
unfoldable pub replay_from : Projection → List Event → Result ApplyError Projection
replay_from p [] = ok p
replay_from p (item ∷ rest) = do next ← apply p item; replay_from next rest

-- Replay
unfoldable pub replay : String → List Event → Result ApplyError Projection
replay session_id events = replay_from (start session_id) events
