-- ===== src/Event.antt =====
-- internal/event/event.go: the durable events. An event's kind and its data are one constructor of
-- `Body`. Data that the program decodes again is an `Option`: `none` is a stored text that is not
-- the JSON of that type, the error case of Decode. The time and the causation of an event are kept
-- by no model here, and `confidence` is the text of a JSON number that is never computed with.
use alt_tui.Prelude.{ℕ, String, Option, Bool, List}
use alt_tui.Prelude.Int.{ℤ}
use alt_tui.Content.{Input}

pub record SessionCreatedData : Type 0 where
  pub task : String
  pub input : Input

pub record UserInstructionData : Type 0 where
  pub text : String
  pub input : Input

pub record ProfilePinnedData : Type 0 where
  pub profile_id : String
  pub revision : ℤ
  pub digest : String

pub record LeadershipTransferredData : Type 0 where
  pub from_agent_id : String
  pub to_agent_id : String
  pub reason : String

pub record AgentTurnData : Type 0 where
  pub agent_id : String
  pub turn : ℕ
  pub signal_kinds : List String
  pub assessment : String

pub record DelegationSpec : Type 0 where
  pub id : String
  pub key : String
  pub specialist_id : String
  pub caller_id : String
  pub objective : String
  pub context : String
  pub attachments : List String
  pub depends_on : List String
  pub required_tools : List String
  pub depth : ℕ

pub record PeerTurnSpec : Type 0 where
  pub id : String
  pub key : String
  pub collaboration_id : String
  pub peer_id : String
  pub caller_id : String
  pub objective : String
  pub context : String
  pub attachments : List String
  pub required_tools : List String
  pub round : ℕ

pub record AgentDecisionData : Type 0 where
  pub agent_id : String
  pub turn : ℕ
  pub assessment : String
  pub delegations : List DelegationSpec
  pub peer_turns : List PeerTurnSpec
  pub cancellations : List String
  pub handoff_to : String

-- DelegationStartedData and PeerTurnStartedData
pub record StartedData : Type 0 where
  pub id : String
  pub attempt : ℕ

-- DelegationCompletedData and PeerTurnCompletedData
pub record CompletedData : Type 0 where
  pub id : String
  pub attempt : ℕ
  pub result : String
  pub findings : List String
  pub risks : List String
  pub confidence : String

-- DelegationFailedData and PeerTurnFailedData
pub record FailedData : Type 0 where
  pub id : String
  pub attempt : ℕ
  pub error : String

-- DelegationCancelledData and PeerTurnCancelledData
pub record CancelledData : Type 0 where
  pub id : String
  pub reason : String

pub record ToolCallData : Type 0 where
  pub delegation_id : String
  pub tool_call_id : String
  pub tool : String
  pub provider : String
  pub arguments : String

pub record ToolCompletedData : Type 0 where
  pub delegation_id : String
  pub tool_call_id : String
  pub tool : String
  pub failed : Bool
  pub error : String
  pub result : String

pub record ModelUsageData : Type 0 where
  pub model : String
  pub purpose : String
  pub prompt_tokens : ℤ
  pub uncached_prompt_tokens : ℤ
  pub cached_prompt_tokens : ℤ
  pub cache_write_tokens : ℤ
  pub cache_miss_tokens : ℤ
  pub cache_usage_reported : Bool
  pub completion_tokens : ℤ
  pub reasoning_tokens : ℤ
  pub total_tokens : ℤ

-- A kind with its data.
pub data Body : Type 0 where
  session_created : Option SessionCreatedData → Body
  user_instruction : Option UserInstructionData → Body
  profile_pinned : ProfilePinnedData → Body
  session_recovered : Body
  model_call_started : String → Body
  model_usage : Option ModelUsageData → Body
  model_cache_epoch_started : String → Body
  context_view_committed : String → Body
  context_agent_compacted : String → Body
  leadership_transferred : Option LeadershipTransferredData → Body
  agent_turn_started : Option AgentTurnData → Body
  agent_turn_completed : AgentTurnData → Body
  agent_decision : AgentDecisionData → Body
  delegation_created : Option DelegationSpec → Body
  delegation_started : Option StartedData → Body
  tool_called : ToolCallData → Body
  tool_completed : ToolCompletedData → Body
  delegation_text_delta : String → Body
  delegation_reasoning : String → Body
  delegation_completed : Option CompletedData → Body
  delegation_failed : Option FailedData → Body
  delegation_cancelled : Option CancelledData → Body
  peer_turn_created : Option PeerTurnSpec → Body
  peer_turn_started : Option StartedData → Body
  peer_text_delta : String → Body
  peer_reasoning : String → Body
  peer_turn_completed : Option CompletedData → Body
  peer_turn_failed : Option FailedData → Body
  peer_turn_cancelled : Option CancelledData → Body
  final_started : Body
  final_text_delta : String → Body
  final_reasoning : String → Body
  final_completed : Option String → Body
  session_failed : String → Body
  session_cancelled : String → Body

-- Draft
pub record Draft : Type 0 where
  pub actor : String
  pub correlation_id : String
  pub body : Body

-- Event
pub record Event : Type 0 where
  pub id : String
  pub session_id : String
  pub sequence : ℕ
  pub at : ℕ
  pub actor : String
  pub correlation_id : String
  pub body : Body

-- Draft.Materialize, at the id that uuid.NewV7 returned
abbrev pub materialize : Draft → String → String → ℕ → ℕ → Event
materialize d id session_id sequence at = record {
  id = id;
  session_id = session_id;
  sequence = sequence;
  at = at;
  actor = d.actor;
  correlation_id = d.correlation_id;
  body = d.body;
}
