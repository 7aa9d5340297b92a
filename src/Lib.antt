-- ===== src/Lib.antt =====
-- ALT: a durable team of agents in a terminal.
--
-- A Team (internal/profile) names the agents that may lead a turn, the peers that they may consult
-- and the specialists that they may call. A user's input (internal/content) opens a session in the
-- store (internal/store), which keeps a row for each session and an append-only list of events
-- (internal/event). The orchestrator (internal/orchestrator) never keeps the state of a turn: it
-- replays the events to a projection, asks the leader for a decision, turns the decision into
-- delegations and peer turns, and appends events again. The tools of an agent (internal/tooling)
-- plan how much of the model's context a call may use, from the limits that the providers give
-- (internal/provider), and the terminal (internal/tui) walks through earlier prompts.
--
-- Files and what they model:
--   Prelude.antt and below: lists, results, texts, maps with string keys, integers. A Go map is an
--     association list, and a loop over one goes through the list, in any order; an `int64` that can
--     wrap around has its wrap-around written out (Prelude/Int.antt).
--   Profile.antt: internal/profile/profile.go, one function for each method of Profile. Below it,
--     Profile/Validate.antt, Validate/Members.antt and Validate/Edges.antt are
--     internal/profile/validate.go: check_agents, check_specialists and check_all_edges are the
--     loops of Validate, and each returns the diagnostics that the loop appends.
--   Content.antt: internal/content/content.go, Payload.Validate and the views of an Input.
--   Event.antt: internal/event/event.go; a Kind with its data is one constructor of Body.
--   Projection.antt: internal/orchestrator/state.go: apply and replay are Apply and Replay, with one
--     clause of apply_body for each case of the switch.
--   Orchestrator.antt, Orchestrator/Delegations.antt, Orchestrator/PeerTurns.antt:
--     internal/orchestrator/decision.go, and materializeDelegations, materializePeerTurns,
--     validateAttachmentSelection and uniqueStrings of internal/orchestrator/runtime.go.
--   Orchestrator/Schedule.antt: scheduleReady of internal/orchestrator/runtime.go; the set of launched
--     attempts is passed from call to call, and a call returns what it has launched.
--   Orchestrator/Decision.antt: the checks of applyDecision and the events that it appends.
--   Runtime.antt and below: sessionRuntime of internal/orchestrator/runtime.go over the store, as
--     functions that pass the runtime on. Runtime/Work.antt is projection's clients cancelWork,
--     cancelDelegation, cancelActiveDelegations, markInterruptedDelegations, completeAnswer and fail;
--     Runtime/Decision.antt is the rest of applyDecision; Runtime/Execution.antt is executeDelegation
--     and, of internal/orchestrator/peer.go, executePeerTurn, before and after the run of the worker.
--   Store.antt: Append, Events and LastSequence of internal/store/event.go with
--     applySessionProjection, over the tables as lists. A transaction that fails changes nothing, so
--     an operation returns the new tables or an error.
--   Limits.antt: internal/provider/model_limits.go.
--   Budget.antt and below: internal/tooling/context_budget.go; Budget/Step.antt says of the messages what
--     the reserves are for.
--   ModelSurface.antt and below: internal/orchestrator/model_surface.go. The surface is passed on with the
--     store, which keeps one surface, that of the agent's key; `run` is a sequence of calls of the handler.
--   Patch.antt: commit and rollback of internal/tooling/patch.go, over a map from paths to nodes; which
--     calls of the system fail is a parameter.
--   History.antt: internal/tui/history.go.
--   Fixtures.antt, and the files named Examples: a small Team, one of its turns, and the theorems at
--     concrete inputs.
--
-- Bounds and fuel: every loop is structural recursion on a list, except for the decimal digits of a
-- number (Prelude/Text.antt), whose fuel is the number and one, more than it has digits. Counts of
-- tokens, bytes, rounds, depths and sequence numbers are natural numbers, and do not wrap around.
--
-- Parameters: the case table of strings.ToLower (`to_lower`), the generator of ids (`uuid`, a
-- function of how many have been drawn), the clock (`now`), the reading of a worker's result as JSON
-- (`decode`), the JSON of messages and surfaces (`recode`, `marshal`, `digest`, `header_digest`),
-- which calls of the store or the system fail (`fails`, `faults`), the names of backups
-- (`backup_path`), the text of an error (`describe`), the size that json.Marshal gives a message
-- (`marshal`), and the text and size of the tools (`tool_header`). A
-- theorem holds for every choice of them that meets the conditions which it states: that `uuid` or
-- `backup_path` draws no name twice, or what encoding and digests do to a message or a surface.
--
-- Not modelled: the engine and the loop of the agents (internal/orchestrator/engine.go and the rest
-- of runtime.go), prompts and model calls, the search archive and the checkpoints of the store, the
-- tools that reach files, processes and the network (but for the commit of a patch), the provider
-- clients, the terminal's drawing, the command line and the native window: they are calls of other
-- systems, or rest on the agent loop of a library. Errors of the database, of the entropy source and
-- of image decoders are left out of what is modelled.
pub mod Prelude
mod Fixtures
pub mod Profile
pub mod Content
pub mod Event
pub mod Projection
pub mod Orchestrator
pub mod Limits
pub mod Budget
pub mod History
pub mod Patch
pub mod ModelSurface
pub mod Runtime
pub mod Store
