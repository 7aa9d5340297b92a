-- ===== src/ModelSurface.antt =====
-- internal/orchestrator/model_surface.go: the conversation that an agent's model has seen, the epochs of
-- its cache, and what is kept of it. `recode` is what encoding a message as JSON and decoding it again
-- makes of it, `marshal` the text of a list of messages, `digest` the digest of a surface's JSON,
-- `header_digest` that of a request's header, and `fails` says which of the calls of the store fail.
-- Encoding and decoding do not fail, and locks are left out, since each agent's surface is used by one
-- caller at a time.
mod Tools
pub mod Clean
pub mod Epochs
pub mod Saved
mod Examples
use text.Mathlib.Text.{◌==◌ as str_eq}
unfoldable pub use Tools.*
use alt_tui.Prelude.{
  ℕ, zero, suc, ◌+◌, String, Option, none, some, Bool, true, false, not, ◌&&◌, ◌||◌, List, [], ◌∷◌,
  ◌++◌, map, length, ltb, ◌==◌, if◌then◌else◌,
}
use alt_tui.Prelude.Text.{join}
use alt_tui.Prelude.Dict.{Dict, remove}

-- schema.Message: its role and text, the metadata of its response, its extras, and all else
pub record ModelMessage : Type 0 where
  pub is_system : Bool
  pub content : String
  pub response_meta : Option String
  pub extra : Dict String
  pub others : String

abbrev pub Messages : Type 0
Messages = List (Option ModelMessage)

pub record Surface : Type 0 where
  pub version : ℕ
  pub conversation_id : String
  pub agent_id : String
  pub epoch : ℕ
  pub header_digest : String
  pub messages : Messages
  pub last_session_id : String
  pub last_snapshot_digest : String
  pub commit_digest : String

-- event.ModelCacheEpochStartedData
pub record EpochStarted : Type 0 where
  pub agent_id : String
  pub epoch : ℕ
  pub reason : String
  pub header_digest : String
  pub tool_names : List String
  pub deferred_tool_names : List String

-- the store: the epochs that were recorded, the surface under the key of the agent, and the calls made
pub record Ledger : Type 0 where
  pub started : List EpochStarted
  pub saved : Option Surface
  pub calls : ℕ

pub data SurfaceError : Type 0 where
  user_message_required snapshot_message_required identity_mismatch store_failed : SurfaceError

-- adk.ChatModelAgentState
pub record AgentState : Type 0 where
  pub messages : Messages
  pub tools : List (Option ToolInfo)
  pub deferred_tools : List (Option ToolInfo)

-- sanitizeModelMessages, for one message
abbrev pub sanitize : ModelMessage → ModelMessage
sanitize m = record m { response_meta = none; extra = remove "alt.cache_usage" m.extra }

-- the first messages of a list
abbrev pub take : ℕ → Messages → Messages
take zero l = []
take (suc n) [] = []
take (suc n) (m ∷ l) = m ∷ take n l

abbrev pub on_message : (ModelMessage → ModelMessage) → Option ModelMessage → Option ModelMessage
on_message f none = none
on_message f (some m) = some (f m)

abbrev pub without_system : Messages → Messages
without_system [] = []
without_system (none ∷ l) = none ∷ l
without_system (some m ∷ l) = if m.is_system then l else some m ∷ l

abbrev pub system_text : Messages → String
system_text [] = ""
system_text (none ∷ l) = ""
system_text (some m ∷ l) = if m.is_system then m.content else ""

abbrev epoch_changes : Surface → String → Bool → List String
epoch_changes s header stable =
    (if not (str_eq s.header_digest "") && not (str_eq s.header_digest header)
      then "request header changed" ∷ []
      else [])
    ++ (if ltb 0 (length s.messages) && not stable then "message prefix replaced" ∷ [] else [])

-- why a new epoch starts; empty when none does
unfoldable pub epoch_reason : Surface → String → Bool → String
epoch_reason s header stable =
    if s.epoch == 0
    then "initial canonical request header"
    else join "; " (epoch_changes s header stable)

abbrev pub next_epoch : Surface → String → ℕ
next_epoch s reason = if s.epoch == 0 then 1 else if str_eq reason "" then s.epoch else s.epoch + 1

abbrev called : Ledger → Ledger
called l = record l { calls = suc l.calls }

-- what an operation leaves: the surface, the store, and an error or none
abbrev pub Left : Type 0
Left = Surface × Ledger × Option SurfaceError

module _ (recode : ModelMessage → ModelMessage) (marshal : Messages → String) where
  abbrev pub clean : ModelMessage → ModelMessage
  clean m = sanitize (recode m)

  -- cloneModelMessages
  abbrev pub clone_messages : Messages → Messages
  clone_messages l = map (on_message clean) l

  abbrev with_message :
      Option ModelMessage → SurfaceError → Messages → Option SurfaceError × Messages
  with_message none e l = (some e, [])
  with_message (some m) e l = (none, l ++ (some (clean m) ∷ []))

  abbrev with_snapshot :
      Bool → Option ModelMessage → Option SurfaceError × Messages → Option SurfaceError × Messages
  with_snapshot changed snapshot (some e, l) = (some e, [])
  with_snapshot false snapshot (none, l) = (none, l)
  with_snapshot true snapshot (none, l) = with_message snapshot snapshot_message_required l

  -- prepareModelSurfaceMessagesWithSnapshot
  unfoldable pub prepare_messages :
      Surface
      → String
      → Option ModelMessage
      → Option ModelMessage
      → String
      → Option SurfaceError × Messages
  prepare_messages s session_id user snapshot snapshot_digest =
      let seen = without_system (clone_messages s.messages) in
      with_snapshot (not (str_eq snapshot_digest s.last_snapshot_digest)) snapshot (
        if not (str_eq s.last_session_id session_id)
        then with_message user user_message_required seen
        else (none, seen))

  -- modelMessagesHavePrefix
  unfoldable pub have_prefix : Messages → Messages → Bool
  have_prefix messages prefix =
      let n = length prefix in
      if n == 0
      then true
      else if ltb (length messages) n
      then false
      else str_eq (marshal (map (on_message sanitize) (clone_messages (take n messages))))
          (marshal (map (on_message sanitize) (clone_messages prefix)))

  module _
      (header_digest : String → String → List (Option ToolInfo) → List (Option ToolInfo) → String)
      (fails : ℕ → Bool) where
    -- digestModelHeader
    abbrev pub digest_model_header :
        String → Messages → List (Option ToolInfo) → List (Option ToolInfo) → String
    digest_model_header model messages tools deferred =
        header_digest model (system_text messages) (canonical_tools tools)
          (canonical_tools deferred)

    abbrev epoch_started : Surface → AgentState → String → String → EpochStarted
    epoch_started s state reason header = record {
      agent_id = s.agent_id;
      epoch = s.epoch;
      reason = reason;
      header_digest = header;
      tool_names = tool_names state.tools;
      deferred_tool_names = tool_names state.deferred_tools;
    }

    abbrev pub start_epoch : Surface → AgentState → Ledger → String → String → Left
    start_epoch s state l reason header =
        if str_eq reason ""
        then (record s { header_digest = header }, l, none)
        else if fails l.calls
        then (s, called l, some store_failed)
        else (
          record s { header_digest = header },
          record (called l) { started = l.started ++ (epoch_started s state reason header ∷ []) },
          none,
        )

    -- modelSurfaceHandler.BeforeModelRewriteState
    unfoldable pub before_model : String → Option AgentState → Surface → Ledger → Left
    before_model model none s l = (s, l, none)
    before_model model (some state) s l =
        let tools = canonical_tools state.tools in
        let header = digest_model_header model state.messages tools state.deferred_tools in
        let reason = epoch_reason s header (have_prefix state.messages s.messages) in
        start_epoch (record s { epoch = next_epoch s reason }) (record state { tools = tools }) l
          reason header

  module _ (digest : Surface → String) (fails : ℕ → Bool) where
    -- modelSurfaceCommitDigest
    abbrev pub commit_digest_of : Surface → String
    commit_digest_of s = digest (record s { commit_digest = "" })

    abbrev pub save_surface : Surface → Ledger → Left
    save_surface s l =
        if fails l.calls
        then (s, called l, some store_failed)
        else (s, record (called l) { saved = some s }, none)

    -- the surface after a state of the agent
    abbrev pub seen_in : String → String → AgentState → Surface → Surface
    seen_in session_id snapshot_digest state s = record s {
      messages = clone_messages state.messages;
      last_session_id = session_id;
      last_snapshot_digest = snapshot_digest;
    }

    -- modelSurfaceHandler.commit
    unfoldable pub commit_surface : String → String → Option AgentState → Surface → Ledger → Left
    commit_surface session_id snapshot_digest none s l = (s, l, none)
    commit_surface session_id snapshot_digest (some state) s l =
        let committed = seen_in session_id snapshot_digest state s in
        let d = commit_digest_of committed in
        if str_eq d s.commit_digest
        then (committed, l, none)
        else save_surface (record committed { commit_digest = d }) l

  -- what is decoded under the key of an agent
  abbrev loaded : String → String → Option Surface → Option SurfaceError × Surface
  loaded conversation_id agent_id none = (
    none,
    record {
      version = 1;
      conversation_id = conversation_id;
      agent_id = agent_id;
      epoch = 0;
      header_digest = "";
      messages = [];
      last_session_id = "";
      last_snapshot_digest = "";
      commit_digest = "";
    },
  )
  loaded conversation_id agent_id (some s) =
      let found = record s { messages = map (on_message recode) s.messages } in
      (
        if not (s.version == 1)
              || not (str_eq s.conversation_id conversation_id)
              || not (str_eq s.agent_id agent_id)
            then some identity_mismatch
            else none,
        found,
      )

  -- loadModelSurface
  unfoldable pub load_surface : String → String → Ledger → Option SurfaceError × Surface
  load_surface conversation_id agent_id l = loaded conversation_id agent_id l.saved
