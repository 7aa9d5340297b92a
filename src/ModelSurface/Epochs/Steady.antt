-- ===== src/ModelSurface/Epochs/Steady.antt =====
-- internal/orchestrator/model_surface.go: a conversation that goes on stays in its epoch.
use text.Mathlib.Text.{◌==◌ as str_eq}
use alt_tui.Prelude.{
  ℕ, subst, length, ltb, String, ◌≡◌, refl, sym, ap, ◌∙◌, inl, inr, Option, none, some, Bool, true,
  false, List, ◌∷◌, ◌++◌, arith, Bool-cases, eq_iff, ◌==◌,
}
use alt_tui.Prelude.Text.{join}
use alt_tui.ModelSurface.{
  ModelMessage, Messages, ToolInfo, Surface, Ledger, AgentState, Left, clean, clone_messages,
  canonical_tools, epoch_reason, next_epoch, start_epoch, before_model, digest_model_header,
  have_prefix, commit_surface, commit_digest_of, prepare_messages, without_system,
}
use alt_tui.ModelSurface.Clean.{IsSettled, prepared-begins, have_prefix-clone, clone_twice}

-- what an agent holds: its instruction as the system message, other messages and its tools
abbrev pub under :
    ModelMessage → List (Option ToolInfo) → List (Option ToolInfo) → Messages → AgentState
under instruction tools deferred others = record {
  messages = some instruction ∷ others;
  tools = tools;
  deferred_tools = deferred;
}

module _ (recode : ModelMessage → ModelMessage) (marshal : Messages → String)
    (header_digest : String → String → List (Option ToolInfo) → List (Option ToolInfo) → String)
    (digest : Surface → String) (fails : ℕ → Bool) where
  -- what a call of the model leaves of the surface when it does not fail
  start_epoch-header :
      (s : Surface) (state : AgentState) (l : Ledger) (reason header : String)
      → (s.epoch == 0) ≡ false
      → let o = start_epoch recode marshal header_digest fails s state l reason header in
        o.2 ≡ none → (o.0.header_digest ≡ header) × ((o.0.epoch == 0) ≡ false)
  start_epoch-header s state l reason header started = elim (Bool-cases (str_eq reason "")) [
    | inl e ↦ rw e (λ h. (refl, started))
    | inr e ↦ elim (Bool-cases (fails l.calls)) [
      | inl i ↦ rw (e, i) (λ h. absurd (cc h))
      | inr i ↦ rw (e, i) (λ h. (refl, started))
    ]
  ]

  next_epoch-started : (s : Surface) (reason : String) → (next_epoch s reason == 0) ≡ false
  next_epoch-started s reason = ground arith

  before_model-header :
      (model : String) (state : AgentState) (s : Surface) (l : Ledger)
      → let o = before_model recode marshal header_digest fails model (some state) s l in
        o.2 ≡ none
        → (o.0.header_digest
            ≡ digest_model_header recode marshal header_digest fails model state.messages
                (canonical_tools state.tools)
                state.deferred_tools)
          × ((o.0.epoch == 0) ≡ false)
  unfolding before_model
  before_model-header model state s l =
      let tools = canonical_tools state.tools in
      let header =
        digest_model_header recode marshal header_digest fails model state.messages tools
          state.deferred_tools in
      let reason = epoch_reason s header (have_prefix recode marshal state.messages s.messages) in
      start_epoch-header (record s { epoch = next_epoch s reason }) (record state { tools = tools })
        l reason header (next_epoch-started s reason)

  pub commit_surface-keeps :
      (session_id snapshot_digest : String) (state : AgentState) (s : Surface) (l : Ledger)
      → let o =
          commit_surface recode marshal digest fails session_id snapshot_digest (some state) s l in
        (o.0.messages ≡ clone_messages recode marshal state.messages)
        × (o.0.header_digest ≡ s.header_digest)
        × (o.0.epoch ≡ s.epoch)
  unfolding commit_surface
  commit_surface-keeps session_id snapshot_digest state s l =
      let committed : Surface = record s {
        messages = clone_messages recode marshal state.messages;
        last_session_id = session_id;
        last_snapshot_digest = snapshot_digest;
      } in
      elim (Bool-cases
        (str_eq (commit_digest_of recode marshal digest fails committed) s.commit_digest)) [
          | inl e ↦ rw e (refl, refl, refl)
          | inr e ↦ elim (Bool-cases (fails l.calls)) [
            | inl i ↦ rw (e, i) (refl, refl, refl)
            | inr i ↦ rw (e, i) (refl, refl, refl)
          ]
        ]

  no_reason :
      (s : Surface) (header : String)
      → (s.epoch == 0) ≡ false
      → s.header_digest ≡ header
      → epoch_reason s header true ≡ ""
  unfolding epoch_reason join
  no_reason s header started same =
      let again : str_eq s.header_digest header ≡ true = (eq_iff s.header_digest header).1 same in
      elim (Bool-cases (str_eq s.header_digest "")) [
        | inl e ↦ elim (Bool-cases (ltb 0 (length s.messages))) [
          | inl i ↦ rw (started, e, i) refl
          | inr i ↦ rw (started, e, i) refl
        ]
        | inr e ↦ elim (Bool-cases (ltb 0 (length s.messages))) [
          | inl i ↦ rw (started, e, again, i) refl
          | inr i ↦ rw (started, e, again, i) refl
        ]
      ]

  start_nothing :
      (s : Surface) (state : AgentState) (l : Ledger) (reason header : String)
      → reason ≡ ""
      → (s.epoch == 0) ≡ false
      → s.header_digest ≡ header
      → start_epoch recode marshal header_digest fails
          (record s { epoch = next_epoch s reason })
          state
          l
          reason
          header
        ≡ (s, l, none)
  start_nothing s state l reason header empty started same =
      let kept : next_epoch s "" ≡ s.epoch = ground (arith, started) in
      subst
        (λ r.
          start_epoch recode marshal header_digest fails (record s { epoch = next_epoch s r }) state
            l r header
          ≡ (s, l, none))
        (sym empty)
        (ap {B = Left} (λ n. (record s { epoch = n; header_digest = header }, l, none)) kept
          ∙ ap {B = Left} (λ h. (record s { header_digest = h }, l, none)) (sym same))

  -- no epoch starts when neither the header nor the prefix has changed
  unchanged :
      (model : String) (state : AgentState) (s : Surface) (l : Ledger)
      → (s.epoch == 0) ≡ false
      → s.header_digest
        ≡ digest_model_header recode marshal header_digest fails model state.messages
            (canonical_tools state.tools)
            state.deferred_tools
      → have_prefix recode marshal state.messages s.messages ≡ true
      → before_model recode marshal header_digest fails model (some state) s l ≡ (s, l, none)
  unfolding before_model
  unchanged model state s l started header prefix =
      let tools = canonical_tools state.tools in
      let d =
        digest_model_header recode marshal header_digest fails model state.messages tools
          state.deferred_tools in
      start_nothing s (record state { tools = tools }) l
        (epoch_reason s d (have_prefix recode marshal state.messages s.messages)) d
        (ap (epoch_reason s d) prefix ∙ no_reason s d started header) started header

  -- what comes after the system message of a surface that was committed
  committed_tail :
      IsSettled recode marshal
      → ((m : ModelMessage) → (recode m).is_system ≡ m.is_system)
      → (instruction : ModelMessage) (rest : Messages) → instruction.is_system ≡ true
      → without_system
          (clone_messages recode marshal (clone_messages recode marshal (some instruction ∷ rest)))
        ≡ clone_messages recode marshal rest
  committed_tail settled keeps instruction rest is =
      let still : (clean recode marshal (clean recode marshal instruction)).is_system ≡ true =
        keeps (clean recode marshal instruction) ∙ keeps instruction ∙ is in
      rw still (clone_twice recode marshal settled rest)

  -- A turn of an agent goes on in the epoch of the one before. A call of the model that did not fail is
  -- followed by the commit of what the agent has seen, under the same instruction as system message; the
  -- next turn prepares its messages from the surface, and calls the same model with that instruction and
  -- the same tools. Then no epoch starts, nothing is recorded, and the surface stays as it is.
  pub next_turn_keeps_epoch :
      IsSettled recode marshal
      → ((m : ModelMessage) → (recode m).is_system ≡ m.is_system)
      → (model session_id snapshot_digest next_session_id next_digest : String)
        (instruction : ModelMessage) (user snapshot : Option ModelMessage)
        (earlier seen prepared : Messages) (tools deferred : List (Option ToolInfo)) (s : Surface)
        (l l' : Ledger)
      → instruction.is_system ≡ true
      → let called =
          before_model recode marshal header_digest fails model
            (some (under instruction tools deferred earlier))
            s
            l in
        called.2 ≡ none
        → let committed =
            commit_surface recode marshal digest fails session_id snapshot_digest
              (some (under instruction tools deferred seen))
              called.0
              called.1 in
          prepare_messages recode marshal committed.0 next_session_id user snapshot next_digest
            ≡ (none, prepared)
          → before_model recode marshal header_digest fails model
              (some (under instruction tools deferred prepared))
              committed.0
              l'
            ≡ (committed.0, l', none)
  next_turn_keeps_epoch settled keeps model session_id snapshot_digest next_session_id next_digest
        instruction user snapshot earlier seen prepared tools deferred s l l' is fine prepares =
      let state : Messages → AgentState = under instruction tools deferred in
      let first : Left =
        before_model recode marshal header_digest fails model (some (state earlier)) s l in
      let h = before_model-header model (state earlier) s l fine in
      let c = commit_surface-keeps session_id snapshot_digest (state seen) first.0 first.1 in
      let s₂ : Surface =
        (commit_surface recode marshal digest fails session_id snapshot_digest (some (state seen))
          first.0 first.1).0 in
      let (more, begins) =
        prepared-begins recode marshal s₂ next_session_id user snapshot next_digest prepared
          prepares in
      let old : Messages = clone_messages recode marshal seen in
      let goes_on : prepared ≡ old ++ more =
        begins
        ∙ ap (λ m. without_system (clone_messages recode marshal m) ++ more) c.0
        ∙ ap (λ m. m ++ more) (committed_tail settled keeps instruction seen is) in
      let held : s₂.messages ≡ clone_messages recode marshal (some instruction ∷ old) =
        c.0
        ∙ ap (λ m. some (clean recode marshal instruction) ∷ m)
            (sym (clone_twice recode marshal settled seen)) in
      unchanged model (state prepared) s₂ l' (ap (λ n. n == 0) c.2 ∙ h.1) (c.1 ∙ h.0) (
        ap (λ p. have_prefix recode marshal (some instruction ∷ p) s₂.messages) goes_on
        ∙ ap (have_prefix recode marshal (some instruction ∷ (old ++ more))) held
        ∙ have_prefix-clone recode marshal settled (some instruction ∷ old) more)
