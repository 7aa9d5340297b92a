-- ===== src/ModelSurface/Saved.antt =====
-- internal/orchestrator/model_surface.go: what the store keeps of a surface.
use text.Mathlib.Text.{◌==◌ as str_eq}
use alt_tui.Prelude.{
  ℕ, String, ◌≡◌, refl, sym, ap, ◌∙◌, ◌⊎◌, inl, inr, Option, none, some, Bool, false, not, ◌||◌,
  List, [], ◌∷◌, map, arith, Bool-cases, eq_iff, ◌==◌, if◌then◌else◌,
}
use alt_tui.ModelSurface.{
  ModelMessage, Messages, ToolInfo, Surface, Ledger, AgentState, SurfaceError, identity_mismatch,
  Left, on_message, clean, clone_messages, canonical_tools, start_epoch, before_model,
  commit_surface, commit_digest_of, seen_in, load_surface, loaded,
}
use alt_tui.ModelSurface.Clean.{IsSettled}
use alt_tui.ModelSurface.Epochs.Steady.{commit_surface-keeps}
use alt_tui.ModelSurface.Epochs.Run.{
  Call, before_model_call, after_model_call, call, unless_failed, run,
}

module _ (recode : ModelMessage → ModelMessage) (marshal : Messages → String)
    (header_digest : String → String → List (Option ToolInfo) → List (Option ToolInfo) → String)
    (digest : Surface → String) (fails : ℕ → Bool)
    (model session_id snapshot_digest conversation_id agent_id : String) where
  abbrev digest_of : Surface → String
  digest_of s = commit_digest_of recode marshal digest fails s

  abbrev seen_by : AgentState → Surface → Surface
  seen_by state s = seen_in recode marshal digest fails session_id snapshot_digest state s

  -- what is stored, unless it is what the surface is to be, has another digest
  abbrev pub IsDistinct : Surface → Ledger → Type 0
  IsDistinct s l =
      (u : Surface)
      → l.saved ≡ some u
      → digest_of u ≡ digest_of s
      → Path Surface (record u { commit_digest = "" }) (record s { commit_digest = "" })

  -- The surface is the agent's, and the digest that it holds, if any, is that of what is stored.
  pub record IsKept (s : Surface) (l : Ledger) : Type 0 where
    pub version : s.version ≡ 1
    pub conversation : s.conversation_id ≡ conversation_id
    pub agent : s.agent_id ≡ agent_id
    pub kept :
        (s.commit_digest ≡ "")
        ⊎ ((u : Surface) × (l.saved ≡ some u)
            × (digest_of u ≡ s.commit_digest)
            × (u.commit_digest ≡ s.commit_digest))

  -- what a call of the model does not touch
  untouched-IsKept :
      (s : Surface) (l : Ledger) (epoch calls : ℕ) (header : String) (started : List _)
      → IsKept s l
      → IsKept
          (record s { epoch = epoch; header_digest = header })
          (record l { started = started; calls = calls })
  untouched-IsKept s l epoch calls header started k = record {
    version = k.version;
    conversation = k.conversation;
    agent = k.agent;
    kept = k.kept;
  }

  start_epoch-IsKept :
      (s : Surface) (n : ℕ) (state : AgentState) (l : Ledger) (reason header : String)
      → IsKept s l
      → let o =
          start_epoch recode marshal header_digest fails
            (record s { epoch = n })
            state
            l
            reason
            header in
        IsKept o.0 o.1
  start_epoch-IsKept s n state l reason header k = elim (Bool-cases (str_eq reason "")) [
    | inl e ↦ rw e (untouched-IsKept s l n l.calls header l.started k)
    | inr e ↦ elim (Bool-cases (fails l.calls)) [
      | inl i ↦ rw (e, i) (untouched-IsKept s l n _ s.header_digest l.started k)
      | inr i ↦ rw (e, i) (untouched-IsKept s l n _ header _ k)
    ]
  ]

  before_model-IsKept :
      (state : Option AgentState) (s : Surface) (l : Ledger)
      → IsKept s l
      → let o = before_model recode marshal header_digest fails model state s l in IsKept o.0 o.1
  unfolding before_model
  before_model-IsKept none s l k = k
  before_model-IsKept (some state) s l k =
      start_epoch-IsKept s _ (record state { tools = canonical_tools state.tools }) l _ _ k

  commit_surface-IsKept :
      (state : AgentState) (s : Surface) (l : Ledger)
      → IsKept s l
      → let o =
          commit_surface recode marshal digest fails session_id snapshot_digest (some state) s l in
        o.2 ≡ none → IsKept o.0 o.1
  unfolding commit_surface
  commit_surface-IsKept state s l k =
      let committed : Surface = seen_by state s in
      elim (Bool-cases (str_eq (digest_of committed) s.commit_digest)) [
        | inl e ↦ rw e (λ h. record {
          version = k.version;
          conversation = k.conversation;
          agent = k.agent;
          kept = k.kept;
        })
        | inr e ↦ elim (Bool-cases (fails l.calls)) [
          | inl i ↦ rw (e, i) (λ h. absurd (cc h))
          | inr i ↦
              rw (e, i)
                (λ h. record {
                  version = k.version;
                  conversation = k.conversation;
                  agent = k.agent;
                  kept =
                      inr (
                        record committed { commit_digest = digest_of committed },
                        refl,
                        refl,
                        refl,
                      );
                })
        ]
      ]

  -- a surface whose digest is the one that it holds is stored
  stored_again :
      ((t : Surface) → str_eq (digest t) "" ≡ false)
      → (s : Surface) (l : Ledger) → IsKept s l
      → digest_of s ≡ s.commit_digest
      → IsDistinct s l
      → l.saved ≡ some s
  stored_again named s l k same distinct = elim k.kept [
    | inl e ↦ absurd (
        ground
          (arith, named (record s { commit_digest = "" }), (eq_iff (digest_of s) "").1 (same ∙ e)))
    | inr (u, saved, as_held, held) ↦
        saved
        ∙ ap {A = String} (λ c. some (record u { commit_digest = c })) held
        ∙ ap {A = Surface} (λ v. some (record v { commit_digest = s.commit_digest }))
            (distinct u saved (as_held ∙ sym same))
  ]

  commit_surface-stored :
      ((t : Surface) → str_eq (digest t) "" ≡ false)
      → (state : AgentState) (s : Surface) (l : Ledger) → IsKept s l
      → IsDistinct (seen_by state s) l
      → let o =
          commit_surface recode marshal digest fails session_id snapshot_digest (some state) s l in
        o.2 ≡ none → o.1.saved ≡ some o.0
  unfolding commit_surface
  commit_surface-stored named state s l k distinct =
      let committed : Surface = seen_by state s in
      let still : IsKept committed l = record {
        version = k.version;
        conversation = k.conversation;
        agent = k.agent;
        kept = k.kept;
      } in
      elim (Bool-cases (str_eq (digest_of committed) s.commit_digest)) [
        | inl e ↦ rw e (λ h.
            stored_again named committed l still
              ((eq_iff (digest_of committed) s.commit_digest).0 e) distinct)
        | inr e ↦ elim (Bool-cases (fails l.calls)) [
          | inl i ↦ rw (e, i) (λ h. absurd (cc h))
          | inr i ↦ rw (e, i) (λ h. refl)
        ]
      ]

  abbrev left_by : Call → Surface → Ledger → Left
  left_by c s l =
      call recode marshal header_digest digest fails model session_id snapshot_digest c s l

  abbrev run_of : List Call → Surface → Ledger → Left
  run_of calls s l =
      run recode marshal header_digest digest fails model session_id snapshot_digest calls s l

  call-IsKept :
      (c : Call) (s : Surface) (l : Ledger)
      → IsKept s l
      → (left_by c s l).2 ≡ none
      → IsKept (left_by c s l).0 (left_by c s l).1
  unfolding commit_surface
  call-IsKept (before_model_call state) s l k h = before_model-IsKept state s l k
  call-IsKept (after_model_call none) s l k h = k
  call-IsKept (after_model_call (some state)) s l k h = commit_surface-IsKept state s l k h

  unless_failed-IsKept :
      (o : Left) (next : Surface → Ledger → Left)
      → (o.2 ≡ none → IsKept o.0 o.1)
      → ((s : Surface) (l : Ledger)
          → IsKept s l
          → (next s l).2 ≡ none
          → IsKept (next s l).0 (next s l).1)
      → let after =
          unless_failed recode marshal header_digest digest fails model session_id snapshot_digest o
            next in
        after.2 ≡ none → IsKept after.0 after.1
  unless_failed-IsKept (s, l, some e) next k more h = absurd (cc h)
  unless_failed-IsKept (s, l, none) next k more h = more s l (k refl) h

  run-IsKept :
      (calls : List Call) (s : Surface) (l : Ledger)
      → IsKept s l
      → (run_of calls s l).2 ≡ none
      → IsKept (run_of calls s l).0 (run_of calls s l).1
  unfolding run
  run-IsKept [] s l k h = k
  run-IsKept (c ∷ rest) s l k h =
      unless_failed-IsKept (left_by c s l) (run_of rest) (call-IsKept c s l k) (run-IsKept rest) h

  decoded :
      IsSettled recode marshal
      → (l : Messages)
      → map (on_message recode) (clone_messages recode marshal l) ≡ clone_messages recode marshal l
  decoded settled [] = refl
  decoded settled (none ∷ l) = ap (λ r. none ∷ r) (decoded settled l)
  decoded settled (some m ∷ l) =
      rw (settled m) (ap (λ r. some (clean recode marshal m) ∷ r) (decoded settled l))

  loaded_own :
      (s : Surface) {l : Ledger}
      → IsKept s l
      → map (on_message recode) s.messages ≡ s.messages
      → loaded recode marshal conversation_id agent_id (some s) ≡ (none, s)
  loaded_own s k same =
      let own : Path Bool
          (not (s.version == 1)
            || not (str_eq s.conversation_id conversation_id)
            || not (str_eq s.agent_id agent_id))
          false =
        ground (
          arith,
          k.version,
          (eq_iff s.conversation_id conversation_id).1 k.conversation,
          (eq_iff s.agent_id agent_id).1 k.agent,
        ) in
      ap {B = Option SurfaceError × Surface}
        (λ b. (
          if b then some identity_mismatch else none,
          record s { messages = map (on_message recode) s.messages },
        ))
        own
      ∙ ap {B = Option SurfaceError × Surface} (λ m. (none, record s { messages = m })) same

  -- The surface that an agent goes on with is the one that it had: after a run of calls that ends with a
  -- commit, none of which failed, what is loaded for the agent is the surface that the run has left. It is
  -- asked that a digest is not empty and does not collide with that of what was stored before, that a
  -- cleaned message is decoded to itself, and that the run started at a surface of the agent whose digest,
  -- if it has one, is that of what is stored.
  pub load_after_commit :
      IsSettled recode marshal
      → ((t : Surface) → str_eq (digest t) "" ≡ false)
      → (calls : List Call) (state : AgentState) (s : Surface) (l : Ledger) → IsKept s l
      → (run_of calls s l).2 ≡ none
      → IsDistinct (seen_by state (run_of calls s l).0) (run_of calls s l).1
      → let before = run_of calls s l in
        let after =
          commit_surface recode marshal digest fails session_id snapshot_digest
            (some state)
            before.0
            before.1 in
        after.2 ≡ none
        → load_surface recode marshal conversation_id agent_id after.1 ≡ (none, after.0)
  unfolding load_surface
  load_after_commit settled named calls state s l k fine distinct ends =
      let before : Left = run_of calls s l in
      let after : Left =
        commit_surface recode marshal digest fails session_id snapshot_digest (some state) before.0
          before.1 in
      let k' = run-IsKept calls s l k fine in
      let stored = commit_surface-stored named state before.0 before.1 k' distinct ends in
      let kept =
        commit_surface-keeps recode marshal header_digest digest fails session_id snapshot_digest
          state before.0 before.1 in
      let same : map (on_message recode) after.0.messages ≡ after.0.messages =
        ap (map (on_message recode)) kept.0 ∙ decoded settled state.messages ∙ sym kept.0 in
      ap (loaded recode marshal conversation_id agent_id) stored
      ∙ loaded_own after.0 (commit_surface-IsKept state before.0 before.1 k' ends) same
