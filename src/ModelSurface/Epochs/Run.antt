-- ===== src/ModelSurface/Epochs/Run.antt =====
-- internal/orchestrator/model_surface.go: the epochs of a whole run of an agent.
use alt_tui.Prelude.{
  ℕ, zero, suc, ◌+◌, String, ◌≡◌, refl, sym, ap, ◌∙◌, ◌⊎◌, Option, none, some, Bool, Option-cases,
  List, [], ◌∷◌, ◌++◌, arith, map, Bool-cases, inl, inr,
}
use text.Mathlib.Text.{◌==◌ as str_eq}
use mathlib.Core.List.{append-nil, append_assoc}
use alt_tui.ModelSurface.{
  ModelMessage, Messages, ToolInfo, Surface, Ledger, AgentState, SurfaceError, Left, before_model,
  commit_surface, clone_messages, commit_digest_of,
}
use alt_tui.ModelSurface.Epochs.{epochs, epochs_from, Counts, before_model-Counts}

-- the calls that the agent loop makes of the handler
pub data Call : Type 0 where
  before_model_call after_model_call : Option AgentState → Call

epochs_from-append : (n j k : ℕ) → epochs_from n j ++ epochs_from (n + j) k ≡ epochs_from n (j + k)
epochs_from-append n zero k =
    let start : n + 0 ≡ n = omega arith in
    let size : k ≡ 0 + k = omega arith in ap (λ i. epochs_from i k) start ∙ ap (epochs_from n) size
epochs_from-append n (suc j) k =
    let start : n + suc j ≡ suc n + j = omega arith in
    let size : suc (j + k) ≡ suc j + k = omega arith in
    ap (λ r. suc n ∷ r)
      (ap (λ i. epochs_from (suc n) j ++ epochs_from i k) start ∙ epochs_from-append (suc n) j k)
    ∙ ap (epochs_from n) size

module _ (recode : ModelMessage → ModelMessage) (marshal : Messages → String)
    (header_digest : String → String → List (Option ToolInfo) → List (Option ToolInfo) → String)
    (digest : Surface → String) (fails : ℕ → Bool) (model session_id snapshot_digest : String) where
  abbrev pub call : Call → Surface → Ledger → Left
  call (before_model_call state) s l =
      before_model recode marshal header_digest fails model state s l
  call (after_model_call state) s l =
      commit_surface recode marshal digest fails session_id snapshot_digest state s l

  abbrev pub unless_failed : Left → (Surface → Ledger → Left) → Left
  unless_failed (s, l, none) next = next s l
  unless_failed (s, l, some e) next = (s, l, some e)

  -- the calls of a run in turn, which ends at an error
  unfoldable pub run : List Call → Surface → Ledger → Left
  run [] s l = (s, l, none)
  run (c ∷ rest) s l = unless_failed (call c s l) (run rest)

  keeping-Counts :
      (s : Surface) (l : Ledger) (o : Left)
      → o.0.epoch ≡ s.epoch
      → o.1.started ≡ l.started
      → Counts s l o
  keeping-Counts s l o kept same = record {
    many = 0;
    recorded = ap (map (λ i. i.epoch)) same ∙ sym (append-nil (epochs l));
    counted = λ h. kept ∙ omega arith;
  }

  commit_surface-Counts :
      (state : Option AgentState) (s : Surface) (l : Ledger)
      → Counts s l (commit_surface recode marshal digest fails session_id snapshot_digest state s l)
  unfolding commit_surface
  commit_surface-Counts none s l = keeping-Counts s l _ refl refl
  commit_surface-Counts (some state) s l =
      let committed : Surface = record s {
        messages = clone_messages recode marshal state.messages;
        last_session_id = session_id;
        last_snapshot_digest = snapshot_digest;
      } in
      elim (Bool-cases
        (str_eq (commit_digest_of recode marshal digest fails committed) s.commit_digest)) [
          | inl e ↦ rw e (keeping-Counts s l _ refl refl)
          | inr e ↦ elim (Bool-cases (fails l.calls)) [
            | inl i ↦ rw (e, i) (keeping-Counts s l _ refl refl)
            | inr i ↦ rw (e, i) (keeping-Counts s l _ refl refl)
          ]
        ]

  call-Counts : (c : Call) (s : Surface) (l : Ledger) → Counts s l (call c s l)
  call-Counts (before_model_call state) s l =
      before_model-Counts recode marshal header_digest fails model state s l
  call-Counts (after_model_call state) s l = commit_surface-Counts state s l

  unless_failed-Counts :
      (s : Surface) (l : Ledger) (o : Left) (next : Surface → Ledger → Left)
      → Counts s l o
      → ((s' : Surface) (l' : Ledger) → Counts s' l' (next s' l'))
      → Counts s l (unless_failed o next)
  unless_failed-Counts s l (s', l', some e) next c more = record {
    many = c.many;
    recorded = c.recorded;
    counted = λ h. absurd (cc h);
  }
  unless_failed-Counts s l (s', l', none) next c more =
      let m = more s' l' in
      record {
        many = c.many + m.many;
        recorded =
            m.recorded
            ∙ ap (λ r. r ++ epochs_from s'.epoch m.many) c.recorded
            ∙ append_assoc (epochs l) (epochs_from s.epoch c.many) (epochs_from s'.epoch m.many)
            ∙ ap (λ r. epochs l ++ r)
                (ap (λ i. epochs_from s.epoch c.many ++ epochs_from i m.many) (c.counted refl)
                  ∙ epochs_from-append s.epoch c.many m.many);
        counted = λ h. m.counted h ∙ ap (λ i. i + m.many) (c.counted refl) ∙ omega arith;
      }

  run-Counts : (calls : List Call) (s : Surface) (l : Ledger) → Counts s l (run calls s l)
  unfolding run
  run-Counts [] s l = keeping-Counts s l _ refl refl
  run-Counts (c ∷ rest) s l = unless_failed-Counts s l _ _ (call-Counts c s l) (run-Counts rest)

  -- However the calls of a run end, the epochs that it records are numbered one after the other from the
  -- surface's on: none is left out, and none comes twice. Either a call failed, or the epoch of the
  -- surface has gone up by as many.
  pub run_numbers_epochs :
      (calls : List Call) (s : Surface) (l : Ledger)
      → let o = run calls s l in
        (many : ℕ) × (epochs o.1 ≡ epochs l ++ epochs_from s.epoch many)
        × ((o.0.epoch ≡ s.epoch + many) ⊎ ((e : SurfaceError) × (o.2 ≡ some e)))
  run_numbers_epochs calls s l =
      let c = run-Counts calls s l in
      (
        c.many,
        c.recorded,
        elim (Option-cases (run calls s l).2) [
          | inl h ↦ inl (c.counted h)
          | inr failed ↦ inr failed
        ],
      )
