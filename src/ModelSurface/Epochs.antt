-- ===== src/ModelSurface/Epochs.antt =====
-- internal/orchestrator/model_surface.go: when a new epoch of the cache starts, and its number.
use text.Mathlib.Text.{◌==◌ as str_eq}
use alt_tui.Prelude.{
  ℕ, zero, suc, ◌+◌, String, ◌≡◌, refl, sym, ap, ◌∙◌, inl, inr, Option, none, some, Bool, true,
  false, List, [], ◌∷◌, ◌++◌, map, arith, Bool-cases, ◌==◌,
}
use mathlib.Core.List.{append-nil}
use alt_tui.ModelSurface.{
  ModelMessage, Messages, ToolInfo, Surface, Ledger, EpochStarted, AgentState, Left,
  canonical_tools, epoch_reason, next_epoch, start_epoch, before_model, digest_model_header,
  have_prefix,
}
pub mod Steady
pub mod Run

pub epoch_reason-first :
    (s : Surface) (header : String) (stable : Bool)
    → (s.epoch == 0) ≡ true
    → epoch_reason s header stable ≡ "initial canonical request header"
unfolding epoch_reason
epoch_reason-first s header stable e = rw e refl

-- the numbers of `k` epochs after the `n`-th
abbrev pub epochs_from : ℕ → ℕ → List ℕ
epochs_from n zero = []
epochs_from n (suc k) = suc n ∷ epochs_from (suc n) k

abbrev pub epochs : Ledger → List ℕ
epochs l = map (λ started. started.epoch) l.started

-- an operation records the epochs that follow the surface's, and counts them in it unless it fails
pub record Counts (s : Surface) (l : Ledger) (o : Left) : Type 0 where
  pub many : ℕ
  pub recorded : epochs o.1 ≡ epochs l ++ epochs_from s.epoch many
  pub counted : o.2 ≡ none → o.0.epoch ≡ s.epoch + many

module _ (recode : ModelMessage → ModelMessage) (marshal : Messages → String)
    (header_digest : String → String → List (Option ToolInfo) → List (Option ToolInfo) → String)
    (fails : ℕ → Bool) where
  unstarted-Counts :
      (s : Surface) (l : Ledger) (o : Left)
      → epochs o.1 ≡ epochs l
      → (o.2 ≡ none → o.0.epoch ≡ s.epoch)
      → Counts s l o
  unstarted-Counts s l o same kept = record {
    many = 0;
    recorded = same ∙ sym (append-nil (epochs l));
    counted = λ h. ground (arith, kept h);
  }

  map-append :
      (f : EpochStarted → ℕ) (a b : List EpochStarted) → map f (a ++ b) ≡ map f a ++ map f b
  map-append f [] b = refl
  map-append f (x ∷ a) b = ap (λ r. f x ∷ r) (map-append f a b)

  start_epoch-Counts :
      (s : Surface) (state : AgentState) (l : Ledger) (reason header : String)
      → ((s.epoch == 0) ≡ true → str_eq reason "" ≡ false)
      → Counts s l (
          start_epoch recode marshal header_digest fails
            (record s { epoch = next_epoch s reason })
            state
            l
            reason
            header)
  start_epoch-Counts s state l reason header first = elim (Bool-cases (str_eq reason "")) [
    | inl e ↦ rw e (unstarted-Counts s l _ refl (λ h. ground (arith, first, e)))
    | inr e ↦ elim (Bool-cases (fails l.calls)) [
      | inl i ↦ rw (e, i) (unstarted-Counts s l _ refl (λ h. absurd (cc h)))
      | inr i ↦
          rw (e, i)
            (record {
              many = 1;
              recorded =
                  map-append (λ x. x.epoch) l.started _
                  ∙ ap (λ n. epochs l ++ (n ∷ [])) (ground arith);
              counted = λ h. ground arith;
            })
    ]
  ]

  pub before_model-Counts :
      (model : String) (state : Option AgentState) (s : Surface) (l : Ledger)
      → Counts s l (before_model recode marshal header_digest fails model state s l)
  unfolding before_model
  before_model-Counts model none s l = unstarted-Counts s l _ refl (λ h. refl)
  before_model-Counts model (some state) s l =
      let tools = canonical_tools state.tools in
      let header =
        digest_model_header recode marshal header_digest fails model state.messages tools
          state.deferred_tools in
      let stable = have_prefix recode marshal state.messages s.messages in
      start_epoch-Counts s (record state { tools = tools }) l (epoch_reason s header stable) header
        (λ e. ap (λ r. str_eq r "") (epoch_reason-first s header stable e))
