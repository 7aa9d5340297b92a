-- ===== src/Runtime/Decided.antt =====
-- internal/orchestrator/runtime.go: theorems about applyDecision.
pub mod Keys
mod Writes
use alt_tui.Prelude.{ℕ, String, ◌≡◌, ap, ◌⊎◌, true, false, Bool, ◌&&◌, ◌++◌, map, ok, err, ◌==◌}
use alt_tui.Profile.{Profile, contains_id}
use alt_tui.Projection.{Projection}
use alt_tui.Projection.Views.{work_count}
use alt_tui.Orchestrator.{AgentDecision, PlanError}
use alt_tui.Orchestrator.Decision.{Plan, plan_decision, is_idle}
use alt_tui.Orchestrator.Decision.Planned.{IsPlanned}
use alt_tui.Orchestrator.Schedule.{schedule_ready}
use alt_tui.Runtime.{
  SessionRuntime, RunError, not_planned, not_replayed, no_progress, continue, lifted, projection,
}
use alt_tui.Runtime.Decision.{launch_ready, apply_decision}
use alt_tui.Runtime.Decided.Keys.{Decided, launch_all}
use alt_tui.Runtime.Cancellation.{Stands}

-- an idle decision, and no work that is open
abbrev pub stalls : AgentDecision → Plan → Projection → Bool
stalls decision plan p = is_idle decision plan && work_count p == 0

-- The error of a decision that is refused: that of its plan, or that nothing could come of it.
abbrev pub Refuses :
    Profile → (ℕ → String) → (ℕ → String) → AgentDecision → Projection → RunError → Type 0
Refuses profile spec_ids turn_ids decision p e =
    ((refusal : PlanError) × (plan_decision profile p spec_ids turn_ids decision ≡ err refusal)
      × (e ≡ not_planned refusal))
    ⊎ ((plan : Plan) × (plan_decision profile p spec_ids turn_ids decision ≡ ok plan)
        × (stalls decision plan p ≡ true)
        × (e ≡ no_progress))

module _ (uuid : ℕ → String) (now : ℕ → ℕ) (distinct : (m n : ℕ) → uuid m ≡ uuid n → m ≡ n) where
  pub launched :
      (r : SessionRuntime) (p : Projection)
      → Stands uuid r p
      → (s : SessionRuntime) × (launch_ready r ≡ (s, ok tt)) × Stands uuid s p
  unfolding launch_ready projection
  launched r p h =
      let done = schedule_ready p r.launched in
      (
        record r { launched = done.launched; launches = r.launches ++ done.launches },
        ap (λ o. continue (lifted not_replayed o r) launch_all) h.read,
        record {
          ready = record { numbered = h.ready.numbered; row = h.ready.row; fresh = h.ready.fresh };
          read = h.read;
        },
      )

  module _ (profile : Profile) (spec_ids turn_ids : ℕ → String) (decision : AgentDecision)
      (r : SessionRuntime) (p : Projection) (h : Stands uuid r p) where
    abbrev Cases : Type 0
    Cases =
        ((e : RunError) × (apply_decision uuid now profile spec_ids turn_ids decision r
            ≡ (r, err e))
          × Refuses profile spec_ids turn_ids decision p e)
        ⊎ ((plan : Plan) × (r' : SessionRuntime) × (q : Projection) × (plan_decision profile p
                spec_ids turn_ids decision
              ≡ ok plan)
            × (stalls decision plan p ≡ false)
            × IsPlanned p plan
            × (apply_decision uuid now profile spec_ids turn_ids decision r ≡ (r', ok false))
            × Stands uuid r' q
            × Decided p plan q)
