-- ===== src/Runtime/Decision.antt =====
-- internal/orchestrator/runtime.go: applyDecision, after its checks, and scheduleReady over the store.
use alt_tui.Prelude.{
  ℕ, String, Option, none, some, Bool, false, not, ◌&&◌, List, [], ◌∷◌, ◌++◌, ◌==◌, if◌then◌else◌,
  ok,
}
use alt_tui.Profile.{Profile}
use alt_tui.Projection.{Projection}
use alt_tui.Projection.Views.{work_count}
use alt_tui.Orchestrator.{AgentDecision}
use alt_tui.Orchestrator.Schedule.{schedule_ready}
use alt_tui.Orchestrator.Decision.{
  Plan, Handoff, plan_decision, is_idle, is_nil, decision_drafts, handoff_draft,
}
use alt_tui.Runtime.{
  Run, not_planned, no_progress, ◌>>=◌, ◌>>◌, return, lifted, refuse_if, projection, push_signal,
}
use alt_tui.Runtime.Work.{write, write_all, cancel_work}

-- sessionRuntime.scheduleReady, of the state that the store has
unfoldable pub launch_ready : Run (Unit {0})
launch_ready = do
  state ← projection
  λ r.
      let s = schedule_ready state r.launched in
      (record r { launched = s.launched; launches = r.launches ++ s.launches }, ok tt)

-- an idle decision is refused where no work is open
abbrev pub require_progress : AgentDecision → Plan → Run (Unit {0})
require_progress decision plan =
    if is_idle decision plan
    then (projection >>= λ current. refuse_if (work_count current == 0) no_progress)
    else return tt

module _ (uuid : ℕ → String) (now : ℕ → ℕ) where
  -- the loop that cancels
  unfoldable pub cancel_each : List String → Run (Unit {0})
  cancel_each [] = return tt
  cancel_each (id ∷ rest) =
      cancel_work uuid now id "cancelled by active-agent coordination decision" >> cancel_each rest

  -- a decision that only cancels leaves a signal of it
  abbrev pub signal_cancellation : Plan → Run (Unit {0})
  signal_cancellation plan =
      if not (is_nil plan.cancellations) && is_nil plan.specs && is_nil plan.peer_specs
      then push_signal (record { kind = "work.cancelled"; event_id = ""; delegation_id = "" })
      else return tt

  -- the end of applyDecision: the handoff, or the launch of what is ready
  abbrev pub conclude : Plan → Option Handoff → Run (Unit {0})
  conclude plan (some h) = write uuid now (handoff_draft plan h) >>= λ item.
      push_signal
        (record { kind = "leadership.transferred"; event_id = item.id; delegation_id = "" })
  conclude plan none = signal_cancellation plan >> launch_ready

  -- applyDecision, once the decision is planned
  unfoldable pub carry_out : Projection → AgentDecision → Plan → Run (Unit {0})
  carry_out state decision plan = do
    cancel_each plan.cancellations
    write_all uuid now (decision_drafts state decision plan)
    conclude plan plan.handoff

  -- sessionRuntime.applyDecision; its Boolean result is always false
  unfoldable pub apply_decision : Profile → (ℕ → String) → (ℕ → String) → AgentDecision → Run Bool
  apply_decision p spec_ids turn_ids decision = do
    state ← projection
    plan ← lifted not_planned (plan_decision p state spec_ids turn_ids decision)
    require_progress decision plan
    carry_out state decision plan
    return false
