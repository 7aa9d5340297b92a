-- ===== src/Runtime/Execution.antt =====
-- internal/orchestrator/runtime.go and peer.go: executeDelegation and executePeerTurn, which differ in
-- the events that they append, in who may do the work and in what they do at the end: a `Kind`. The
-- specialist or the peer runs between `begin` and `end`, and other work may go on meanwhile; its
-- outcome is an argument. `decode` reads a result as JSON, and `describe` is the text of an error.
use alt_tui.Prelude.{
  ℕ, String, Option, none, some, Bool, true, false, not, ◌&&◌, List, [], ◌∷◌, if◌then◌else◌, Result,
  ok, err,
}
use text.Mathlib.Text.{◌==◌ as str_eq}
use alt_tui.Prelude.Dict.{Dict, lookup}
use alt_tui.Prelude.Text.{trim_space, is_blank}
use alt_tui.Profile.{
  Profile, AgentAssignment, SpecialistAssignment, agent, specialist_for, peer_agent_for,
}
use alt_tui.Event.{
  Draft, Body, DelegationSpec, PeerTurnSpec, StartedData, CompletedData, FailedData,
  delegation_started, delegation_completed, delegation_failed, peer_turn_started,
  peer_turn_completed, peer_turn_failed,
}
use alt_tui.Projection.{Projection, ApplyError, Work, cancelled}
use alt_tui.Runtime.{
  SessionRuntime, Run, RunError, absent_caller, no_permission, return, ◌>>◌, projection, replayed,
  push_signal,
}
use alt_tui.Runtime.Work.{is_settled, write, fail}
use alt_tui.Runtime.Decision.{launch_ready}

pub record SpecialistResult : Type 0 where
  pub result : String
  pub findings : List String
  pub risks : List String
  pub confidence : String

-- what came of a run: a text, or an error that is or is not context.Canceled
pub data Outcome : Type 0 where
  answered : String → Outcome
  broke : String → Bool → Outcome

pub record Kind (S : Type 0) : Type 0 where
  pub id_of : S → String
  pub items : Projection → Dict (Work S)
  pub worker : Profile → S → Result RunError String
  pub started_body : StartedData → Body
  pub completed_body : CompletedData → Body
  pub failed_body : FailedData → Body
  pub completed_kind : String
  pub failed_kind : String
  pub empty_result : String
  pub at_end : Run (Unit {0})

abbrev specialist_of : String → Option SpecialistAssignment → Result RunError String
specialist_of id none = err (no_permission id)
specialist_of id (some s) = ok s.id

abbrev delegation_worker :
    Profile → DelegationSpec → Option AgentAssignment → Result RunError String
delegation_worker p spec none = err (absent_caller spec.caller_id)
delegation_worker p spec (some caller) =
    specialist_of spec.specialist_id (specialist_for p caller spec.specialist_id)

abbrev peer_of : String → Option AgentAssignment → Result RunError String
peer_of id none = err (no_permission id)
peer_of id (some a) = ok a.id

abbrev peer_worker : Profile → PeerTurnSpec → Option AgentAssignment → Result RunError String
peer_worker p spec none = err (absent_caller spec.caller_id)
peer_worker p spec (some caller) = peer_of spec.peer_id (peer_agent_for p caller spec.peer_id)

abbrev pub was_cancelled : {S : Type 0} → Option (Work S) → Bool
was_cancelled none = false
was_cancelled (some w) = elim w.status [ cancelled ↦ true | _ ↦ false ]

-- `err == nil`, and the work is cancelled
abbrev pub is_cancelled_in : {S : Type 0} → Kind S → String → Result ApplyError Projection → Bool
is_cancelled_in kind id (err _) = false
is_cancelled_in kind id (ok state) = was_cancelled (lookup id (kind.items state))

abbrev pub or_trimmed : String → Option SpecialistResult → SpecialistResult
or_trimmed raw (some d) = d
or_trimmed raw none = record { result = trim_space raw; findings = []; risks = []; confidence = "" }

-- r.active[id] = cancel
abbrev pub register : String → Run (Unit {0})
register id r = (record r { active = id ∷ r.active }, ok tt)

-- every entry but that of the id
unfoldable pub without : String → List String → List String
without id [] = []
without id (k ∷ l) = let rest = without id l in if str_eq k id then rest else k ∷ rest

-- cancel(), and delete(r.active, id)
abbrev pub release : String → Run (Unit {0})
release id r = (record r { active = without id r.active }, ok tt)

module _ (uuid : ℕ → String) (now : ℕ → ℕ) (describe : RunError → String)
    (decode : String → Option SpecialistResult) where
  -- sessionRuntime.stopWithError, of an error that is not of a context, with the loop installed
  unfoldable pub stop_with_error : RunError → Run (Unit {0})
  stop_with_error e r = (record (fail uuid now (describe e) r).0 { loop_stopped = true }, ok tt)

  -- `if err != nil { r.stopWithError(err); return }`
  abbrev pub or_stop :
      {A B : Type 0}
      → B
      → SessionRuntime × Result RunError A
      → (A → Run B)
      → SessionRuntime × Result RunError B
  or_stop b (r, ok a) f = f a r
  or_stop b (r, err e) f = (stop_with_error e >> return b) r

  module _ {S : Type 0} (kind : Kind S) where
    abbrev pub started_draft : String → String → ℕ → Draft
    started_draft worker id attempt = record {
      actor = worker;
      correlation_id = id;
      body = kind.started_body (record { id = id; attempt = attempt });
    }

    abbrev pub failed_draft : String → String → ℕ → String → Draft
    failed_draft worker id attempt cause = record {
      actor = worker;
      correlation_id = id;
      body = kind.failed_body (record { id = id; attempt = attempt; error = cause });
    }

    abbrev pub completed_draft : String → String → ℕ → SpecialistResult → Draft
    completed_draft worker id attempt d = record {
      actor = worker;
      correlation_id = id;
      body = kind.completed_body (record {
        id = id;
        attempt = attempt;
        result = d.result;
        findings = d.findings;
        risks = d.risks;
        confidence = d.confidence;
      });
    }

    abbrev pub start_work : String → ℕ → String → Run (Option String)
    start_work id attempt worker r =
        or_stop none (write uuid now (started_draft worker id attempt) r)
          (λ _. return (some worker))

    abbrev pub released :
        String
        → SessionRuntime × Result RunError (Option String)
        → SessionRuntime × Result RunError (Option String)
    released id (r, ok none) = (release id >> return none) r
    released id x = x

    abbrev pub begin_worker : String → ℕ → Result RunError String → Run (Option String)
    begin_worker id attempt (err e) = stop_with_error e >> return none
    begin_worker id attempt (ok worker) =
        λ r. released id ((register id >> start_work id attempt worker) r)

    abbrev pub begin_found : Profile → String → ℕ → Option (Work S) → Run (Option String)
    begin_found p id attempt none = return none
    begin_found p id attempt (some w) =
        if is_settled w then return none else begin_worker id attempt (kind.worker p w.spec)

    -- up to the run of the worker, whose id is returned where there is a run
    unfoldable pub begin : Profile → String → ℕ → Run (Option String)
    begin p id attempt r =
        or_stop none (projection r)
          (λ state. begin_found p id attempt (lookup id (kind.items state)))

    -- handleDelegationFailure, handlePeerTurnFailure
    unfoldable pub handle_failure : String → String → ℕ → String → Bool → Run (Unit {0})
    handle_failure id worker attempt cause is_cancel r =
        if is_cancelled_in kind id (replayed r)
        then (r, ok tt)
        else if is_cancel && not r.user_cancelled
        then (r, ok tt)
        else or_stop tt (write uuid now (failed_draft worker id attempt cause) r) (λ item.
          push_signal (record { kind = kind.failed_kind; event_id = item.id; delegation_id = id }))

    abbrev pub complete : String → String → ℕ → SpecialistResult → Run (Unit {0})
    complete id worker attempt d r =
        or_stop tt (write uuid now (completed_draft worker id attempt d) r) (λ item.
          push_signal
            (record { kind = kind.completed_kind; event_id = item.id; delegation_id = id })
          >> λ s. or_stop tt (kind.at_end s) return)

    abbrev pub settle : String → String → ℕ → Outcome → Run (Unit {0})
    settle id worker attempt (broke cause is_cancel) =
        handle_failure id worker attempt cause is_cancel
    settle id worker attempt (answered raw) =
        let d = or_trimmed raw (decode raw) in
        if is_blank d.result
        then handle_failure id worker attempt kind.empty_result false
        else complete id worker attempt d

    -- from the outcome on, with the deferred release
    unfoldable pub end : String → String → ℕ → Outcome → Run (Unit {0})
    end id worker attempt outcome = settle id worker attempt outcome >> release id

-- executeDelegation
abbrev pub delegation_kind : Kind DelegationSpec
delegation_kind = record {
  id_of = λ s. s.id;
  items = λ p. p.delegations;
  worker = λ p spec. delegation_worker p spec (agent p spec.caller_id);
  started_body = λ d. delegation_started (some d);
  completed_body = λ d. delegation_completed (some d);
  failed_body = λ d. delegation_failed (some d);
  completed_kind = "delegation.completed";
  failed_kind = "delegation.failed";
  empty_result = "specialist returned an empty result";
  at_end = launch_ready;
}

-- executePeerTurn
abbrev pub peer_turn_kind : Kind PeerTurnSpec
peer_turn_kind = record {
  id_of = λ s. s.id;
  items = λ p. p.peer_turns;
  worker = λ p spec. peer_worker p spec (agent p spec.caller_id);
  started_body = λ d. peer_turn_started (some d);
  completed_body = λ d. peer_turn_completed (some d);
  failed_body = λ d. peer_turn_failed (some d);
  completed_kind = "peer.turn.completed";
  failed_kind = "peer.turn.failed";
  empty_result = "peer returned an empty result";
  at_end = return tt;
}
