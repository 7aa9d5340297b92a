-- ===== src/Runtime.antt =====
-- internal/orchestrator/runtime.go: the state of sessionRuntime, and the operations that append to
-- the store. An operation takes the runtime to a new one with a result or an error, and what it has
-- appended before an error stays. `uuid` and `now` give the id and the time of the n-th append; the
-- loop that takes the signals is a queue, and cancelling a context is a note of the work's id. A
-- context that is cancelled and errors of the database are left out.
pub mod Work
pub mod Execution
pub mod Decision
pub mod Log
pub mod Returns
pub mod Marks
pub mod Recovery
pub mod Cancellation
pub mod Answer
pub mod Decided
pub mod Attempt
mod Examples
use alt_tui.Prelude.{
  ℕ, ◌+◌, String, Option, none, some, Bool, true, false, List, [], ◌∷◌, ◌++◌, if◌then◌else◌, Result,
  ok, err,
}
use alt_tui.Profile.{contains_id}
use alt_tui.Event.{Event, Draft}
use alt_tui.Projection.{Projection, ApplyError, replay}
use alt_tui.Store.{Tables, StoreError, append, events_after}
use alt_tui.Orchestrator.{PlanError}
use alt_tui.Orchestrator.Schedule.{Launch}

-- Signal
pub record Signal : Type 0 where
  pub kind : String
  pub event_id : String
  pub delegation_id : String

pub record SessionRuntime : Type 0 where
  pub session_id : String
  pub tables : Tables
  pub drawn : ℕ
  pub active : List String
  pub stopped : List String
  pub signals : List Signal
  pub launched : List String
  pub launches : List Launch
  pub finalizing : Bool
  pub user_cancelled : Bool
  pub loop_stopped : Bool

pub data RunError : Type 0 where
  not_stored : StoreError → RunError
  not_replayed : ApplyError → RunError
  not_planned : PlanError → RunError
  unknown_work : String → RunError
  no_progress : RunError
  empty_answer : RunError
  absent_caller : String → RunError
  no_permission : String → RunError

abbrev pub Run : Type 0 → Type 0
Run A = SessionRuntime → SessionRuntime × Result RunError A

abbrev pub continue :
    {A B : Type 0}
    → SessionRuntime × Result RunError A
    → (A → Run B)
    → SessionRuntime × Result RunError B
continue (r, ok a) f = f a r
continue (r, err e) f = (r, err e)

infixl 5 ◌>>=◌ ◌>>◌
abbrev pub ◌>>=◌ : {A B : Type 0} → Run A → (A → Run B) → Run B
◌>>=◌ m f r = continue (m r) f

abbrev pub ◌>>◌ : {A B : Type 0} → Run A → Run B → Run B
m >> k = m >>= λ _. k

abbrev pub return : {A : Type 0} → A → Run A
return a r = (r, ok a)

abbrev pub throw : {A : Type 0} → RunError → Run A
throw e r = (r, err e)

-- `if bad { return e }`
abbrev pub refuse_if : Bool → RunError → Run (Unit {0})
refuse_if bad e = if bad then throw e else return tt

-- `_ = m`
abbrev pub ignored : {A : Type 0} → Run A → Run (Unit {0})
ignored m r = ((m r).0, ok tt)

abbrev pub lifted : {E A : Type 0} → (E → RunError) → Result E A → Run A
lifted f (ok a) = return a
lifted f (err e) = throw (f e)

abbrev kept :
    SessionRuntime → Result StoreError (Tables × Event) → SessionRuntime × Result RunError Event
kept r (ok (t, item)) = (record r { tables = t; drawn = r.drawn + 1 }, ok item)
kept r (err e) = (record r { drawn = r.drawn + 1 }, err (not_stored e))

-- r.store.Append of a draft to the session
unfoldable pub record_event : (ℕ → String) → (ℕ → ℕ) → Draft → Run Event
record_event uuid now draft r =
    kept r (append r.tables r.session_id draft (uuid r.drawn) (now r.drawn))

-- what the session's events replay to
abbrev pub replayed : SessionRuntime → Result ApplyError Projection
replayed r = replay r.session_id (events_after r.tables r.session_id 0)

-- sessionRuntime.projection
unfoldable pub projection : Run Projection
projection r = lifted not_replayed (replayed r) r

-- sessionRuntime.pushSignal
abbrev pub push_signal : Signal → Run (Unit {0})
push_signal s r = (record r { signals = r.signals ++ s ∷ [] }, ok tt)

-- `if cancel := r.active[id]; cancel != nil { cancel() }`
abbrev pub stop_context : String → Run (Unit {0})
stop_context id r =
    (if contains_id r.active id then record r { stopped = r.stopped ++ id ∷ [] } else r, ok tt)
