-- ===== src/Runtime/Work.antt =====
-- internal/orchestrator/runtime.go: cancelWork, cancelDelegation, cancelActiveDelegations,
-- markInterruptedDelegations, completeAnswer and fail.
use alt_tui.Prelude.{
  ℕ, String, Option, none, some, Bool, true, false, List, [], ◌∷◌, if◌then◌else◌, Result, ok, err,
}
use alt_tui.Prelude.Dict.{lookup}
use alt_tui.Prelude.Text.{trim_space, is_blank}
use alt_tui.Event.{
  Event, Draft, Body, delegation_failed, delegation_cancelled, peer_turn_failed,
  peer_turn_cancelled, agent_turn_completed, final_started, final_text_delta, final_completed,
  session_failed,
}
use alt_tui.Projection.{
  Projection, ApplyError, Work, Delegation, PeerTurn, running, completed, cancelled,
}
use alt_tui.Projection.Views.{is_active, sorted_delegations, sorted_peer_turns}
use alt_tui.Runtime.{
  Run, unknown_work, empty_answer, ◌>>=◌, ◌>>◌, return, throw, refuse_if, ignored, record_event,
  projection, replayed, stop_context,
}

module _ {S : Type 0} where
  abbrev pub is_settled : Work S → Bool
  is_settled w = elim w.status [ completed ↦ true | cancelled ↦ true | _ ↦ false ]

  abbrev pub is_running : Work S → Bool
  is_running w = elim w.status [ running ↦ true | _ ↦ false ]

abbrev pub cancel_draft : (String → String → Body) → Projection → String → String → Draft
cancel_draft body state id reason = record {
  actor = state.leader_id;
  correlation_id = id;
  body = body id reason;
}

abbrev pub delegation_stop : String → String → Body
delegation_stop id reason = delegation_cancelled (some (record { id = id; reason = reason }))

abbrev pub peer_turn_stop : String → String → Body
peer_turn_stop id reason = peer_turn_cancelled (some (record { id = id; reason = reason }))

abbrev pub interruption : String
interruption = "execution interrupted before a durable terminal event"

abbrev pub delegation_interruption : Delegation → Draft
delegation_interruption w = record {
  actor = "recovery";
  correlation_id = w.spec.id;
  body =
      delegation_failed
        (some (record { id = w.spec.id; attempt = w.attempt; error = interruption }));
}

abbrev pub peer_turn_interruption : PeerTurn → Draft
peer_turn_interruption w = record {
  actor = "recovery";
  correlation_id = w.spec.id;
  body =
      peer_turn_failed
        (some (record { id = w.spec.id; attempt = w.attempt; error = interruption }));
}

-- what is done with the projection, where there is one
abbrev pub quietly : (Projection → Run (Unit {0})) → Result ApplyError Projection → Run (Unit {0})
quietly f (err _) = return tt
quietly f (ok state) = f state

module _ (uuid : ℕ → String) (now : ℕ → ℕ) where
  abbrev pub write : Draft → Run Event
  write = record_event uuid now

  -- work that is not settled is cancelled by an event, and its context is stopped
  abbrev pub stop_work :
      {S : Type 0}
      → (String → String → Body)
      → Projection
      → String
      → String
      → Work S
      → Run (Unit {0})
  stop_work body state id reason w =
      if is_settled w
      then return tt
      else (write (cancel_draft body state id reason) >> stop_context id)

  -- what the map of the projection has under the id
  abbrev pub stop_found :
      {S : Type 0}
      → (String → String → Body)
      → Projection
      → String
      → String
      → Option (Work S)
      → Run (Unit {0})
  stop_found body state id reason none = throw (unknown_work id)
  stop_found body state id reason (some w) = stop_work body state id reason w

  -- sessionRuntime.cancelDelegation
  unfoldable pub cancel_delegation : String → String → Run (Unit {0})
  cancel_delegation id reason = do
    state ← projection
    stop_found delegation_stop state id reason (lookup id state.delegations)

  -- a delegation has precedence over a peer turn of the same id
  abbrev pub cancel_found :
      Projection → String → String → Option Delegation → Option PeerTurn → Run (Unit {0})
  cancel_found state id reason (some _) _ = cancel_delegation id reason
  cancel_found state id reason none found = stop_found peer_turn_stop state id reason found

  -- sessionRuntime.cancelWork
  unfoldable pub cancel_work : String → String → Run (Unit {0})
  cancel_work id reason = do
    state ← projection
    cancel_found state id reason (lookup id state.delegations) (lookup id state.peer_turns)

  -- the two loops of cancelActiveDelegations
  unfoldable pub cancel_active :
      {S : Type 0} → (S → String) → (String → Run (Unit {0})) → List (Work S) → Run (Unit {0})
  cancel_active id_of cancel [] = return tt
  cancel_active id_of cancel (w ∷ rest) =
      let first = if is_active w then ignored (cancel (id_of w.spec)) else return tt in
      first >> cancel_active id_of cancel rest

  unfoldable pub cancel_all : String → Projection → Run (Unit {0})
  cancel_all reason state =
      cancel_active (λ s. s.id) (λ id. cancel_delegation id reason) (sorted_delegations state)
      >> cancel_active (λ s. s.id) (λ id. cancel_work id reason) (sorted_peer_turns state)

  -- sessionRuntime.cancelActiveDelegations
  unfoldable pub cancel_active_delegations : String → Run (Unit {0})
  unfolding cancel_all
  cancel_active_delegations reason r = quietly (cancel_all reason) (replayed r) r

  -- the two loops of markInterruptedDelegations
  unfoldable pub mark_running : {S : Type 0} → (Work S → Draft) → List (Work S) → Run (Unit {0})
  mark_running draft [] = return tt
  mark_running draft (w ∷ rest) =
      let first = if is_running w then write (draft w) >> return tt else return tt in
      first >> mark_running draft rest

  -- sessionRuntime.markInterruptedDelegations
  unfoldable pub mark_interrupted_delegations : Run (Unit {0})
  mark_interrupted_delegations = do
    state ← projection
    mark_running delegation_interruption (sorted_delegations state)
    mark_running peer_turn_interruption (sorted_peer_turns state)

  -- the drafts of completeAnswer, in their order
  abbrev pub answer_drafts : String → ℕ → String → List Draft
  answer_drafts agent_id turn answer =
      record {
        actor = agent_id;
        correlation_id = "";
        body = agent_turn_completed (record {
          agent_id = agent_id;
          turn = turn;
          signal_kinds = [];
          assessment = "Answered the user directly.";
        });
      }
      ∷ record { actor = agent_id; correlation_id = ""; body = final_started }
      ∷ record { actor = agent_id; correlation_id = ""; body = final_text_delta answer }
      ∷ record { actor = agent_id; correlation_id = ""; body = final_completed (some answer) }
      ∷ []

  -- appends one after another, up to the first error
  unfoldable pub write_all : List Draft → Run (Unit {0})
  write_all [] = return tt
  write_all (d ∷ rest) = write d >> write_all rest

  -- sessionRuntime.completeAnswer
  unfoldable pub complete_answer : String → ℕ → String → Run (Unit {0})
  complete_answer agent_id turn answer r =
      (do
        refuse_if (is_blank answer) empty_answer
        cancel_active_delegations "current leader answered the user"
        write_all (answer_drafts agent_id turn (trim_space answer)))
        (record r { finalizing = true })

  abbrev pub failure_draft : String → Draft
  failure_draft cause = record {
    actor = "system";
    correlation_id = "";
    body = session_failed cause;
  }

  -- a turn that has ended keeps its end
  abbrev pub fail_open : String → Projection → Run (Unit {0})
  fail_open cause state =
      if state.terminal then return tt else ignored (write (failure_draft cause))

  -- sessionRuntime.fail; the error that it returns is its argument
  unfoldable pub fail : String → Run (Unit {0})
  fail cause r = quietly (fail_open cause) (replayed r) r
