-- ===== src/Runtime/Recovery.antt =====
-- internal/orchestrator/runtime.go: theorems about markInterruptedDelegations.
pub mod Recovered
use alt_tui.Runtime.Recovery.Recovered.{recovered, both-Marked}
use alt_tui.Prelude.{ℕ, String, ◌≡◌, refl, ap, ◌∙◌, List, [], ◌∷◌, Bool-cases, inl, inr, ok}
use alt_tui.Prelude.Dict.{lookup, on_some}
use alt_tui.Event.{Draft}
use alt_tui.Projection.{Projection, Work}
use alt_tui.Projection.Invariant.{delegation_id, peer_turn_id, replay-IsCoherent}
use alt_tui.Projection.Keys.{replay-IsKeyed}
use alt_tui.Projection.Views.{sorted_delegations, sorted_peer_turns}
use alt_tui.Runtime.{
  SessionRuntime, not_replayed, continue, lifted, return, projection, replayed, ◌>>◌,
}
use alt_tui.Runtime.Work.{
  is_running, mark_running, mark_interrupted_delegations, delegation_interruption,
  peer_turn_interruption,
}
use alt_tui.Store.{no_change, change_of}
use alt_tui.Store.Returns.{IsSound}
use alt_tui.Runtime.Returns.{IsReady, record_event_returns}
use alt_tui.Runtime.Log.{with_work}
use alt_tui.Runtime.Marks.{Marked-end}

module _ (uuid : ℕ → String) (now : ℕ → ℕ) (distinct : (m n : ℕ) → uuid m ≡ uuid n → m ≡ n) where
  mark_running_returns :
      {S : Type 0} (draft : Work S → Draft) (sound : (w : Work S) → IsSound (draft w).body)
      (l : List (Work S)) (r : SessionRuntime)
      → IsReady uuid r
      → (r' : SessionRuntime) × (mark_running uuid now draft l r ≡ (r', ok tt)) × IsReady uuid r'
  unfolding mark_running
  mark_running_returns draft sound [] r ready = (r, refl, ready)
  mark_running_returns draft sound (w ∷ l) r ready = elim (Bool-cases (is_running w)) [
    | inr e ↦ rw e (mark_running_returns draft sound l r ready)
    | inl e ↦
        let (s, item, stored, ready') =
          record_event_returns uuid now distinct (draft w) r ready (sound w) in
        let (r', rest, done) = mark_running_returns draft sound l s ready' in
        (
          r',
          rw e (
              ap (λ x. continue (continue x (λ _. return tt)) (λ _. mark_running uuid now draft l))
                stored
              ∙ rest),
          done,
        )
  ]

  mark_interrupted_returns :
      (r : SessionRuntime) (p : Projection)
      → IsReady uuid r
      → replayed r ≡ ok p
      → (r' : SessionRuntime) × (mark_interrupted_delegations uuid now r ≡ (r', ok tt))
        × IsReady uuid r'
  unfolding mark_interrupted_delegations projection change_of
  mark_interrupted_returns r p ready read =
      let (s, first, ready') =
        mark_running_returns delegation_interruption (λ w id. (no_change, refl))
          (sorted_delegations p) r ready in
      let (r', second, ready'') =
        mark_running_returns peer_turn_interruption (λ w id. (no_change, refl))
          (sorted_peer_turns p) s ready' in
      (
        r',
        ap
              (λ o. continue (lifted not_replayed o r) (λ q.
                mark_running uuid now delegation_interruption (sorted_delegations q)
                >> mark_running uuid now peer_turn_interruption (sorted_peer_turns q)))
              read
            ∙ ap
                (λ x.
                  continue x
                    (λ _. mark_running uuid now peer_turn_interruption (sorted_peer_turns p)))
                first
            ∙ second,
        ready'',
      )

-- Recovery leaves no work running. Where no event has an id that is yet to be drawn, and the
-- session's events replay, markInterruptedDelegations returns without an error: every delegation and
-- peer turn that ran in the projection of the events before is failed and marked as interrupted in
-- the projection of the events after, so that it may start again; all other work, and all else of
-- the projection but the last sequence, is as it was.
pub mark_interrupted-recovers :
    (uuid : ℕ → String) (now : ℕ → ℕ) (r : SessionRuntime) (p : Projection)
    → ((m n : ℕ) → uuid m ≡ uuid n → m ≡ n)
    → IsReady uuid r
    → replayed r ≡ ok p
    → (r' : SessionRuntime) × (q : Projection) × (mark_interrupted_delegations uuid now r
        ≡ (r', ok tt))
      × IsReady uuid r'
      × (replayed r' ≡ ok q)
      × ((k : String) → lookup k q.delegations ≡ on_some recovered (lookup k p.delegations))
      × ((k : String) → lookup k q.peer_turns ≡ on_some recovered (lookup k p.peer_turns))
      × (q ≡ with_work p q.delegations q.peer_turns q.last_sequence)
mark_interrupted-recovers uuid now r p distinct ready read =
    let (r', ran, ready') = mark_interrupted_returns uuid now distinct r p ready read in
    let (ds, ts, n, marked, marked', log) =
      both-Marked uuid now p (replay-IsCoherent r.session_id _ p read) r r'
        (replay-IsKeyed r.session_id _ p read) (record { numbered = ready.numbered; read = read })
        ran in
    (
      r',
      with_work p ds ts n,
      ran,
      ready',
      log.read,
      Marked-end recovered delegation_id p.delegations ds marked,
      Marked-end recovered peer_turn_id p.peer_turns ts marked',
      refl,
    )
