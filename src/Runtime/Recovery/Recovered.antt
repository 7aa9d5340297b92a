-- ===== src/Runtime/Recovery/Recovered.antt =====
-- internal/orchestrator/runtime.go: what the two loops of markInterruptedDelegations do.
use alt_tui.Prelude.{
  ℕ, String, ◌≡◌, refl, sym, ap, ◌∙◌, true, List, [], ◌∷◌, arith, eq_iff, Bool-cases, inl, inr, All,
  All-intro, Result, ok, ok-injective, subst, if◌then◌else◌,
}
use alt_tui.Prelude.Dict.{Dict, update}
use alt_tui.Event.{Event, FailedData}
use alt_tui.Projection.{Projection, Work, Delegation, PeerTurn, failed, broken, apply_body}
use alt_tui.Projection.Invariant.{IsCoherent, delegation_id, peer_turn_id}
use alt_tui.Projection.Keys.{IsKeyed}
use alt_tui.Projection.Views.{sorted_delegations, sorted_peer_turns}
use alt_tui.Runtime.{SessionRuntime, RunError, return, projection, ◌>>◌}
use alt_tui.Runtime.Work.{
  is_running, interruption, write, mark_running, mark_interrupted_delegations,
  delegation_interruption, peer_turn_interruption,
}
use alt_tui.Runtime.Log.{Log, with_work, bound, projection-eq, record_event-Recorded}
use alt_tui.Runtime.Marks.{Stands, Marked, Marked-start, Marked-skip, Marked-step, sorted-Stands}

module _ {S : Type 0} where
  -- work that ran is failed and marked, so that it may start again; other work is as it was
  abbrev pub recovered : Work S → Work S
  recovered w =
      if is_running w
      then record w { status = failed; error = interruption; interrupted = true }
      else w

  abbrev pub interruption_of : (S → String) → Work S → FailedData
  interruption_of id_of w = record { id = id_of w.spec; attempt = w.attempt; error = interruption }

  pub broken-running :
      (id_of : S → String) (w : Work S) (item : Event)
      → item.actor ≡ "recovery"
      → is_running w ≡ true
      → (broken (interruption_of id_of w) item w ≡ recovered w)
        × (broken (interruption_of id_of w) item (recovered w) ≡ recovered w)
  unfolding broken
  broken-running id_of w item a e = ground (arith, (eq_iff item.actor "recovery").1 a)

module _ (uuid : ℕ → String) (now : ℕ → ℕ) (p : Projection) (coherent : IsCoherent p) where
  -- the loop over the delegations
  pub delegations-Marked :
      (l : List Delegation) (c : Dict Delegation) (n : ℕ) (r r' : SessionRuntime)
      → All (Stands recovered delegation_id p.delegations) l
      → Marked recovered delegation_id p.delegations l c
      → Log r (with_work p c p.peer_turns n)
      → mark_running uuid now delegation_interruption l r ≡ (r', ok tt)
      → (c' : Dict Delegation) × (n' : ℕ) × Marked recovered delegation_id p.delegations [] c'
        × Log r' (with_work p c' p.peer_turns n')
  unfolding mark_running apply_body
  delegations-Marked [] c n r r' st m log h = (
    c,
    n,
    m,
    subst (λ s. Log s (with_work p c p.peer_turns n))
        (ap (λ (x : SessionRuntime × Result RunError (Unit {0})). x.0) h) log,
  )
  delegations-Marked (w ∷ l) c n r r' st m log h = elim (Bool-cases (is_running w)) [
    | inr e ↦
        delegations-Marked l c n r r' st.1
          (Marked-skip recovered delegation_id p.delegations w l c (ground (arith, e)) m) log
          (rw e at h)
    | inl e ↦
        let (s, _, first, rest) =
          bound (write uuid now (delegation_interruption w) >> return tt)
            (λ _. mark_running uuid now delegation_interruption l) r r' (rw e at h) in
        let (s', item, stored, done) =
          bound (write uuid now (delegation_interruption w)) (λ _. return tt) r s first in
        let rec =
          record_event-Recorded uuid now (delegation_interruption w) item
            (with_work p c p.peer_turns n) r s' log stored in
        let same : s' ≡ s = ap (λ (x : SessionRuntime × Result RunError (Unit {0})). x.0) done in
        let c' = update w.spec.id (broken (interruption_of delegation_id w) item) c in
        delegations-Marked l c' item.sequence s r' st.1
          (Marked-step recovered delegation_id p.delegations
            (broken (interruption_of delegation_id w) item) w l c coherent.delegations_ok st.0
            (broken-running delegation_id w item rec.actor e).0
            (broken-running delegation_id w item rec.actor e).1 m)
          (subst (λ x. Log x (with_work p c' p.peer_turns item.sequence)) same
            (rec.after (with_work p c' p.peer_turns n) refl))
          rest
  ]

  -- the loop over the peer turns
  pub peer_turns-Marked :
      (ds : Dict Delegation) (l : List PeerTurn) (c : Dict PeerTurn) (n : ℕ) (r r' : SessionRuntime)
      → All (Stands recovered peer_turn_id p.peer_turns) l
      → Marked recovered peer_turn_id p.peer_turns l c
      → Log r (with_work p ds c n)
      → mark_running uuid now peer_turn_interruption l r ≡ (r', ok tt)
      → (c' : Dict PeerTurn) × (n' : ℕ) × Marked recovered peer_turn_id p.peer_turns [] c'
        × Log r' (with_work p ds c' n')
  unfolding mark_running apply_body
  peer_turns-Marked ds [] c n r r' st m log h = (
    c,
    n,
    m,
    subst (λ s. Log s (with_work p ds c n))
        (ap (λ (x : SessionRuntime × Result RunError (Unit {0})). x.0) h) log,
  )
  peer_turns-Marked ds (w ∷ l) c n r r' st m log h = elim (Bool-cases (is_running w)) [
    | inr e ↦
        peer_turns-Marked ds l c n r r' st.1
          (Marked-skip recovered peer_turn_id p.peer_turns w l c (ground (arith, e)) m) log
          (rw e at h)
    | inl e ↦
        let (s, _, first, rest) =
          bound (write uuid now (peer_turn_interruption w) >> return tt)
            (λ _. mark_running uuid now peer_turn_interruption l) r r' (rw e at h) in
        let (s', item, stored, done) =
          bound (write uuid now (peer_turn_interruption w)) (λ _. return tt) r s first in
        let rec =
          record_event-Recorded uuid now (peer_turn_interruption w) item (with_work p ds c n) r s'
            log stored in
        let same : s' ≡ s = ap (λ (x : SessionRuntime × Result RunError (Unit {0})). x.0) done in
        let c' = update w.spec.id (broken (interruption_of peer_turn_id w) item) c in
        peer_turns-Marked ds l c' item.sequence s r' st.1
          (Marked-step recovered peer_turn_id p.peer_turns
            (broken (interruption_of peer_turn_id w) item) w l c coherent.peer_turns_ok st.0
            (broken-running peer_turn_id w item rec.actor e).0
            (broken-running peer_turn_id w item rec.actor e).1 m)
          (subst (λ x. Log x (with_work p ds c' item.sequence)) same
            (rec.after (with_work p ds c' n) refl))
          rest
  ]

  pub delegations_stand :
      IsKeyed p → All (Stands recovered delegation_id p.delegations) (sorted_delegations p)
  unfolding sorted_delegations
  delegations_stand keys =
      All-intro (Stands recovered delegation_id p.delegations) (sorted_delegations p) λ w i.
        sorted-Stands recovered delegation_id p.delegations w keys.delegations
          coherent.delegations_ok i

  pub peer_turns_stand :
      IsKeyed p → All (Stands recovered peer_turn_id p.peer_turns) (sorted_peer_turns p)
  unfolding sorted_peer_turns
  peer_turns_stand keys =
      All-intro (Stands recovered peer_turn_id p.peer_turns) (sorted_peer_turns p) λ w i.
        sorted-Stands recovered peer_turn_id p.peer_turns w keys.peer_turns coherent.peer_turns_ok i

  pub both-Marked :
      (r r' : SessionRuntime)
      → IsKeyed p
      → Log r p
      → mark_interrupted_delegations uuid now r ≡ (r', ok tt)
      → (ds : Dict Delegation) × (ts : Dict PeerTurn) × (n : ℕ) × Marked recovered delegation_id
          p.delegations [] ds
        × Marked recovered peer_turn_id p.peer_turns [] ts
        × Log r' (with_work p ds ts n)
  unfolding mark_interrupted_delegations sorted_delegations sorted_peer_turns
  both-Marked r r' keys log h =
      let (s, q, read, rest) = bound projection _ r r' h in
      let (same, found) = projection-eq r s q read in
      let it : p ≡ q = ok-injective (sym log.read ∙ found) in
      let rest' : (mark_running uuid now delegation_interruption (sorted_delegations p)
              >> mark_running uuid now peer_turn_interruption (sorted_peer_turns p))
            r
          ≡ (r', ok tt) =
        subst
          (λ (x : Projection).
            (mark_running uuid now delegation_interruption (sorted_delegations x)
                >> mark_running uuid now peer_turn_interruption (sorted_peer_turns x))
              r
            ≡ (r', ok tt))
          (sym it)
          (subst
            (λ x.
              (mark_running uuid now delegation_interruption (sorted_delegations q)
                  >> mark_running uuid now peer_turn_interruption (sorted_peer_turns q))
                x
              ≡ (r', ok tt))
            (sym same) rest) in
      let (s', _, first, second) =
        bound (mark_running uuid now delegation_interruption (sorted_delegations p))
          (λ _. mark_running uuid now peer_turn_interruption (sorted_peer_turns p)) r r' rest' in
      let (ds, n, marked, log') =
        delegations-Marked (sorted_delegations p) p.delegations p.last_sequence r s'
          (delegations_stand keys)
          (Marked-start recovered delegation_id p.delegations keys.delegations) log first in
      let (ts, n', marked', log'') =
        peer_turns-Marked ds (sorted_peer_turns p) p.peer_turns n s' r' (peer_turns_stand keys)
          (Marked-start recovered peer_turn_id p.peer_turns keys.peer_turns) log' second in
      (ds, ts, n', marked, marked', log'')
