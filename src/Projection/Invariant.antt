-- ===== src/Projection/Invariant.antt =====
-- internal/orchestrator/state.go: an invariant of the projections that Replay returns.
use alt_tui.Prelude.{
  String, ◌≡◌, ◌⊎◌, implies, some, true, false, List, [], ◌∷◌, arith, ok, >>=-eq-ok, ok-injective,
  subst,
}
use alt_tui.Prelude.Dict.{Dict, insert, update, Entries, Entries-insert, Entries-update}
use alt_tui.Event.{
  Event, Body, DelegationSpec, PeerTurnSpec, StartedData, CompletedData, FailedData,
  delegation_created, delegation_started, delegation_completed, delegation_failed,
  delegation_cancelled, peer_turn_created, peer_turn_started, peer_turn_completed, peer_turn_failed,
  peer_turn_cancelled,
}
use alt_tui.Projection.{
  Projection, Work, Delegation, PeerTurn, failed, created, started, finished, broken, stopped,
  apply_body, apply, start, replay_from, replay,
}
use alt_tui.Projection.Replay.{Accepted, skipped, applied, apply-Accepted}

-- An item stands under its own id, and only a failed one can be marked as interrupted.
pub record WorkOk {S : Type 0} (id_of : S → String) (k : String) (w : Work S) : Type 0 where
  pub keyed : id_of w.spec ≡ k
  pub marked : (w.interrupted ≡ false) ⊎ (w.status ≡ failed)

abbrev pub delegation_id : DelegationSpec → String
delegation_id s = s.id

abbrev pub peer_turn_id : PeerTurnSpec → String
peer_turn_id s = s.id

pub record IsCoherent (p : Projection) : Type 0 where
  pub failed_ends : implies p.failed p.terminal ≡ true
  pub cancelled_ends : implies p.cancelled p.terminal ≡ true
  pub delegations_ok : Entries (WorkOk delegation_id) p.delegations
  pub peer_turns_ok : Entries (WorkOk peer_turn_id) p.peer_turns

module _ {S : Type 0} (id_of : S → String) where
  created-WorkOk : (spec : S) (item : Event) → WorkOk id_of (id_of spec) (created spec item)
  unfolding created
  created-WorkOk spec item = ground arith

  started-WorkOk :
      (d : StartedData) (k : String) (w : Work S) → WorkOk id_of k w → WorkOk id_of k (started d w)
  unfolding started
  started-WorkOk d k w h = ground arith

  finished-WorkOk :
      (d : CompletedData) (item : Event) (k : String) (w : Work S)
      → WorkOk id_of k w
      → WorkOk id_of k (finished d item w)
  unfolding finished
  finished-WorkOk d item k w h = ground arith

  broken-WorkOk :
      (d : FailedData) (item : Event) (k : String) (w : Work S)
      → WorkOk id_of k w
      → WorkOk id_of k (broken d item w)
  unfolding broken
  broken-WorkOk d item k w h = ground arith

  stopped-WorkOk : (k : String) (w : Work S) → WorkOk id_of k w → WorkOk id_of k (stopped w)
  unfolding stopped
  stopped-WorkOk k w h = ground arith

module _ (p : Projection) (h : IsCoherent p) where
  with_delegations :
      (m : Dict Delegation)
      → Entries (WorkOk delegation_id) m
      → IsCoherent (record p { delegations = m })
  with_delegations m e = record {
    failed_ends = h.failed_ends;
    cancelled_ends = h.cancelled_ends;
    delegations_ok = e;
    peer_turns_ok = h.peer_turns_ok;
  }

  with_peer_turns :
      (m : Dict PeerTurn)
      → Entries (WorkOk peer_turn_id) m
      → IsCoherent (record p { peer_turns = m })
  with_peer_turns m e = record {
    failed_ends = h.failed_ends;
    cancelled_ends = h.cancelled_ends;
    delegations_ok = h.delegations_ok;
    peer_turns_ok = e;
  }

  delegation_step :
      (id : String) (f : Delegation → Delegation)
      → ((k : String) (w : Delegation) → WorkOk delegation_id k w → WorkOk delegation_id k (f w))
      → IsCoherent (record p { delegations = update id f p.delegations })
  delegation_step id f step =
      with_delegations (update id f p.delegations)
        (Entries-update (WorkOk delegation_id) id f p.delegations step h.delegations_ok)

  peer_turn_step :
      (id : String) (f : PeerTurn → PeerTurn)
      → ((k : String) (w : PeerTurn) → WorkOk peer_turn_id k w → WorkOk peer_turn_id k (f w))
      → IsCoherent (record p { peer_turns = update id f p.peer_turns })
  peer_turn_step id f step =
      with_peer_turns (update id f p.peer_turns)
        (Entries-update (WorkOk peer_turn_id) id f p.peer_turns step h.peer_turns_ok)

  apply_body-IsCoherent :
      (b : Body) (item : Event) (q : Projection) → apply_body b item p ≡ ok q → IsCoherent q
  unfolding apply_body
  apply_body-IsCoherent (delegation_created (some d)) item q e = subst IsCoherent (ok-injective e) (
      with_delegations (insert d.id (created d item) p.delegations) (
        Entries-insert (WorkOk delegation_id) d.id (created d item) p.delegations
          (created-WorkOk delegation_id d item) h.delegations_ok))
  apply_body-IsCoherent (delegation_started (some d)) item q e =
      subst IsCoherent (ok-injective e)
        (delegation_step d.id (started d) (started-WorkOk delegation_id d))
  apply_body-IsCoherent (delegation_completed (some d)) item q e =
      subst IsCoherent (ok-injective e)
        (delegation_step d.id (finished d item) (finished-WorkOk delegation_id d item))
  apply_body-IsCoherent (delegation_failed (some d)) item q e =
      subst IsCoherent (ok-injective e)
        (delegation_step d.id (broken d item) (broken-WorkOk delegation_id d item))
  apply_body-IsCoherent (delegation_cancelled (some d)) item q e =
      subst IsCoherent (ok-injective e)
        (delegation_step d.id stopped (stopped-WorkOk delegation_id))
  apply_body-IsCoherent (peer_turn_created (some d)) item q e = subst IsCoherent (ok-injective e) (
      with_peer_turns (insert d.id (created d item) p.peer_turns) (
        Entries-insert (WorkOk peer_turn_id) d.id (created d item) p.peer_turns
          (created-WorkOk peer_turn_id d item) h.peer_turns_ok))
  apply_body-IsCoherent (peer_turn_started (some d)) item q e =
      subst IsCoherent (ok-injective e)
        (peer_turn_step d.id (started d) (started-WorkOk peer_turn_id d))
  apply_body-IsCoherent (peer_turn_completed (some d)) item q e =
      subst IsCoherent (ok-injective e)
        (peer_turn_step d.id (finished d item) (finished-WorkOk peer_turn_id d item))
  apply_body-IsCoherent (peer_turn_failed (some d)) item q e =
      subst IsCoherent (ok-injective e)
        (peer_turn_step d.id (broken d item) (broken-WorkOk peer_turn_id d item))
  apply_body-IsCoherent (peer_turn_cancelled (some d)) item q e =
      subst IsCoherent (ok-injective e) (peer_turn_step d.id stopped (stopped-WorkOk peer_turn_id))
  apply_body-IsCoherent _ item q e =
      ground (arith, h.failed_ends, h.cancelled_ends, h.delegations_ok, h.peer_turns_ok)

Accepted-IsCoherent :
    (p q : Projection) (item : Event) → IsCoherent p → Accepted p item q → IsCoherent q
Accepted-IsCoherent p q item h (skipped le same) = rw same h
Accepted-IsCoherent p q item h (applied n lt b same) =
    let c = apply_body-IsCoherent p h item.body item n b in
    rw same (record {
      failed_ends = c.failed_ends;
      cancelled_ends = c.cancelled_ends;
      delegations_ok = c.delegations_ok;
      peer_turns_ok = c.peer_turns_ok;
    })

pub replay_from-IsCoherent :
    (p q : Projection) (l : List Event) → IsCoherent p → replay_from p l ≡ ok q → IsCoherent q
unfolding replay_from
replay_from-IsCoherent p q [] h e = subst IsCoherent (ok-injective e) h
replay_from-IsCoherent p q (item ∷ l) h e =
    let (n, first, rest) = >>=-eq-ok (apply p item) (λ n. replay_from n l) e in
    replay_from-IsCoherent n q l (Accepted-IsCoherent p n item h (apply-Accepted p n item first).1)
      rest

-- Every projection that Replay returns is coherent: a failed or cancelled turn is terminal, every
-- delegation and peer turn stands under the id of its specification, and only a failed one is
-- marked as interrupted.
pub replay-IsCoherent :
    (session_id : String) (events : List Event) (p : Projection)
    → replay session_id events ≡ ok p
    → IsCoherent p
unfolding replay start
replay-IsCoherent session_id events p e =
    replay_from-IsCoherent (start session_id) p events (ground arith) e
