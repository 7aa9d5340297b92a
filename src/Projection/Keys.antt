-- ===== src/Projection/Keys.antt =====
-- internal/orchestrator/state.go: the maps of a projection that Replay returns have unique keys.
use alt_tui.Prelude.{String, ◌≡◌, some, List, [], ◌∷◌, arith, ok, >>=-eq-ok, ok-injective, subst}
use alt_tui.Prelude.Dict.Unique.{HasUniqueKeys, HasUniqueKeys-insert, HasUniqueKeys-update}
use alt_tui.Event.{
  Event, Body, delegation_created, delegation_started, delegation_completed, delegation_failed,
  delegation_cancelled, peer_turn_created, peer_turn_started, peer_turn_completed, peer_turn_failed,
  peer_turn_cancelled,
}
use alt_tui.Projection.{
  Projection, created, started, finished, broken, stopped, apply_body, apply, start, replay_from,
  replay,
}
use alt_tui.Projection.Replay.{Accepted, skipped, applied, apply-Accepted}

pub record IsKeyed (p : Projection) : Type 0 where
  pub delegations : HasUniqueKeys p.delegations
  pub peer_turns : HasUniqueKeys p.peer_turns

module _ (p : Projection) (h : IsKeyed p) where
  apply_body-IsKeyed :
      (b : Body) (item : Event) (q : Projection) → apply_body b item p ≡ ok q → IsKeyed q
  unfolding apply_body
  apply_body-IsKeyed (delegation_created (some d)) item q e =
      subst IsKeyed (ok-injective e)
        (ground (arith, HasUniqueKeys-insert d.id (created d item) p.delegations h.delegations, h))
  apply_body-IsKeyed (delegation_started (some d)) item q e =
      subst IsKeyed (ok-injective e)
        (ground (arith, HasUniqueKeys-update d.id (started d) p.delegations h.delegations, h))
  apply_body-IsKeyed (delegation_completed (some d)) item q e =
      subst IsKeyed (ok-injective e)
        (ground (arith, HasUniqueKeys-update d.id (finished d item) p.delegations h.delegations, h))
  apply_body-IsKeyed (delegation_failed (some d)) item q e =
      subst IsKeyed (ok-injective e)
        (ground (arith, HasUniqueKeys-update d.id (broken d item) p.delegations h.delegations, h))
  apply_body-IsKeyed (delegation_cancelled (some d)) item q e =
      subst IsKeyed (ok-injective e)
        (ground (arith, HasUniqueKeys-update d.id stopped p.delegations h.delegations, h))
  apply_body-IsKeyed (peer_turn_created (some d)) item q e =
      subst IsKeyed (ok-injective e)
        (ground (arith, HasUniqueKeys-insert d.id (created d item) p.peer_turns h.peer_turns, h))
  apply_body-IsKeyed (peer_turn_started (some d)) item q e =
      subst IsKeyed (ok-injective e)
        (ground (arith, HasUniqueKeys-update d.id (started d) p.peer_turns h.peer_turns, h))
  apply_body-IsKeyed (peer_turn_completed (some d)) item q e =
      subst IsKeyed (ok-injective e)
        (ground (arith, HasUniqueKeys-update d.id (finished d item) p.peer_turns h.peer_turns, h))
  apply_body-IsKeyed (peer_turn_failed (some d)) item q e =
      subst IsKeyed (ok-injective e)
        (ground (arith, HasUniqueKeys-update d.id (broken d item) p.peer_turns h.peer_turns, h))
  apply_body-IsKeyed (peer_turn_cancelled (some d)) item q e =
      subst IsKeyed (ok-injective e)
        (ground (arith, HasUniqueKeys-update d.id stopped p.peer_turns h.peer_turns, h))
  apply_body-IsKeyed _ item q e = ground (arith, h.delegations, h.peer_turns)

Accepted-IsKeyed : (p q : Projection) (item : Event) → IsKeyed p → Accepted p item q → IsKeyed q
Accepted-IsKeyed p q item h (skipped le same) = rw same h
Accepted-IsKeyed p q item h (applied n lt b same) =
    let k = apply_body-IsKeyed p h item.body item n b in
    rw same (record { delegations = k.delegations; peer_turns = k.peer_turns })

replay_from-IsKeyed :
    (p q : Projection) (l : List Event) → IsKeyed p → replay_from p l ≡ ok q → IsKeyed q
unfolding replay_from
replay_from-IsKeyed p q [] h e = subst IsKeyed (ok-injective e) h
replay_from-IsKeyed p q (item ∷ l) h e =
    let (n, first, rest) = >>=-eq-ok (apply p item) (λ n. replay_from n l) e in
    replay_from-IsKeyed n q l (Accepted-IsKeyed p n item h (apply-Accepted p n item first).1) rest

pub replay-IsKeyed :
    (session_id : String) (events : List Event) (p : Projection)
    → replay session_id events ≡ ok p
    → IsKeyed p
unfolding replay start
replay-IsKeyed session_id events p e =
    replay_from-IsKeyed (start session_id) p events (ground arith) e
