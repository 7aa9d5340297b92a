-- ===== src/Projection/Replay.antt =====
-- internal/orchestrator/state.go: theorems about Replay and Apply as a fold.
use mathlib.Core.Path.{fun_ext}
use alt_tui.Prelude.{
  ◌≤◌, ◌<◌, String, ◌≡◌, refl, sym, ap, ◌∙◌, inl, inr, true, List, [], ◌∷◌, ◌++◌, arith, eq_iff,
  leb, implies, Bool-cases, In, Result, ok, err, ◌>>=◌, >>=-eq-ok, >>=-assoc,
}
use alt_tui.Event.{Event, Body, session_created}
use alt_tui.Projection.{
  Projection, ApplyError, apply_body, apply, start, replay_from, replay, sealed,
}

-- replaying one list after another is replaying both
pub replay_from-append :
    (p : Projection) (xs ys : List Event)
    → replay_from p (xs ++ ys) ≡ (replay_from p xs >>= λ q. replay_from q ys)
unfolding replay_from
replay_from-append p [] ys = refl
replay_from-append p (e ∷ xs) ys =
    ap (λ k. apply p e >>= k) (fun_ext λ n. replay_from-append n xs ys)
    ∙ sym (>>=-assoc (apply p e) (λ n. replay_from n xs) (λ q. replay_from q ys))

-- what an event leaves alone, and what it never takes back
pub record Onward (p q : Projection) : Type 0 where
  pub session : q.session_id ≡ p.session_id
  pub terminal : implies p.terminal q.terminal ≡ true
  pub failed : implies p.failed q.failed ≡ true
  pub cancelled : implies p.cancelled q.cancelled ≡ true

apply_body-Onward :
    (b : Body) (item : Event) (p q : Projection)
    → apply_body b item p ≡ ok q
    → Onward p q × (q.last_sequence ≡ p.last_sequence)
unfolding apply_body
apply_body-Onward (session_created d) item p q h = ground arith
apply_body-Onward _ item p q h = ground arith

-- The two ways in which an event of the session is accepted: it was covered, or it takes effect.
pub data Accepted (p : Projection) (e : Event) (q : Projection) : Type 0 where
  skipped : e.sequence ≤ p.last_sequence → q ≡ p → Accepted p e q
  applied :
      (n : Projection)
      → p.last_sequence < e.sequence
      → apply_body e.body e p ≡ ok n
      → q ≡ record n { last_sequence = e.sequence }
      → Accepted p e q

Accepted-sealed :
    (p q : Projection) (e : Event) (r : Result ApplyError Projection)
    → p.last_sequence < e.sequence
    → apply_body e.body e p ≡ r
    → sealed e r ≡ ok q
    → Accepted p e q
Accepted-sealed p q e (ok n) lt b h = applied n lt b (ground arith)
Accepted-sealed p q e (err x) lt b h = cc

pub apply-Accepted :
    (p q : Projection) (e : Event)
    → apply p e ≡ ok q
    → (e.session_id ≡ p.session_id) × Accepted p e q
unfolding apply
apply-Accepted p q e h = (
  ground (arith, eq_iff e.session_id p.session_id),
  elim (Bool-cases (leb e.sequence p.last_sequence)) [
    | inl old ↦ skipped (ground (arith, old)) (ground (arith, old))
    | inr new ↦
        Accepted-sealed p q e (apply_body e.body e p) (ground (arith, new)) refl
          (ground (arith, new))
  ],
)

covered_by :
    (p q : Projection) (e : Event)
    → Accepted p e q
    → Onward p q × (p.last_sequence ≤ q.last_sequence) × (e.sequence ≤ q.last_sequence)
covered_by p q e (skipped le same) = ground arith
covered_by p q e (applied n lt b same) =
    let (on, kept) = apply_body-Onward e.body e p n b in ground arith

-- an event that is accepted belongs to the session, and then its sequence is covered
apply-covers :
    (p q : Projection) (e : Event)
    → apply p e ≡ ok q
    → Onward p q
      × (p.last_sequence ≤ q.last_sequence)
      × (e.sequence ≤ q.last_sequence)
      × (e.session_id ≡ p.session_id)
apply-covers p q e h =
    let (session, accepted) = apply-Accepted p q e h in
    let (on, le, covered) = covered_by p q e accepted in (on, le, covered, session)

-- an event of the session that is covered changes nothing
apply_covered :
    (p : Projection) (e : Event)
    → e.session_id ≡ p.session_id
    → e.sequence ≤ p.last_sequence
    → apply p e ≡ ok p
unfolding apply
apply_covered p e s h = ground (arith, eq_iff e.session_id p.session_id)

Onward-trans : (p q r : Projection) → Onward p q → Onward q r → Onward p r
Onward-trans p q r h k = ground (arith, h, k)

-- Replay never takes an end of the session back, and covers every sequence that it has read.
pub replay_from-Onward :
    (p q : Projection) (l : List Event)
    → replay_from p l ≡ ok q
    → Onward p q × (p.last_sequence ≤ q.last_sequence)
unfolding replay_from
replay_from-Onward p q [] h = ground arith
replay_from-Onward p q (e ∷ l) h =
    let (n, first, rest) = >>=-eq-ok (apply p e) (λ n. replay_from n l) h in
    let (on, le, _, _) = apply-covers p n e first in
    let (on', le') = replay_from-Onward n q l rest in (Onward-trans p n q on on', omega arith)

replay_from-covers :
    (p q : Projection) (l : List Event) (e : Event)
    → replay_from p l ≡ ok q
    → In e l
    → (e.sequence ≤ q.last_sequence) × (e.session_id ≡ q.session_id)
unfolding replay_from
replay_from-covers p q [] e h m = elim m [ ]
replay_from-covers p q (x ∷ l) e h (inl same) =
    let (n, first, rest) = >>=-eq-ok (apply p x) (λ n. replay_from n l) h in
    let (on, _, covered, session) = apply-covers p n x first in
    let (on', le) = replay_from-Onward n q l rest in
    rw same (omega arith, session ∙ sym (on'.session ∙ on.session))
replay_from-covers p q (x ∷ l) e h (inr m) =
    let (n, first, rest) = >>=-eq-ok (apply p x) (λ n. replay_from n l) h in
    replay_from-covers n q l e rest m

-- An event that a projection was rebuilt from may be delivered again: Apply accepts it and changes
-- nothing, whatever came in between.
pub replay_redelivery :
    (session_id : String) (events : List Event) (p : Projection) (e : Event)
    → replay session_id events ≡ ok p
    → In e events
    → apply p e ≡ ok p
unfolding replay
replay_redelivery session_id events p e h m =
    let (covered, session) = replay_from-covers (start session_id) p events e h m in
    apply_covered p e session covered

-- An ended session stays ended: after any further events that replay accepts, terminal, failed and
-- cancelled are set if they were, and the session is the same.
pub replay_keeps_ending :
    (session_id : String) (before after : List Event) (p q : Projection)
    → replay session_id before ≡ ok p
    → replay session_id (before ++ after) ≡ ok q
    → Onward p q
unfolding replay
replay_keeps_ending session_id before after p q h k =
    (replay_from-Onward p q after
      (rw h at (sym (replay_from-append (start session_id) before after) ∙ k))).0
