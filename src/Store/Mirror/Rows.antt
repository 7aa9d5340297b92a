-- ===== src/Store/Mirror/Rows.antt =====
-- internal/store/event.go: what it is for a row to agree with a projection, and one change of both.
use text.Mathlib.Text.{◌==◌ as str_eq}
use alt_tui.Prelude.{
  ℕ, String, ◌≡◌, refl, sym, ap, List, [], ◌∷◌, ◌++◌, ◌⊎◌, implies, not, none, some, Bool, true,
  false, arith, ok, ok-injective, subst,
}
use alt_tui.Event.{
  Event, Body, leadership_transferred, final_completed, session_failed, session_cancelled,
  session_created,
}
use alt_tui.Projection.{Projection, apply_body}
use alt_tui.Store.{
  SessionStatus, session_running, session_completed, session_failed_status,
  session_cancelled_status, Session, Change, no_change, change_of, changed,
}

abbrev pub is_running : SessionStatus → Bool
is_running session_running = true
is_running _ = false

abbrev pub is_failed : SessionStatus → Bool
is_failed session_failed_status = true
is_failed _ = false

abbrev pub is_cancelled : SessionStatus → Bool
is_cancelled session_cancelled_status = true
is_cancelled _ = false

-- The row shows what the projection has: whether the turn runs or how it ended, and the leader and
-- the answer, where the projection has them.
pub record Agrees (s : Session) (p : Projection) : Type 0 where
  pub running : is_running s.status ≡ not p.terminal
  pub as_failed : implies (is_failed s.status) p.failed ≡ true
  pub as_cancelled : implies (is_cancelled s.status) p.cancelled ≡ true
  pub leader : (str_eq p.leader_id "" ≡ true) ⊎ (s.leader_id ≡ p.leader_id)
  pub answer : (str_eq p.final_answer "" ≡ true) ⊎ (s.final_answer ≡ p.final_answer)

-- the two projections have the same end, leader and answer
record Same (p n : Projection) : Type 0 where
  terminal : n.terminal ≡ p.terminal
  as_failed : n.failed ≡ p.failed
  as_cancelled : n.cancelled ≡ p.cancelled
  leader : n.leader_id ≡ p.leader_id
  answer : n.final_answer ≡ p.final_answer

-- what an event says of the end of its session, after what was said before
abbrev pub end_after : Body → SessionStatus → SessionStatus
end_after (final_completed _) s = session_completed
end_after (session_failed _) s = session_failed_status
end_after (session_cancelled _) s = session_cancelled_status
end_after _ s = s

-- The status of a session by its events: what the last event that ended it says, or that it runs.
unfoldable pub end_of : SessionStatus → List Event → SessionStatus
end_of s [] = s
end_of s (item ∷ rest) = end_of (end_after item.body s) rest

pub end_of-append :
    (s : SessionStatus) (l : List Event) (item : Event)
    → end_of s (l ++ item ∷ []) ≡ end_after item.body (end_of s l)
unfolding end_of
end_of-append s [] item = refl
end_of-append s (x ∷ l) item = end_of-append (end_after x.body s) l item

pub changed-end_after :
    (b : Body) (id : String) (c : Change) (at : ℕ) (s : Session)
    → change_of b id ≡ ok c
    → (changed c at s).status ≡ end_after b s.status
unfolding change_of changed
changed-end_after (leadership_transferred none) id c at s e = absurd (ground (arith, e))
changed-end_after (leadership_transferred (some d)) id c at s e =
    ap (λ k. (changed k at s).status) (sym (ok-injective e))
changed-end_after (final_completed none) id c at s e = absurd (ground (arith, e))
changed-end_after (final_completed (some d)) id c at s e =
    ap (λ k. (changed k at s).status) (sym (ok-injective e))
changed-end_after _ id c at s e = ap (λ k. (changed k at s).status) (sym (ok-injective e))

module _ (s : Session) (p : Projection) (h : Agrees s p) where
  unchanged-Agrees :
      (c : Change) (n : Projection) (at : ℕ) → no_change ≡ c → Same p n → Agrees (changed c at s) n
  unfolding changed
  unchanged-Agrees c n at e same =
      subst (λ k. Agrees (changed k at s) n) e (ground (arith, h, same))

  pub changed-Agrees :
      (b : Body) (item : Event) (c : Change) (n : Projection) (id : String) (at : ℕ)
      → change_of b id ≡ ok c
      → apply_body b item p ≡ ok n
      → Agrees (changed c at s) n
  unfolding change_of changed apply_body
  changed-Agrees (session_created d) item c n id at e a =
      unchanged-Agrees c n at (ground (arith, e)) (ground (arith, a))
  changed-Agrees (leadership_transferred none) item c n id at e a = absurd (ground (arith, e))
  changed-Agrees (leadership_transferred (some d)) item c n id at e a =
      subst (Agrees (changed c at s)) (ok-injective a) (
        subst (λ k. Agrees (changed k at s) (record p { leader_id = d.to_agent_id }))
          (ok-injective e) (ground (arith, h)))
  changed-Agrees (final_completed none) item c n id at e a = absurd (ground (arith, e))
  changed-Agrees (final_completed (some d)) item c n id at e a =
      subst (Agrees (changed c at s)) (ok-injective a) (
        subst (λ k. Agrees (changed k at s) (record p { final_answer = d; terminal = true }))
          (ok-injective e) (ground (arith, h)))
  changed-Agrees (session_failed d) item c n id at e a =
      subst (Agrees (changed c at s)) (ok-injective a) (
        subst (λ k. Agrees (changed k at s) (record p { terminal = true; failed = true }))
          (ok-injective e) (ground (arith, h)))
  changed-Agrees (session_cancelled d) item c n id at e a =
      subst (Agrees (changed c at s)) (ok-injective a) (
        subst (λ k. Agrees (changed k at s) (record p { terminal = true; cancelled = true }))
          (ok-injective e) (ground (arith, h)))
  changed-Agrees _ item c n id at e a =
      unchanged-Agrees c n at (ground (arith, e)) (ground (arith, a))
