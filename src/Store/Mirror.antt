-- ===== src/Store/Mirror.antt =====
-- internal/store/event.go: theorems about Append, a session's row and the projection of its events.
pub mod Rows
use text.Mathlib.Text.{◌==◌ as str_eq}
use alt_tui.Prelude.{
  ℕ, ◌+◌, ◌≤◌, ◌<◌, String, ◌≡◌, refl, sym, ap, ◌∙◌, ◌⊎◌, inl, inr, implies, not, Option, none,
  some, Bool, true, false, List, [], ◌∷◌, ◌++◌, arith, eq_iff, length, Bool-cases, Option-cases,
  Result, ok, err, >>=-eq-ok, ok-injective, subst,
}
use alt_tui.Prelude.Dict.{Dict, lookup, update, lookup-update}
use alt_tui.Event.{
  Event, Draft, Body, leadership_transferred, final_completed, session_failed, session_cancelled,
  session_created,
}
use alt_tui.Projection.{Projection, ApplyError, apply, apply_body, replay_from, replay, start}
use alt_tui.Projection.Replay.{Accepted, skipped, applied, apply-Accepted, replay_from-append}
use alt_tui.Store.{
  SessionStatus, session_running, session_failed_status, session_cancelled_status, Session, Tables,
  Change, no_change, change_of, changed, apply_session_projection, append, events_after,
}
use alt_tui.Store.Sequence.{append-event, append-IsNumbered}
use alt_tui.Store.Sequence.Reading.{IsNumbered, Steps, rows, drop-zero, events_after-drop}
use Rows.{
  is_running, is_failed, is_cancelled, Agrees, changed-Agrees, end_after, end_of, end_of-append,
  changed-end_after,
}

-- replaying events that are numbered up to a sequence covers no later one
pub replay_from-below :
    (n : ℕ) (l : List Event) (p q : Projection)
    → Steps n l
    → p.last_sequence ≤ n
    → replay_from p l ≡ ok q
    → q.last_sequence ≤ n + length l
unfolding replay_from
replay_from-below n [] p q h le e = ground (arith, le, e)
replay_from-below n (x ∷ l) p q h le e =
    let (m, first, rest) = >>=-eq-ok (apply p x) (λ m. replay_from m l) e in
    omega (
      arith,
      replay_from-below (n + 1) l m q h.1 (below_next n x p m le h.0 (apply-Accepted p m x first).1)
          rest,
    )
  where
    below_next :
        (n : ℕ) (x : Event) (p m : Projection)
        → p.last_sequence ≤ n
        → x.sequence ≡ n + 1
        → Accepted p x m
        → m.last_sequence ≤ n + 1
    below_next n x p m le at (skipped old same) = ground (arith, le, same)
    below_next n x p m le at (applied k lt b same) = ground (arith, at, same)

-- a projection that has covered less than an event applies it
applied-body :
    (p q : Projection) (item : Event)
    → p.last_sequence < item.sequence
    → Accepted p item q
    → (n : Projection) × (apply_body item.body item p ≡ ok n)
      × (q ≡ record n { last_sequence = item.sequence })
applied-body p q item lt (skipped le same) = absurd (omega (arith, lt, le))
applied-body p q item lt (applied n lt' b same) = (n, b, same)

Agrees-sequence :
    (s : Session) (p : Projection) (n : ℕ) → Agrees s p → Agrees s (record p { last_sequence = n })
Agrees-sequence s p n h = record {
  running = h.running;
  as_failed = h.as_failed;
  as_cancelled = h.as_cancelled;
  leader = h.leader;
  answer = h.answer;
}

-- A session that has a row, and events that replay, has a row that agrees with them.
abbrev pub RowAgrees : Option Session → Result ApplyError Projection → Type 0
RowAgrees (some s) (ok p) = Agrees s p
RowAgrees (some s) (err e) = Unit
RowAgrees none r = Unit

-- A session that has a row has the status of its events.
abbrev pub HasStatus : Option Session → List Event → Type 0
HasStatus (some s) l = s.status ≡ end_of session_running l
HasStatus none l = Unit

abbrev pub Mirrors : Tables → String → Type 0
Mirrors t id =
    RowAgrees (lookup id t.sessions) (replay id (events_after t id 0))
    × HasStatus (lookup id t.sessions) (events_after t id 0)

of_RowAgrees :
    (o : Option Session) (r : Result ApplyError Projection) (s : Session) (p : Projection)
    → RowAgrees o r
    → o ≡ some s
    → r ≡ ok p
    → Agrees s p
of_RowAgrees o r s p h e q = subst (λ x. RowAgrees (some s) x) q (subst (λ x. RowAgrees x r) e h)

RowAgrees-intro :
    (o : Option Session) (r : Result ApplyError Projection)
    → ((s : Session) (p : Projection) → o ≡ some s → r ≡ ok p → Agrees s p)
    → RowAgrees o r
RowAgrees-intro (some s) (ok p) h = h s p refl refl
RowAgrees-intro (some s) (err e) h = tt
RowAgrees-intro none r h = tt

of_HasStatus :
    (o : Option Session) (l : List Event) (s : Session)
    → HasStatus o l
    → o ≡ some s
    → s.status ≡ end_of session_running l
of_HasStatus o l s h e = subst (λ x. HasStatus x l) e h

HasStatus-intro :
    (o : Option Session) (l : List Event)
    → ((s : Session) → o ≡ some s → s.status ≡ end_of session_running l)
    → HasStatus o l
HasStatus-intro (some s) l h = h s refl
HasStatus-intro none l h = tt

row_changed :
    (item : Event) (sessions sessions' : Dict Session)
    → apply_session_projection item sessions ≡ ok sessions'
    → (c : Change) × (change_of item.body item.id ≡ ok c)
      × (update item.session_id (changed c item.at) sessions ≡ sessions')
unfolding apply_session_projection
row_changed item sessions sessions' h =
    let (c, change, h₁) = >>=-eq-ok (change_of item.body item.id) _ h in
    elim (Option-cases (lookup item.session_id sessions)) [
      | inl e ↦ absurd (ground (arith, e, h₁))
      | inr (s, e) ↦ (c, change, ground (arith, e, h₁))
    ]

row_before :
    (id : String) (f : Session → Session) (sessions : Dict Session) (s : Session)
    → lookup id (update id f sessions) ≡ some s
    → (s₀ : Session) × (lookup id sessions ≡ some s₀) × (f s₀ ≡ s)
row_before id f sessions s h = elim (Option-cases (lookup id sessions)) [
  | inl e ↦ absurd (ground (arith, h, e, lookup-update id id f sessions, (eq_iff id id).1 refl))
  | inr (s₀, e) ↦
      (s₀, e, ground (arith, h, e, lookup-update id id f sessions, (eq_iff id id).1 refl))
]

row_other :
    (id reader : String) (f : Session → Session) (sessions : Dict Session) (s : Session)
    → str_eq id reader ≡ false
    → lookup reader (update id f sessions) ≡ some s
    → lookup reader sessions ≡ some s
row_other id reader f sessions s other h =
    ground (arith, h, other, lookup-update id reader f sessions)

module _ (t t' : Tables) (session_id : String) (item : Event) (c : Change) (numbered : IsNumbered t)
    (mirrors : Mirrors t session_id) (next : item.sequence ≡ length (rows t session_id) + 1)
    (change : change_of item.body item.id ≡ ok c) where
  -- the projection before the new event, and the row of it
  before :
      (p : Projection)
      → replay session_id (rows t session_id ++ item ∷ []) ≡ ok p
      → (p₀ : Projection) × (n : Projection) × (replay session_id (events_after t session_id 0)
          ≡ ok p₀)
        × (apply_body item.body item p₀ ≡ ok n)
        × (p ≡ record n { last_sequence = item.sequence })
  unfolding replay start replay_from
  before p h =
      let l = rows t session_id in
      let (p₀, old, new) =
        >>=-eq-ok (replay_from (start session_id) l) _
          (sym (replay_from-append (start session_id) l (item ∷ [])) ∙ h) in
      let (q, first, same) = >>=-eq-ok (apply p₀ item) _ new in
      let below =
        replay_from-below 0 l (start session_id) p₀ (numbered session_id) (omega arith) old in
      let (n, body, sealed) =
        applied-body p₀ q item (omega (arith, below, next)) (apply-Accepted p₀ q item first).1 in
      let all : events_after t session_id 0 ≡ l =
        events_after-drop t session_id 0 numbered ∙ drop-zero l in
      (p₀, n, ap (replay session_id) all ∙ old, body, sym (ok-injective same) ∙ sealed)

  changed_row :
      (s₀ : Session) (p : Projection)
      → lookup session_id t.sessions ≡ some s₀
      → replay session_id (rows t session_id ++ item ∷ []) ≡ ok p
      → Agrees (changed c item.at s₀) p
  changed_row s₀ p e h =
      let (p₀, n, old, body, same) = before p h in
      subst (Agrees (changed c item.at s₀)) (sym same) (
        Agrees-sequence (changed c item.at s₀) n item.sequence (
          changed-Agrees s₀ p₀ (of_RowAgrees _ _ s₀ p₀ mirrors.0 e old) item.body item c n item.id
            item.at change body))

append-Agrees :
    (t t' : Tables) (session_id : String) (draft : Draft) (id : String) (now : ℕ) (item : Event)
    (reader : String)
    → IsNumbered t
    → Mirrors t reader
    → append t session_id draft id now ≡ ok (t', item)
    → (s : Session) (p : Projection) → lookup reader t'.sessions ≡ some s
    → replay reader (events_after t' reader 0) ≡ ok p
    → Agrees s p
append-Agrees t t' session_id draft id now item reader numbered mirrors h s p row replayed =
    let (made, _, projected) = append-event t t' session_id draft id now item h in
    let (_, next, read) = append-IsNumbered t t' session_id draft id now item numbered h in
    let (c, change, updated) = row_changed item t.sessions t'.sessions projected in
    let own : item.session_id ≡ session_id = ground (arith, made) in
    elim (Bool-cases (str_eq session_id reader)) [
      | inl same ↦
          let q : session_id ≡ reader = (eq_iff session_id reader).0 same in
          let events : events_after t' session_id 0 ≡ rows t session_id ++ item ∷ [] =
            read session_id 0
            ∙ rw ((eq_iff session_id session_id).1 refl)
                (drop-zero (rows t session_id ++ item ∷ [])) in
          let replayed' : replay session_id (rows t session_id ++ item ∷ []) ≡ ok p =
            ap (replay session_id) (sym events)
            ∙ subst (λ r. replay r (events_after t' r 0) ≡ ok p) (sym q) replayed in
          let row' : lookup session_id (update session_id (changed c item.at) t.sessions) ≡ some s =
            ap (λ i. lookup session_id (update i (changed c item.at) t.sessions)) (sym own)
            ∙ ap (lookup session_id) updated
            ∙ subst (λ r. lookup r t'.sessions ≡ some s) (sym q) row in
          let (s₀, old, new) = row_before session_id (changed c item.at) t.sessions s row' in
          subst (λ r. Agrees r p) new
            (changed_row t t' session_id item c numbered (subst (Mirrors t) (sym q) mirrors) next
              change s₀ p old replayed')
      | inr other ↦
          let kept : events_after t' reader 0 ≡ events_after t reader 0 =
            read reader 0 ∙ rw other (sym (events_after-drop t reader 0 numbered)) in
          of_RowAgrees _ _ s p mirrors.0
            (row_other session_id reader (changed c item.at) t.sessions s other (
              ap (λ i. lookup reader (update i (changed c item.at) t.sessions)) (sym own)
              ∙ ap (lookup reader) updated
              ∙ row))
            (ap (replay reader) (sym kept) ∙ replayed)
    ]

append-HasStatus :
    (t t' : Tables) (session_id : String) (draft : Draft) (id : String) (now : ℕ) (item : Event)
    (reader : String)
    → IsNumbered t
    → Mirrors t reader
    → append t session_id draft id now ≡ ok (t', item)
    → (s : Session) → lookup reader t'.sessions ≡ some s
    → s.status ≡ end_of session_running (events_after t' reader 0)
append-HasStatus t t' session_id draft id now item reader numbered mirrors h s row =
    let (made, _, projected) = append-event t t' session_id draft id now item h in
    let (_, _, read) = append-IsNumbered t t' session_id draft id now item numbered h in
    let (c, change, updated) = row_changed item t.sessions t'.sessions projected in
    let own : item.session_id ≡ session_id = ground (arith, made) in
    let l : List Event = rows t reader in
    let old : events_after t reader 0 ≡ l = events_after-drop t reader 0 numbered ∙ drop-zero l in
    let row' : lookup reader (update session_id (changed c item.at) t.sessions) ≡ some s =
      ap (λ i. lookup reader (update i (changed c item.at) t.sessions)) (sym own)
      ∙ ap (lookup reader) updated
      ∙ row in
    elim (Bool-cases (str_eq session_id reader)) [
      | inl same ↦
          let q : session_id ≡ reader = (eq_iff session_id reader).0 same in
          let (s₀, before, new) = row_before reader (changed c item.at) t.sessions s (
            subst (λ i. lookup reader (update i (changed c item.at) t.sessions) ≡ some s) q row') in
          let now_read : events_after t' reader 0 ≡ l ++ item ∷ [] =
            read reader 0 ∙ rw same (drop-zero (l ++ item ∷ [])) in
          ap (λ (x : Session). x.status) (sym new)
          ∙ changed-end_after item.body item.id c item.at s₀ change
          ∙ ap (end_after item.body)
              (of_HasStatus _ _ s₀ mirrors.1 before ∙ ap (end_of session_running) old)
          ∙ sym (end_of-append session_running l item)
          ∙ ap (end_of session_running) (sym now_read)
      | inr other ↦
          let kept : events_after t' reader 0 ≡ events_after t reader 0 =
            read reader 0 ∙ rw other (drop-zero l) ∙ sym old in
          of_HasStatus _ _ s mirrors.1
            (row_other session_id reader (changed c item.at) t.sessions s other row')
          ∙ ap (end_of session_running) (sym kept)
    ]

-- Append keeps each session's row in step with its events: of tables that are numbered, a session
-- whose row shows what its events replay to and how they ended it has such a row after the append, be
-- it to that session or to another. The status of the row is then completed, failed or cancelled as
-- the last event says that ended the session, and running if none has; and the row shows the leader
-- and the answer of the projection, runs exactly until the projection is terminal, and is failed or
-- cancelled only where the projection is.
pub append-Mirrors :
    (t t' : Tables) (session_id : String) (draft : Draft) (id : String) (now : ℕ) (item : Event)
    (reader : String)
    → IsNumbered t
    → Mirrors t reader
    → append t session_id draft id now ≡ ok (t', item)
    → Mirrors t' reader
append-Mirrors t t' session_id draft id now item reader numbered mirrors h = (
  RowAgrees-intro (lookup reader t'.sessions) (replay reader (events_after t' reader 0))
      (append-Agrees t t' session_id draft id now item reader numbered mirrors h),
  HasStatus-intro (lookup reader t'.sessions) (events_after t' reader 0)
      (append-HasStatus t t' session_id draft id now item reader numbered mirrors h),
)
