-- ===== src/Store/Sequence.antt =====
-- internal/store/event.go: theorems about the sequence numbers that Append gives.
pub mod Reading
use text.Mathlib.Text.{◌==◌ as str_eq}
use alt_tui.Prelude.{
  ℕ, ◌+◌, String, ◌≡◌, refl, sym, ap, ◌∙◌, inl, inr, List, [], ◌∷◌, ◌++◌, keep, arith, eq_iff,
  if◌then◌else◌, any, length, Bool-cases, ok, >>=-eq-ok, ok-injective, subst,
}
use alt_tui.Event.{Event, Draft, materialize}
use alt_tui.Store.{
  Tables, of_session, last_sequence, clashes, insert_event, apply_session_projection, append,
  events_after,
}
use alt_tui.Store.Sequence.Reading.{
  Steps, rows, IsNumbered, Steps-append, last_sequence-length, keep-append, drop, events_after-drop,
}

insert_event-appends :
    (item : Event) (events l : List Event)
    → insert_event item events ≡ ok l
    → events ++ item ∷ [] ≡ l
unfolding insert_event
insert_event-appends item events l h = elim (Bool-cases (any (clashes item) events)) [
  | inl e ↦ absurd (ground (arith, e))
  | inr e ↦ ground (arith, e)
]

-- what Append adds
pub append-event :
    (t t' : Tables) (session_id : String) (draft : Draft) (id : String) (now : ℕ) (item : Event)
    → append t session_id draft id now ≡ ok (t', item)
    → (item ≡ materialize draft id session_id (last_sequence t session_id + 1) now)
      × (t'.events ≡ t.events ++ item ∷ [])
      × (apply_session_projection item t.sessions ≡ ok t'.sessions)
unfolding append
append-event t t' session_id draft id now item h =
    let made = materialize draft id session_id (last_sequence t session_id + 1) now in
    let (events, first, h₁) = >>=-eq-ok (insert_event made t.events) _ h in
    let (sessions, second, h₂) = >>=-eq-ok (apply_session_projection made t.sessions) _ h₁ in
    subst
      (λ (r : Tables × Event).
        (r.1 ≡ made)
        × (r.0.events ≡ t.events ++ r.1 ∷ [])
        × (apply_session_projection r.1 t.sessions ≡ ok r.0.sessions))
      (ok-injective h₂) (refl, sym (insert_event-appends made t.events events first), second)

rows-append :
    (t t' : Tables) (session_id reader : String) (item : Event)
    → t'.events ≡ t.events ++ item ∷ []
    → item.session_id ≡ session_id
    → rows t' reader
      ≡ (if str_eq session_id reader then rows t reader ++ item ∷ [] else rows t reader)
rows-append t t' session_id reader item e s =
    ap (keep (of_session reader)) e
    ∙ keep-append (of_session reader) t.events item
    ∙ ap (λ i. if str_eq i reader then rows t reader ++ item ∷ [] else rows t reader) s

IsNumbered-append :
    (t t' : Tables) (session_id : String) (item : Event)
    → IsNumbered t
    → t'.events ≡ t.events ++ item ∷ []
    → item.session_id ≡ session_id
    → item.sequence ≡ length (rows t session_id) + 1
    → IsNumbered t'
IsNumbered-append t t' session_id item h e s next reader =
    subst (Steps 0) (sym (rows-append t t' session_id reader item e s))
      (elim (Bool-cases (str_eq session_id reader)) [
        | inl same ↦ rw same (
            Steps-append 0 (rows t reader) item (h reader) (
              subst (λ i. item.sequence ≡ 0 + length (rows t i) + 1)
                ((eq_iff session_id reader).0 same) (omega (arith, next))))
        | inr other ↦ rw other (h reader)
      ])

-- Append gives the next number: of tables whose sessions are numbered from 1 on without gaps it makes
-- such tables, with the new event after those of its session and all others as they were, so that a
-- reader of any session from any sequence on sees exactly that.
pub append-IsNumbered :
    (t t' : Tables) (session_id : String) (draft : Draft) (id : String) (now : ℕ) (item : Event)
    → IsNumbered t
    → append t session_id draft id now ≡ ok (t', item)
    → IsNumbered t'
      × (item.sequence ≡ length (rows t session_id) + 1)
      × ((reader : String) (after : ℕ)
          → events_after t' reader after
            ≡ drop after
                (if str_eq session_id reader then rows t reader ++ item ∷ [] else rows t reader))
append-IsNumbered t t' session_id draft id now item h a =
    let (made, events, _) = append-event t t' session_id draft id now item a in
    let next : item.sequence ≡ length (rows t session_id) + 1 =
      ground (arith, made, last_sequence-length t session_id h) in
    let numbered = IsNumbered-append t t' session_id item h events (ground (arith, made)) next in
    (
      numbered,
      next,
      λ reader after.
          events_after-drop t' reader after numbered
          ∙ ap (drop after) (rows-append t t' session_id reader item events (ground (arith, made))),
    )
