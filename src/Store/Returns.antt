-- ===== src/Store/Returns.antt =====
-- internal/store/event.go: where Append returns.
use text.Mathlib.Text.{◌==◌ as str_eq}
use alt_tui.Prelude.{
  ℕ, ◌+◌, ◌<◌, String, ◌≡◌, refl, ◌∙◌, inl, inr, some, Bool, false, List, [], ◌∷◌, ◌++◌, arith, any,
  keep, Bool-cases, ok, if◌then◌else◌, ltb,
}
use alt_tui.Prelude.Dict.{Dict, lookup, update, lookup-update}
use alt_tui.Event.{Event, Draft, Body, materialize}
use alt_tui.Store.{
  Tables, Session, Change, change_of, changed, of_session, clashes, max_sequence, last_sequence,
  insert_event, apply_session_projection, append,
}

-- the event changes the row of its session, or leaves it alone
abbrev pub IsSound : Body → Type 0
IsSound b = (id : String) → (c : Change) × (change_of b id ≡ ok c)

abbrev pub named : String → Event → Bool
named id e = str_eq e.id id

no_clash :
    (item : Event) (l : List Event)
    → any (named item.id) l ≡ false
    → max_sequence (keep (of_session item.session_id) l) < item.sequence
    → any (clashes item) l ≡ false
unfolding max_sequence keep
no_clash item [] h lt = refl
no_clash item (e ∷ l) h lt = elim (Bool-cases (of_session item.session_id e)) [
  | inl q ↦
      let lt' : (if ltb (max_sequence (keep (of_session item.session_id) l)) e.sequence
            then e.sequence
            else max_sequence (keep (of_session item.session_id) l))
          < item.sequence =
        rw q at lt in
      let bounds : (e.sequence < item.sequence)
          × (max_sequence (keep (of_session item.session_id) l) < item.sequence) =
        ground (arith, lt') in
      ground (arith, h, q, bounds.0, no_clash item l)
  | inr q ↦ ground (arith, h, q, no_clash item l (ground (arith, h)) (rw q at lt))
]

pub row_stays :
    (id k : String) (f : Session → Session) (m : Dict Session) (s : Session)
    → lookup k m ≡ some s
    → (s' : Session) × (lookup k (update id f m) ≡ some s')
row_stays id k f m s e = elim (Bool-cases (str_eq id k)) [
  | inl q ↦ (f s, lookup-update id k f m ∙ rw q (rw e refl))
  | inr q ↦ (s, lookup-update id k f m ∙ rw q e)
]

-- what Append returns for a new id, in a session that has a row
pub appended :
    (t : Tables) (id event_id : String) (draft : Draft) (at : ℕ) (s : Session) (c : Change)
    → lookup id t.sessions ≡ some s
    → change_of draft.body event_id ≡ ok c
    → any (named event_id) t.events ≡ false
    → append t id draft event_id at
      ≡ ok (
        record {
          sessions = update id (changed c at) t.sessions;
          events = t.events ++ materialize draft event_id id (last_sequence t id + 1) at ∷ [];
        },
        materialize draft event_id id (last_sequence t id + 1) at,
      )
unfolding append insert_event apply_session_projection last_sequence
appended t id event_id draft at s c row change new =
    let made = materialize draft event_id id (last_sequence t id + 1) at in
    let free : any (clashes made) t.events ≡ false = no_clash made t.events new (omega arith) in
    ground (arith, free, row, change)
