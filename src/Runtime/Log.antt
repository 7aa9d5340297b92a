-- ===== src/Runtime/Log.antt =====
-- internal/orchestrator/runtime.go: what one append does to the projection of the session's events.
use alt_tui.Prelude.{
  ℕ, ◌+◌, ◌≤◌, ◌<◌, String, ◌≡◌, refl, sym, ap, ◌∙◌, [], ◌∷◌, ◌++◌, ◌>>=◌ as after, arith, eq_iff,
  length, Result, ok, err, subst,
}
use alt_tui.Prelude.Dict.{Dict}
use alt_tui.Event.{Event, Draft}
use alt_tui.Projection.{
  Projection, Delegation, PeerTurn, ApplyError, apply, apply_body, replay_from, replay, start,
}
use alt_tui.Projection.Replay.{replay_from-append, replay_from-Onward}
use alt_tui.Store.{Tables, StoreError, append, events_after}
use alt_tui.Store.Sequence.{append-event, append-IsNumbered}
use alt_tui.Store.Sequence.Reading.{IsNumbered, rows, drop-zero, events_after-drop}
use alt_tui.Store.Mirror.{replay_from-below}
use alt_tui.Runtime.{
  SessionRuntime, Run, RunError, not_replayed, continue, lifted, kept, record_event, projection,
  replayed, ◌>>=◌,
}

-- The store is numbered, and the session's events replay to the projection.
pub record Log (r : SessionRuntime) (p : Projection) : Type 0 where
  pub numbered : IsNumbered r.tables
  pub read : replayed r ≡ ok p

-- two projections that differ in their work and in the last sequence at most
abbrev pub with_work : Projection → Dict Delegation → Dict PeerTurn → ℕ → Projection
with_work p ds ts n = record p { delegations = ds; peer_turns = ts; last_sequence = n }

apply_new :
    (p n : Projection) (item : Event)
    → item.session_id ≡ p.session_id
    → p.last_sequence < item.sequence
    → apply_body item.body item p ≡ ok n
    → apply p item ≡ ok (record n { last_sequence = item.sequence })
unfolding apply
apply_new p n item s lt b = ground (arith, eq_iff item.session_id p.session_id, b)

all_rows : (t : Tables) (id : String) → IsNumbered t → events_after t id 0 ≡ rows t id
all_rows t id h = events_after-drop t id 0 h ∙ drop-zero (rows t id)

-- the projection of the rows, its session and what it covers
rows_replayed :
    (t : Tables) (id : String) (p : Projection)
    → IsNumbered t
    → replay id (rows t id) ≡ ok p
    → (p.session_id ≡ id) × (p.last_sequence ≤ length (rows t id))
unfolding replay start
rows_replayed t id p h e = (
  (replay_from-Onward (start id) p (rows t id) e).0.session,
  omega (arith, replay_from-below 0 (rows t id) (start id) p (h id) (omega arith) e),
)

-- one event after a replay
abbrev then_apply : Result ApplyError Projection → Event → Result ApplyError Projection
then_apply o item = after o (λ q. replay_from q (item ∷ []))

replay-one :
    (p q : Projection) (item : Event) → apply p item ≡ ok q → replay_from p (item ∷ []) ≡ ok q
unfolding replay_from
replay-one p q item h = ap (λ o. after o ok) h

append_replayed :
    (t t' : Tables) (id : String) (draft : Draft) (event_id : String) (at : ℕ) (item : Event)
    (p n : Projection)
    → IsNumbered t
    → replay id (events_after t id 0) ≡ ok p
    → append t id draft event_id at ≡ ok (t', item)
    → apply_body item.body item p ≡ ok n
    → IsNumbered t'
      × (replay id (events_after t' id 0) ≡ ok (record n { last_sequence = item.sequence }))
unfolding replay
append_replayed t t' id draft event_id at item p n h e a b =
    let (made, _, _) = append-event t t' id draft event_id at item a in
    let (numbered, next, read) = append-IsNumbered t t' id draft event_id at item h a in
    let old : replay id (rows t id) ≡ ok p = ap (replay id) (sym (all_rows t id h)) ∙ e in
    let (session, below) = rows_replayed t id p h old in
    let events : events_after t' id 0 ≡ rows t id ++ item ∷ [] =
      read id 0 ∙ rw ((eq_iff id id).1 refl) (drop-zero (rows t id ++ item ∷ [])) in
    let step : apply p item ≡ ok (record n { last_sequence = item.sequence }) =
      apply_new p n item (ap (λ (x : Event). x.session_id) made ∙ sym session)
        (omega (arith, below, next)) b in
    (
      numbered,
      ap (replay id) events
          ∙ replay_from-append (start id) (rows t id) (item ∷ [])
          ∙ ap (λ o. then_apply o item) old
          ∙ replay-one p (record n { last_sequence = item.sequence }) item step,
    )

continue-eq-ok :
    {A B : Type 0} (x : SessionRuntime × Result RunError A) (f : A → Run B) (r : SessionRuntime)
    {b : B}
    → continue x f ≡ (r, ok b)
    → (s : SessionRuntime) × (a : A) × (x ≡ (s, ok a)) × (f a s ≡ (r, ok b))
continue-eq-ok (s, ok a) f r h = (s, a, refl, h)
continue-eq-ok (s, err e) f r h = cc

-- a step that returns made each of its parts return
pub bound :
    {A B : Type 0} (m : Run A) (f : A → Run B) (r r' : SessionRuntime) {b : B}
    → (m >>= f) r ≡ (r', ok b)
    → (s : SessionRuntime) × (a : A) × (m r ≡ (s, ok a)) × (f a s ≡ (r', ok b))
bound m f r r' h = continue-eq-ok (m r) f r' h

projection_of :
    (r r' : SessionRuntime) (o : Result ApplyError Projection) (p : Projection)
    → lifted not_replayed o r ≡ (r', ok p)
    → (r ≡ r') × (o ≡ ok p)
projection_of r r' (ok q) p h =
    (ap (λ (x : SessionRuntime × Result RunError Projection). x.0) h, cc)
projection_of r r' (err e) p h = cc

pub projection-eq :
    (r r' : SessionRuntime) (p : Projection)
    → projection r ≡ (r', ok p)
    → (r ≡ r') × (replayed r ≡ ok p)
unfolding projection
projection-eq r r' p h = projection_of r r' (replayed r) p h

-- what one append of a draft leads to, where it returns
pub record Recorded (draft : Draft) (item : Event) (p : Projection) (r r' : SessionRuntime)
    : Type 0 where
  pub body : item.body ≡ draft.body
  pub actor : item.actor ≡ draft.actor
  pub same : r' ≡ record r { tables = r'.tables; drawn = r.drawn + 1 }
  pub after :
      (n : Projection)
      → apply_body draft.body item p ≡ ok n
      → Log r' (record n { last_sequence = item.sequence })

Recorded-kept :
    (draft : Draft) (item : Event) (p : Projection) (r r' : SessionRuntime) (id : String) (at : ℕ)
    (o : Result StoreError (Tables × Event))
    → Log r p
    → append r.tables r.session_id draft id at ≡ o
    → kept r o ≡ (r', ok item)
    → Recorded draft item p r r'
Recorded-kept draft item p r r' id at (err e) l a h = cc
Recorded-kept draft item p r r' id at (ok (t, made)) l a h =
    let same : record r { tables = t; drawn = r.drawn + 1 } ≡ r' =
      ap (λ (x : SessionRuntime × Result RunError Event). x.0) h in
    let it : made ≡ item = cc in
    let (shape, _, _) = append-event r.tables t r.session_id draft id at made a in
    subst (λ s. Recorded draft item p r s) same
      (subst (λ i. Recorded draft i p r (record r { tables = t; drawn = r.drawn + 1 })) it
        (record {
          body = ap (λ (x : Event). x.body) shape;
          actor = ap (λ (x : Event). x.actor) shape;
          same = refl;
          after = λ n b.
              let (numbered, read) =
                append_replayed r.tables t r.session_id draft id at made p n l.numbered l.read a
                  (ap (λ x. apply_body x made p) (ap (λ (x : Event). x.body) shape) ∙ b) in
              record { numbered = numbered; read = read };
        }))

pub record_event-Recorded :
    (uuid : ℕ → String) (now : ℕ → ℕ) (draft : Draft) (item : Event) (p : Projection)
    (r r' : SessionRuntime)
    → Log r p
    → record_event uuid now draft r ≡ (r', ok item)
    → Recorded draft item p r r'
unfolding record_event
record_event-Recorded uuid now draft item p r r' l h =
    Recorded-kept draft item p r r' (uuid r.drawn) (now r.drawn)
      (append r.tables r.session_id draft (uuid r.drawn) (now r.drawn)) l refl h
