-- ===== src/Runtime/Returns.antt =====
-- internal/orchestrator/runtime.go: appends return where the ids that they draw are new.
use text.Mathlib.Text.{◌==◌ as str_eq}
use alt_tui.Prelude.{
  ℕ, ◌+◌, ◌≤◌, String, ◌≡◌, refl, sym, ap, ◌∙◌, inl, inr, some, false, [], ◌∷◌, ◌++◌, arith, eq_iff,
  any, any-append, Bool-cases, ok,
}
use alt_tui.Prelude.Dict.{lookup, update}
use alt_tui.Event.{Event, Draft, materialize}
use alt_tui.Store.{Tables, Session, changed, last_sequence}
use alt_tui.Store.Sequence.{append-IsNumbered}
use alt_tui.Store.Sequence.Reading.{IsNumbered}
use alt_tui.Store.Returns.{IsSound, named, row_stays, appended}
use alt_tui.Runtime.{SessionRuntime, kept, record_event}

-- The store is numbered and has the session, and no event has an id that is yet to be drawn.
pub record IsReady (uuid : ℕ → String) (r : SessionRuntime) : Type 0 where
  pub numbered : IsNumbered r.tables
  pub row : (s : Session) × (lookup r.session_id r.tables.sessions ≡ some s)
  pub fresh : (n : ℕ) → r.drawn ≤ n → any (named (uuid n)) r.tables.events ≡ false

module _ (uuid : ℕ → String) (now : ℕ → ℕ) (distinct : (m n : ℕ) → uuid m ≡ uuid n → m ≡ n) where
  -- an id that was drawn is not drawn again
  still_fresh :
      (r : SessionRuntime) (made : Event) (n : ℕ)
      → IsReady uuid r
      → made.id ≡ uuid r.drawn
      → r.drawn + 1 ≤ n
      → any (named (uuid n)) (r.tables.events ++ made ∷ []) ≡ false
  still_fresh r made n ready e le =
      let other : str_eq made.id (uuid n) ≡ false = not_drawn made.id r.drawn n e le in
      any-append (named (uuid n)) r.tables.events (made ∷ [])
      ∙ ground (arith, ready.fresh n (omega (arith, le)), other)
    where
      not_drawn : (id : String) (m n : ℕ) → id ≡ uuid m → m + 1 ≤ n → str_eq id (uuid n) ≡ false
      not_drawn id m n e le = elim (Bool-cases (str_eq id (uuid n))) [
        | inl q ↦
            let same : m ≡ n = distinct m n (sym e ∙ (eq_iff id (uuid n)).0 q) in
            absurd (omega (arith, le, same))
        | inr q ↦ q
      ]

  -- Where the store is ready, an append returns, and leaves it ready.
  pub record_event_returns :
      (draft : Draft) (r : SessionRuntime)
      → IsReady uuid r
      → IsSound draft.body
      → (r' : SessionRuntime) × (item : Event) × (record_event uuid now draft r ≡ (r', ok item))
        × IsReady uuid r'
  unfolding record_event
  record_event_returns draft r ready sound =
      let (s, row) = ready.row in
      let (c, change) = sound (uuid r.drawn) in
      let made =
        materialize draft (uuid r.drawn) r.session_id (last_sequence r.tables r.session_id + 1)
          (now r.drawn) in
      let t : Tables = record {
        sessions = update r.session_id (changed c (now r.drawn)) r.tables.sessions;
        events = r.tables.events ++ made ∷ [];
      } in
      let done =
        appended r.tables r.session_id (uuid r.drawn) draft (now r.drawn) s c row change
          (ready.fresh r.drawn (omega arith)) in
      (
        record r { tables = t; drawn = r.drawn + 1 },
        made,
        ap (kept r) done,
        record {
          numbered =
              (append-IsNumbered r.tables t r.session_id draft (uuid r.drawn) (now r.drawn) made
                ready.numbered done).0;
          row =
              row_stays r.session_id r.session_id (changed c (now r.drawn)) r.tables.sessions s row;
          fresh = λ n le. still_fresh r made n ready refl le;
        },
      )
