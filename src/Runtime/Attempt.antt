-- ===== src/Runtime/Attempt.antt =====
-- internal/orchestrator/runtime.go and peer.go: theorems about executeDelegation and executePeerTurn.
pub mod Outcomes
pub mod Lawful
use alt_tui.Runtime.Attempt.Lawful.{IsLawful}
use alt_tui.Prelude.{
  ℕ, String, ◌≡◌, refl, ap, ◌∙◌, inl, inr, Option, none, some, Bool, true, false, not, ◌&&◌, ◌||◌,
  List, [], ◌∷◌, ◌++◌, arith, eq_iff, Bool-cases, ok,
}
use alt_tui.Prelude.Dict.{Dict, lookup, update, lookup-update, on_some}
use alt_tui.Prelude.Text.{is_blank}
use alt_tui.Profile.{Profile}
use alt_tui.Event.{Event, StartedData, CompletedData, FailedData}
use alt_tui.Projection.{Projection, Work, started, finished, broken}
use alt_tui.Runtime.{
  Signal, SessionRuntime, RunError, not_replayed, continue, lifted, return, projection, replayed,
  push_signal, ◌>>◌,
}
use alt_tui.Runtime.Work.{is_settled}
use alt_tui.Runtime.Execution.{
  SpecialistResult, answered, Kind, or_trimmed, was_cancelled, is_cancelled_in, release, or_stop,
  started_draft, failed_draft, completed_draft, begin_found, begin_worker, begin, handle_failure,
  end, released, without,
}
use alt_tui.Runtime.Cancellation.{Stands, write_with}

abbrev pub completion : String → ℕ → SpecialistResult → CompletedData
completion id attempt d = record {
  id = id;
  attempt = attempt;
  result = d.result;
  findings = d.findings;
  risks = d.risks;
  confidence = d.confidence;
}

-- whether the failure of a run is left unrecorded: the work was cancelled, or the process stops
abbrev pub is_quiet : {S : Type 0} → Bool → SessionRuntime → Work S → Bool
is_quiet is_cancel r w = was_cancelled (some w) || (is_cancel && not r.user_cancelled)

-- the runtime's lists do not matter to the store
pub with_lists :
    (uuid : ℕ → String) (r : SessionRuntime) (p : Projection) (active : List String)
    (signals : List Signal)
    → Stands uuid r p
    → Stands uuid (record r { active = active; signals = signals }) p
with_lists uuid r p active signals h = record {
  ready = record { numbered = h.ready.numbered; row = h.ready.row; fresh = h.ready.fresh };
  read = h.read;
}

-- the item that a write changes
lookup-at :
    {S : Type 0} (id : String) (f : Work S → Work S) (m m' : Dict (Work S)) (w : Work S)
    → m' ≡ update id f m
    → lookup id m ≡ some w
    → lookup id m' ≡ some (f w)
lookup-at id f m m' w e at =
    ap (lookup id) e ∙ lookup-update id id f m ∙ rw ((eq_iff id id).1 refl) (ap (on_some f) at)

module _ (uuid : ℕ → String) (now : ℕ → ℕ) (distinct : (m n : ℕ) → uuid m ≡ uuid n → m ≡ n)
    (describe : RunError → String) (decode : String → Option SpecialistResult) {S : Type 0}
    (kind : Kind S) (lawful : IsLawful uuid kind) (id worker : String) (attempt : ℕ) where
  pub begin-starts :
      (profile : Profile) (r : SessionRuntime) (p : Projection) (w : Work S)
      → Stands uuid r p
      → lookup id (kind.items p) ≡ some w
      → is_settled w ≡ false
      → kind.worker profile w.spec ≡ ok worker
      → (s : SessionRuntime) × (q : Projection) × (begin uuid now describe decode kind profile id
            attempt r
          ≡ (s, ok (some worker)))
        × Stands uuid s q
        × (lookup id (kind.items q) ≡ some (started (record { id = id; attempt = attempt }) w))
  unfolding begin projection
  begin-starts profile r p w h at open_ may =
      let d : StartedData = record { id = id; attempt = attempt } in
      let r₁ : SessionRuntime = record r { active = id ∷ r.active } in
      let (s, item, ran, hs) =
        write_with uuid now distinct (started_draft uuid now describe decode kind worker id attempt)
          r₁ p (λ i. (lawful.on_start d i p).0) (with_lists uuid r p (id ∷ r.active) r.signals h)
          (lawful.sound_start d) (λ i. (lawful.on_start d i p).1) in
      let n = (lawful.on_start d item p).0 in
      (
        s,
        record n { last_sequence = item.sequence },
        ap
              (λ o. or_stop uuid now describe decode none (lifted not_replayed o r) (λ state.
                begin_found uuid now describe decode kind profile id attempt
                  (lookup id (kind.items state))))
              h.read
            ∙ ap (λ o. begin_found uuid now describe decode kind profile id attempt o r) at
            ∙ rw open_ (
                ap (λ o. begin_worker uuid now describe decode kind id attempt o r) may
                ∙ ap
                    (λ x.
                      released uuid now describe decode kind id
                        (or_stop uuid now describe decode none x (λ _. return (some worker))))
                    ran),
        hs,
        lookup-at id (started d) (kind.items p)
            (kind.items (record n { last_sequence = item.sequence })) w
            (lawful.covers n item.sequence ∙ (lawful.on_start d item p).2) at,
      )

  -- A result completes the item, however it stood.
  pub end-completes :
      (raw : String) (r : SessionRuntime) (p : Projection) (w : Work S)
      → Stands uuid r p
      → lookup id (kind.items p) ≡ some w
      → is_blank (or_trimmed raw (decode raw)).result ≡ false
      → (s : SessionRuntime) × (q : Projection) × (item : Event) × (end uuid now describe decode
            kind id worker attempt
            (answered raw)
            r
          ≡ (s, ok tt))
        × Stands uuid s q
        × (lookup id (kind.items q)
            ≡ some (finished (completion id attempt (or_trimmed raw (decode raw))) item w))
  unfolding end
  end-completes raw r p w h at given =
      let result = or_trimmed raw (decode raw) in
      let d = completion id attempt result in
      let (s, item, ran, hs) =
        write_with uuid now distinct
          (completed_draft uuid now describe decode kind worker id attempt result) r p
          (λ i. (lawful.on_finish d i p).0) h (lawful.sound_finish d)
          (λ i. (lawful.on_finish d i p).1) in
      let n = (lawful.on_finish d item p).0 in
      let signal : Signal = record {
        kind = kind.completed_kind;
        event_id = item.id;
        delegation_id = id;
      } in
      let s' : SessionRuntime = record s { signals = s.signals ++ signal ∷ [] } in
      let (t, ended, ht) =
        lawful.ends s' (record n { last_sequence = item.sequence })
          (with_lists uuid s (record n { last_sequence = item.sequence }) s.active
            (s.signals ++ signal ∷ []) hs) in
      (
        record t { active = without id t.active },
        record n { last_sequence = item.sequence },
        item,
        rw given (
            ap
              (λ x.
                continue
                  (or_stop uuid now describe decode tt x (λ i.
                    push_signal
                      (record { kind = kind.completed_kind; event_id = i.id; delegation_id = id })
                    >> λ y. or_stop uuid now describe decode tt (kind.at_end y) return))
                  (λ _. release id))
              ran
            ∙ ap (λ x. continue (or_stop uuid now describe decode tt x return) (λ _. release id))
                ended),
        with_lists uuid t (record n { last_sequence = item.sequence }) (without id t.active)
            t.signals ht,
        lookup-at id (finished d item) (kind.items p)
            (kind.items (record n { last_sequence = item.sequence })) w
            (lawful.covers n item.sequence ∙ (lawful.on_finish d item p).2) at,
      )

  pub failure_recorded :
      (cause : String) (is_cancel : Bool) (r : SessionRuntime) (p : Projection) (w : Work S)
      → Stands uuid r p
      → lookup id (kind.items p) ≡ some w
      → is_quiet is_cancel r w ≡ false
      → (s : SessionRuntime) × (q : Projection) × (item : Event) × (handle_failure uuid now describe
            decode kind id worker attempt cause is_cancel r
          ≡ (s, ok tt))
        × Stands uuid s q
        × (lookup id (kind.items q)
            ≡ some (broken (record { id = id; attempt = attempt; error = cause }) item w))
  unfolding handle_failure
  failure_recorded cause is_cancel r p w h at loud =
      let d : FailedData = record { id = id; attempt = attempt; error = cause } in
      let (s, item, ran, hs) =
        write_with uuid now distinct
          (failed_draft uuid now describe decode kind worker id attempt cause) r p
          (λ i. (lawful.on_failure d i p).0) h (lawful.sound_failure d)
          (λ i. (lawful.on_failure d i p).1) in
      let n = (lawful.on_failure d item p).0 in
      let signal : Signal = record {
        kind = kind.failed_kind;
        event_id = item.id;
        delegation_id = id;
      } in
      let kept : is_cancelled_in kind id (replayed r) ≡ false =
        ap (is_cancelled_in kind id) h.read ∙ ap was_cancelled at ∙ ground (arith, loud) in
      let goes : (is_cancel && not r.user_cancelled) ≡ false = ground (arith, loud) in
      (
        record s { signals = s.signals ++ signal ∷ [] },
        record n { last_sequence = item.sequence },
        item,
        rw (kept, goes)
            (ap
              (λ x. or_stop uuid now describe decode tt x (λ i.
                push_signal
                  (record { kind = kind.failed_kind; event_id = i.id; delegation_id = id })))
              ran),
        with_lists uuid s (record n { last_sequence = item.sequence }) s.active
            (s.signals ++ signal ∷ []) hs,
        lookup-at id (broken d item) (kind.items p)
            (kind.items (record n { last_sequence = item.sequence })) w
            (lawful.covers n item.sequence ∙ (lawful.on_failure d item p).2) at,
      )

  pub failure_unrecorded :
      (cause : String) (is_cancel : Bool) (r : SessionRuntime) (p : Projection) (w : Work S)
      → Stands uuid r p
      → lookup id (kind.items p) ≡ some w
      → is_quiet is_cancel r w ≡ true
      → handle_failure uuid now describe decode kind id worker attempt cause is_cancel r
        ≡ (r, ok tt)
  unfolding handle_failure
  failure_unrecorded cause is_cancel r p w h at quiet =
      let seen : is_cancelled_in kind id (replayed r) ≡ was_cancelled (some w) =
        ap (is_cancelled_in kind id) h.read ∙ ap was_cancelled at in
      elim (Bool-cases (was_cancelled (some w))) [
        | inl e ↦ rw (seen ∙ e) refl
        | inr e ↦
            let stops : (is_cancel && not r.user_cancelled) ≡ true = ground (arith, quiet, e) in
            rw (seen ∙ e, stops) refl
      ]
