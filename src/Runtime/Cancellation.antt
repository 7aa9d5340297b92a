-- ===== src/Runtime/Cancellation.antt =====
-- internal/orchestrator/runtime.go: theorems about cancelDelegation and cancelWork.
use text.Mathlib.Text.{◌==◌ as str_eq}
use alt_tui.Prelude.{
  ℕ, String, ◌≡◌, refl, sym, ap, ◌∙◌, inl, inr, Option, none, some, List, ◌∷◌, Bool, true, not,
  ◌&&◌, ◌||◌, eq_iff, Bool-cases, ok, if◌then◌else◌,
}
use alt_tui.Prelude.Dict.{Dict, lookup, update, lookup-update, on_some}
use alt_tui.Event.{Event, Draft}
use alt_tui.Profile.{contains_id}
use alt_tui.Projection.{Projection, Work, Delegation, PeerTurn, stopped, apply_body}
use alt_tui.Orchestrator.Decision.{is_some, is_known}
use alt_tui.Store.{no_change, change_of}
use alt_tui.Store.Returns.{IsSound}
use alt_tui.Runtime.{
  SessionRuntime, not_replayed, continue, lifted, projection, replayed, stop_context, ◌>>◌,
}
use alt_tui.Runtime.Work.{
  is_settled, cancel_draft, delegation_stop, peer_turn_stop, write, write_all, stop_found,
  cancel_found, cancel_delegation, cancel_work,
}
use alt_tui.Runtime.Log.{with_work, record_event-Recorded}
use alt_tui.Runtime.Returns.{IsReady, record_event_returns}

-- work that has not ended is cancelled
abbrev pub halted : {S : Type 0} → Work S → Work S
halted w = if is_settled w then w else stopped w

-- what became of one map where the work under `id` was cancelled
abbrev pub after_stop : {S : Type 0} → String → Work S → Dict (Work S) → Dict (Work S)
after_stop id w m = if is_settled w then m else update id stopped m

-- The store is ready, and the session's events replay to the projection.
pub record Stands (uuid : ℕ → String) (r : SessionRuntime) (p : Projection) : Type 0 where
  pub ready : IsReady uuid r
  pub read : replayed r ≡ ok p

stop_context_keeps :
    (uuid : ℕ → String) (id : String) (r : SessionRuntime) (p : Projection)
    → Stands uuid r p
    → Stands uuid (stop_context id r).0 p
stop_context_keeps uuid id r p h = elim (Bool-cases (contains_id r.active id)) [
  | inl e ↦ rw e (record {
    ready = record { numbered = h.ready.numbered; row = h.ready.row; fresh = h.ready.fresh };
    read = h.read;
  })
  | inr e ↦ rw e h
]

module _ (uuid : ℕ → String) (now : ℕ → ℕ) (distinct : (m n : ℕ) → uuid m ≡ uuid n → m ≡ n) where
  -- one draft that is appended, with what its event makes of the projection
  pub write_with :
      (draft : Draft) (r : SessionRuntime) (p : Projection) (n : Event → Projection)
      → Stands uuid r p
      → IsSound draft.body
      → ((item : Event) → apply_body draft.body item p ≡ ok (n item))
      → (r' : SessionRuntime) × (item : Event) × (write uuid now draft r ≡ (r', ok item))
        × Stands uuid r' (record (n item) { last_sequence = item.sequence })
  write_with draft r p n h sound step =
      let (r', item, ran, ready) = record_event_returns uuid now distinct draft r h.ready sound in
      let rec =
        record_event-Recorded uuid now draft item p r r'
          (record { numbered = h.ready.numbered; read = h.read }) ran in
      (r', item, ran, record { ready = ready; read = (rec.after (n item) (step item)).read })

  pub write_lem :
      (draft : Draft) (r : SessionRuntime) (p n : Projection)
      → Stands uuid r p
      → IsSound draft.body
      → ((item : Event) → apply_body draft.body item p ≡ ok n)
      → (r' : SessionRuntime) × (item : Event) × (write uuid now draft r ≡ (r', ok item))
        × Stands uuid r' (record n { last_sequence = item.sequence })
  write_lem draft r p n h sound step = write_with draft r p (λ _. n) h sound step

  -- a draft in a list of drafts that is appended
  pub write_all-step :
      (d : Draft) (rest : List Draft) (r : SessionRuntime) (p : Projection) (n : Event → Projection)
      → Stands uuid r p
      → IsSound d.body
      → ((item : Event) → apply_body d.body item p ≡ ok (n item))
      → (s : SessionRuntime) × (item : Event) × Stands uuid s
          (record (n item) { last_sequence = item.sequence })
        × (write_all uuid now (d ∷ rest) r ≡ write_all uuid now rest s)
  unfolding write_all
  write_all-step d rest r p n h sound step =
      let (s, item, ran, h') = write_with d r p n h sound step in
      (s, item, h', ap (λ x. continue x (λ _. write_all uuid now rest)) ran)

  stopped_lem :
      (draft : Draft) (id : String) (r : SessionRuntime) (p n : Projection)
      → Stands uuid r p
      → IsSound draft.body
      → ((item : Event) → apply_body draft.body item p ≡ ok n)
      → (r' : SessionRuntime) × (k : ℕ) × ((write uuid now draft >> stop_context id) r
          ≡ (r', ok tt))
        × Stands uuid r' (record n { last_sequence = k })
  stopped_lem draft id r p n h sound step =
      let (s, item, ran, stands) = write_lem draft r p n h sound step in
      (
        (stop_context id s).0,
        item.sequence,
        ap (λ x. continue x (λ _. stop_context id)) ran,
        stop_context_keeps uuid id s (record n { last_sequence = item.sequence }) stands,
      )

  cancel_delegation-eq :
      (id reason : String) (r : SessionRuntime) (p : Projection)
      → replayed r ≡ ok p
      → cancel_delegation uuid now id reason r
        ≡ stop_found uuid now delegation_stop p id reason (lookup id p.delegations) r
  unfolding cancel_delegation projection
  cancel_delegation-eq id reason r p e =
      ap
        (λ o.
          continue (lifted not_replayed o r)
            (λ q. stop_found uuid now delegation_stop q id reason (lookup id q.delegations)))
        e

  cancel_work-eq :
      (id reason : String) (r : SessionRuntime) (p : Projection)
      → replayed r ≡ ok p
      → cancel_work uuid now id reason r
        ≡ cancel_found uuid now p id reason (lookup id p.delegations) (lookup id p.peer_turns) r
  unfolding cancel_work projection
  cancel_work-eq id reason r p e =
      ap
        (λ o. continue (lifted not_replayed o r) (λ q.
          cancel_found uuid now q id reason (lookup id q.delegations) (lookup id q.peer_turns)))
        e

  -- a delegation that has not ended is cancelled, one that has ended is left alone
  pub cancel_delegation_lem :
      (id reason : String) (r : SessionRuntime) (p : Projection) (w : Delegation)
      → Stands uuid r p
      → lookup id p.delegations ≡ some w
      → (r' : SessionRuntime) × (n : ℕ) × (cancel_delegation uuid now id reason r ≡ (r', ok tt))
        × Stands uuid r' (with_work p (after_stop id w p.delegations) p.peer_turns n)
  unfolding apply_body change_of
  cancel_delegation_lem id reason r p w h at =
      let here =
        cancel_delegation-eq id reason r p h.read
        ∙ ap (λ o. stop_found uuid now delegation_stop p id reason o r) at in
      elim (Bool-cases (is_settled w)) [
        | inl e ↦ (r, p.last_sequence, here ∙ rw e refl, rw e h)
        | inr e ↦
            let (r', n, ran, stands) =
              stopped_lem (cancel_draft delegation_stop p id reason) id r p
                (record p { delegations = update id stopped p.delegations }) h
                (λ i. (no_change, refl)) (λ item. refl) in
            (r', n, here ∙ rw e ran, rw e stands)
      ]

  pub cancel_peer_turn_lem :
      (id reason : String) (r : SessionRuntime) (p : Projection) (w : PeerTurn)
      → Stands uuid r p
      → lookup id p.delegations ≡ none
      → lookup id p.peer_turns ≡ some w
      → (r' : SessionRuntime) × (n : ℕ) × (cancel_work uuid now id reason r ≡ (r', ok tt))
        × Stands uuid r' (with_work p p.delegations (after_stop id w p.peer_turns) n)
  unfolding apply_body change_of
  cancel_peer_turn_lem id reason r p w h none' at =
      let here =
        cancel_work-eq id reason r p h.read
        ∙ ap (λ o. cancel_found uuid now p id reason o (lookup id p.peer_turns) r) none'
        ∙ ap (λ o. stop_found uuid now peer_turn_stop p id reason o r) at in
      elim (Bool-cases (is_settled w)) [
        | inl e ↦ (r, p.last_sequence, here ∙ rw e refl, rw e h)
        | inr e ↦
            let (r', n, ran, stands) =
              stopped_lem (cancel_draft peer_turn_stop p id reason) id r p
                (record p { peer_turns = update id stopped p.peer_turns }) h
                (λ i. (no_change, refl)) (λ item. refl) in
            (r', n, here ∙ rw e ran, rw e stands)
      ]

pub lookup-after_stop :
    {S : Type 0} (id k : String) (w : Work S) (m : Dict (Work S))
    → lookup id m ≡ some w
    → lookup k (after_stop id w m)
      ≡ (if str_eq id k then on_some halted (lookup k m) else lookup k m)
lookup-after_stop id k w m at = elim (Bool-cases (str_eq id k)) [
  | inr other ↦ elim (Bool-cases (is_settled w)) [
    | inl e ↦ rw (e, other) refl
    | inr e ↦ rw (e, other) (lookup-update id k stopped m ∙ rw other refl)
  ]
  | inl same ↦
      let here : lookup k m ≡ some w = ap (λ i. lookup i m) (sym ((eq_iff id k).0 same)) ∙ at in
      elim (Bool-cases (is_settled w)) [
        | inl e ↦ rw (e, same, here) (rw e refl)
        | inr e ↦ rw (e, same, here) (lookup-update id k stopped m ∙ rw (same, here) (rw e refl))
      ]
]

-- a delegation of the id, or a peer turn, is changed by a cancellation
abbrev pub stopped_in : {S : Type 0} → Bool → String → Dict (Work S) → String → Option (Work S)
stopped_in hit id m k = if hit && str_eq id k then on_some halted (lookup k m) else lookup k m

-- the work of one id is stopped, and all else but the last sequence is as it was
abbrev pub Stops : String → Projection → Projection → Type 0
Stops id p q =
    ((k : String)
      → lookup k q.delegations ≡ stopped_in (is_some (lookup id p.delegations)) id p.delegations k)
    × ((k : String)
        → lookup k q.peer_turns
          ≡ stopped_in (not (is_some (lookup id p.delegations))) id p.peer_turns k)
    × (q ≡ with_work p q.delegations q.peer_turns q.last_sequence)

module _ (uuid : ℕ → String) (now : ℕ → ℕ) (distinct : (m n : ℕ) → uuid m ≡ uuid n → m ≡ n)
    (id reason : String) (r : SessionRuntime) (p : Projection) (h : Stands uuid r p) where
  cancel_known :
      (d : Option Delegation) (t : Option PeerTurn)
      → lookup id p.delegations ≡ d
      → lookup id p.peer_turns ≡ t
      → (is_some d || is_some t) ≡ true
      → (r' : SessionRuntime) × (q : Projection) × (cancel_work uuid now id reason r ≡ (r', ok tt))
        × Stands uuid r' q
        × Stops id p q
  cancel_known (some w) t at other known =
      let (r', n, ran, stands) = cancel_delegation_lem uuid now distinct id reason r p w h at in
      (
        r',
        with_work p (after_stop id w p.delegations) p.peer_turns n,
        cancel_work-eq uuid now distinct id reason r p h.read
            ∙ ap (λ o. cancel_found uuid now p id reason o (lookup id p.peer_turns) r) at
            ∙ ran,
        stands,
        (λ k. rw at (lookup-after_stop id k w p.delegations at), λ k. rw at refl, refl),
      )
  cancel_known none (some w) none' at known =
      let (r', n, ran, stands) =
        cancel_peer_turn_lem uuid now distinct id reason r p w h none' at in
      (
        r',
        with_work p p.delegations (after_stop id w p.peer_turns) n,
        ran,
        stands,
        (λ k. rw none' refl, λ k. rw none' (lookup-after_stop id k w p.peer_turns at), refl),
      )
  cancel_known none none none' at known = cc

pub cancel_work-Stops :
    (uuid : ℕ → String) (now : ℕ → ℕ) (id reason : String) (r : SessionRuntime) (p : Projection)
    → ((m n : ℕ) → uuid m ≡ uuid n → m ≡ n)
    → Stands uuid r p
    → is_known p id ≡ true
    → (r' : SessionRuntime) × (q : Projection) × (cancel_work uuid now id reason r ≡ (r', ok tt))
      × Stands uuid r' q
      × Stops id p q
cancel_work-Stops uuid now id reason r p distinct h known =
    cancel_known uuid now distinct id reason r p h (lookup id p.delegations)
      (lookup id p.peer_turns) refl refl known
