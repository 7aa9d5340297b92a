-- ===== src/Runtime/Decided/Writes.antt =====
-- internal/orchestrator/runtime.go: the cancellations and the drafts of a decision, written one by one.
use alt_tui.Prelude.{ℕ, String, ◌≡◌, refl, ap, ◌∙◌, true, List, [], ◌∷◌, ◌++◌, map, All, ok}
use alt_tui.Prelude.Dict.{lookup, insert}
use alt_tui.Event.{Draft, DelegationSpec, PeerTurnSpec}
use alt_tui.Projection.{Projection, apply_body, created}
use alt_tui.Store.{no_change, change_of}
use alt_tui.Orchestrator.{AgentDecision}
use alt_tui.Orchestrator.Decision.{
  Plan, is_known, decision_drafts, decision_draft, turn_draft, spec_draft, peer_spec_draft,
}
use alt_tui.Runtime.{SessionRuntime, continue}
use alt_tui.Runtime.Work.{write_all}
use alt_tui.Runtime.Decision.{cancel_each}
use alt_tui.Runtime.Decided.Keys.{
  Cancels, Stops-Cancels, no_Cancels, Stops-known, Adds, Latest-insert, Adds-both,
}
use alt_tui.Runtime.Cancellation.{Stands, Stops, write_all-step, cancel_work-Stops}

module _ (uuid : ℕ → String) (now : ℕ → ℕ) (distinct : (m n : ℕ) → uuid m ≡ uuid n → m ≡ n) where
  -- the cancellations of known work return, and do all that they name
  pub cancel_each_lem :
      (ids : List String) (r : SessionRuntime) (p : Projection)
      → Stands uuid r p
      → All (λ id. is_known p id ≡ true) ids
      → (r' : SessionRuntime) × (q : Projection) × (cancel_each uuid now ids r ≡ (r', ok tt))
        × Stands uuid r' q
        × Cancels ids p q
  unfolding cancel_each
  cancel_each_lem [] r p h known = (r, p, refl, h, no_Cancels p)
  cancel_each_lem (id ∷ ids) r p h known =
      let (s, q, ran, h', stops) =
        cancel_work-Stops uuid now id "cancelled by active-agent coordination decision" r p distinct
          h known.0 in
      let (r', q', rest, h'', c) = cancel_each_lem ids s q h' (still_known p q ids stops known.1) in
      (
        r',
        q',
        ap (λ x. continue x (λ _. cancel_each uuid now ids)) ran ∙ rest,
        h'',
        Stops-Cancels id ids p q q' stops c,
      )
    where
      still_known :
          (p q : Projection) (ids : List String)
          → Stops id p q
          → All (λ k. is_known p k ≡ true) ids
          → All (λ k. is_known q k ≡ true) ids
      still_known p q [] stops h = tt
      still_known p q (k ∷ ids) stops h =
          (Stops-known p q id k stops h.0, still_known p q ids stops h.1)

  pub specs_written :
      (actor : String) (specs : List DelegationSpec) (rest : List Draft) (r : SessionRuntime)
      (p : Projection)
      → Stands uuid r p
      → (s : SessionRuntime) × (q : Projection) × Stands uuid s q
        × Adds specs [] p q
        × (write_all uuid now (map (spec_draft actor) specs ++ rest) r ≡ write_all uuid now rest s)
  unfolding apply_body change_of
  specs_written actor [] rest r p h =
      (r, p, h, record { delegations = λ k. refl; peer_turns = λ k. refl; rest = refl }, refl)
  specs_written actor (spec ∷ specs) rest r p h =
      let (s, item, h', first) =
        write_all-step uuid now distinct (spec_draft actor spec)
          (map (spec_draft actor) specs ++ rest) r p
          (λ i. record p { delegations = insert spec.id (created spec i) p.delegations }) h
          (λ _. (no_change, refl)) (λ _. refl) in
      let n : Projection = record p {
        delegations = insert spec.id (created spec item) p.delegations;
        last_sequence = item.sequence;
      } in
      let (s', q, h'', g, later) = specs_written actor specs rest s n h' in
      (
        s',
        q,
        h'',
        record {
          delegations = λ k.
              Latest-insert (λ x. x.id) spec specs k item p.delegations (lookup k q.delegations)
                (g.delegations k);
          peer_turns = g.peer_turns;
          rest = g.rest;
        },
        first ∙ later,
      )

  pub peer_specs_written :
      (actor : String) (specs : List PeerTurnSpec) (rest : List Draft) (r : SessionRuntime)
      (p : Projection)
      → Stands uuid r p
      → (s : SessionRuntime) × (q : Projection) × Stands uuid s q
        × Adds [] specs p q
        × (write_all uuid now (map (peer_spec_draft actor) specs ++ rest) r
            ≡ write_all uuid now rest s)
  unfolding apply_body change_of
  peer_specs_written actor [] rest r p h =
      (r, p, h, record { delegations = λ k. refl; peer_turns = λ k. refl; rest = refl }, refl)
  peer_specs_written actor (spec ∷ specs) rest r p h =
      let (s, item, h', first) =
        write_all-step uuid now distinct (peer_spec_draft actor spec)
          (map (peer_spec_draft actor) specs ++ rest) r p
          (λ i. record p { peer_turns = insert spec.id (created spec i) p.peer_turns }) h
          (λ _. (no_change, refl)) (λ _. refl) in
      let n : Projection = record p {
        peer_turns = insert spec.id (created spec item) p.peer_turns;
        last_sequence = item.sequence;
      } in
      let (s', q, h'', g, later) = peer_specs_written actor specs rest s n h' in
      (
        s',
        q,
        h'',
        record {
          delegations = g.delegations;
          peer_turns = λ k.
              Latest-insert (λ x. x.id) spec specs k item p.peer_turns (lookup k q.peer_turns)
                (g.peer_turns k);
          rest = g.rest;
        },
        first ∙ later,
      )

  -- the drafts of a plan are appended, and add its work
  pub drafts_written :
      (state : Projection) (decision : AgentDecision) (plan : Plan) (r : SessionRuntime)
      (p : Projection)
      → Stands uuid r p
      → (s : SessionRuntime) × (q : Projection) × Stands uuid s q
        × Adds plan.specs plan.peer_specs p q
        × (write_all uuid now (decision_drafts state decision plan) r ≡ (s, ok tt))
  unfolding write_all apply_body change_of
  drafts_written state decision plan r p h =
      let actor = plan.leader.id in
      let end = turn_draft state decision plan ∷ [] in
      let peers = map (peer_spec_draft actor) plan.peer_specs ++ end in
      let (a, i, ha, ra) =
        write_all-step uuid now distinct (decision_draft state decision plan)
          (map (spec_draft actor) plan.specs ++ peers) r p (λ _. p) h (λ _. (no_change, refl))
          (λ _. refl) in
      let (b, q, hb, gb, rb) =
        specs_written actor plan.specs peers a (record p { last_sequence = i.sequence }) ha in
      let (c, s, hc, gc, rc) = peer_specs_written actor plan.peer_specs end b q hb in
      let (d, j, hd, rd) =
        write_all-step uuid now distinct (turn_draft state decision plan) [] c s (λ _. s) hc
          (λ _. (no_change, refl)) (λ _. refl) in
      (
        d,
        record s { last_sequence = j.sequence },
        hd,
        sealed p s i.sequence j.sequence (
            Adds-both plan.specs plan.peer_specs (record p { last_sequence = i.sequence }) q s gb
              gc),
        ra ∙ rb ∙ rc ∙ rd,
      )
    where
      -- the events before and after the new work change no more than the sequence
      sealed :
          (p s : Projection) (m n : ℕ)
          → Adds plan.specs plan.peer_specs (record p { last_sequence = m }) s
          → Adds plan.specs plan.peer_specs p (record s { last_sequence = n })
      sealed p s m n a = record {
        delegations = a.delegations;
        peer_turns = a.peer_turns;
        rest = ap (λ (x : Projection). record x { last_sequence = n }) a.rest;
      }
