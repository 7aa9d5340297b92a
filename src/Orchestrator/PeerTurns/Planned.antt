-- ===== src/Orchestrator/PeerTurns/Planned.antt =====
-- internal/orchestrator/runtime.go: theorems about materializePeerTurns.
pub mod Steps
use text.Mathlib.Text.{◌==◌ as str_eq}
use alt_tui.Prelude.{
  ℕ, ◌+◌, ◌<◌, String, ◌≡◌, refl, sym, ◌⊎◌, inl, inr, some, false, ◌||◌, List, [], ◌∷◌, map, arith,
  eq_iff, All, All-intro, In, Bool-cases, Option-cases, ok, >>=-eq-ok, ok-injective, subst, passed,
}
use alt_tui.Prelude.Dict.{Dict, lookup, insert, lookup-insert}
use alt_tui.Prelude.Text.{is_blank, trim_space}
use alt_tui.Profile.{Profile, AgentAssignment, peer_agent_for, contains_id}
use alt_tui.Profile.Peers.{Distinct, peer_agent_for-id}
use alt_tui.Profile.Validate.Members.{is_missing}
use alt_tui.Event.{PeerTurnSpec}
use alt_tui.Projection.{Projection, PeerTurn}
use alt_tui.Projection.Views.{is_active, sorted_peer_turns}
use alt_tui.Projection.Sorted.{In-sorted_peer_turns}
use alt_tui.Orchestrator.{
  ProposedPeerTurn, validate_attachment_selection, check_selection,
  projection_attachment_references,
}
use alt_tui.Orchestrator.PeerTurns.{
  Collaboration, current_or_zero, known_collaborations, collaboration_id_for, drawn_for, is_foreign,
  require_peer, plan_peer_turn, claimed, plan_peer_turns, materialize_peer_turns,
}
use alt_tui.Orchestrator.PeerTurns.Known.{Known, known_collaborations-Known}
use Steps.{Consultable, Planned, plan_nil, plan_step}

module _ (p : Profile) (state : Projection) (agent : AgentAssignment) where
  -- The turns of the collaboration that the state holds are settled, and of earlier rounds.
  abbrev pub Continues : PeerTurnSpec → Type 0
  Continues spec =
      All
        (λ entry.
          (str_eq entry.1.spec.collaboration_id spec.collaboration_id ≡ false)
          ⊎ ((is_active entry.1 ≡ false) × (entry.1.spec.round < spec.round)))
        state.peer_turns

  -- every turn of the state is counted
  abbrev AllKnown : Dict Collaboration → Type 0
  AllKnown known = (id : String) (w : PeerTurn) → In (id, w) state.peer_turns → Known known w

  AllKnown-claimed :
      (known : Dict Collaboration) (keys used : List String) (id c : String) (spec : PeerTurnSpec)
      → Planned known keys used id c spec
      → AllKnown known
      → AllKnown (insert spec.collaboration_id (claimed p state agent spec) known)
  AllKnown-claimed known keys used id c spec planned all i w e =
      let (k, at, (le, settled)) = all i w e in
      let here =
        lookup-insert spec.collaboration_id w.spec.collaboration_id (claimed p state agent spec)
          known in
      elim (Bool-cases (str_eq spec.collaboration_id w.spec.collaboration_id)) [
        | inl same ↦
            let same' = (eq_iff spec.collaboration_id w.spec.collaboration_id).0 same in
            let cur : lookup spec.collaboration_id known ≡ some k =
              subst (λ s. lookup s known ≡ some k) (sym same') at in
            (
              claimed p state agent spec,
              ground (arith, here, same),
              (ground (arith, planned.next_round, cur, le), λ q. ground (arith, q)),
            )
        | inr other ↦ (k, ground (arith, here, other, at), (le, settled))
      ]

  Planned-Continues :
      (known : Dict Collaboration) (keys used : List String) (id c : String) (spec : PeerTurnSpec)
      → Planned known keys used id c spec
      → AllKnown known
      → Continues spec
  Planned-Continues known keys used id c spec planned all = All-intro _ state.peer_turns λ entry m.
      let (k, at, (le, settled)) = all entry.0 entry.1 m in
      elim (Bool-cases (str_eq entry.1.spec.collaboration_id spec.collaboration_id)) [
        | inr other ↦ inl other
        | inl same ↦
            let cur : lookup spec.collaboration_id known ≡ some k =
              subst (λ s. lookup s known ≡ some k)
                ((eq_iff entry.1.spec.collaboration_id spec.collaboration_id).0 same) at in
            inr (
              settled (ground (arith, planned.idle, cur)),
              ground (arith, planned.next_round, cur, le),
            )
      ]

  plan_peer_turns-Continues :
      (uuid : ℕ → String) (rest : List ProposedPeerTurn) (known : Dict Collaboration)
      (keys used : List String) (drawn : ℕ) (specs : List PeerTurnSpec)
      → AllKnown known
      → plan_peer_turns p state agent uuid known keys used drawn rest ≡ ok specs
      → All (λ s. Consultable p state agent s × Continues s) specs
  plan_peer_turns-Continues uuid [] known keys used drawn specs all h =
      subst (All _) (plan_nil p state agent uuid known keys used drawn specs h) tt
  plan_peer_turns-Continues uuid (proposal ∷ rest) known keys used drawn specs all h =
      let (spec, later, may, planned, others, e) =
        plan_step p state agent uuid known keys used drawn proposal rest specs h in
      let c = collaboration_id_for uuid drawn proposal in
      let id = uuid (drawn_for drawn proposal) in
      subst (All _) e (
        (may, Planned-Continues known keys used id c spec planned all),
        plan_peer_turns-Continues uuid rest
            (insert spec.collaboration_id (claimed p state agent spec) known) (spec.key ∷ keys)
            (spec.collaboration_id ∷ used) (drawn_for drawn proposal + 1) later
            (AllKnown-claimed known keys used id c spec planned all) others,
      )

  -- no name of `l` stands in `used`
  abbrev Fresh : List String → List String → Type 0
  Fresh used l = All (λ x. contains_id used x ≡ false) l

  Fresh-uncons :
      (x : String) (used l : List String)
      → Fresh (x ∷ used) l
      → (contains_id l x ≡ false) × Fresh used l
  unfolding contains_id
  Fresh-uncons x used [] h = (refl, tt)
  Fresh-uncons x used (y ∷ l) h =
      let (c, all) = Fresh-uncons x used l h.1 in
      (ground (arith, h.0, c, eq_iff x y, eq_iff y x), (ground (arith, h.0), all))

  plan_peer_turns-Distinct :
      (uuid : ℕ → String) (rest : List ProposedPeerTurn) (known : Dict Collaboration)
      (keys used : List String) (drawn : ℕ) (specs : List PeerTurnSpec)
      → plan_peer_turns p state agent uuid known keys used drawn rest ≡ ok specs
      → (Distinct (map (λ s. s.key) specs) × Fresh keys (map (λ s. s.key) specs))
        × (Distinct (map (λ s. s.collaboration_id) specs)
            × Fresh used (map (λ s. s.collaboration_id) specs))
  plan_peer_turns-Distinct uuid [] known keys used drawn specs h =
      subst
        (λ l.
          (Distinct (map (λ s. s.key) l) × Fresh keys (map (λ s. s.key) l))
          × (Distinct (map (λ s. s.collaboration_id) l)
              × Fresh used (map (λ s. s.collaboration_id) l)))
        (plan_nil p state agent uuid known keys used drawn specs h) ((tt, tt), (tt, tt))
  plan_peer_turns-Distinct uuid (proposal ∷ rest) known keys used drawn specs h =
      let (spec, later, may, planned, others, e) =
        plan_step p state agent uuid known keys used drawn proposal rest specs h in
      let (of_keys, of_used) =
        plan_peer_turns-Distinct uuid rest
          (insert spec.collaboration_id (claimed p state agent spec) known) (spec.key ∷ keys)
          (spec.collaboration_id ∷ used) (drawn_for drawn proposal + 1) later others in
      let (key, later_keys) = Fresh-uncons spec.key keys (map (λ s. s.key) later) of_keys.1 in
      let (c, later_used) =
        Fresh-uncons spec.collaboration_id used (map (λ s. s.collaboration_id) later) of_used.1 in
      subst
        (λ l.
          (Distinct (map (λ s. s.key) l) × Fresh keys (map (λ s. s.key) l))
          × (Distinct (map (λ s. s.collaboration_id) l)
              × Fresh used (map (λ s. s.collaboration_id) l)))
        e
        (
          ((key, of_keys.0), (planned.new_key, later_keys)),
          ((c, of_used.0), (planned.unused, later_used)),
        )

  -- Peer turns that materializePeerTurns accepts have distinct keys, and at most one is in each
  -- collaboration. Each goes to a peer of the caller, with an objective and with attachments that the
  -- turn has, and all turns of its collaboration in the state are over and of smaller rounds.
  pub materialize_peer_turns_plan :
      (uuid : ℕ → String) (drawn : ℕ) (proposals : List ProposedPeerTurn) (plan : List PeerTurnSpec)
      → materialize_peer_turns p state agent uuid drawn proposals ≡ ok plan
      → Distinct (map (λ s. s.key) plan)
        × Distinct (map (λ s. s.collaboration_id) plan)
        × All (λ s. Consultable p state agent s × Continues s) plan
  unfolding materialize_peer_turns
  materialize_peer_turns_plan uuid drawn proposals plan h =
      let known = known_collaborations (sorted_peer_turns state) [] in
      let distinct = plan_peer_turns-Distinct uuid proposals known [] [] drawn plan h in
      (
        distinct.0.0,
        distinct.1.0,
        plan_peer_turns-Continues uuid proposals known [] [] drawn plan
            (λ i w e.
              known_collaborations-Known w (sorted_peer_turns state) []
                (inl (In-sorted_peer_turns state i w e)))
            h,
      )
