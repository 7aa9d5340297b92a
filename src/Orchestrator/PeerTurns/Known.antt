-- ===== src/Orchestrator/PeerTurns/Known.antt =====
-- internal/orchestrator/runtime.go: what materializePeerTurns knows of the collaborations of a turn.
use text.Mathlib.Text.{◌==◌ as str_eq}
use alt_tui.Prelude.{
  ◌≤◌, ◌≡◌, refl, ◌⊎◌, inl, inr, some, false, List, [], ◌∷◌, arith, eq_iff, In, subst, sym,
  Bool-cases,
}
use alt_tui.Prelude.Dict.{Dict, lookup, lookup-insert}
use alt_tui.Projection.{PeerTurn}
use alt_tui.Projection.Views.{is_active}
use alt_tui.Orchestrator.PeerTurns.{
  Collaboration, current_or_zero, joined, join_turn, known_collaborations,
}

-- `c` has counted the turn
abbrev pub Counted : PeerTurn → Collaboration → Type 0
Counted turn c = (turn.spec.round ≤ c.round) × (c.active ≡ false → is_active turn ≡ false)

-- an entry that has counted the turn
abbrev pub Known : Dict Collaboration → PeerTurn → Type 0
Known known turn =
    (c : Collaboration) × (lookup turn.spec.collaboration_id known ≡ some c) × Counted turn c

join_turn-keeps :
    (turn other : PeerTurn) (known : Dict Collaboration)
    → Known known turn
    → Known (join_turn other known) turn
join_turn-keeps turn other known (c, e, (le, settled)) =
    let id = other.spec.collaboration_id in
    let here =
      lookup-insert id turn.spec.collaboration_id (joined other (current_or_zero (lookup id known)))
        known in
    elim (Bool-cases (str_eq id turn.spec.collaboration_id)) [
      | inl same ↦
          let at : lookup id known ≡ some c =
            ground (arith, e, same, eq_iff id turn.spec.collaboration_id) in
          (
            joined other c,
            ground (arith, here, same, at),
            (ground (arith, le), λ q. ground (arith, q, settled)),
          )
      | inr other' ↦ (c, ground (arith, here, other', e), (le, settled))
    ]

join_turn-adds : (turn : PeerTurn) (known : Dict Collaboration) → Known (join_turn turn known) turn
join_turn-adds turn known =
    let id = turn.spec.collaboration_id in
    let c = joined turn (current_or_zero (lookup id known)) in
    (
      c,
      ground (arith, lookup-insert id id c known, (eq_iff id id).1 refl),
      (ground arith, λ q. ground (arith, q)),
    )

pub known_collaborations-Known :
    (turn : PeerTurn) (turns : List PeerTurn) (known : Dict Collaboration)
    → In turn turns ⊎ Known known turn
    → Known (known_collaborations turns known) turn
unfolding known_collaborations
known_collaborations-Known turn [] known (inl m) = elim m [ ]
known_collaborations-Known turn [] known (inr k) = k
known_collaborations-Known turn (t ∷ rest) known (inl (inl e)) =
    known_collaborations-Known turn rest (join_turn t known)
      (inr (subst (λ u. Known (join_turn t known) u) (sym e) (join_turn-adds t known)))
known_collaborations-Known turn (t ∷ rest) known (inl (inr m)) =
    known_collaborations-Known turn rest (join_turn t known) (inl m)
known_collaborations-Known turn (t ∷ rest) known (inr k) =
    known_collaborations-Known turn rest (join_turn t known) (inr (join_turn-keeps turn t known k))
