-- ===== src/Projection/Views.antt =====
-- internal/orchestrator/state.go: the counts and the sorted views of a projection.
use Prim.Native.String.{compare}
use text.Mathlib.Text.{is_lt}
use alt_tui.Prelude.{ℕ, ◌+◌, String, none, some, Bool, true, false, List, [], ◌∷◌, if◌then◌else◌}
use alt_tui.Prelude.Dict.{Dict, lookup}
use alt_tui.Event.{DelegationSpec}
use alt_tui.Projection.{Projection, Work, Delegation, PeerTurn, pending, running, completed, failed}

module _ {S : Type 0} where
  abbrev pub is_active : Work S → Bool
  is_active w = elim w.status [ pending ↦ true | running ↦ true | _ ↦ false ]

  -- active, or interrupted before it recorded a result
  abbrev pub is_open : Work S → Bool
  is_open w = elim w.status [ pending ↦ true | running ↦ true | failed ↦ w.interrupted | _ ↦ false ]

  -- how many items of a map pass the test
  abbrev pub count : (Work S → Bool) → Dict (Work S) → ℕ
  count test [] = 0
  count test ((_, w) ∷ rest) = let n = count test rest in if test w then n + 1 else n

-- Projection.ActiveCount
unfoldable pub active_count : Projection → ℕ
active_count p = count is_active p.delegations + count is_active p.peer_turns

-- Projection.WorkCount
unfoldable pub work_count : Projection → ℕ
work_count p = count is_open p.delegations + count is_open p.peer_turns

-- Projection.DependenciesCompleted
unfoldable pub all_completed : Dict Delegation → List String → Bool
all_completed delegations [] = true
all_completed delegations (id ∷ ids) =
    let later = all_completed delegations ids in
    elim (lookup id delegations) [
      | none ↦ false
      | some w ↦ elim w.status [ completed ↦ later | _ ↦ false ]
    ]

abbrev pub dependencies_completed : Projection → DelegationSpec → Bool
dependencies_completed p spec = all_completed p.delegations spec.depends_on

module _ {S : Type 0} (id_of : S → String) where
  unfoldable pub insert_by_id : Work S → List (Work S) → List (Work S)
  insert_by_id w [] = w ∷ []
  insert_by_id w (v ∷ rest) =
      let later = insert_by_id w rest in
      if is_lt (compare (id_of v.spec) (id_of w.spec)) then v ∷ later else w ∷ v ∷ rest

  unfoldable pub sorted_work : Dict (Work S) → List (Work S)
  unfolding insert_by_id
  sorted_work [] = []
  sorted_work ((_, w) ∷ rest) = insert_by_id w (sorted_work rest)

-- Projection.SortedDelegations
unfoldable pub sorted_delegations : Projection → List Delegation
unfolding sorted_work
sorted_delegations p = sorted_work (λ s. s.id) p.delegations

-- Projection.SortedPeerTurns
unfoldable pub sorted_peer_turns : Projection → List PeerTurn
unfolding sorted_work
sorted_peer_turns p = sorted_work (λ s. s.id) p.peer_turns
