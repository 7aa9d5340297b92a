-- ===== src/Projection/Counts.antt =====
-- internal/orchestrator/state.go: theorems about the counts of work.
use alt_tui.Prelude.{ℕ, ◌+◌, String, ◌≡◌, refl, Bool, List, [], ◌∷◌, arith, ok}
use alt_tui.Prelude.Dict.{Dict, Entries}
use alt_tui.Event.{Event}
use alt_tui.Projection.{Projection, Work, replay}
use alt_tui.Projection.Views.{is_active, is_open, count, active_count, work_count}
use alt_tui.Projection.Invariant.{WorkOk, delegation_id, peer_turn_id, replay-IsCoherent}

module _ {S : Type 0} where
  abbrev pub was_interrupted : Work S → Bool
  was_interrupted w = w.interrupted

  open_split :
      (id_of : S → String) (m : Dict (Work S))
      → Entries (WorkOk id_of) m
      → count is_open m ≡ count is_active m + count was_interrupted m
  open_split id_of [] h = refl
  open_split id_of ((k, w) ∷ m) h = ground (arith, h.0, open_split id_of m h.1)

-- the delegations and peer turns that lost their process
unfoldable pub interrupted_count : Projection → ℕ
interrupted_count p = count was_interrupted p.delegations + count was_interrupted p.peer_turns

-- In every projection that Replay returns, WorkCount counts each active item once and each
-- interrupted item once, and nothing else.
pub work_count-eq-add :
    (session_id : String) (events : List Event) (p : Projection)
    → replay session_id events ≡ ok p
    → work_count p ≡ active_count p + interrupted_count p
unfolding work_count active_count interrupted_count
work_count-eq-add session_id events p h =
    let c = replay-IsCoherent session_id events p h in
    omega (
      arith,
      open_split delegation_id p.delegations c.delegations_ok,
      open_split peer_turn_id p.peer_turns c.peer_turns_ok,
    )
