-- ===== src/Projection/Examples.antt =====
-- Examples of replaying a turn.
use alt_tui.Prelude.{◌+◌, ◌≡◌, refl, inl, inr, ok}
use alt_tui.Fixtures.{turn_events, delegated}
use alt_tui.Fixtures.Turn.{turn_state, turn_replayed, failure, failed_state, failure_replayed}
use alt_tui.Projection.{apply}
use alt_tui.Projection.Views.{active_count, work_count}
use alt_tui.Projection.Replay.{Onward, replay_redelivery, replay_keeps_ending}
use alt_tui.Projection.Invariant.{IsCoherent, replay-IsCoherent}
use alt_tui.Projection.Counts.{interrupted_count, work_count-eq-add}

replay_redelivery_example : apply turn_state delegated ≡ ok turn_state
replay_redelivery_example =
    replay_redelivery "s" turn_events turn_state delegated turn_replayed (inr (inr (inl refl)))

replay_keeps_ending_example : Onward turn_state failed_state
replay_keeps_ending_example =
    replay_keeps_ending "s" turn_events failure turn_state failed_state turn_replayed
      failure_replayed

replay-IsCoherent_example : IsCoherent turn_state
replay-IsCoherent_example = replay-IsCoherent "s" turn_events turn_state turn_replayed

work_count-eq-add_example :
    work_count turn_state ≡ active_count turn_state + interrupted_count turn_state
work_count-eq-add_example = work_count-eq-add "s" turn_events turn_state turn_replayed
