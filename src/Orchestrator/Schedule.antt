-- ===== src/Orchestrator/Schedule.antt =====
-- internal/orchestrator/runtime.go: scheduleReady. `launched` is the set of keys under which the run
-- has started an attempt, held under the runtime's mutex; a launch is the start of a goroutine.
pub mod Loop
pub mod Once
mod Examples
use alt_tui.Prelude.{
  ℕ, ◌+◌, String, Bool, true, false, not, ◌&&◌, List, [], ◌∷◌, ◌++◌, if◌then◌else◌,
}
use alt_tui.Prelude.Text.{concat, itoa}
use alt_tui.Profile.{contains_id}
use alt_tui.Projection.{Projection, Work, Delegation, PeerTurn, pending, failed}
use alt_tui.Projection.Views.{dependencies_completed, sorted_delegations, sorted_peer_turns}

-- executeDelegation or executePeerTurn, of the work and the attempt
pub data Launch : Type 0 where
  delegation peer_turn : String → ℕ → Launch

-- work that has not started, or whose process was interrupted
abbrev pub startable : {S : Type 0} → Work S → Bool
startable w = elim w.status [ pending ↦ true | failed ↦ w.interrupted | _ ↦ false ]

abbrev pub delegation_ready : Projection → Delegation → Bool
delegation_ready p w = startable w && dependencies_completed p w.spec

abbrev pub delegation_key : Delegation → String
delegation_key w = concat (w.spec.id ∷ ":" ∷ itoa (w.attempt + 1) ∷ [])

abbrev pub peer_turn_key : PeerTurn → String
peer_turn_key w = concat ("peer:" ∷ w.spec.id ∷ ":" ∷ itoa (w.attempt + 1) ∷ [])

abbrev pub launch_delegation : Delegation → Launch
launch_delegation w = delegation w.spec.id (w.attempt + 1)

abbrev pub launch_peer_turn : PeerTurn → Launch
launch_peer_turn w = peer_turn w.spec.id (w.attempt + 1)

pub record Scheduled : Type 0 where
  pub launches : List Launch
  pub launched : List String

abbrev pub with_launch : Launch → Scheduled → Scheduled
with_launch l later = record later { launches = l ∷ later.launches }

module _ {S : Type 0} (ready : Work S → Bool) (key_of : Work S → String)
    (launch : Work S → Launch) where
  -- one of the two loops: what is ready is started, unless its key is in `launched`
  unfoldable pub schedule : List (Work S) → List String → Scheduled
  schedule [] launched = record { launches = []; launched = launched }
  schedule (w ∷ rest) launched =
      let skipped = schedule rest launched in
      let started = with_launch (launch w) (schedule rest (key_of w ∷ launched)) in
      if not (ready w)
      then skipped
      else if contains_id launched (key_of w)
      then skipped
      else started

-- sessionRuntime.scheduleReady
unfoldable pub schedule_ready : Projection → List String → Scheduled
schedule_ready p launched =
    let first =
      schedule (delegation_ready p) delegation_key launch_delegation (sorted_delegations p)
        launched in
    let second =
      schedule startable peer_turn_key launch_peer_turn (sorted_peer_turns p) first.launched in
    record { launches = first.launches ++ second.launches; launched = second.launched }
