-- ===== src/Orchestrator/Schedule/Once.antt =====
-- internal/orchestrator/runtime.go: theorems about scheduleReady.
use alt_tui.Prelude.{
  String, ◌+◌, some, none, Option, Bool, ◌≡◌, refl, ◌⊎◌, inl, inr, true, false, List, [], ◌∷◌,
  arith, All, All-append, In,
}
use alt_tui.Profile.{contains_id}
use alt_tui.Prelude.Dict.{Dict, lookup}
use alt_tui.Projection.{
  Projection, Work, Status, pending, running, completed, failed, cancelled, Delegation, PeerTurn,
}
use alt_tui.Projection.Sorted.{of_In-sorted_work}
use alt_tui.Projection.Views.{all_completed, sorted_work, sorted_delegations, sorted_peer_turns}
use alt_tui.Orchestrator.Schedule.{
  Launch, delegation, peer_turn, startable, delegation_ready, delegation_key, peer_turn_key,
  launch_delegation, launch_peer_turn, schedule, schedule_ready,
}
use alt_tui.Orchestrator.Schedule.Loop.{
  Grows, Justified, Settled-Grows, schedule-Grows, schedule-Settled, schedule_stays,
  schedule-Justified,
}

-- Work that has not started, or that failed because its process was interrupted.
abbrev pub CanStart : {S : Type 0} → Work S → Type 0
CanStart w = (w.status ≡ pending) ⊎ ((w.status ≡ failed) × (w.interrupted ≡ true))

-- There is a delegation of each of the ids, and it is completed.
abbrev pub AreCompleted : Dict Delegation → List String → Type 0
AreCompleted delegations ids =
    All (λ id. (d : Delegation) × (lookup id delegations ≡ some d) × (d.status ≡ completed)) ids

-- A launch of a delegation or a peer turn of the projection that can start, at its next attempt, whose
-- key had not been launched; what a delegation depends on is completed.
abbrev pub IsDue : Projection → List String → Launch → Type 0
IsDue p launched started =
    ((w : Delegation) × (k : String) × In (k, w) p.delegations
      × CanStart w
      × AreCompleted p.delegations w.spec.depends_on
      × (contains_id launched (delegation_key w) ≡ false)
      × (started ≡ delegation w.spec.id (w.attempt + 1)))
    ⊎ ((w : PeerTurn) × (k : String) × In (k, w) p.peer_turns
        × CanStart w
        × (contains_id launched (peer_turn_key w) ≡ false)
        × (started ≡ peer_turn w.spec.id (w.attempt + 1)))

startable-CanStart : {S : Type 0} (w : Work S) → startable w ≡ true → CanStart w
startable-CanStart w h = by_status w.status refl h
  where
    by_status :
        (s : Status)
        → w.status ≡ s
        → (elim s [ pending ↦ true | failed ↦ w.interrupted | _ ↦ false ]) ≡ true
        → CanStart w
    by_status pending e h = inl e
    by_status failed e h = inr (e, h)
    by_status running e h = cc
    by_status completed e h = cc
    by_status cancelled e h = cc

-- what the tests of one dependency say, with those of the later ones
abbrev is_completed : Bool → Status → Bool
is_completed later s = elim s [ completed ↦ later | _ ↦ false ]

completed_cases :
    (later : Bool) (s : Status) → is_completed later s ≡ true → (s ≡ completed) × (later ≡ true)
completed_cases later completed h = (refl, h)
completed_cases later pending h = cc
completed_cases later running h = cc
completed_cases later failed h = cc
completed_cases later cancelled h = cc

first_completed :
    (later : Bool) (o : Option Delegation)
    → (elim o [ none ↦ false | some w ↦ is_completed later w.status ]) ≡ true
    → ((d : Delegation) × (o ≡ some d) × (d.status ≡ completed)) × (later ≡ true)
first_completed later none h = cc
first_completed later (some w) h =
    let (done, rest) = completed_cases later w.status h in ((w, refl, done), rest)

all_completed-AreCompleted :
    (delegations : Dict Delegation) (ids : List String)
    → all_completed delegations ids ≡ true
    → AreCompleted delegations ids
unfolding all_completed
all_completed-AreCompleted delegations [] h = tt
all_completed-AreCompleted delegations (id ∷ ids) h =
    let (first, rest) = first_completed (all_completed delegations ids) (lookup id delegations) h in
    (first, all_completed-AreCompleted delegations ids rest)

from_delegations :
    (p : Projection) (launched : List String) (starts : List Launch)
    → All
        (Justified
          (delegation_ready p)
          delegation_key
          launch_delegation
          (sorted_delegations p)
          launched)
        starts
    → All (IsDue p launched) starts
unfolding sorted_delegations
from_delegations p launched [] h = tt
from_delegations p launched (s ∷ starts) h =
    let (w, m, r, new, e) = h.0 in
    let (k, at) = of_In-sorted_work (λ x. x.id) w p.delegations (in_sorted w m) in
    (
      inl (
        w,
        k,
        at,
        startable-CanStart w (ground (arith, r)),
        all_completed-AreCompleted p.delegations w.spec.depends_on (ground (arith, r)),
        new,
        e,
      ),
      from_delegations p launched starts h.1,
    )
  where
    in_sorted :
        (w : Delegation)
        → In w (sorted_delegations p)
        → In w (sorted_work (λ x. x.id) p.delegations)
    in_sorted w m = m

from_peer_turns :
    (p : Projection) (before after : List String) (starts : List Launch)
    → Grows before after
    → All (Justified startable peer_turn_key launch_peer_turn (sorted_peer_turns p) after) starts
    → All (IsDue p before) starts
unfolding sorted_peer_turns
from_peer_turns p before after [] g h = tt
from_peer_turns p before after (s ∷ starts) g h =
    let (w, m, r, new, e) = h.0 in
    let (k, at) = of_In-sorted_work (λ x. x.id) w p.peer_turns (in_sorted w m) in
    (
      inr (w, k, at, startable-CanStart w r, not_before before after (peer_turn_key w) g new, e),
      from_peer_turns p before after starts g h.1,
    )
  where
    in_sorted :
        (w : PeerTurn) → In w (sorted_peer_turns p) → In w (sorted_work (λ x. x.id) p.peer_turns)
    in_sorted w m = m

    not_before :
        (before after : List String) (key : String)
        → Grows before after
        → contains_id after key ≡ false
        → contains_id before key ≡ false
    not_before before after key g new = ground (arith, new, g key)

-- scheduleReady starts only what is due: every launch is of the next attempt, not launched before, of a
-- delegation or peer turn of the projection that is pending, or failed and marked as interrupted; and
-- for each id that a delegation depends on there is a delegation that is completed.
pub schedule_ready-IsDue :
    (p : Projection) (launched : List String)
    → All (IsDue p launched) (schedule_ready p launched).launches
unfolding schedule_ready
schedule_ready-IsDue p launched =
    let ds = sorted_delegations p in
    let first = schedule (delegation_ready p) delegation_key launch_delegation ds launched in
    let second =
      schedule startable peer_turn_key launch_peer_turn (sorted_peer_turns p) first.launched in
    All-append (IsDue p launched) first.launches second.launches
      (from_delegations p launched first.launches
        (schedule-Justified (delegation_ready p) delegation_key launch_delegation ds launched))
      (from_peer_turns p launched first.launched second.launches
        (schedule-Grows (delegation_ready p) delegation_key launch_delegation ds launched)
        (schedule-Justified startable peer_turn_key launch_peer_turn (sorted_peer_turns p)
          first.launched))

-- scheduleReady starts an attempt once: called again on the same projection, it starts nothing and
-- keeps the set of launched attempts.
pub schedule_ready_again :
    (p : Projection) (launched : List String)
    → schedule_ready p (schedule_ready p launched).launched
      ≡ record { launches = []; launched = (schedule_ready p launched).launched }
unfolding schedule_ready
schedule_ready_again p launched =
    let ds = sorted_delegations p in
    let ts = sorted_peer_turns p in
    let first = schedule (delegation_ready p) delegation_key launch_delegation ds launched in
    let second = schedule startable peer_turn_key launch_peer_turn ts first.launched in
    let settled =
      Settled-Grows (delegation_ready p) delegation_key launch_delegation first.launched
        second.launched ds
        (schedule-Grows startable peer_turn_key launch_peer_turn ts first.launched)
        (schedule-Settled (delegation_ready p) delegation_key launch_delegation ds launched) in
    let none_first =
      schedule_stays (delegation_ready p) delegation_key launch_delegation ds second.launched
        settled in
    let none_second =
      schedule_stays startable peer_turn_key launch_peer_turn ts second.launched
        (schedule-Settled startable peer_turn_key launch_peer_turn ts first.launched) in
    rw none_first (rw none_second refl)
