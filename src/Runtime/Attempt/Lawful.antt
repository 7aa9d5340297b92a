-- ===== src/Runtime/Attempt/Lawful.antt =====
-- internal/orchestrator/runtime.go and peer.go: what the events of a kind of work do.
use alt_tui.Prelude.{ℕ, String, ◌≡◌, refl, ok}
use alt_tui.Prelude.Dict.{update}
use alt_tui.Event.{Event, StartedData, CompletedData, FailedData}
use alt_tui.Projection.{Projection, apply_body, started, finished, broken}
use alt_tui.Store.{no_change, change_of}
use alt_tui.Store.Returns.{IsSound}
use alt_tui.Runtime.{SessionRuntime}
use alt_tui.Runtime.Execution.{Kind, delegation_kind, peer_turn_kind}
use alt_tui.Runtime.Cancellation.{Stands}
use alt_tui.Runtime.Decided.{launched}

-- What the events of a kind of work do: each writes to its item and leaves the session's row alone.
pub record IsLawful {S : Type 0} (uuid : ℕ → String) (kind : Kind S) : Type 0 where
  pub covers : (p : Projection) (k : ℕ) → kind.items (record p { last_sequence = k }) ≡ kind.items p
  pub on_start :
      (d : StartedData) (item : Event) (p : Projection)
      → (n : Projection) × (apply_body (kind.started_body d) item p ≡ ok n)
        × (kind.items n ≡ update d.id (started d) (kind.items p))
  pub on_finish :
      (d : CompletedData) (item : Event) (p : Projection)
      → (n : Projection) × (apply_body (kind.completed_body d) item p ≡ ok n)
        × (kind.items n ≡ update d.id (finished d item) (kind.items p))
  pub on_failure :
      (d : FailedData) (item : Event) (p : Projection)
      → (n : Projection) × (apply_body (kind.failed_body d) item p ≡ ok n)
        × (kind.items n ≡ update d.id (broken d item) (kind.items p))
  pub sound_start : (d : StartedData) → IsSound (kind.started_body d)
  pub sound_finish : (d : CompletedData) → IsSound (kind.completed_body d)
  pub sound_failure : (d : FailedData) → IsSound (kind.failed_body d)
  pub ends :
      (r : SessionRuntime) (p : Projection)
      → Stands uuid r p
      → (s : SessionRuntime) × (kind.at_end r ≡ (s, ok tt)) × Stands uuid s p

pub delegation_kind-IsLawful :
    (uuid : ℕ → String) (now : ℕ → ℕ)
    → ((m n : ℕ) → uuid m ≡ uuid n → m ≡ n)
    → IsLawful uuid delegation_kind
unfolding apply_body change_of
delegation_kind-IsLawful uuid now distinct = record {
  covers = λ p k. refl;
  on_start =
      λ d item p. (record p { delegations = update d.id (started d) p.delegations }, refl, refl);
  on_finish = λ d item p.
      (record p { delegations = update d.id (finished d item) p.delegations }, refl, refl);
  on_failure = λ d item p.
      (record p { delegations = update d.id (broken d item) p.delegations }, refl, refl);
  sound_start = λ d _. (no_change, refl);
  sound_finish = λ d _. (no_change, refl);
  sound_failure = λ d _. (no_change, refl);
  ends = launched uuid now distinct;
}

pub peer_turn_kind-IsLawful : (uuid : ℕ → String) → IsLawful uuid peer_turn_kind
unfolding apply_body change_of
peer_turn_kind-IsLawful uuid = record {
  covers = λ p k. refl;
  on_start =
      λ d item p. (record p { peer_turns = update d.id (started d) p.peer_turns }, refl, refl);
  on_finish = λ d item p.
      (record p { peer_turns = update d.id (finished d item) p.peer_turns }, refl, refl);
  on_failure =
      λ d item p. (record p { peer_turns = update d.id (broken d item) p.peer_turns }, refl, refl);
  sound_start = λ d _. (no_change, refl);
  sound_finish = λ d _. (no_change, refl);
  sound_failure = λ d _. (no_change, refl);
  ends = λ r p h. (r, refl, h);
}
