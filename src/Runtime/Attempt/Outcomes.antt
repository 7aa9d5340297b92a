-- ===== src/Runtime/Attempt/Outcomes.antt =====
-- internal/orchestrator/runtime.go and peer.go: what an attempt at work comes to.
use alt_tui.Prelude.{ℕ, String, ◌≡◌, refl, Option, some, false, ok}
use alt_tui.Prelude.Dict.{lookup}
use alt_tui.Prelude.Text.{is_blank}
use alt_tui.Profile.{Profile}
use alt_tui.Event.{Event}
use alt_tui.Projection.{Projection, Work, completed, finished}
use alt_tui.Runtime.{SessionRuntime, RunError}
use alt_tui.Runtime.Execution.{SpecialistResult, answered, Kind, or_trimmed, end}
use alt_tui.Runtime.Cancellation.{Stands}
use alt_tui.Runtime.Attempt.Lawful.{IsLawful}
use alt_tui.Runtime.Attempt.{completion, end-completes}

-- A result completes its work whatever the status that the work had: a delegation or a peer turn
-- that was cancelled while its worker ran is completed when the result arrives.
pub result_after_cancellation :
    (uuid : ℕ → String) (now : ℕ → ℕ) (describe : RunError → String)
    (decode : String → Option SpecialistResult) {S : Type 0} (kind : Kind S)
    (id worker raw : String) (attempt : ℕ) (r : SessionRuntime) (p : Projection) (w : Work S)
    → ((m n : ℕ) → uuid m ≡ uuid n → m ≡ n)
    → IsLawful uuid kind
    → Stands uuid r p
    → lookup id (kind.items p) ≡ some w
    → is_blank (or_trimmed raw (decode raw)).result ≡ false
    → (s : SessionRuntime) × (q : Projection) × (w' : Work S) × (end uuid now describe decode kind
          id worker attempt
          (answered raw)
          r
        ≡ (s, ok tt))
      × Stands uuid s q
      × (lookup id (kind.items q) ≡ some w')
      × (w'.status ≡ completed)
unfolding finished
result_after_cancellation uuid now describe decode kind id worker raw attempt r p w distinct lawful
      h at given =
    let (s, q, item, ran, hs, done) =
      end-completes uuid now distinct describe decode kind lawful id worker attempt raw r p w h at
        given in
    (
      s,
      q,
      finished (completion id attempt (or_trimmed raw (decode raw))) item w,
      ran,
      hs,
      done,
      refl,
    )
