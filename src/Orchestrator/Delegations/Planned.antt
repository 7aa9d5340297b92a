-- ===== src/Orchestrator/Delegations/Planned.antt =====
-- internal/orchestrator/runtime.go: theorems about materializeDelegations.
pub mod Steps
use text.Mathlib.Text.{◌==◌ as str_eq}
use alt_tui.Prelude.{
  ℕ, ◌+◌, ◌<◌, String, ◌≡◌, refl, sym, ap, ◌∙◌, ◌⊎◌, inl, inr, some, true, List, [], ◌∷◌, map,
  arith, eq_iff, All, In, Bool-cases, ok, >>=-eq-ok, ok-injective, subst,
}
use alt_tui.Prelude.Dict.{Dict, lookup, insert, lookup-insert}
use alt_tui.Profile.{Profile, AgentAssignment}
use alt_tui.Profile.Peers.{Distinct}
use alt_tui.Profile.Validate.Members.{is_missing}
use alt_tui.Event.{DelegationSpec}
use alt_tui.Projection.{Projection}
use alt_tui.Orchestrator.{ProposedDelegation}
use alt_tui.Orchestrator.Delegations.{
  known_specs, plan_delegation, plan_delegations, materialize_delegations,
}
use alt_tui.Orchestrator.Delegations.Planned.Steps.{
  Below, Permitted, still_new, plan_delegation_lem,
}

module _ (p : Profile) (state : Projection) (agent : AgentAssignment) where
  -- `d` is the work `id`, of the turn or of the plan
  abbrev pub IsSource : List DelegationSpec → String → DelegationSpec → Type 0
  IsSource plan id d =
      (lookup id (known_specs state.delegations) ≡ some d) ⊎ (In d plan × (d.id ≡ id))

  -- what `known` holds: the work that there was, and the delegations planned before
  abbrev Sources : Dict DelegationSpec → List DelegationSpec → Type 0
  Sources known plan =
      (k : String) (d : DelegationSpec) → lookup k known ≡ some d → IsSource plan k d

  -- Every dependency is work of a smaller depth, in the state or in the same decision.
  abbrev pub Grounded : List DelegationSpec → DelegationSpec → Type 0
  Grounded plan spec =
      All (λ id. (d : DelegationSpec) × IsSource plan id d × (d.depth < spec.depth)) spec.depends_on

  grounded_from :
      (known : Dict DelegationSpec) (plan : List DelegationSpec) (depth : ℕ) (ids : List String)
      → Sources known plan
      → All (Below known depth) ids
      → All (λ id. (d : DelegationSpec) × IsSource plan id d × (d.depth < depth)) ids
  grounded_from known plan depth [] src h = tt
  grounded_from known plan depth (id ∷ ids) src h =
      let (d, e, lt) = h.0 in ((d, src id d e, lt), grounded_from known plan depth ids src h.1)

  Sources-insert :
      (known : Dict DelegationSpec) (plan : List DelegationSpec) (spec : DelegationSpec)
      → Sources known plan
      → In spec plan
      → Sources (insert spec.id spec known) plan
  Sources-insert known plan spec src m k d e = elim (Bool-cases (str_eq spec.id k)) [
    | inl same ↦
        let at : spec ≡ d = ground (arith, e, lookup-insert spec.id k spec known, same) in
        inr (
          subst (λ x. In x plan) at m,
          ap (λ (x : DelegationSpec). x.id) (sym at) ∙ (eq_iff spec.id k).0 same,
        )
    | inr other ↦ src k d (ground (arith, e, lookup-insert spec.id k spec known, other))
  ]

  plan_nil :
      (uuid : ℕ → String) (known : Dict DelegationSpec) (keys : Dict String) (drawn : ℕ)
      (specs : List DelegationSpec)
      → plan_delegations p state agent uuid known keys drawn [] ≡ ok specs
      → [] ≡ specs
  unfolding plan_delegations
  plan_nil uuid known keys drawn specs h = ok-injective h

  plan_step :
      (uuid : ℕ → String) (known : Dict DelegationSpec) (keys : Dict String) (drawn : ℕ)
      (proposal : ProposedDelegation) (rest : List ProposedDelegation) (specs : List DelegationSpec)
      → plan_delegations p state agent uuid known keys drawn (proposal ∷ rest) ≡ ok specs
      → (spec : DelegationSpec) × (later : List DelegationSpec) × (plan_delegation p state agent
            known keys
            (uuid drawn)
            proposal
          ≡ ok spec)
        × (plan_delegations p state agent uuid
              (insert spec.id spec known)
              (insert spec.key spec.id keys)
              (drawn + 1)
              rest
            ≡ ok later)
        × (spec ∷ later ≡ specs)
  unfolding plan_delegations
  plan_step uuid known keys drawn proposal rest specs h =
      let (spec, first, h₁) =
        >>=-eq-ok (plan_delegation p state agent known keys (uuid drawn) proposal) _ h in
      let (later, others, h₂) =
        >>=-eq-ok
          (plan_delegations p state agent uuid (insert spec.id spec known)
            (insert spec.key spec.id keys) (drawn + 1) rest)
          _ h₁ in
      (spec, later, first, others, ok-injective h₂)

  module _ (uuid : ℕ → String) (plan : List DelegationSpec) where
    plan_delegations-Grounded :
        (rest : List ProposedDelegation) (known : Dict DelegationSpec) (keys : Dict String)
        (drawn : ℕ) (specs : List DelegationSpec)
        → Sources known plan
        → ((s : DelegationSpec) → In s specs → In s plan)
        → plan_delegations p state agent uuid known keys drawn rest ≡ ok specs
        → All (λ s. Permitted p state agent s × Grounded plan s) specs
    plan_delegations-Grounded [] known keys drawn specs src sub h =
        subst (All _) (plan_nil uuid known keys drawn specs h) tt
    plan_delegations-Grounded (proposal ∷ rest) known keys drawn specs src sub h =
        let (spec, later, first, others, e) =
          plan_step uuid known keys drawn proposal rest specs h in
        let (permitted, _, _, below) =
          plan_delegation_lem p state agent known keys (uuid drawn) proposal spec first in
        let here : In spec plan = sub spec (subst (In spec) e (inl refl)) in
        subst (All _) e (
          (permitted, grounded_from known plan spec.depth spec.depends_on src below),
          plan_delegations-Grounded rest (insert spec.id spec known) (insert spec.key spec.id keys)
              (drawn + 1) later (Sources-insert known plan spec src here)
              (λ s m. sub s (subst (In s) e (inr m))) others,
        )

  -- no later delegation has a key of `keys`
  plan_delegations-new :
      (uuid : ℕ → String) (rest : List ProposedDelegation) (known : Dict DelegationSpec)
      (keys : Dict String) (drawn : ℕ) (specs : List DelegationSpec)
      → plan_delegations p state agent uuid known keys drawn rest ≡ ok specs
      → Distinct (map (λ s. s.key) specs) × All (λ s. is_missing (lookup s.key keys) ≡ true) specs
  plan_delegations-new uuid [] known keys drawn specs h =
      subst
        (λ l. Distinct (map (λ s. s.key) l) × All (λ s. is_missing (lookup s.key keys) ≡ true) l)
        (plan_nil uuid known keys drawn specs h) (tt, tt)
  plan_delegations-new uuid (proposal ∷ rest) known keys drawn specs h =
      let (spec, later, first, others, e) = plan_step uuid known keys drawn proposal rest specs h in
      let (_, _, new, _) =
        plan_delegation_lem p state agent known keys (uuid drawn) proposal spec first in
      let (distinct, all) =
        plan_delegations-new uuid rest (insert spec.id spec known) (insert spec.key spec.id keys)
          (drawn + 1) later others in
      let (other, still) = still_new keys spec.key spec.id later all in
      subst
        (λ l. Distinct (map (λ s. s.key) l) × All (λ s. is_missing (lookup s.key keys) ≡ true) l) e
        ((other, distinct), (new, still))

  -- Every plan that materializeDelegations accepts has distinct keys. Each of its delegations goes to
  -- a specialist that the caller may call, with an objective and with attachments that the turn has,
  -- and depends only on work of the turn or on delegations of the plan, all of a smaller depth.
  pub materialize_delegations_plan :
      (uuid : ℕ → String) (drawn : ℕ) (proposals : List ProposedDelegation)
      (plan : List DelegationSpec)
      → materialize_delegations p state agent uuid drawn proposals ≡ ok plan
      → Distinct (map (λ s. s.key) plan)
        × All (λ s. Permitted p state agent s × Grounded plan s) plan
  unfolding materialize_delegations
  materialize_delegations_plan uuid drawn proposals plan h = (
    (plan_delegations-new uuid proposals (known_specs state.delegations) [] drawn plan h).0,
    plan_delegations-Grounded uuid plan proposals (known_specs state.delegations) [] drawn plan
        (λ k d e. inl e) (λ s m. m) h,
  )
