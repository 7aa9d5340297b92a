-- ===== src/Orchestrator/Delegations.antt =====
-- internal/orchestrator/runtime.go: materializeDelegations. `uuid` is the generator of ids, here a
-- function of how many ids have been drawn; the failure of the system's entropy source is left out.
pub mod Planned
mod Examples
use alt_tui.Prelude.{
  ℕ, ◌+◌, String, ◌≡◌, refl, Option, none, some, Bool, true, false, not, List, [], ◌∷◌, ◌++◌, ltb,
  if◌then◌else◌, Result, ok, err, ◌>>=◌, ◌>>◌, reject_if,
}
use alt_tui.Prelude.Dict.{Dict, lookup, insert}
use alt_tui.Prelude.Text.{is_blank, trim_space}
use alt_tui.Profile.{Profile, AgentAssignment, specialist_for}
use alt_tui.Profile.Validate.Members.{is_missing}
use alt_tui.Event.{DelegationSpec}
use alt_tui.Projection.{Projection, Delegation}
use alt_tui.Orchestrator.{
  ProposedDelegation, PlanError, key_required, duplicate_key, no_specialist, empty_objective,
  unknown_dependency, unique_strings, validate_attachment_selection,
}

-- the specifications of the work that exists
unfoldable pub known_specs : Dict Delegation → Dict DelegationSpec
known_specs [] = []
known_specs ((id, w) ∷ rest) = (id, w.spec) ∷ known_specs rest

-- a key of this decision stands for the id of its delegation
abbrev pub dependency_id : Dict String → String → String
dependency_id keys reference = elim (lookup reference keys) [ none ↦ reference | some id ↦ id ]

-- one more than the depth of a dependency, if that is deeper
abbrev pub deeper : ℕ → DelegationSpec → ℕ
deeper depth d = if ltb depth (d.depth + 1) then d.depth + 1 else depth

-- the loop over the dependencies, with those found so far and the depth
pub resolve_all :
    Dict DelegationSpec
    → Dict String
    → String
    → List String
    → List String
    → ℕ
    → Result PlanError (List String × ℕ)
resolve_all known keys key [] found depth = ok (found, depth)
resolve_all known keys key (reference ∷ rest) found depth =
    elim (lookup (dependency_id keys reference) known) [
      | none ↦ err (unknown_dependency key reference)
      | some d ↦
          resolve_all known keys key rest (found ++ dependency_id keys reference ∷ [])
            (deeper depth d)
    ]

module _ (p : Profile) (state : Projection) (agent : AgentAssignment) where
  -- one proposal, at the id that it gets
  pub plan_delegation :
      Dict DelegationSpec
      → Dict String
      → String
      → ProposedDelegation
      → Result PlanError DelegationSpec
  plan_delegation known keys id proposal = do
    reject_if (is_blank proposal.key) key_required
    reject_if (not (is_missing (lookup proposal.key keys))) (duplicate_key proposal.key)
    reject_if (is_missing (specialist_for p agent proposal.specialist_id))
        (no_specialist proposal.specialist_id)
    reject_if (is_blank proposal.objective) (empty_objective proposal.key)
    attachments ← validate_attachment_selection state proposal.attachments
    (dependencies, depth) ←
        resolve_all known keys proposal.key (unique_strings proposal.depends_on) [] 1
    ok (record {
      id = id;
      key = proposal.key;
      specialist_id = proposal.specialist_id;
      caller_id = agent.id;
      objective = trim_space proposal.objective;
      context = trim_space proposal.context;
      attachments = attachments;
      depends_on = dependencies;
      required_tools = [];
      depth = depth;
    })

  -- the loop over the proposals; `drawn` ids have been drawn
  pub plan_delegations :
      (ℕ → String)
      → Dict DelegationSpec
      → Dict String
      → ℕ
      → List ProposedDelegation
      → Result PlanError (List DelegationSpec)
  plan_delegations uuid known keys drawn [] = ok []
  plan_delegations uuid known keys drawn (proposal ∷ rest) = do
    spec ← plan_delegation known keys (uuid drawn) proposal
    later ←
        plan_delegations uuid (insert spec.id spec known) (insert spec.key spec.id keys) (drawn + 1)
          rest
    ok (spec ∷ later)

  -- materializeDelegations
  pub materialize_delegations :
      (ℕ → String) → ℕ → List ProposedDelegation → Result PlanError (List DelegationSpec)
  materialize_delegations uuid drawn proposals =
      plan_delegations uuid (known_specs state.delegations) [] drawn proposals

  -- no proposal, no delegation
  pub materialize_delegations-nil :
      (uuid : ℕ → String) (drawn : ℕ) → materialize_delegations uuid drawn [] ≡ ok []
  unfolding materialize_delegations plan_delegations
  materialize_delegations-nil uuid drawn = refl
