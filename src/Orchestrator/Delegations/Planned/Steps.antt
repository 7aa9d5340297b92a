-- ===== src/Orchestrator/Delegations/Planned/Steps.antt =====
-- internal/orchestrator/runtime.go: what one proposal of
-- materializeDelegations becomes.
use text.Mathlib.Text.{◌==◌ as str_eq}
use alt_tui.Prelude.{
  ℕ, ◌≤◌, ◌<◌, String, ◌≡◌, refl, inl, inr, some, true, false, not, List, [], ◌∷◌, ◌++◌, map, arith,
  eq_iff, All, All-append, Option-cases, ok, >>=-eq-ok, ok-injective, subst, passed,
}
use alt_tui.Prelude.Dict.{Dict, lookup, insert, lookup-insert}
use alt_tui.Prelude.Text.{is_blank}
use alt_tui.Profile.{Profile, AgentAssignment, specialist_for, contains_id}
use alt_tui.Profile.Validate.Members.{is_missing}
use alt_tui.Event.{DelegationSpec}
use alt_tui.Projection.{Projection}
use alt_tui.Orchestrator.{
  ProposedDelegation, unique_strings, validate_attachment_selection, check_selection,
  projection_attachment_references,
}
use alt_tui.Orchestrator.Delegations.{dependency_id, deeper, resolve_all, plan_delegation}

-- `id` is known work, below the depth
abbrev pub Below : Dict DelegationSpec → ℕ → String → Type 0
Below known depth id = (d : DelegationSpec) × (lookup id known ≡ some d) × (d.depth < depth)

All-Below :
    (known : Dict DelegationSpec) (m n : ℕ) (ids : List String)
    → m ≤ n
    → All (Below known m) ids
    → All (Below known n) ids
All-Below known m n [] le h = tt
All-Below known m n (id ∷ ids) le h = ((h.0.0, h.0.1, omega arith), All-Below known m n ids le h.1)

pub resolve_all-Below :
    (known : Dict DelegationSpec) (keys : Dict String) (key : String) (refs found : List String)
    (depth : ℕ) (found' : List String) (depth' : ℕ)
    → resolve_all known keys key refs found depth ≡ ok (found', depth')
    → All (Below known depth) found
    → All (Below known depth') found' × (depth ≤ depth')
unfolding resolve_all
resolve_all-Below known keys key [] found depth found' depth' h below =
    subst (λ r. All (Below known r.1) r.0 × (depth ≤ r.1)) (ok-injective h) (below, omega arith)
resolve_all-Below known keys key (r ∷ refs) found depth found' depth' h below =
    elim (Option-cases (lookup (dependency_id keys r) known)) [
      | inl e ↦ absurd (ground (arith, e))
      | inr (d, e) ↦
          let next : resolve_all known keys key refs (found ++ dependency_id keys r ∷ [])
                (deeper depth d)
              ≡ ok (found', depth') =
            ground (arith, e) in
          let le : depth ≤ deeper depth d = ground arith in
          let lt : d.depth < deeper depth d = ground arith in
          let (all, le') =
            resolve_all-Below known keys key refs (found ++ dependency_id keys r ∷ [])
              (deeper depth d) found' depth' next
              (All-append (Below known (deeper depth d)) found (dependency_id keys r ∷ [])
                (All-Below known depth (deeper depth d) found le below) ((d, e, lt), tt)) in
          (all, omega (arith, le))
    ]

-- What the agent may ask for: a specialist that it may call, an objective, and attachments that the
-- turn has.
pub record Permitted (p : Profile) (state : Projection) (agent : AgentAssignment)
    (spec : DelegationSpec) : Type 0 where
  pub caller : spec.caller_id ≡ agent.id
  pub callable : is_missing (specialist_for p agent spec.specialist_id) ≡ false
  pub purposeful : str_eq spec.objective "" ≡ false
  pub available : check_selection (projection_attachment_references state) spec.attachments ≡ ok tt

pub still_new :
    (keys : Dict String) (key id : String) (l : List DelegationSpec)
    → All (λ s. is_missing (lookup s.key (insert key id keys)) ≡ true) l
    → (contains_id (map (λ s. s.key) l) key ≡ false)
      × All (λ s. is_missing (lookup s.key keys) ≡ true) l
unfolding contains_id
still_new keys key id [] h = (refl, tt)
still_new keys key id (s ∷ l) h =
    let (c, all) = still_new keys key id l h.1 in
    (
      ground (arith, h.0, c, lookup-insert key s.key id keys, eq_iff key s.key, eq_iff s.key key),
      (ground (arith, h.0, lookup-insert key s.key id keys), all),
    )

module _ (p : Profile) (state : Projection) (agent : AgentAssignment) where
  selection-available :
      (requested selected : List String)
      → validate_attachment_selection state requested ≡ ok selected
      → check_selection (projection_attachment_references state) selected ≡ ok tt
  unfolding validate_attachment_selection
  selection-available requested selected h = ground arith

  pub plan_delegation_lem :
      (known : Dict DelegationSpec) (keys : Dict String) (id : String)
      (proposal : ProposedDelegation) (spec : DelegationSpec)
      → plan_delegation p state agent known keys id proposal ≡ ok spec
      → Permitted p state agent spec
        × (spec.id ≡ id)
        × (is_missing (lookup spec.key keys) ≡ true)
        × All (Below known spec.depth) spec.depends_on
  unfolding plan_delegation
  plan_delegation_lem known keys id proposal spec h =
      let (_, h₁) = passed (is_blank proposal.key) _ _ h in
      let (new, h₂) = passed (not (is_missing (lookup proposal.key keys))) _ _ h₁ in
      let (callable, h₃) =
        passed (is_missing (specialist_for p agent proposal.specialist_id)) _ _ h₂ in
      let (purposeful, h₄) = passed (is_blank proposal.objective) _ _ h₃ in
      let (attachments, selected, h₅) =
        >>=-eq-ok (validate_attachment_selection state proposal.attachments) _ h₄ in
      let (plan, resolved, h₆) =
        >>=-eq-ok (resolve_all known keys proposal.key (unique_strings proposal.depends_on) [] 1) _
          h₅ in
      let (below, _) =
        resolve_all-Below known keys proposal.key (unique_strings proposal.depends_on) [] 1 plan.0
          plan.1 resolved tt in
      subst
        (λ s.
          Permitted p state agent s
          × (s.id ≡ id)
          × (is_missing (lookup s.key keys) ≡ true)
          × All (Below known s.depth) s.depends_on)
        (ok-injective h₆)
        (
          record {
            caller = refl;
            callable = callable;
            purposeful = purposeful;
            available = selection-available proposal.attachments attachments selected;
          },
          refl,
          ground (arith, new),
          below,
        )
