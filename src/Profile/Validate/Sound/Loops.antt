-- ===== src/Profile/Validate/Sound/Loops.antt =====
-- internal/profile/validate.go: what the loops have checked when they report no error.
use text.Mathlib.Text.{◌==◌ as str_eq}
use alt_tui.Prelude.{
  ℕ, suc, String, ◌≡◌, ap, Bool, false, true, not, ◌||◌, List, [], ◌∷◌, ◌++◌, any, any-append,
  arith, eq_iff, map,
}
use alt_tui.Prelude.Dict.{lookup}
use alt_tui.Prelude.Text.{concat, itoa}
use alt_tui.Profile.{Profile, AgentAssignment, SpecialistAssignment, contains_id}
use alt_tui.Profile.Peers.{agent_ids}
use alt_tui.Profile.Validate.Members.{
  Diagnostic, is_error, check, matches_identifier, validate_id, is_missing, Seen, add_id,
  validate_model_reference, register_model, validate_definition, check_member, check_agents,
  check_specialists, agent_path,
}

abbrev pub errors : List Diagnostic → Bool
errors = any is_error

pub errors-append : (xs ys : List Diagnostic) → errors (xs ++ ys) ≡ (errors xs || errors ys)
errors-append = any-append is_error

pub errors-check : (b : Bool) (path message : String) → errors (check b path message) ≡ b
unfolding check
errors-check b path message = ground arith

pub errors-validate_id :
    (path value : String) → errors (validate_id path value) ≡ not (matches_identifier value)
unfolding validate_id
errors-validate_id path value = ground arith

module _ (to_lower : String → String) (p : Profile) where
  -- what the checks of a member's assignment and definition report
  assignment_errors : String → String → String → String → Seen → Bool
  assignment_errors path id model definition seen =
      let (d, seen₁) = register_model to_lower p (concat (path ∷ ".model" ∷ [])) id model seen in
      errors d
      || errors
          (validate_definition to_lower (concat (path ∷ ".definition" ∷ [])) id definition seen₁).0

  errors-check_member :
      (path id model definition : String) (seen : Seen)
      → errors (check_member to_lower p path id model definition seen).0
        ≡ (is_missing (lookup model p.models) || assignment_errors path id model definition seen)
  unfolding check_member validate_model_reference assignment_errors
  errors-check_member path id model definition seen = simp (errors-append, errors-check)

-- a loop's set of ids, after one more
contains_id_of :
    (ids : List String) (id x : String)
    → str_eq id x ≡ true
    → contains_id ids id ≡ contains_id ids x
contains_id_of ids id x h = ap (contains_id ids) ((eq_iff id x).0 h)

pub contains_id-add_id :
    (ids : List String) (id x : String)
    → contains_id (add_id ids id) x ≡ (contains_id ids x || str_eq id x)
unfolding add_id contains_id
contains_id-add_id ids id x = ground (arith, eq_iff id x, contains_id_of ids id x)

-- what is checked of a member of the Team
pub record MemberOk (p : Profile) (id model : String) : Type 0 where
  pub identifier : matches_identifier id ≡ true
  pub known_model : is_missing (lookup model p.models) ≡ false

-- `taken` are the ids that come before
abbrev pub AgentsOk : Profile → List String → List AgentAssignment → Type 0
AgentsOk p taken [] = Unit
AgentsOk p taken (a ∷ l) =
    MemberOk p a.id a.model × (contains_id taken a.id ≡ false) × AgentsOk p (add_id taken a.id) l

abbrev pub SpecialistsOk : Profile → List String → List String → List SpecialistAssignment → Type 0
SpecialistsOk p leaders taken [] = Unit
SpecialistsOk p leaders taken (s ∷ l) =
    MemberOk p s.id s.model
    × ((contains_id taken s.id || contains_id leaders s.id) ≡ false)
    × SpecialistsOk p leaders (add_id taken s.id) l

-- lists of ids that hold the same ids
abbrev pub SameIds : List String → List String → Type 0
SameIds xs ys = (x : String) → contains_id xs x ≡ contains_id ys x

pub SpecialistsOk-leaders :
    (p : Profile) (xs ys : List String) (taken : List String) (l : List SpecialistAssignment)
    → SameIds xs ys
    → SpecialistsOk p xs taken l
    → SpecialistsOk p ys taken l
SpecialistsOk-leaders p xs ys taken [] e h = tt
SpecialistsOk-leaders p xs ys taken (s ∷ l) e h =
    (h.0, rw (← e s.id) h.1, SpecialistsOk-leaders p xs ys (add_id taken s.id) l e h.2)

module _ (to_lower : String → String) (p : Profile) where
  pub check_agents-AgentsOk :
      (l : List AgentAssignment) (index : ℕ) (ids : List String) (seen : Seen)
      → errors (check_agents to_lower p index ids seen l).out ≡ false
      → AgentsOk p ids l
  unfolding check_agents
  check_agents-AgentsOk [] index ids seen h = tt
  check_agents-AgentsOk (a ∷ l) index ids seen h =
      let h' = simp (errors-append, errors-check, errors-validate_id, errors-check_member) at h in
      let seen₁ = (check_member to_lower p (agent_path index) a.id a.model a.definition seen).1 in
      (
        ground (arith, h'),
        ground (arith, h'),
        check_agents-AgentsOk l (suc index) (add_id ids a.id) seen₁ (ground (arith, h')),
      )

  pub check_specialists-SpecialistsOk :
      (leaders : List String) (l : List SpecialistAssignment) (index : ℕ) (ids : List String)
      (seen : Seen)
      → errors (check_specialists to_lower p index leaders ids seen l).out ≡ false
      → SpecialistsOk p leaders ids l
  unfolding check_specialists
  check_specialists-SpecialistsOk leaders [] index ids seen h = tt
  check_specialists-SpecialistsOk leaders (s ∷ l) index ids seen h =
      let h' = simp (errors-append, errors-check, errors-validate_id, errors-check_member) at h in
      let path = concat ("specialists[" ∷ itoa index ∷ "]" ∷ []) in
      let seen₁ = (check_member to_lower p path s.id s.model s.definition seen).1 in
      (
        ground (arith, h'),
        ground (arith, h'),
        check_specialists-SpecialistsOk leaders l (suc index) (add_id ids s.id) seen₁
            (ground (arith, h')),
      )

  -- the set of ids that the loop over the agents leaves behind
  pub ids-check_agents :
      (l : List AgentAssignment) (index : ℕ) (ids : List String) (seen : Seen) (x : String)
      → contains_id (check_agents to_lower p index ids seen l).ids x
        ≡ (contains_id ids x || contains_id (agent_ids l) x)
  unfolding check_agents contains_id
  ids-check_agents [] index ids seen x = ground arith
  ids-check_agents (a ∷ l) index ids seen x =
      let seen₁ = (check_member to_lower p (agent_path index) a.id a.model a.definition seen).1 in
      ground (
        arith,
        ids-check_agents l (suc index) (add_id ids a.id) seen₁ x,
        contains_id-add_id ids a.id x,
      )

  pub ids-check_specialists :
      (leaders : List String) (l : List SpecialistAssignment) (index : ℕ) (ids : List String)
      (seen : Seen) (x : String)
      → contains_id (check_specialists to_lower p index leaders ids seen l).ids x
        ≡ (contains_id ids x || contains_id (map (λ s. s.id) l) x)
  unfolding check_specialists contains_id
  ids-check_specialists leaders [] index ids seen x = ground arith
  ids-check_specialists leaders (s ∷ l) index ids seen x =
      let path = concat ("specialists[" ∷ itoa index ∷ "]" ∷ []) in
      let seen₁ = (check_member to_lower p path s.id s.model s.definition seen).1 in
      ground (
        arith,
        ids-check_specialists leaders l (suc index) (add_id ids s.id) seen₁ x,
        contains_id-add_id ids s.id x,
      )
