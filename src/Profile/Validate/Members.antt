-- ===== src/Profile/Validate/Members.antt =====
-- internal/profile/validate.go: diagnostics, and the loops over the members of a Team.
use Prim.Native.Char.{code}
use text.Mathlib.Text.{◌==◌ as str_eq}
use alt_tui.Prelude.{
  ℕ, zero, suc, ◌≡◌, refl, String, Option, none, some, Bool, true, false, not, ◌&&◌, ◌||◌, List, [],
  ◌∷◌, ◌++◌, leb, ◌==◌, if◌then◌else◌,
}
use alt_tui.Prelude.Dict.{Dict, lookup, insert}
use alt_tui.Prelude.Text.{concat, itoa, fields, join}
use alt_tui.Profile.{
  Profile, ModelRef, AgentAssignment, SpecialistAssignment, contains_id, model_identity,
}

pub data Severity : Type 0 where
  error warning : Severity

pub record Diagnostic : Type 0 where
  pub severity : Severity
  pub path : String
  pub message : String

abbrev severity_is_error : Severity → Bool
severity_is_error error = true
severity_is_error warning = false

abbrev pub is_error : Diagnostic → Bool
is_error d = severity_is_error d.severity

-- `if bad { add(Error, path, message) }`
unfoldable pub check : Bool → String → String → List Diagnostic
check bad path message =
    if bad then record { severity = error; path = path; message = message } ∷ [] else []

is_lower : ℕ → Bool
is_lower c = leb b'a' c && leb c b'z'

is_word : ℕ → Bool
unfolding is_lower
is_word c = is_lower c || (leb b'0' c && leb c b'9')

-- what may follow the first letter; the flag tells that the last character was the dash of a group
scan_identifier : Bool → String → Bool
unfolding is_word
scan_identifier dashed String.[] = not dashed
scan_identifier dashed (String.◌∷◌ c s) =
    (is_word (code c) || (code c == b'-' && not dashed))
    && scan_identifier (not (is_word (code c))) s

-- ^[a-z][a-z0-9]*(?:-[a-z0-9]+)*$
unfoldable pub matches_identifier : String → Bool
unfolding scan_identifier is_lower
matches_identifier String.[] = false
matches_identifier (String.◌∷◌ c s) = is_lower (code c) && scan_identifier false s

identifier_test :
    (matches_identifier "gpt-4o" ≡ true)
    × (matches_identifier "a--b" ≡ false)
    × (matches_identifier "a-" ≡ false)
    × (matches_identifier "4o" ≡ false)
unfolding matches_identifier
identifier_test = (refl, refl, refl, refl)

-- validateID
unfoldable pub validate_id : String → String → List Diagnostic
unfolding check
validate_id path value = check (not (matches_identifier value)) path "must be lowercase kebab-case"

abbrev pub is_missing {ℓ} : {A : Type ℓ} → Option A → Bool
is_missing none = true
is_missing (some _) = false

-- validateModelReference
unfoldable pub validate_model_reference : Profile → String → String → List Diagnostic
validate_model_reference p path name =
    check (is_missing (lookup name p.models)) path
      (concat ("references unknown model " ∷ name ∷ []))

-- the maps that the loops over agents and specialists share
pub record Seen : Type 0 where
  pub model_owners : Dict String
  pub member_models : Dict String
  pub definitions : Dict String

abbrev pub no_seen : Seen
no_seen = record { model_owners = []; member_models = []; definitions = [] }

-- whether the map holds another value than `value` under `key`
abbrev pub is_other : Dict String → String → String → Bool
is_other m key value = elim (lookup key m) [ none ↦ false | some held ↦ not (str_eq held value) ]

abbrev owner_of : Dict String → String → String
owner_of m key = elim (lookup key m) [ none ↦ "" | some held ↦ held ]

-- registerModel, at a selected model
register_selected : (String → String) → String → String → ModelRef → Seen → List Diagnostic × Seen
register_selected to_lower path member model seen =
    let identity = model_identity to_lower model in
    let taken = is_other seen.model_owners identity member in
    let owners = if taken then seen.model_owners else insert identity member seen.model_owners in
    let second = is_other seen.member_models member identity in
    let members =
      if second then seen.member_models else insert member identity seen.member_models in
    (
      check taken path (
            concat (
              "assigns "
              ∷ model.name
              ∷ " to "
              ∷ member
              ∷ ", but that exact catalog model already belongs to "
              ∷ owner_of seen.model_owners identity
              ∷ "; one model is one Team member"
              ∷ []))
          ++ check second path
              (concat ("member " ∷ member ∷ " resolves to more than one catalog model" ∷ [])),
      record seen { model_owners = owners; member_models = members },
    )

-- registerModel
unfoldable pub register_model :
    (String → String) → Profile → String → String → String → Seen → List Diagnostic × Seen
unfolding register_selected
register_model to_lower p path member alias seen = elim (lookup alias p.models) [
  | none ↦ ([], seen)
  | some model ↦ register_selected to_lower path member model seen
]

-- validateDefinition
unfoldable pub validate_definition :
    (String → String) → String → String → String → Seen → List Diagnostic × Seen
validate_definition to_lower path id definition seen =
    let normalized = to_lower (join " " (fields definition)) in
    if str_eq normalized "" then (check true path "is required", seen) else (
      elim (lookup normalized seen.definitions) [
        | none ↦ []
        | some other ↦
            record {
              severity = warning;
              path = path;
              message =
                  concat ("duplicates " ∷ other ∷ " after case and whitespace normalization" ∷ []);
            }
            ∷ []
      ],
      record seen { definitions = insert normalized id seen.definitions },
    )

-- m[id] = true
unfoldable pub add_id : List String → String → List String
add_id ids id = if contains_id ids id then ids else id ∷ ids

-- the checks that both loops make of a member's model and definition
unfoldable pub check_member :
    (String → String) → Profile → String → String → String → String → Seen → List Diagnostic × Seen
check_member to_lower p path id model definition seen =
    let (d₁, seen₁) = register_model to_lower p (concat (path ∷ ".model" ∷ [])) id model seen in
    let (d₂, seen₂) =
      validate_definition to_lower (concat (path ∷ ".definition" ∷ [])) id definition seen₁ in
    (validate_model_reference p (concat (path ∷ ".model" ∷ [])) model ++ (d₁ ++ d₂), seen₂)

pub record Checked : Type 0 where
  pub out : List Diagnostic
  pub ids : List String
  pub seen : Seen

-- the path of an agent: the primary is at index 0
unfoldable pub agent_path : ℕ → String
agent_path zero = "primary"
agent_path (suc index) = concat ("peers[" ∷ itoa index ∷ "]" ∷ [])

-- the loop over `agents`
unfoldable pub check_agents :
    (String → String) → Profile → ℕ → List String → Seen → List AgentAssignment → Checked
check_agents to_lower p index ids seen [] = record { out = []; ids = ids; seen = seen }
check_agents to_lower p index ids seen (a ∷ rest) =
    let path = agent_path index in
    let (d, seen₁) = check_member to_lower p path a.id a.model a.definition seen in
    let later = check_agents to_lower p (suc index) (add_id ids a.id) seen₁ rest in
    record later {
      out =
          validate_id (concat (path ∷ ".id" ∷ [])) a.id
          ++ (check (contains_id ids a.id) (concat (path ∷ ".id" ∷ []))
                "duplicates another leadership-capable agent"
              ++ (d ++ later.out));
    }

-- the loop over `p.Specialists`
unfoldable pub check_specialists :
    (String → String)
    → Profile
    → ℕ
    → List String
    → List String
    → Seen
    → List SpecialistAssignment
    → Checked
check_specialists to_lower p index agent_ids ids seen [] = record {
  out = [];
  ids = ids;
  seen = seen;
}
check_specialists to_lower p index agent_ids ids seen (s ∷ rest) =
    let path = concat ("specialists[" ∷ itoa index ∷ "]" ∷ []) in
    let (d, seen₁) = check_member to_lower p path s.id s.model s.definition seen in
    let later = check_specialists to_lower p (suc index) agent_ids (add_id ids s.id) seen₁ rest in
    record later {
      out =
          validate_id (concat (path ∷ ".id" ∷ [])) s.id
          ++ (check (contains_id ids s.id || contains_id agent_ids s.id)
                (concat (path ∷ ".id" ∷ [])) "duplicates another Team member"
              ++ (d ++ later.out));
    }
