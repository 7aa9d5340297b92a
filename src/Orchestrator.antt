-- ===== src/Orchestrator.antt =====
-- internal/orchestrator: decisions of a leader (decision.go) and the small helpers of runtime.go.
pub mod Unique
pub mod Delegations
pub mod PeerTurns
pub mod Schedule
pub mod Decision
mod Examples
use Prim.Native.String.{compare}
use text.Mathlib.Text.{◌==◌ as str_eq, is_lt}
use alt_tui.Prelude.{
  ℕ, String, Option, none, some, Bool, true, false, List, [], ◌∷◌, ◌++◌, map, if◌then◌else◌, Result,
  ok, err,
}
use alt_tui.Prelude.Text.{trim_space}
use alt_tui.Content.{Input, attachment_refs}
use alt_tui.Profile.{contains_id}
use alt_tui.Projection.{Projection}

pub record ProposedHandoff : Type 0 where
  pub peer_id : String
  pub reason : String

pub record ProposedPeerTurn : Type 0 where
  pub key : String
  pub peer_id : String
  pub collaboration_id : String
  pub objective : String
  pub context : String
  pub attachments : List String

pub record ProposedDelegation : Type 0 where
  pub key : String
  pub specialist_id : String
  pub objective : String
  pub context : String
  pub attachments : List String
  pub depends_on : List String

pub record AgentDecision : Type 0 where
  pub kind : String
  pub assessment : String
  pub delegations : List ProposedDelegation
  pub peer_turns : List ProposedPeerTurn
  pub cancel : List String
  pub handoff : Option ProposedHandoff
  pub observed_work : ℕ

-- the errors that a decision is refused with
pub data PlanError : Type 0 where
  key_required : PlanError
  duplicate_key : String → PlanError
  no_specialist : String → PlanError
  no_peer : String → PlanError
  empty_objective : String → PlanError
  no_attachment : String → PlanError
  unknown_dependency : String → String → PlanError
  foreign_collaboration : String → PlanError
  busy_collaboration : String → PlanError
  absent_leader : String → PlanError
  not_exclusive : PlanError
  unknown_work : String → PlanError
  no_handoff_peer : String → String → PlanError
  no_handoff_reason : PlanError
  cancelled_dependency : String → String → PlanError

-- the loop of uniqueStrings; `seen` is its set
unique_from : List String → List String → List String
unique_from seen [] = []
unique_from seen (value ∷ values) =
    let t = trim_space value in
    let skipped = unique_from seen values in
    let kept = t ∷ unique_from (t ∷ seen) values in
    if str_eq t "" then skipped else if contains_id seen t then skipped else kept

insert_string : String → List String → List String
insert_string s [] = s ∷ []
insert_string s (t ∷ rest) =
    let later = insert_string s rest in if is_lt (compare t s) then t ∷ later else s ∷ t ∷ rest

-- sort.Strings
sort_strings : List String → List String
unfolding insert_string
sort_strings [] = []
sort_strings (s ∷ rest) = insert_string s (sort_strings rest)

-- uniqueStrings
pub unique_strings : List String → List String
unique_strings values = sort_strings (unique_from [] values)

-- projectionAttachmentReferences
input_references : List Input → List String
input_references [] = []
input_references (input ∷ rest) =
    map (λ r. r.reference) (attachment_refs input) ++ input_references rest

unfoldable pub projection_attachment_references : Projection → List String
unfolding input_references
projection_attachment_references p =
    unique_strings (input_references (p.task_input ∷ p.user_instruction_inputs))

-- the loop of validateAttachmentSelection
unfoldable pub check_selection : List String → List String → Result PlanError (Unit {0})
check_selection available [] = ok tt
check_selection available (reference ∷ rest) =
    let later = check_selection available rest in
    if contains_id available reference then later else err (no_attachment reference)

-- validateAttachmentSelection
unfoldable pub validate_attachment_selection :
    Projection → List String → Result PlanError (List String)
validate_attachment_selection p requested =
    let selected = unique_strings requested in
    elim (check_selection (projection_attachment_references p) selected) [
      | ok _ ↦ ok selected
      | err e ↦ err e
    ]
