-- ===== src/ModelSurface/Examples.antt =====
-- internal/orchestrator/model_surface.go: two turns of one conversation.
use text.Mathlib.Text.{◌==◌ as str_eq}
use alt_tui.Prelude.{
  ℕ, ◌+◌, String, ◌≡◌, refl, sym, ap, ◌⊎◌, inl, inr, Option, none, some, Bool, true, false, List,
  [], ◌∷◌, ◌++◌, eq_iff, Bool-cases,
}
use alt_tui.Prelude.Text.{concat, itoa, join}
use alt_tui.Prelude.Dict.{remove}
use alt_tui.ModelSurface.{
  ModelMessage, Messages, ToolInfo, Surface, Ledger, AgentState, SurfaceError, Left,
  canonical_tools, epoch_reason, before_model, have_prefix, commit_surface, prepare_messages,
  load_surface, seen_in,
}
use alt_tui.ModelSurface.Epochs.{epochs, epochs_from}
use alt_tui.ModelSurface.Epochs.Run.{
  Call, before_model_call, after_model_call, run, run_numbers_epochs,
}
use alt_tui.ModelSurface.Epochs.Steady.{under, next_turn_keeps_epoch}
use alt_tui.ModelSurface.Saved.{IsKept, IsDistinct, load_after_commit}

abbrev unchanged : ModelMessage → ModelMessage
unchanged m = m

abbrev texts : Messages → String
texts [] = ""
texts (none ∷ l) = texts l
texts (some m ∷ l) = concat (m.content ∷ ";" ∷ texts l ∷ [])

abbrev header_text : String → String → List (Option ToolInfo) → List (Option ToolInfo) → String
header_text model instruction tools deferred = concat (model ∷ ":" ∷ instruction ∷ [])

abbrev surface_text : Surface → String
surface_text s =
    String.◌∷◌ "s" (concat (itoa s.epoch ∷ ":" ∷ s.header_digest ∷ ":" ∷ texts s.messages ∷ []))

abbrev never : ℕ → Bool
never n = false

abbrev message : Bool → String → ModelMessage
message is_system content = record {
  is_system = is_system;
  content = content;
  response_meta = none;
  extra = [];
  others = "";
}

abbrev instruction : ModelMessage
instruction = message true "You lead."

abbrev question : ModelMessage
question = message false "Where is the bug?"

abbrev answer : ModelMessage
answer = message false "In line 3."

abbrev second_question : ModelMessage
second_question = message false "Why?"

abbrev snapshot : ModelMessage
snapshot = message false "idle"

abbrev fresh : Surface
fresh = record {
  version = 1;
  conversation_id = "c";
  agent_id = "lead";
  epoch = 0;
  header_digest = "";
  messages = [];
  last_session_id = "";
  last_snapshot_digest = "";
  commit_digest = "";
}

abbrev empty : Ledger
empty = record { started = []; saved = none; calls = 0 }

abbrev asked : AgentState
asked = under instruction [] [] (some question ∷ some snapshot ∷ [])

abbrev answered : AgentState
answered = under instruction [] [] (some question ∷ some snapshot ∷ some answer ∷ [])

abbrev turn : List Call
turn = before_model_call (some asked) ∷ after_model_call (some answered) ∷ []

abbrev prepared : Messages
prepared = some question ∷ some snapshot ∷ some answer ∷ some second_question ∷ []

abbrev first_call : Left
first_call = before_model unchanged texts header_text never "m" (some asked) fresh empty

abbrev first_commit : Left
first_commit =
    commit_surface unchanged texts surface_text never "s1" "idle" (some answered) first_call.0
      first_call.1

first_call_returns : first_call.2 ≡ none
unfolding before_model epoch_reason have_prefix canonical_tools concat itoa join remove
first_call_returns = refl

second_turn_prepared :
    prepare_messages unchanged texts first_commit.0 "s2"
      (some second_question)
      (some snapshot)
      "idle"
    ≡ (none, prepared)
unfolding prepare_messages commit_surface before_model epoch_reason have_prefix canonical_tools
    concat itoa join remove
second_turn_prepared = refl

next_turn_keeps_epoch_example :
    before_model unchanged texts header_text never "m"
      (some (under instruction [] [] prepared))
      first_commit.0
      first_commit.1
    ≡ (first_commit.0, first_commit.1, none)
next_turn_keeps_epoch_example =
    next_turn_keeps_epoch unchanged texts header_text surface_text never (λ m. refl) (λ m. refl) "m"
      "s1" "idle" "s2" "idle" instruction (some second_question) (some snapshot)
      (some question ∷ some snapshot ∷ []) (some question ∷ some snapshot ∷ some answer ∷ [])
      prepared [] [] fresh empty first_commit.1 refl first_call_returns second_turn_prepared

abbrev after_turn : Left
after_turn = run unchanged texts header_text surface_text never "m" "s1" "idle" turn fresh empty

run_numbers_epochs_example :
    (many : ℕ) × (epochs after_turn.1 ≡ [] ++ epochs_from 0 many)
    × ((after_turn.0.epoch ≡ 0 + many) ⊎ ((e : SurfaceError) × (after_turn.2 ≡ some e)))
run_numbers_epochs_example =
    run_numbers_epochs unchanged texts header_text surface_text never "m" "s1" "idle" turn fresh
      empty

fresh-IsKept :
    IsKept unchanged texts header_text surface_text never "m" "s1" "idle" "c" "lead" fresh empty
fresh-IsKept = record { version = refl; conversation = refl; agent = refl; kept = inl refl }

turn_returns : after_turn.2 ≡ none
unfolding run commit_surface before_model epoch_reason have_prefix canonical_tools concat itoa join
    remove
turn_returns = refl

abbrev is_written : String → Bool
is_written String.[] = false
is_written (String.◌∷◌ c s) = true

surface_text-named : (t : Surface) → str_eq (surface_text t) "" ≡ false
surface_text-named t = elim (Bool-cases (str_eq (surface_text t) "")) [
  | inl e ↦ absurd (cc (ap is_written ((eq_iff (surface_text t) "").0 e)))
  | inr e ↦ e
]

-- what the turn has stored is what is committed again
turn-IsDistinct :
    IsDistinct unchanged texts header_text surface_text never "m" "s1" "idle" "c" "lead"
      (seen_in unchanged texts surface_text never "s1" "idle" answered after_turn.0)
      after_turn.1
unfolding run commit_surface before_model epoch_reason have_prefix canonical_tools concat itoa join
    remove
turn-IsDistinct u saved same =
    let stored : after_turn.0 ≡ u = some_inj after_turn.0 u saved in
    ap {A = Surface} (λ v. record v { commit_digest = "" }) (sym stored)
  where
    some_inj : (a b : Surface) → Path (Option Surface) (some a) (some b) → a ≡ b
    some_inj a b e = cc e

commit_returns :
    (commit_surface unchanged texts surface_text never "s1" "idle"
      (some answered)
      after_turn.0
      after_turn.1).2
    ≡ none
unfolding run commit_surface before_model epoch_reason have_prefix canonical_tools concat itoa join
    remove
commit_returns = refl

load_after_commit_example :
    let after =
      commit_surface unchanged texts surface_text never "s1" "idle"
        (some answered)
        after_turn.0
        after_turn.1 in
    load_surface unchanged texts "c" "lead" after.1 ≡ (none, after.0)
load_after_commit_example =
    load_after_commit unchanged texts header_text surface_text never "m" "s1" "idle" "c" "lead"
      (λ m. refl) surface_text-named turn answered fresh empty fresh-IsKept turn_returns
      turn-IsDistinct commit_returns
