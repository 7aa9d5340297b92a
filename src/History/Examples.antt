-- ===== src/History/Examples.antt =====
-- Examples of walking through prompts.
use alt_tui.Prelude.{◌≡◌, refl, none, some, true, false, [], ◌∷◌, arith}
use alt_tui.History.{PromptHistory, record_prompt, older, newer, reset_navigation, value_at}
use alt_tui.History.Cursor.Steps.{is_some}
use alt_tui.History.Cursor.{
  Reachable, fresh, recorded, moved_back, reachable-value_at, reachable-newer,
}
use alt_tui.History.Walk.{older_times, newer_times, newest, walk_roundtrip}

abbrev begun : PromptHistory
begun = record {
  snapshot = record { count = 0; newest_id = "" };
  persistent = [];
  local = [];
  cursor = some 0;
  draft = "";
  active = false;
  next_token = 0;
  pending = none;
}

-- two prompts, and a walk that has begun
abbrev walked : PromptHistory
walked = (older "new" (record_prompt "b" (record_prompt "a" begun))).0

walked-Reachable : Reachable walked
walked-Reachable =
    moved_back (record_prompt "b" (record_prompt "a" begun)) "new"
      (recorded (record_prompt "a" begun) "b" (recorded begun "a" fresh))

walked_active : walked.active ≡ true
unfolding older record_prompt reset_navigation value_at
walked_active = refl

walked_at : walked.cursor ≡ some 0
unfolding older record_prompt reset_navigation value_at
walked_at = refl

reachable-value_at_example : is_some (value_at walked (some 0)) ≡ true
reachable-value_at_example =
    reachable-value_at walked 0 0 walked-Reachable walked_active walked_at (omega arith)

reachable-newer_example : is_some (newer walked).1 ≡ true
reachable-newer_example = reachable-newer walked walked-Reachable walked_active

abbrev typed : PromptHistory
typed = record begun { local = "a" ∷ "b" ∷ "c" ∷ [] }

walk_roundtrip_example :
    ((older "new" (older_times 1 "new" typed)).1.shown ≡ newest ("a" ∷ "b" ∷ "c" ∷ []) 1)
    × ((newer (newer_times 1 (older_times 2 "new" typed))).1 ≡ some "new")
walk_roundtrip_example = walk_roundtrip typed "new" 1 refl refl (omega arith)
