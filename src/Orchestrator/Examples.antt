-- ===== src/Orchestrator/Examples.antt =====
-- Examples of the sets of texts of a decision.
use text.Mathlib.Text.{◌==◌ as str_eq}
use alt_tui.Prelude.{String, ◌≡◌, refl, not, ◌&&◌, [], ◌∷◌}
use alt_tui.Prelude.Text.{trim_space}
use alt_tui.Profile.{contains_id}
use alt_tui.Profile.Peers.{Distinct}
use alt_tui.Orchestrator.{unique_strings, unique_from, sort_strings, insert_string}
use alt_tui.Orchestrator.Unique.{trims_to, unique_strings-exact}

unique_strings_test : unique_strings (" b" ∷ "a" ∷ "" ∷ "b " ∷ []) ≡ "a" ∷ "b" ∷ []
unfolding unique_strings unique_from sort_strings insert_string trim_space contains_id
unique_strings_test = refl

unique_strings-exact_example :
    Distinct (unique_strings (" b" ∷ "a" ∷ "b" ∷ []))
    × ((x : String)
        → contains_id (unique_strings (" b" ∷ "a" ∷ "b" ∷ [])) x
          ≡ (trims_to x (" b" ∷ "a" ∷ "b" ∷ []) && not (str_eq x "")))
unique_strings-exact_example = unique_strings-exact (" b" ∷ "a" ∷ "b" ∷ [])
