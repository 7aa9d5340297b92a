-- ===== src/Budget/Examples.antt =====
-- Examples of context budgets.
use alt_tui.Prelude.{
  ℕ, ◌+◌, ◌≤◌, ◌<◌, String, ◌≡◌, refl, ◌⊎◌, arith, inl, inr, Option, none, some, true, false, List,
  [], ◌∷◌,
}
use alt_tui.Budget.{
  user, assistant, Message, Tool, ContextBudget, new_context_budget, plan, count, observe_overflow,
  available_result_bytes, calibration, assistant_usage, estimate_json_tokens,
  observed_bytes_per_token, hard_prompt_capacity, observed_output_reserve, remember, ratio_from,
  latest_usage, estimate_all, estimate_byte_tokens, tool_header_for_counting, clean_tools,
  max_completion, observed_growth_reserve, skip_end, take_results, reversed,
}
use alt_tui.Budget.Ratio.{estimate-covers_completion, estimate-covers_bytes}
use alt_tui.Budget.Plan.{
  Within, plan-Within, plan-available, observe_overflow-lowers, observe_overflow-bounded,
}

-- 40 bytes for a message, and 4 for nil
abbrev forty : Option Message → Option ℕ
forty none = some 4
forty (some _) = some 40

abbrev one_header : List Tool → String × ℕ
one_header tools = ("tools", 30)

abbrev asked : Message
asked = record { role = user; body = "hello"; usage = none; extra = "" }

abbrev replied : Message
replied = record {
  role = assistant;
  body = "hi";
  usage = some (record { prompt_tokens = 20; completion_tokens = 10; total_tokens = 30 });
  extra = "";
}

abbrev talk : List (Option Message)
talk = some asked ∷ some replied ∷ some asked ∷ []

abbrev budget : ContextBudget
budget = new_context_budget (record {
  context_window = record { tokens = 1000; source = "models.dev" };
  max_input = record { tokens = 0; source = "" };
  max_output = record { tokens = 20; source = "models.dev" };
})

replied-calibration : calibration forty (some replied) ≡ some (40, 10)
unfolding assistant_usage
replied-calibration = refl

estimate-covers_completion_example :
    10 ≤ estimate_json_tokens forty (some replied) (observed_bytes_per_token forty talk)
estimate-covers_completion_example =
    estimate-covers_completion forty talk (some replied) 40 10 (inr (inl refl)) replied-calibration

estimate-covers_bytes_example :
    40 ≤ estimate_json_tokens forty (some asked) (observed_bytes_per_token forty talk)
estimate-covers_bytes_example = estimate-covers_bytes forty talk (some asked) 40 refl

plan-Within_example :
    (((plan forty one_header budget talk []).0.known ≡ true)
      × Within forty talk budget (plan forty one_header budget talk []).0)
    ⊎ (((plan forty one_header budget talk []).0.known ≡ false)
        × (hard_prompt_capacity budget
              (observed_output_reserve talk budget.limits.max_output.tokens)
            ≡ 0))
plan-Within_example = plan-Within forty one_header budget talk []

room : available_result_bytes (plan forty one_header budget talk []).1 ≡ (880, true)
unfolding plan available_result_bytes remember count observed_bytes_per_token ratio_from
    assistant_usage latest_usage estimate_all estimate_json_tokens estimate_byte_tokens
    tool_header_for_counting clean_tools observed_output_reserve max_completion hard_prompt_capacity
    observed_growth_reserve skip_end take_results reversed new_context_budget
room = refl

plan-available_example :
    (plan forty one_header budget talk []).0.estimated + 880
    ≤ (plan forty one_header budget talk []).0.high_water
plan-available_example = plan-available forty one_header budget talk [] 880 room (omega arith)

counted : 1 < (count forty one_header budget talk []).0
unfolding count observed_bytes_per_token ratio_from assistant_usage latest_usage estimate_all
    estimate_json_tokens estimate_byte_tokens tool_header_for_counting clean_tools
    new_context_budget
counted = omega arith

observe_overflow-lowers_example :
    hard_prompt_capacity (observe_overflow forty one_header budget talk [] 0) 10
    < (count forty one_header budget talk []).0
observe_overflow-lowers_example = observe_overflow-lowers forty one_header budget talk [] 10 counted

observe_overflow-bounded_example :
    (hard_prompt_capacity (observe_overflow forty one_header budget talk [] 64) 10 ≤ 64)
    × ((budget.observed_upper_bound ≡ 0)
        ⊎ ((0 < (observe_overflow forty one_header budget talk [] 64).observed_upper_bound)
            × ((observe_overflow forty one_header budget talk [] 64).observed_upper_bound
                ≤ budget.observed_upper_bound)))
observe_overflow-bounded_example =
    observe_overflow-bounded forty one_header budget talk [] 64 10 (omega arith)
