-- ===== src/Budget.antt =====
-- internal/tooling/context_budget.go: how much of the context window the next call may use. A list
-- of messages or tools may hold nil, here `none`. `marshal` gives the number of bytes that
-- json.Marshal writes for a message without its metadata, or `none` for its error; `tool_header`
-- the text and bytes for a list of tools. Counts are natural numbers: a test `<= 0` is one for 0,
-- and a difference that the code raises to 0 is the difference of ℕ. The mutex of the source makes
-- each operation one step.
pub mod Messages
pub mod Ratio
pub mod Step
pub mod Plan
mod Examples
use text.Mathlib.Text.{◌==◌ as str_eq}
use alt_tui.Prelude.{
  ℕ, ◌+◌, ◌-◌, ◌*◌, ◌/◌, String, Option, none, some, Bool, true, false, not, ◌&&◌, ◌||◌, List, [],
  ◌∷◌, ltb, ◌==◌, if◌then◌else◌, length,
}
unfoldable pub use Messages.*
use alt_tui.Limits.{ModelLimits}

-- contextBudgetPlan
pub record ContextBudgetPlan : Type 0 where
  pub known : Bool
  pub estimated : ℕ
  pub prompt_capacity : ℕ
  pub output_reserve : ℕ
  pub growth_reserve : ℕ
  pub high_water : ℕ
  pub low_water : ℕ

-- contextBudget
pub record ContextBudget : Type 0 where
  pub limits : ModelLimits
  pub observed_upper_bound : ℕ
  pub last_tool_digest : String
  pub latest_plan : ContextBudgetPlan

abbrev no_plan : ContextBudgetPlan
no_plan = record {
  known = false;
  estimated = 0;
  prompt_capacity = 0;
  output_reserve = 0;
  growth_reserve = 0;
  high_water = 0;
  low_water = 0;
}

-- newContextBudget
pub new_context_budget : ModelLimits → ContextBudget
new_context_budget limits = record {
  limits = limits;
  observed_upper_bound = 0;
  last_tool_digest = "";
  latest_plan = no_plan;
}

-- contextBudget.remember
unfoldable pub remember : ContextBudgetPlan → ContextBudget → ContextBudget
remember plan b = record b { latest_plan = plan }

-- contextBudget.availableResultBytes
pub available_result_bytes : ContextBudget → ℕ × Bool
available_result_bytes b =
    if b.latest_plan.known
    then (b.latest_plan.high_water - b.latest_plan.estimated, true)
    else (0, false)

-- the combined window, which an observed bound can lower
abbrev context_tokens : ContextBudget → ℕ
context_tokens b =
    let window = b.limits.context_window.tokens in
    if ltb 0 b.observed_upper_bound && (window == 0 || ltb b.observed_upper_bound window)
    then b.observed_upper_bound
    else window

-- contextBudget.hardPromptCapacity
unfoldable pub hard_prompt_capacity : ContextBudget → ℕ → ℕ
hard_prompt_capacity b output_reserve =
    let input = b.limits.max_input.tokens in
    let combined = context_tokens b - output_reserve in
    if ltb 0 (context_tokens b) && (input == 0 || ltb combined input) then combined else input

-- the bound is lowered to a new one that is known
abbrev lowered : ℕ → ContextBudget → ContextBudget
lowered bound b =
    if bound == 0
    then b
    else if b.observed_upper_bound == 0 || ltb bound b.observed_upper_bound
    then record b { observed_upper_bound = bound }
    else b

module _ (marshal : Option Message → Option ℕ) (tool_header : List Tool → String × ℕ) where
  -- toolHeaderForCounting
  pub tool_header_for_counting : List (Option Tool) → String × ℕ
  tool_header_for_counting [] = ("", 0)
  tool_header_for_counting (t ∷ rest) = tool_header (clean_tools (t ∷ rest))

  -- contextBudget.count
  pub count : ContextBudget → List (Option Message) → List (Option Tool) → ℕ × ContextBudget
  count b messages tools =
      let ratio = observed_bytes_per_token marshal messages in
      let header = tool_header_for_counting tools in
      let b' = record b { last_tool_digest = header.0 } in
      let tool_tokens = estimate_byte_tokens header.1 ratio.0 ratio.1 in
      elim (latest_usage messages) [
        | none ↦ (estimate_all marshal messages ratio + tool_tokens, b')
        | some (base, after) ↦ (
          base
              + estimate_all marshal after ratio
              + (if str_eq header.0 b.last_tool_digest then 0 else tool_tokens),
          b',
        )
      ]

  -- contextBudget.plan
  pub plan :
      ContextBudget → List (Option Message) → List (Option Tool) → ContextBudgetPlan × ContextBudget
  plan b messages tools =
      let counted = count b messages tools in
      let output = observed_output_reserve messages b.limits.max_output.tokens in
      let capacity = hard_prompt_capacity b output in
      let growth = observed_growth_reserve marshal messages in
      let high = capacity - growth in
      let made =
        if capacity == 0
        then record no_plan { estimated = counted.0; output_reserve = output }
        else record {
          known = true;
          estimated = counted.0;
          prompt_capacity = capacity;
          output_reserve = output;
          growth_reserve = growth;
          high_water = high;
          low_water = high - growth;
        } in
      (made, remember made counted.1)

  -- contextBudget.observeOverflow
  pub observe_overflow :
      ContextBudget → List (Option Message) → List (Option Tool) → ℕ → ContextBudget
  observe_overflow b messages tools provider_limit =
      let counted = count b messages tools in
      if provider_limit == 0 then lowered (counted.0 - 1) counted.1 else lowered provider_limit b

  -- contextBudget.estimateFresh
  pub estimate_fresh : List (Option Message) → List (Option Tool) → List (Option Message) → ℕ
  estimate_fresh messages tools calibrating =
      let ratio = observed_bytes_per_token marshal calibrating in
      estimate_all marshal messages ratio
      + estimate_byte_tokens (tool_header_for_counting tools).1 ratio.0 ratio.1
