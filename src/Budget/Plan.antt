-- ===== src/Budget/Plan.antt =====
-- internal/tooling/context_budget.go: the plan of a call, and what a rejected prompt teaches.
use alt_tui.Prelude.{
  ℕ, ◌+◌, ◌≤◌, ◌<◌, String, ◌≡◌, refl, ◌⊎◌, inl, inr, Option, true, false, List, arith, Bool-cases,
  ◌==◌,
}
use alt_tui.Budget.Step.{Reserved, Grown, output_reserve-Reserved, growth_reserve-Grown}
use alt_tui.Budget.{
  Message, Tool, ContextBudget, ContextBudgetPlan, count, plan, remember, available_result_bytes,
  observe_overflow, hard_prompt_capacity, observed_output_reserve,
}

-- The limit is unknown, or holds `n`.
abbrev pub Fits : ℕ → ℕ → Type 0
Fits limit n = (limit ≡ 0) ⊎ (n ≤ limit)

-- A mark leaves room for one growth below a ceiling, and is the highest that does; or there is no room,
-- and it is 0.
abbrev pub Leaves : ℕ → ℕ → ℕ → Type 0
Leaves mark growth ceiling = (mark + growth ≡ ceiling) ⊎ ((mark ≡ 0) × (ceiling ≤ growth))

-- A known plan respects every known ceiling, with room for the answer, reaches one of them, and has its
-- marks in order, one and two steps of the last size below the capacity.
pub record Within (marshal : Option Message → Option ℕ) (messages : List (Option Message))
    (b : ContextBudget) (made : ContextBudgetPlan) : Type 0 where
  pub positive : 0 < made.prompt_capacity
  pub in_input : Fits b.limits.max_input.tokens made.prompt_capacity
  pub in_window : Fits b.limits.context_window.tokens (made.prompt_capacity + made.output_reserve)
  pub in_observed : Fits b.observed_upper_bound (made.prompt_capacity + made.output_reserve)
  pub in_output : Fits b.limits.max_output.tokens made.output_reserve
  pub reaches :
      (made.prompt_capacity ≡ b.limits.max_input.tokens)
      ⊎ (made.prompt_capacity + made.output_reserve ≡ b.limits.context_window.tokens)
      ⊎ (made.prompt_capacity + made.output_reserve ≡ b.observed_upper_bound)
  pub output : Reserved messages b.limits.max_output.tokens made.output_reserve
  pub growth : Grown marshal messages made.growth_reserve
  pub high : Leaves made.high_water made.growth_reserve made.prompt_capacity
  pub low : Leaves made.low_water made.growth_reserve made.high_water

output_reserve-Fits :
    (messages : List (Option Message)) (maximum : ℕ)
    → Fits maximum (observed_output_reserve messages maximum)
unfolding observed_output_reserve
output_reserve-Fits messages maximum = ground arith

-- a capacity that is known is within the ceilings
abbrev InCapacity : ContextBudget → ℕ → Type 0
InCapacity b output =
    Fits b.limits.max_input.tokens (hard_prompt_capacity b output)
    × ((hard_prompt_capacity b output ≡ 0)
        ⊎ (Fits b.limits.context_window.tokens (hard_prompt_capacity b output + output)
            × Fits b.observed_upper_bound (hard_prompt_capacity b output + output)))

hard_prompt_capacity-InCapacity : (b : ContextBudget) (output : ℕ) → InCapacity b output
unfolding hard_prompt_capacity
hard_prompt_capacity-InCapacity b output = (ground arith, ground arith)

in_both :
    (b : ContextBudget) (output : ℕ)
    → (hard_prompt_capacity b output == 0) ≡ false
    → Fits b.limits.context_window.tokens (hard_prompt_capacity b output + output)
      × Fits b.observed_upper_bound (hard_prompt_capacity b output + output)
in_both b output e = elim (hard_prompt_capacity-InCapacity b output).1 [
  | inl z ↦ absurd (ground (arith, e, z))
  | inr both ↦ both
]

hard_prompt_capacity-reaches :
    (b : ContextBudget) (output : ℕ)
    → (hard_prompt_capacity b output ≡ 0)
      ⊎ ((hard_prompt_capacity b output ≡ b.limits.max_input.tokens)
          ⊎ ((hard_prompt_capacity b output + output ≡ b.limits.context_window.tokens)
              ⊎ (hard_prompt_capacity b output + output ≡ b.observed_upper_bound)))
unfolding hard_prompt_capacity
hard_prompt_capacity-reaches b output = ground arith

module _ (marshal : Option Message → Option ℕ) (tool_header : List Tool → String × ℕ) where
  -- A plan is known exactly when a prompt capacity is. It is then within every known ceiling, and the
  -- capacity reaches one of them. The reserve for the answer covers every completion that the messages
  -- tell of, up to the largest answer that the model gives. The reserve for growth is the estimate of
  -- the last step: the last message that is not nil or of the system, or the tool results at the end
  -- with their call. The high mark is one such step below the capacity, and the low mark another one.
  pub plan-Within :
      (b : ContextBudget) (messages : List (Option Message)) (tools : List (Option Tool))
      → (((plan marshal tool_header b messages tools).0.known ≡ true)
          × Within marshal messages b (plan marshal tool_header b messages tools).0)
        ⊎ (((plan marshal tool_header b messages tools).0.known ≡ false)
            × (hard_prompt_capacity b (observed_output_reserve messages b.limits.max_output.tokens)
                ≡ 0))
  unfolding plan
  plan-Within b messages tools =
      let output = observed_output_reserve messages b.limits.max_output.tokens in
      elim (Bool-cases (hard_prompt_capacity b output == 0)) [
        | inl e ↦ inr (rw e (refl, ground (arith, e)))
        | inr e ↦
            let room = in_both b output e in
            inl (
              rw e (
                refl,
                record {
                  positive = ground (arith, e);
                  in_input = (hard_prompt_capacity-InCapacity b output).0;
                  in_window = (room.0);
                  in_observed = (room.1);
                  in_output = output_reserve-Fits messages b.limits.max_output.tokens;
                  reaches = (ground (arith, e, hard_prompt_capacity-reaches b output));
                  output = output_reserve-Reserved messages b.limits.max_output.tokens;
                  growth = growth_reserve-Grown marshal messages;
                  high = ground arith;
                  low = ground arith;
                },
              ))
      ]

  -- A result as large as the plan has room for leaves the prompt at its high mark or below: where the
  -- budget reports room after a plan, the estimate with that many tokens is no higher.
  pub plan-available :
      (b : ContextBudget) (messages : List (Option Message)) (tools : List (Option Tool))
      (bytes : ℕ)
      → available_result_bytes (plan marshal tool_header b messages tools).1 ≡ (bytes, true)
      → 0 < bytes
      → (plan marshal tool_header b messages tools).0.estimated + bytes
        ≤ (plan marshal tool_header b messages tools).0.high_water
  unfolding plan available_result_bytes remember
  plan-available b messages tools bytes h k = ground (arith, h, k)

  -- A prompt that was rejected without a limit teaches one: where its estimate was above 1, the
  -- capacity is then below that estimate, whatever is reserved for the answer.
  pub observe_overflow-lowers :
      (b : ContextBudget) (messages : List (Option Message)) (tools : List (Option Tool))
      (output : ℕ)
      → 1 < (count marshal tool_header b messages tools).0
      → hard_prompt_capacity (observe_overflow marshal tool_header b messages tools 0) output
        < (count marshal tool_header b messages tools).0
  unfolding observe_overflow hard_prompt_capacity count
  observe_overflow-lowers b messages tools output h = ground (arith, h)

  -- A limit that the provider names bounds the capacity, whatever is reserved for the answer, and a
  -- bound that was there stays and never grows.
  pub observe_overflow-bounded :
      (b : ContextBudget) (messages : List (Option Message)) (tools : List (Option Tool))
      (provider_limit output : ℕ)
      → 0 < provider_limit
      → (hard_prompt_capacity
            (observe_overflow marshal tool_header b messages tools provider_limit)
            output
          ≤ provider_limit)
        × ((b.observed_upper_bound ≡ 0)
            ⊎ ((0
                  < (observe_overflow marshal tool_header b messages tools
                      provider_limit).observed_upper_bound)
                × ((observe_overflow marshal tool_header b messages tools
                      provider_limit).observed_upper_bound
                    ≤ b.observed_upper_bound)))
  unfolding observe_overflow hard_prompt_capacity
  observe_overflow-bounded b messages tools provider_limit output h = ground (arith, h)
