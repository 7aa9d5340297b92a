-- ===== src/Limits.antt =====
-- internal/provider/model_limits.go: the token limits of a model. Counts are natural numbers, and a
-- test `<= 0` is a test for 0, which stands for an unknown limit.
mod Examples
use Prim.Native.String.{compare}
use text.Mathlib.Text.{◌==◌ as str_eq, is_lt}
use alt_tui.Prelude.{
  ℕ, ◌≤◌, ◌<◌, String, ◌≡◌, ◌⊎◌, inl, inr, Bool, true, false, not, ◌&&◌, ◌||◌, [], ◌∷◌, arith, ltb,
  ◌==◌, if◌then◌else◌,
}
use alt_tui.Prelude.Text.{join}

pub record TokenLimit : Type 0 where
  pub tokens : ℕ
  pub source : String

pub record ModelLimits : Type 0 where
  pub context_window : TokenLimit
  pub max_input : TokenLimit
  pub max_output : TokenLimit

-- NewTokenLimit
pub new_token_limit : ℕ → String → TokenLimit
new_token_limit tokens source =
    if tokens == 0
    then record { tokens = 0; source = "" }
    else record { tokens = tokens; source = source }

-- both sources, in order
pub both_sources : String → String → String
both_sources a b = if is_lt (compare b a) then join "+" (b ∷ a ∷ []) else join "+" (a ∷ b ∷ [])

-- MostRestrictiveLimit
unfoldable pub most_restrictive_limit : TokenLimit → TokenLimit → TokenLimit
most_restrictive_limit current candidate =
    if candidate.tokens == 0
    then current
    else if current.tokens == 0 || ltb candidate.tokens current.tokens
    then candidate
    else if candidate.tokens == current.tokens
        && not (str_eq candidate.source "")
        && not (str_eq candidate.source current.source)
    then record current { source = both_sources current.source candidate.source }
    else current

-- MergeModelLimits
unfoldable pub merge_model_limits : ModelLimits → ModelLimits → ModelLimits
merge_model_limits current candidate = record {
  context_window = most_restrictive_limit current.context_window candidate.context_window;
  max_input = most_restrictive_limit current.max_input candidate.max_input;
  max_output = most_restrictive_limit current.max_output candidate.max_output;
}

abbrev min : ℕ → ℕ → ℕ
min a b = if ltb a b then a else b

-- ModelLimits.PromptCapacity
unfoldable pub prompt_capacity : ModelLimits → ℕ
prompt_capacity l =
    if ltb 0 l.context_window.tokens && ltb 0 l.max_input.tokens
    then min l.context_window.tokens l.max_input.tokens
    else if ltb 0 l.max_input.tokens
    then l.max_input.tokens
    else l.context_window.tokens

-- the limit is known and no weaker than `n`, where `n` is known
abbrev pub Bounds : ℕ → ℕ → Type 0
Bounds m n = (n ≡ 0) ⊎ ((0 < m) × (m ≤ n))

most_restrictive-Bounds :
    (a b : TokenLimit)
    → Bounds (most_restrictive_limit a b).tokens a.tokens
      × Bounds (most_restrictive_limit a b).tokens b.tokens
unfolding most_restrictive_limit
most_restrictive-Bounds a b = (ground arith, ground arith)

-- Merging the evidence of two sources keeps the stronger ceiling: where either source gives a prompt
-- capacity, the merged limits give one that is no larger.
pub prompt_capacity-merge :
    (a b : ModelLimits)
    → Bounds (prompt_capacity (merge_model_limits a b)) (prompt_capacity a)
      × Bounds (prompt_capacity (merge_model_limits a b)) (prompt_capacity b)
unfolding prompt_capacity merge_model_limits
prompt_capacity-merge a b =
    let (ca, cb) = most_restrictive-Bounds a.context_window b.context_window in
    let (ia, ib) = most_restrictive-Bounds a.max_input b.max_input in
    (ground (arith, ca, ia, cb, ib), ground (arith, ca, ia, cb, ib))
