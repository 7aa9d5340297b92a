-- ===== src/Budget/Messages.antt =====
-- internal/tooling/context_budget.go: what the messages of a conversation tell about tokens.
use alt_tui.Prelude.{
  ℕ, ◌+◌, ◌-◌, ◌*◌, ◌/◌, String, Option, none, some, ◌&&◌, ◌||◌, List, [], ◌∷◌, ltb, ◌==◌,
  if◌then◌else◌,
}

pub data Role : Type 0 where
  system user assistant tool : Role

-- the token usage that the provider reports
pub record Usage : Type 0 where
  pub prompt_tokens : ℕ
  pub completion_tokens : ℕ
  pub total_tokens : ℕ

-- schema.Message: what is encoded (`body`), and the metadata
pub record Message : Type 0 where
  pub role : Role
  pub body : String
  pub usage : Option Usage
  pub extra : String

pub record Tool : Type 0 where
  pub name : String
  pub extra : String

-- estimateByteTokens
unfoldable pub estimate_byte_tokens : ℕ → ℕ → ℕ → ℕ
estimate_byte_tokens bytes numerator denominator =
    if bytes == 0
    then 0
    else if numerator == 0 || denominator == 0
    then bytes
    else (bytes * denominator + numerator - 1) / numerator

-- a message that is not nil, has the role assistant and carries usage
unfoldable pub assistant_usage : Option Message → Option Usage
assistant_usage none = none
assistant_usage (some m) = elim m.role [ assistant ↦ m.usage | _ ↦ none ]

-- messageForCounting
abbrev pub message_for_counting : Option Message → Option Message
message_for_counting none = none
message_for_counting (some m) = some (record m { usage = none; extra = "" })

-- the usage of a call that counted any tokens, and the tokens up to its end
abbrev pub usage_base : Usage → Option ℕ
usage_base u =
    if u.prompt_tokens == 0 && u.total_tokens == 0
    then none
    else if ltb 0 u.prompt_tokens
    then some (u.prompt_tokens + u.completion_tokens)
    else some u.total_tokens

abbrev pub base_of : Option Usage → Option ℕ
base_of none = none
base_of (some u) = usage_base u

-- The latest message with such usage, if there is one: its base, and the messages after it.
unfoldable pub latest_usage : List (Option Message) → Option (ℕ × List (Option Message))
latest_usage [] = none
latest_usage (m ∷ rest) = elim (latest_usage rest) [
  | some later ↦ some later
  | none ↦ elim (base_of (assistant_usage m)) [ some base ↦ some (base, rest) | none ↦ none ]
]

-- the tools without nil, and without their extra data
unfoldable pub clean_tools : List (Option Tool) → List Tool
clean_tools [] = []
clean_tools (none ∷ rest) = clean_tools rest
clean_tools (some t ∷ rest) = record t { extra = "" } ∷ clean_tools rest

-- the loop of observedOutputReserve
unfoldable pub max_completion : List (Option Message) → ℕ → ℕ
max_completion [] reserve = reserve
max_completion (m ∷ rest) reserve = elim (assistant_usage m) [
  | none ↦ max_completion rest reserve
  | some u ↦
      max_completion rest (if ltb reserve u.completion_tokens then u.completion_tokens else reserve)
]

-- observedOutputReserve
unfoldable pub observed_output_reserve : List (Option Message) → ℕ → ℕ
observed_output_reserve messages maximum =
    let reserve = max_completion messages 0 in
    if ltb 0 maximum && ltb maximum reserve then maximum else reserve

-- the messages without the nil and the system messages at their end, from the last one on
unfoldable pub skip_end : List (Option Message) → List (Option Message)
skip_end [] = []
skip_end (none ∷ rest) = skip_end rest
skip_end (some m ∷ rest) =
    let later = skip_end rest in elim m.role [ system ↦ later | _ ↦ some m ∷ rest ]

-- the tool results at the end and the assistant message before them, from the last one on
unfoldable pub take_results : List (Option Message) → List (Option Message)
take_results [] = []
take_results (none ∷ rest) = []
take_results (some m ∷ rest) =
    let later = take_results rest in
    elim m.role [ tool ↦ some m ∷ later | assistant ↦ some m ∷ [] | _ ↦ [] ]

abbrev pub latest_increment : List (Option Message) → List (Option Message)
latest_increment [] = []
latest_increment (none ∷ rest) = none ∷ []
latest_increment (some m ∷ rest) =
    let results = take_results rest in elim m.role [ tool ↦ some m ∷ results | _ ↦ some m ∷ [] ]

unfoldable pub reversed : List (Option Message) → List (Option Message) → List (Option Message)
reversed [] acc = acc
reversed (m ∷ rest) acc = reversed rest (m ∷ acc)

-- keep the smaller ratio of bytes to tokens
abbrev pub smaller_ratio : Option (ℕ × ℕ) → ℕ × ℕ → ℕ × ℕ
smaller_ratio none ratio = ratio
smaller_ratio (some (visible, tokens)) ratio =
    if ltb (visible * ratio.1) (ratio.0 * tokens) then (visible, tokens) else ratio

module _ (marshal : Option Message → Option ℕ) where
  -- the tokens of a completion and the bytes of the message, where both are there
  abbrev pub calibration : Option Message → Option (ℕ × ℕ)
  calibration m = elim (assistant_usage m) [
    | none ↦ none
    | some u ↦ if u.completion_tokens == 0 then none else elim (marshal (message_for_counting m)) [
      | none ↦ none
      | some visible ↦ if visible == 0 then none else some (visible, u.completion_tokens)
    ]
  ]

  unfoldable pub ratio_from : List (Option Message) → ℕ × ℕ → ℕ × ℕ
  ratio_from [] ratio = ratio
  ratio_from (m ∷ rest) ratio = ratio_from rest (smaller_ratio (calibration m) ratio)

  -- observedBytesPerToken
  unfoldable pub observed_bytes_per_token : List (Option Message) → ℕ × ℕ
  observed_bytes_per_token messages = ratio_from messages (1, 1)

  -- estimateJSONTokens(messageForCounting(message), …)
  unfoldable pub estimate_json_tokens : Option Message → ℕ × ℕ → ℕ
  estimate_json_tokens m ratio = elim (marshal (message_for_counting m)) [
    | none ↦ 0
    | some encoded ↦ estimate_byte_tokens encoded ratio.0 ratio.1
  ]

  unfoldable pub estimate_all : List (Option Message) → ℕ × ℕ → ℕ
  estimate_all [] ratio = 0
  estimate_all (m ∷ rest) ratio = estimate_json_tokens m ratio + estimate_all rest ratio

  -- observedGrowthReserve
  unfoldable pub observed_growth_reserve : List (Option Message) → ℕ
  observed_growth_reserve messages =
      estimate_all (latest_increment (skip_end (reversed messages [])))
        (observed_bytes_per_token messages)
