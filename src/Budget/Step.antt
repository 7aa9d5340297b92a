-- ===== src/Budget/Step.antt =====
-- internal/tooling/context_budget.go: what observedOutputReserve and observedGrowthReserve reserve for,
-- told of the messages.
use alt_tui.Prelude.{
  ℕ, ◌≤◌, ◌<◌, ◌≡◌, refl, ap, ◌⊎◌, inl, inr, Option, none, some, Bool, true, false, List, [], ◌∷◌,
  ◌++◌, arith, All, In, Bool-cases, ltb, ◌&&◌, sym, subst,
}
use alt_tui.Budget.{
  Role, system, user, assistant, tool, Usage, Message, assistant_usage, max_completion,
  observed_output_reserve, observed_bytes_per_token, observed_growth_reserve, estimate_all,
  skip_end, take_results, latest_increment, reversed,
}

-- the tokens that the answer of a message took
abbrev tokens_of : Option Usage → ℕ
tokens_of none = 0
tokens_of (some u) = u.completion_tokens

abbrev pub completion : Option Message → ℕ
completion m = tokens_of (assistant_usage m)

-- The reserve is the maximum of an answer, or no answer took more; and it is no more than one took.
pub record Reserved (messages : List (Option Message)) (maximum : ℕ) (n : ℕ) : Type 0 where
  pub enough : ((0 < maximum) × (n ≡ maximum)) ⊎ All (λ m. completion m ≤ n) messages
  pub needed : (n ≡ 0) ⊎ ((m : Option Message) × In m messages × (n ≤ completion m))

-- the largest completion, among those of a list and `n`
record Largest (messages : List (Option Message)) (n largest : ℕ) : Type 0 where
  above : n ≤ largest
  all : All (λ m. completion m ≤ largest) messages
  needed : (largest ≡ n) ⊎ ((m : Option Message) × In m messages × (largest ≤ completion m))

max_completion-Largest :
    (messages : List (Option Message)) (n : ℕ) → Largest messages n (max_completion messages n)
unfolding max_completion
max_completion-Largest [] n = record { above = ground arith; all = tt; needed = inl refl }
max_completion-Largest (m ∷ l) n = next (max_completion-Largest l) (assistant_usage m) refl
  where
    next :
        ((k : ℕ) → Largest l k (max_completion l k))
        → (o : Option Usage) → assistant_usage m ≡ o
        → Largest (m ∷ l) n (max_completion (m ∷ l) n)
    next later none e =
        let h = later n in
        rw (e, max_completion)
          (record {
            above = h.above;
            all = (rw e (ground arith), h.all);
            needed = elim h.needed [ inl i ↦ inl i | inr (k, at, le) ↦ inr (k, inr at, le) ];
          })
    next later (some u) e = elim (Bool-cases (ltb n u.completion_tokens)) [
      | inl more ↦
          let h = later u.completion_tokens in
          rw (e, max_completion, more)
            (record {
              above = ground (arith, h.above, more);
              all = (rw e h.above, h.all);
              needed = elim h.needed [
                | inl i ↦ inr (m, inl refl, rw e (ground (arith, i)))
                | inr (k, at, le) ↦ inr (k, inr at, le)
              ];
            })
      | inr less ↦
          let h = later n in
          rw (e, max_completion, less)
            (record {
              above = h.above;
              all = (rw e (ground (arith, h.above, less)), h.all);
              needed = elim h.needed [ inl i ↦ inl i | inr (k, at, le) ↦ inr (k, inr at, le) ];
            })
    ]

pub output_reserve-Reserved :
    (messages : List (Option Message)) (maximum : ℕ)
    → Reserved messages maximum (observed_output_reserve messages maximum)
unfolding observed_output_reserve
output_reserve-Reserved messages maximum =
    let h = max_completion-Largest messages 0 in
    elim (Bool-cases (ltb 0 maximum && ltb maximum (max_completion messages 0))) [
      | inl e ↦ rw e (record {
        enough = inl (ground (arith, e), refl);
        needed = elim h.needed [
          | inl i ↦ absurd (ground (arith, e, i))
          | inr (m, at, le) ↦ inr (m, at, ground (arith, e, le))
        ];
      })
      | inr e ↦ rw e (record { enough = inr h.all; needed = h.needed })
    ]

abbrev is_system : Role → Bool
is_system system = true
is_system _ = false

abbrev of_exchange : Role → Bool
of_exchange assistant = true
of_exchange tool = true
of_exchange _ = false

-- a message that is nil or of the system
abbrev pub is_passed : Option Message → Bool
is_passed none = true
is_passed (some m) = is_system m.role

-- of a call or of its results
abbrev pub is_exchange : Option Message → Bool
is_exchange none = false
is_exchange (some m) = of_exchange m.role

-- Of the messages from a tool result back, the other results of the same call and the call, if it is
-- there, and what was before them.
pub data Results : List (Option Message) → List (Option Message) → Type 0 where
  start : Results [] []
  uncalled :
      {m : Option Message} {before : List (Option Message)}
      → is_exchange m ≡ false
      → Results [] (m ∷ before)
  call :
      {m : Message} {before : List (Option Message)}
      → m.role ≡ assistant
      → Results (some m ∷ []) before
  result :
      {m : Message} {step before : List (Option Message)}
      → m.role ≡ tool
      → Results step before
      → Results (some m ∷ step) before

-- The last step of a conversation, from its last message back: an input, an answer, or tool results with
-- the call that they answer.
pub data LastStep : List (Option Message) → List (Option Message) → Type 0 where
  no_step : LastStep [] []
  input :
      {m : Message} {before : List (Option Message)} → m.role ≡ user → LastStep (some m ∷ []) before
  answer :
      {m : Message} {before : List (Option Message)}
      → m.role ≡ assistant
      → LastStep (some m ∷ []) before
  results :
      {m : Message} {step before : List (Option Message)}
      → m.role ≡ tool
      → Results step before
      → LastStep (some m ∷ step) before

abbrev taken : Message → List (Option Message) → Role → List (Option Message)
taken m l r = elim r [ tool ↦ some m ∷ l | assistant ↦ some m ∷ [] | _ ↦ [] ]

-- a split of a list in what passes as results and what was before
abbrev HasResults : List (Option Message) → List (Option Message) → Type 0
HasResults l step = (before : List (Option Message)) × (l ≡ step ++ before) × Results step before

taken-Results :
    (m : Message) (l step : List (Option Message)) (r : Role)
    → m.role ≡ r
    → HasResults l step
    → HasResults (some m ∷ l) (taken m step r)
taken-Results m l step system e h = (some m ∷ l, refl, uncalled (ap of_exchange e))
taken-Results m l step user e h = (some m ∷ l, refl, uncalled (ap of_exchange e))
taken-Results m l step assistant e h = (l, refl, call e)
taken-Results m l step tool e (before, whole, shape) =
    (before, ap (λ k. some m ∷ k) whole, result e shape)

take_results-Results : (l : List (Option Message)) → HasResults l (take_results l)
unfolding take_results
take_results-Results [] = ([], refl, start)
take_results-Results (none ∷ l) = (none ∷ l, refl, uncalled refl)
take_results-Results (some m ∷ l) =
    taken-Results m l (take_results l) m.role refl (take_results-Results l)

-- The last step of a list of messages that is read from the last one back, behind those that are passed.
abbrev pub HasStep : List (Option Message) → List (Option Message) → Type 0
HasStep l step =
    (after : List (Option Message)) × (before : List (Option Message)) × (l
      ≡ after ++ (step ++ before))
    × All (λ m. is_passed m ≡ true) after
    × LastStep step before

abbrev last_of : Message → List (Option Message) → Role → List (Option Message)
last_of m step r = elim r [ tool ↦ some m ∷ step | _ ↦ some m ∷ [] ]

abbrev skipped :
    Message → List (Option Message) → List (Option Message) → Role → List (Option Message)
skipped m l later r = elim r [ system ↦ later | _ ↦ some m ∷ l ]

skipped-HasStep :
    (m : Message) (l : List (Option Message)) (r : Role)
    → m.role ≡ r
    → HasStep l (latest_increment (skip_end l))
    → HasStep (some m ∷ l) (latest_increment (skipped m l (skip_end l) r))
skipped-HasStep m l system e (after, before, whole, passed, shape) =
    (some m ∷ after, before, ap (λ k. some m ∷ k) whole, (ap is_system e, passed), shape)
skipped-HasStep m l user e h =
    subst (λ r. HasStep (some m ∷ l) (last_of m (take_results l) r)) (sym e)
      ([], l, refl, tt, input e)
skipped-HasStep m l assistant e h =
    subst (λ r. HasStep (some m ∷ l) (last_of m (take_results l) r)) (sym e)
      ([], l, refl, tt, answer e)
skipped-HasStep m l tool e h =
    let (before, whole, shape) = take_results-Results l in
    subst (λ r. HasStep (some m ∷ l) (last_of m (take_results l) r)) (sym e)
      ([], before, ap (λ k. some m ∷ k) whole, tt, results e shape)

skip_end-HasStep : (l : List (Option Message)) → HasStep l (latest_increment (skip_end l))
unfolding skip_end
skip_end-HasStep [] = ([], [], refl, tt, no_step)
skip_end-HasStep (none ∷ l) =
    let (after, before, whole, passed, shape) = skip_end-HasStep l in
    (none ∷ after, before, ap (λ k. none ∷ k) whole, (refl, passed), shape)
skip_end-HasStep (some m ∷ l) = skipped-HasStep m l m.role refl (skip_end-HasStep l)

-- The estimate of the last step, at the ratio that the messages teach.
abbrev pub Grown : (Option Message → Option ℕ) → List (Option Message) → ℕ → Type 0
Grown marshal messages n =
    (step : List (Option Message)) × HasStep (reversed messages []) step
    × (n ≡ estimate_all marshal step (observed_bytes_per_token marshal messages))

pub growth_reserve-Grown :
    (marshal : Option Message → Option ℕ) (messages : List (Option Message))
    → Grown marshal messages (observed_growth_reserve marshal messages)
unfolding observed_growth_reserve
growth_reserve-Grown marshal messages =
    let l = reversed messages [] in (latest_increment (skip_end l), skip_end-HasStep l, refl)
