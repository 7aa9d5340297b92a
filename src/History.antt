-- ===== src/History.antt =====
-- internal/tui/history.go: the prompts that the composer walks through. Prompts of this process are
-- `local`, the oldest first; older ones stand in a database snapshot and are looked up by offset. The
-- cursor -1 is `none`, and a pair `(value, ok)` an `Option`. The snapshot's count is not negative.
pub mod Walk
pub mod Cursor
mod Examples
use text.Mathlib.Text.{◌==◌ as str_eq}
use alt_tui.Prelude.{
  ℕ, zero, suc, ◌+◌, ◌-◌, ◌%◌, ◌^◌, String, Option, none, some, Bool, true, false, not, ◌||◌, List,
  [], ◌∷◌, ◌++◌, ltb, leb, ◌==◌, if◌then◌else◌, length, get_elem?,
}

-- store.PromptSnapshot
pub record PromptSnapshot : Type 0 where
  pub count : ℕ
  pub newest_id : String

-- promptLookup
pub record PromptLookup : Type 0 where
  pub token : ℕ
  pub snapshot : PromptSnapshot
  pub offset : ℕ

-- promptHistory
pub record PromptHistory : Type 0 where
  pub snapshot : PromptSnapshot
  pub persistent : List (ℕ × String)
  pub local : List String
  pub cursor : Option ℕ
  pub draft : String
  pub active : Bool
  pub next_token : ℕ
  pub pending : Option PromptLookup

-- h.persistent[offset]
unfoldable pub stored_at : ℕ → List (ℕ × String) → Option String
stored_at offset [] = none
stored_at offset ((i, prompt) ∷ rest) = if i == offset then some prompt else stored_at offset rest

-- promptHistory.resetNavigation
unfoldable pub reset_navigation : PromptHistory → PromptHistory
reset_navigation h = record h { cursor = none; draft = ""; active = false; pending = none }

-- promptHistory.initialize
unfoldable pub initialize : PromptSnapshot → PromptHistory → PromptHistory
initialize snapshot h = reset_navigation (record h { snapshot = snapshot })

-- the newest local prompt
abbrev pub is_last : String → List String → Bool
is_last value [] = false
is_last value (x ∷ []) = str_eq x value
is_last value (x ∷ y ∷ rest) = is_last value (y ∷ rest)

-- promptHistory.record
unfoldable pub record_prompt : String → PromptHistory → PromptHistory
record_prompt value h =
    if str_eq value ""
    then h
    else if is_last value h.local
    then reset_navigation h
    else reset_navigation (record h { local = h.local ++ value ∷ [] })

-- promptHistory.valueAt
unfoldable pub value_at : PromptHistory → Option ℕ → Option String
value_at h none = none
value_at h (some index) =
    if ltb index (length h.local)
    then get_elem? h.local (length h.local - 1 - index)
    else stored_at (index - length h.local) h.persistent

-- what a call answers: a prompt to show, or a lookup to make
pub record Answer : Type 0 where
  pub shown : Option String
  pub request : Option PromptLookup

abbrev pub answer : Option String → Answer
answer shown = record { shown = shown; request = none }

-- the walk begins: the composer's text is kept as the draft
abbrev pub activated : String → PromptHistory → PromptHistory
activated current h =
    if h.active then h else record h { draft = current; cursor = none; active = true }

abbrev pub after : Option ℕ → ℕ
after none = 0
after (some i) = i + 1

-- the lookup of a prompt that is not at hand
abbrev pub requested : ℕ → PromptHistory → PromptLookup
requested target h = record {
  token = (h.next_token + 1) % 2 ^ 64;
  snapshot = h.snapshot;
  offset = target - length h.local;
}

-- promptHistory.older, once the walk has begun, at the next position
abbrev pub older_at : ℕ → PromptHistory → PromptHistory × Answer
older_at target h =
    if leb (length h.local + h.snapshot.count) target
    then (h, answer (value_at h h.cursor))
    else elim (value_at h (some target)) [
      | some value ↦ (record h { cursor = some target }, answer (some value))
      | none ↦ (
        record h { next_token = (h.next_token + 1) % 2 ^ 64; pending = some (requested target h) },
        record { shown = none; request = some (requested target h) },
      )
    ]

-- nothing is done while a lookup is out
abbrev pub older_unless : Option PromptLookup → String → PromptHistory → PromptHistory × Answer
older_unless (some _) current h = (h, answer none)
older_unless none current h = let h' = activated current h in older_at (after h'.cursor) h'

-- promptHistory.older
unfoldable pub older : String → PromptHistory → PromptHistory × Answer
older current h = older_unless h.pending current h

abbrev pub resolved : PromptLookup → String → PromptHistory → PromptHistory
resolved l prompt h = record h {
  pending = none;
  persistent = (l.offset, prompt) ∷ h.persistent;
  cursor = some (length h.local + l.offset);
  active = true;
}

-- the reply to the lookup that is out
abbrev pub resolve_pending :
    Option PromptLookup → ℕ → String → Bool → PromptHistory → PromptHistory × Option String
resolve_pending none token prompt found h = (h, none)
resolve_pending (some l) token prompt found h =
    if not (l.token == token)
    then (h, none)
    else if not found
    then (record h { pending = none }, none)
    else (resolved l prompt h, some prompt)

-- promptHistory.resolve
unfoldable pub resolve : ℕ → String → Bool → PromptHistory → PromptHistory × Option String
resolve token prompt found h = resolve_pending h.pending token prompt found h

-- a later intent makes the outstanding reply stale
abbrev pub settled : PromptHistory → PromptHistory
settled h = record h { pending = none }

-- promptHistory.newer, once there is a walk, from the cursor
abbrev pub newer_at : Option ℕ → PromptHistory → PromptHistory × Option String
newer_at (some (suc i)) h = (record h { pending = none; cursor = some i }, value_at h (some i))
newer_at _ h = (reset_navigation h, some h.draft)

-- promptHistory.newer
unfoldable pub newer : PromptHistory → PromptHistory × Option String
newer h = if not h.active then (settled h, none) else newer_at h.cursor h
