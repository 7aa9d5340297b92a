-- ===== src/History/Cursor.antt =====
-- internal/tui/history.go: theorems about the cursor of a walk.
pub mod Steps
use text.Mathlib.Text.{◌==◌ as str_eq}
use alt_tui.Prelude.{
  ℕ, zero, suc, ◌+◌, ◌-◌, ◌≤◌, ◌<◌, String, ◌≡◌, refl, ◌⊎◌, inl, inr, Option, none, some, Bool,
  true, false, List, [], ◌∷◌, ◌++◌, arith, ltb, leb, ◌==◌, length, get_elem?, Bool-cases,
  Option-cases, subst,
}
use alt_tui.History.{
  PromptSnapshot, PromptLookup, PromptHistory, stored_at, reset_navigation, initialize, is_last,
  record_prompt, value_at, activated, after, older_at, older_unless, older, resolved,
  resolve_pending, resolve, settled, newer_at, newer,
}
use Steps.{
  is_some, Reached, Awaited, IsNavigable, get_elem?-some, value_at-local, value_at-resolved,
  reset_navigation-IsNavigable, record_prompt-IsNavigable, activated-IsNavigable, Reached-next,
  Reached-cursor, value_at-remote, older_at-IsNavigable, older_unless-IsNavigable, Reached-at,
  known, resolved-IsNavigable, resolve_pending-IsNavigable, settled-IsNavigable, Reached-before,
  newer_at-IsNavigable, newer-IsNavigable,
}

-- What the composer can do to its history: the calls of the terminal's update loop, from the zero
-- value on.
pub data Reachable : PromptHistory → Type 0 where
  fresh : Reachable (record {
    snapshot = record { count = 0; newest_id = "" };
    persistent = [];
    local = [];
    cursor = some 0;
    draft = "";
    active = false;
    next_token = 0;
    pending = none;
  })
  initialized : (h : PromptHistory) (s : PromptSnapshot) → Reachable h → Reachable (initialize s h)
  recorded : (h : PromptHistory) (value : String) → Reachable h → Reachable (record_prompt value h)
  moved_back : (h : PromptHistory) (current : String) → Reachable h → Reachable (older current h).0
  answered :
      (h : PromptHistory) (token : ℕ) (prompt : String) (found : Bool)
      → Reachable h
      → Reachable (resolve token prompt found h).0
  moved_on : (h : PromptHistory) → Reachable h → Reachable (newer h).0
  dropped : (h : PromptHistory) → Reachable h → Reachable (settled h)

Reachable-IsNavigable : (h : PromptHistory) → Reachable h → IsNavigable h
unfolding initialize older resolve
Reachable-IsNavigable h (fresh) = record { reached = λ e. cc; awaited = tt }
Reachable-IsNavigable h (initialized g s r) =
    reset_navigation-IsNavigable (record g { snapshot = s })
Reachable-IsNavigable h (recorded g value r) =
    record_prompt-IsNavigable value g (Reachable-IsNavigable g r)
Reachable-IsNavigable h (moved_back g current r) =
    older_unless-IsNavigable g.pending current g refl (Reachable-IsNavigable g r)
Reachable-IsNavigable h (answered g token prompt found r) =
    resolve_pending-IsNavigable g.pending token prompt found g refl (Reachable-IsNavigable g r)
Reachable-IsNavigable h (moved_on g r) = newer-IsNavigable g (Reachable-IsNavigable g r)
Reachable-IsNavigable h (dropped g r) = settled-IsNavigable g (Reachable-IsNavigable g r)

newer_at-shows : (h : PromptHistory) (c : Option ℕ) → Reached h c → is_some (newer_at c h).1 ≡ true
newer_at-shows h none r = refl
newer_at-shows h (some zero) r = refl
newer_at-shows h (some (suc c)) r = r c (omega arith)

-- A walk never loses its place: after any calls of the composer, while a walk is active, every
-- prompt from the newest to the one at the cursor is at hand.
pub reachable-value_at :
    (h : PromptHistory) (c i : ℕ)
    → Reachable h
    → h.active ≡ true
    → h.cursor ≡ some c
    → i ≤ c
    → is_some (value_at h (some i)) ≡ true
reachable-value_at h c i r e at le =
    subst (Reached h) at ((Reachable-IsNavigable h r).reached e) i le

-- Moving on to newer prompts always shows one, or the draft at the end, after any calls of the
-- composer, while a walk is active.
pub reachable-newer :
    (h : PromptHistory) → Reachable h → h.active ≡ true → is_some (newer h).1 ≡ true
unfolding newer
reachable-newer h r e = simp (e) (newer_at-shows h h.cursor ((Reachable-IsNavigable h r).reached e))
