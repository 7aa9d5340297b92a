-- ===== src/History/Walk.antt =====
-- internal/tui/history.go: theorems about walks through the prompts of this process.
use alt_tui.Prelude.{
  ℕ, zero, suc, ◌+◌, ◌-◌, ◌<◌, String, ◌≡◌, refl, Option, none, some, true, false, List, arith,
  length, get_elem?, subst, sym,
}
use alt_tui.History.{
  PromptHistory, value_at, activated, after, older_at, older_unless, older, newer,
}
use alt_tui.History.Cursor.Steps.{value_at-local}

-- the history after `n` moves to older prompts, from the composer's text
abbrev pub older_times : ℕ → String → PromptHistory → PromptHistory
older_times zero current h = h
older_times (suc n) current h = (older current (older_times n current h)).0

-- the history after `n` moves to newer prompts
abbrev pub newer_times : ℕ → PromptHistory → PromptHistory
newer_times zero h = h
newer_times (suc n) h = (newer (newer_times n h)).0

-- the `i`-th newest local prompt
abbrev pub newest : List String → ℕ → Option String
newest local i = get_elem? local (length local - 1 - i)

-- the walk that began at `current` in the prompts `local` is at the `c`-th newest
record At (local : List String) (current : String) (c : ℕ) (g : PromptHistory) : Type 0 where
  cursor : g.cursor ≡ some c
  draft : g.draft ≡ current
  active : g.active ≡ true
  idle : g.pending ≡ none
  prompts : g.local ≡ local

-- one move back within the local prompts
older_at-local :
    (h : PromptHistory) (target : ℕ) (current : String)
    → target < length h.local
    → h.draft ≡ current
    → h.active ≡ true
    → h.pending ≡ none
    → At h.local current target (older_at target h).0
      × ((older_at target h).1.shown ≡ newest h.local target)
unfolding value_at
older_at-local h target current lt d a p = ground (arith, value_at-local h target lt, lt, d, a, p)

-- a move back from the history `h`, which is `g` once the walk has begun
older-from :
    (h g : PromptHistory) (target : ℕ) (local : List String) (current : String)
    → h.pending ≡ none
    → activated current h ≡ g
    → after g.cursor ≡ target
    → g.local ≡ local
    → target < length local
    → g.draft ≡ current
    → g.active ≡ true
    → g.pending ≡ none
    → At local current target (older current h).0
      × ((older current h).1.shown ≡ newest local target)
unfolding older
older-from h g target local current p e at same lt d a q =
    subst
      (λ o.
        At local current target (older_unless o current h).0
        × ((older_unless o current h).1.shown ≡ newest local target))
      (sym p)
      (subst
        (λ x.
          At local current target (older_at (after x.cursor) x).0
          × ((older_at (after x.cursor) x).1.shown ≡ newest local target))
        (sym e)
        (subst
          (λ n.
            At local current target (older_at n g).0
            × ((older_at n g).1.shown ≡ newest local target))
          (sym at)
          (subst
            (λ l.
              At l current target (older_at target g).0
              × ((older_at target g).1.shown ≡ newest l target))
            same
            (older_at-local g target current (subst (λ l. target < length l) (sym same) lt) d a
              q))))

older-first :
    (h : PromptHistory) (current : String)
    → h.active ≡ false
    → h.pending ≡ none
    → 0 < length h.local
    → At h.local current 0 (older current h).0 × ((older current h).1.shown ≡ newest h.local 0)
older-first h current a p lt =
    older-from h (record h { draft = current; cursor = none; active = true }) 0 h.local current p
      (simp (a) refl) refl refl lt refl refl p

older-next :
    (local : List String) (g : PromptHistory) (current : String) (c : ℕ)
    → At local current c g
    → c + 1 < length local
    → At local current (c + 1) (older current g).0
      × ((older current g).1.shown ≡ newest local (c + 1))
older-next local g current c at lt =
    older-from g g (c + 1) local current at.idle (simp (at.active) refl) (ground (arith, at.cursor))
      at.prompts lt at.draft at.active at.idle

newer-back :
    (local : List String) (g : PromptHistory) (current : String) (c : ℕ)
    → At local current (suc c) g
    → At local current c (newer g).0
unfolding newer
newer-back local g current c at =
    ground (arith, at.cursor, at.draft, at.active, at.idle, at.prompts)

newer-end :
    (local : List String) (g : PromptHistory) (current : String)
    → At local current 0 g
    → (newer g).1 ≡ some current
unfolding newer
newer-end local g current at = ground (arith, at.cursor, at.draft, at.active)

module _ (h : PromptHistory) (current : String) where
  older_times-At :
      (n : ℕ)
      → h.active ≡ false
      → h.pending ≡ none
      → n < length h.local
      → At h.local current n (older_times (suc n) current h)
        × ((older current (older_times n current h)).1.shown ≡ newest h.local n)
  older_times-At zero a p lt = older-first h current a p lt
  older_times-At (suc n) a p lt =
      let (at, _) = older_times-At n a p (omega (arith, lt)) in
      subst
        (λ k.
          At h.local current k (older current (older_times (suc n) current h)).0
          × ((older current (older_times (suc n) current h)).1.shown ≡ newest h.local k))
        (omega arith)
        (older-next h.local (older_times (suc n) current h) current n at (omega (arith, lt)))

  newer_times-At :
      (n m : ℕ) (g : PromptHistory)
      → At h.local current (n + m) g
      → At h.local current m (newer_times n g)
  newer_times-At zero m g at = subst (λ k. At h.local current k g) (omega arith) at
  newer_times-At (suc n) m g at =
      newer-back h.local (newer_times n g) current m
        (newer_times-At n (suc m) g (subst (λ k. At h.local current k g) (omega arith) at))

  -- Walking back through the prompts of this process shows them from the newest on, and walking as
  -- many steps forward gives back the text that the composer held: from a history where no walk is
  -- active and no lookup is out, for every number of steps that there are local prompts for.
  pub walk_roundtrip :
      (n : ℕ)
      → h.active ≡ false
      → h.pending ≡ none
      → n < length h.local
      → ((older current (older_times n current h)).1.shown ≡ newest h.local n)
        × ((newer (newer_times n (older_times (suc n) current h))).1 ≡ some current)
  walk_roundtrip n a p lt =
      let (at, shown) = older_times-At n a p lt in
      (
        shown,
        newer-end h.local (newer_times n (older_times (suc n) current h)) current (
            newer_times-At n 0 (older_times (suc n) current h)
              (subst (λ k. At h.local current k (older_times (suc n) current h)) (omega arith) at)),
      )
