-- ===== src/History/Cursor/Steps.antt =====
-- internal/tui/history.go: each operation keeps the cursor of a walk on prompts that are at hand.
use text.Mathlib.Text.{◌==◌ as str_eq}
use alt_tui.Prelude.{
  ℕ, zero, suc, ◌+◌, ◌-◌, ◌≤◌, ◌<◌, String, ◌≡◌, refl, ◌⊎◌, inl, inr, Option, none, some, Bool,
  true, false, List, [], ◌∷◌, ◌++◌, arith, ltb, leb, ◌==◌, length, get_elem?, Bool-cases,
  Option-cases, subst,
}
use alt_tui.History.{
  PromptLookup, PromptHistory, stored_at, reset_navigation, is_last, record_prompt, value_at,
  activated, after, older_at, older_unless, resolved, resolve_pending, settled, newer_at, newer,
}

abbrev pub is_some : {A : Type 0} → Option A → Bool
is_some none = false
is_some (some a) = true

-- every prompt from the newest one to the cursor is at hand
abbrev pub Reached : PromptHistory → Option ℕ → Type 0
Reached h none = Unit
Reached h (some c) = (i : ℕ) → i ≤ c → is_some (value_at h (some i)) ≡ true

-- an outstanding lookup is for the prompt after the cursor, in the snapshot
abbrev pub Awaited : PromptHistory → Option PromptLookup → Type 0
Awaited h none = Unit
Awaited h (some l) = (h.active ≡ true) × (length h.local + l.offset ≡ after h.cursor)

pub record IsNavigable (h : PromptHistory) : Type 0 where
  pub reached : h.active ≡ true → Reached h h.cursor
  pub awaited : Awaited h h.pending

pub get_elem?-some :
    {A : Type 0} (l : List A) (i : ℕ) → i < length l → is_some (get_elem? l i) ≡ true
get_elem?-some [] i h = absurd (omega (arith, h))
get_elem?-some (x ∷ l) zero h = refl
get_elem?-some (x ∷ l) (suc i) h = get_elem?-some l i (omega (arith, h))

-- local prompts are at hand
pub value_at-local :
    (h : PromptHistory) (i : ℕ) → i < length h.local → is_some (value_at h (some i)) ≡ true
unfolding value_at
value_at-local h i lt = ground (arith, lt, get_elem?-some h.local (length h.local - 1 - i))

-- one more prompt at hand
pub value_at-resolved :
    (h : PromptHistory) (l : PromptLookup) (prompt : String) (i : ℕ)
    → (i ≡ length h.local + l.offset) ⊎ (is_some (value_at h (some i)) ≡ true)
    → is_some (value_at (resolved l prompt h) (some i)) ≡ true
unfolding value_at stored_at
value_at-resolved h l prompt i c = ground (arith, c)

pub reset_navigation-IsNavigable : (h : PromptHistory) → IsNavigable (reset_navigation h)
unfolding reset_navigation
reset_navigation-IsNavigable h = record { reached = λ e. cc; awaited = tt }

pub record_prompt-IsNavigable :
    (value : String) (h : PromptHistory) → IsNavigable h → IsNavigable (record_prompt value h)
unfolding record_prompt
record_prompt-IsNavigable value h n = elim (Bool-cases (str_eq value "")) [
  | inl e ↦ rw e n
  | inr e ↦ rw e (elim (Bool-cases (is_last value h.local)) [
    | inl l ↦ rw l (reset_navigation-IsNavigable h)
    | inr l ↦ rw l (reset_navigation-IsNavigable (record h { local = h.local ++ value ∷ [] }))
  ])
]

pub activated-IsNavigable :
    (current : String) (h : PromptHistory)
    → h.pending ≡ none
    → IsNavigable h
    → IsNavigable (activated current h)
activated-IsNavigable current h p n = elim (Bool-cases h.active) [
  | inl e ↦ simp (e) n
  | inr e ↦ simp (e) (record { reached = λ _. tt; awaited = rw p tt })
]

pub Reached-next :
    (h : PromptHistory) (c : Option ℕ)
    → Reached h c
    → is_some (value_at h (some (after c))) ≡ true
    → Reached h (some (after c))
Reached-next h none r v i le =
    subst (λ j. is_some (value_at h (some j)) ≡ true) (omega (arith, le)) v
Reached-next h (some c) r v i le = elim (Bool-cases (leb i c)) [
  | inl e ↦ r i (ground (arith, e))
  | inr e ↦ subst (λ j. is_some (value_at h (some j)) ≡ true) (ground (arith, e, le)) v
]

pub Reached-cursor :
    (h : PromptHistory) (d : Option ℕ) (c : Option ℕ)
    → Reached h c
    → Reached (record h { cursor = d }) c
unfolding value_at
Reached-cursor h d none r = tt
Reached-cursor h d (some c) r = r

pub value_at-remote : (h : PromptHistory) (i : ℕ) → value_at h (some i) ≡ none → length h.local ≤ i
value_at-remote h i e = elim (Bool-cases (ltb i (length h.local))) [
  | inl lt ↦ absurd (ground (arith, e, value_at-local h i (ground (arith, lt))))
  | inr ge ↦ ground (arith, ge)
]

pub older_at-IsNavigable :
    (h : PromptHistory)
    → IsNavigable h
    → h.pending ≡ none
    → h.active ≡ true
    → IsNavigable (older_at (after h.cursor) h).0
unfolding value_at
older_at-IsNavigable h n p a =
    elim (Bool-cases (leb (length h.local + h.snapshot.count) (after h.cursor))) [
      | inl e ↦ rw e n
      | inr e ↦ rw e (elim (Option-cases (value_at h (some (after h.cursor)))) [
        | inr (v, q) ↦ rw q (record {
          reached = λ _.
              Reached-cursor h (some (after h.cursor)) (some (after h.cursor))
                (Reached-next h h.cursor (n.reached a) (rw q refl));
          awaited = rw p tt;
        })
        | inl q ↦ rw q (record {
          reached = λ x. n.reached x;
          awaited = (a, omega (arith, value_at-remote h (after h.cursor) q));
        })
      ])
    ]

pub older_unless-IsNavigable :
    (o : Option PromptLookup) (current : String) (h : PromptHistory)
    → h.pending ≡ o
    → IsNavigable h
    → IsNavigable (older_unless o current h).0
older_unless-IsNavigable (some l) current h e n = n
older_unless-IsNavigable none current h e n =
    older_at-IsNavigable (activated current h) (activated-IsNavigable current h e n)
      (ground (arith, e)) (ground arith)

pub Reached-at :
    (h : PromptHistory) (c : Option ℕ)
    → Reached h c
    → (i : ℕ) → i < after c
    → is_some (value_at h (some i)) ≡ true
Reached-at h none r i lt = absurd (omega (arith, lt))
Reached-at h (some c) r i lt = r i (omega (arith, lt))

-- the awaited prompt or one before it
pub known :
    (h : PromptHistory) (l : PromptLookup) (i : ℕ)
    → length h.local + l.offset ≡ after h.cursor
    → i ≤ length h.local + l.offset
    → ((j : ℕ) → j < after h.cursor → is_some (value_at h (some j)) ≡ true)
    → (i ≡ length h.local + l.offset) ⊎ (is_some (value_at h (some i)) ≡ true)
known h l i at le r = elim (Bool-cases (ltb i (after h.cursor))) [
  | inl e ↦ inr (r i (ground (arith, e)))
  | inr e ↦ inl (ground (arith, e, at, le))
]

pub resolved-IsNavigable :
    (h : PromptHistory) (l : PromptLookup) (prompt : String)
    → IsNavigable h
    → h.pending ≡ some l
    → IsNavigable (resolved l prompt h)
resolved-IsNavigable h l prompt n e =
    let (a, at) : Awaited h (some l) = subst (Awaited h) e n.awaited in
    record {
      reached = λ _ i le.
          value_at-resolved h l prompt i (known h l i at le (Reached-at h h.cursor (n.reached a)));
      awaited = tt;
    }

pub resolve_pending-IsNavigable :
    (o : Option PromptLookup) (token : ℕ) (prompt : String) (found : Bool) (h : PromptHistory)
    → h.pending ≡ o
    → IsNavigable h
    → IsNavigable (resolve_pending o token prompt found h).0
unfolding value_at
resolve_pending-IsNavigable none token prompt found h e n = n
resolve_pending-IsNavigable (some l) token prompt found h e n =
    elim (Bool-cases (l.token == token)) [
      | inr q ↦ rw q n
      | inl q ↦ rw q (elim (Bool-cases found) [
        | inr f ↦ rw f (record { reached = n.reached; awaited = tt })
        | inl f ↦ rw f (resolved-IsNavigable h l prompt n e)
      ])
    ]

pub settled-IsNavigable : (h : PromptHistory) → IsNavigable h → IsNavigable (settled h)
unfolding value_at
settled-IsNavigable h n = record { reached = n.reached; awaited = tt }

pub Reached-before : (h : PromptHistory) (c : ℕ) → Reached h (some (suc c)) → Reached h (some c)
Reached-before h c r i le = r i (omega (arith, le))

pub newer_at-IsNavigable :
    (h : PromptHistory) (c : Option ℕ) → Reached h c → IsNavigable (newer_at c h).0
unfolding reset_navigation value_at
newer_at-IsNavigable h none r = record { reached = λ q. cc; awaited = tt }
newer_at-IsNavigable h (some zero) r = record { reached = λ q. cc; awaited = tt }
newer_at-IsNavigable h (some (suc c)) r = record {
  reached = λ q. Reached-before h c r;
  awaited = tt;
}

pub newer-IsNavigable : (h : PromptHistory) → IsNavigable h → IsNavigable (newer h).0
unfolding newer value_at
newer-IsNavigable h n = elim (Bool-cases h.active) [
  | inr e ↦ simp (e) (record { reached = λ q. cc; awaited = tt })
  | inl e ↦ simp (e) (newer_at-IsNavigable h h.cursor (n.reached e))
]
