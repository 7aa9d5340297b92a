-- ===== src/Store/Sequence/Reading.antt =====
-- internal/store/event.go: theorems about Events and LastSequence, of events that are
-- numbered.
use alt_tui.Prelude.{
  ℕ, zero, suc, ◌+◌, ◌-◌, ◌≤◌, ◌<◌, String, ◌≡◌, refl, sym, ap, ◌∙◌, inl, inr, Bool, true, false,
  List, [], ◌∷◌, ◌++◌, keep, arith, ltb, if◌then◌else◌, length, Bool-cases, subst,
}
use alt_tui.Event.{Event}
use alt_tui.Store.{
  Tables, of_session, max_sequence, last_sequence, insert_by_sequence, order_by_sequence, selects,
  events_after,
}

-- the list is numbered from `n + 1` on, one by one
abbrev pub Steps : ℕ → List Event → Type 0
Steps n [] = Unit
Steps n (e ∷ rest) = (e.sequence ≡ n + 1) × Steps (n + 1) rest

-- the rows of one session, in the order of their insertion
abbrev pub rows : Tables → String → List Event
rows t session_id = keep (of_session session_id) t.events

-- Each session's events are numbered from 1 on without gaps.
abbrev pub IsNumbered : Tables → Type 0
IsNumbered t = (session_id : String) → Steps 0 (rows t session_id)

pub Steps-append :
    (n : ℕ) (l : List Event) (e : Event)
    → Steps n l
    → e.sequence ≡ n + length l + 1
    → Steps n (l ++ e ∷ [])
Steps-append n [] e h q = (omega (arith, q), tt)
Steps-append n (x ∷ l) e h q = (h.0, Steps-append (n + 1) l e h.1 (omega (arith, q)))

max_sequence-Steps :
    (n : ℕ) (l : List Event)
    → Steps n l
    → (max_sequence l ≤ n + length l) × (0 < length l → max_sequence l ≡ n + length l)
unfolding max_sequence
max_sequence-Steps n [] h = (omega arith, λ q. absurd (omega (arith, q)))
max_sequence-Steps n (x ∷ []) h = ground (arith, h.0)
max_sequence-Steps n (x ∷ y ∷ l) h =
    let (le, eq) = max_sequence-Steps (n + 1) (y ∷ l) h.1 in
    let at : max_sequence (y ∷ l) ≡ n + 1 + length (y ∷ l) = eq (omega arith) in
    ground (arith, h.0, at)

max_sequence-length : (l : List Event) → Steps 0 l → max_sequence l ≡ length l
unfolding max_sequence
max_sequence-length [] h = refl
max_sequence-length (x ∷ l) h =
    let (_, eq) = max_sequence-Steps 0 (x ∷ l) h in omega (arith, eq (omega arith))

pub last_sequence-length :
    (t : Tables) (session_id : String)
    → IsNumbered t
    → last_sequence t session_id ≡ length (rows t session_id)
unfolding last_sequence
last_sequence-length t session_id h = max_sequence-length (rows t session_id) (h session_id)

pub keep-append :
    (f : Event → Bool) (l : List Event) (e : Event)
    → keep f (l ++ e ∷ []) ≡ (if f e then keep f l ++ e ∷ [] else keep f l)
unfolding keep
keep-append f [] e = refl
keep-append f (x ∷ l) e = elim (Bool-cases (f x)) [
  | inl q ↦ ground (arith, q, keep-append f l e)
  | inr q ↦ ground (arith, q, keep-append f l e)
]

-- the list without its first elements
abbrev pub drop : ℕ → List Event → List Event
drop n [] = []
drop zero (x ∷ l) = x ∷ l
drop (suc n) (x ∷ l) = drop n l

pub drop-zero : (l : List Event) → drop 0 l ≡ l
drop-zero [] = refl
drop-zero (x ∷ l) = refl

drop-none : (n : ℕ) (l : List Event) → n ≡ 0 → drop n l ≡ l
drop-none n l e = subst (λ k. drop k l ≡ l) (sym e) (drop-zero l)

drop-later : (n m : ℕ) (x : Event) (l : List Event) → n ≡ suc m → drop m l ≡ drop n (x ∷ l)
drop-later n m x l e = subst (λ k. drop m l ≡ drop k (x ∷ l)) (sym e) refl

selects-true :
    (session_id : String) (after : ℕ) (x : Event)
    → of_session session_id x ≡ true
    → after < x.sequence
    → selects session_id after x ≡ true
selects-true session_id after x q lt = ground (arith, q, lt)

selects-false :
    (session_id : String) (after : ℕ) (x : Event)
    → of_session session_id x ≡ true
    → x.sequence ≤ after
    → selects session_id after x ≡ false
selects-false session_id after x q le = ground (arith, q, le)

keep-selects :
    (session_id : String) (after n : ℕ) (l : List Event)
    → Steps n (keep (of_session session_id) l)
    → keep (selects session_id after) l ≡ drop (after - n) (keep (of_session session_id) l)
unfolding keep
keep-selects session_id after n [] h = refl
keep-selects session_id after n (x ∷ l) h = elim (Bool-cases (of_session session_id x)) [
  | inl q ↦
      let steps : (x.sequence ≡ n + 1) × Steps (n + 1) (keep (of_session session_id) l) =
        rw q at h in
      let ih = keep-selects session_id after (n + 1) l steps.1 in
      elim (Bool-cases (ltb n after)) [
        | inl lt ↦
            rw (selects-false session_id after x q (ground (arith, lt, steps.0)), q)
              (ih
                ∙ drop-later (after - n) (after - (n + 1)) x (keep (of_session session_id) l)
                    (ground (arith, lt)))
        | inr ge ↦
            rw (selects-true session_id after x q (ground (arith, ge, steps.0)), q)
              (ap (λ r. x ∷ r)
                  (ih
                    ∙ drop-none (after - (n + 1)) (keep (of_session session_id) l)
                        (ground (arith, ge)))
                ∙ sym (
                    drop-none (after - n) (x ∷ keep (of_session session_id) l)
                      (ground (arith, ge))))
      ]
  | inr q ↦
      let steps : Steps n (keep (of_session session_id) l) = rw q at h in
      rw q (keep-selects session_id after n l steps)
]

insert_by_sequence-first :
    (e : Event) (l : List Event) → Steps e.sequence l → insert_by_sequence e l ≡ e ∷ l
unfolding insert_by_sequence
insert_by_sequence-first e [] h = refl
insert_by_sequence-first e (x ∷ l) h = ground (arith, h.0)

order_by_sequence-Steps : (n : ℕ) (l : List Event) → Steps n l → order_by_sequence l ≡ l
unfolding order_by_sequence
order_by_sequence-Steps n [] h = refl
order_by_sequence-Steps n (x ∷ l) h =
    rw (order_by_sequence-Steps (n + 1) l h.1)
      (insert_by_sequence-first x l (subst (λ k. Steps k l) (sym h.0) h.1))

Steps-drop : (k n : ℕ) (l : List Event) → Steps n l → Steps (n + k) (drop k l)
Steps-drop k n [] h = tt
Steps-drop zero n (x ∷ l) h = subst (λ m. Steps m (x ∷ l)) (omega arith) h
Steps-drop (suc k) n (x ∷ l) h =
    subst (λ m. Steps m (drop k l)) (omega arith) (Steps-drop k (n + 1) l h.1)

-- What a subscriber reads after the sequence `after` is the rest of the session's events, in order.
pub events_after-drop :
    (t : Tables) (session_id : String) (after : ℕ)
    → IsNumbered t
    → events_after t session_id after ≡ drop after (rows t session_id)
unfolding events_after
events_after-drop t session_id after h =
    let selected : keep (selects session_id after) t.events ≡ drop after (rows t session_id) =
      keep-selects session_id after 0 t.events (h session_id)
      ∙ ap (λ k. drop k (rows t session_id)) (omega arith) in
    ap order_by_sequence selected
    ∙ order_by_sequence-Steps (0 + after) (drop after (rows t session_id))
        (Steps-drop after 0 (rows t session_id) (h session_id))
