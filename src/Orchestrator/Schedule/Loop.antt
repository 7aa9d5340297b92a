-- ===== src/Orchestrator/Schedule/Loop.antt =====
-- internal/orchestrator/runtime.go: theorems about one of the two loops of
-- scheduleReady.
use alt_tui.Prelude.{
  String, ◌≡◌, refl, ◌⊎◌, inl, inr, Bool, true, false, not, ◌||◌, List, [], ◌∷◌, arith, eq_iff, All,
  In, Bool-cases, subst,
}
use alt_tui.Profile.{contains_id}
use alt_tui.Projection.{Work}
use alt_tui.Orchestrator.Schedule.{Launch, schedule}

-- every key of the first set is in the second
abbrev pub Grows : List String → List String → Type 0
Grows before after = (key : String) → contains_id before key ≡ true → contains_id after key ≡ true

contains_id_first : (key : String) (l : List String) → contains_id (key ∷ l) key ≡ true
unfolding contains_id
contains_id_first key l = ground (arith, (eq_iff key key).1 refl)

module _ {S : Type 0} (ready : Work S → Bool) (key_of : Work S → String)
    (launch : Work S → Launch) where
  -- what is ready is launched
  abbrev pub Settled : List String → List (Work S) → Type 0
  Settled launched l = All (λ w. (not (ready w) || contains_id launched (key_of w)) ≡ true) l

  pub Settled-Grows :
      (before after : List String) (l : List (Work S))
      → Grows before after
      → Settled before l
      → Settled after l
  Settled-Grows before after [] g h = tt
  Settled-Grows before after (w ∷ l) g h =
      (ground (arith, h.0, g (key_of w)), Settled-Grows before after l g h.1)

  abbrev pub run : List (Work S) → List String → List String
  run l launched = (schedule ready key_of launch l launched).launched

  pub schedule-Grows :
      (l : List (Work S)) (launched : List String) → Grows launched (run l launched)
  unfolding schedule contains_id
  schedule-Grows [] launched key h = h
  schedule-Grows (w ∷ l) launched key h =
      ground (arith, h, schedule-Grows l launched key, schedule-Grows l (key_of w ∷ launched) key)

  run_skip :
      (w : Work S) (l : List (Work S)) (launched : List String)
      → (ready w ≡ false) ⊎ (contains_id launched (key_of w) ≡ true)
      → run l launched ≡ run (w ∷ l) launched
  unfolding schedule
  run_skip w l launched c = ground (arith, c)

  run_start :
      (w : Work S) (l : List (Work S)) (launched : List String)
      → ready w ≡ true
      → contains_id launched (key_of w) ≡ false
      → run l (key_of w ∷ launched) ≡ run (w ∷ l) launched
  unfolding schedule
  run_start w l launched e new = ground (arith, e, new)

  pub schedule-Settled : (l : List (Work S)) (launched : List String) → Settled (run l launched) l
  schedule-Settled [] launched = tt
  schedule-Settled (w ∷ l) launched = elim (Bool-cases (ready w)) [
    | inr e ↦
        subst (λ r. Settled r (w ∷ l)) (run_skip w l launched (inl e))
          (ground (arith, e), schedule-Settled l launched)
    | inl e ↦ elim (Bool-cases (contains_id launched (key_of w))) [
      | inl old ↦
          subst (λ r. Settled r (w ∷ l)) (run_skip w l launched (inr old))
            (ground (arith, schedule-Grows l launched (key_of w) old), schedule-Settled l launched)
      | inr new ↦
          subst (λ r. Settled r (w ∷ l)) (run_start w l launched e new)
            (
              ground (
                arith,
                schedule-Grows l (key_of w ∷ launched) (key_of w)
                    (contains_id_first (key_of w) launched),
              ),
              schedule-Settled l (key_of w ∷ launched),
            )
    ]
  ]

  pub schedule_stays :
      (l : List (Work S)) (launched : List String)
      → Settled launched l
      → schedule ready key_of launch l launched ≡ record { launches = []; launched = launched }
  unfolding schedule
  schedule_stays [] launched h = refl
  schedule_stays (w ∷ l) launched h = ground (arith, h.0, schedule_stays l launched h.1)

  -- a launch of one of the works, which was ready and under no key of `launched`
  abbrev pub Justified : List (Work S) → List String → Launch → Type 0
  Justified l launched started =
      (w : Work S) × In w l
      × (ready w ≡ true)
      × (contains_id launched (key_of w) ≡ false)
      × (started ≡ launch w)

  Justified-later :
      (w : Work S) (l : List (Work S)) (key : String) (launched : List String)
      (starts : List Launch)
      → All (Justified l (key ∷ launched)) starts
      → All (Justified (w ∷ l) launched) starts
  unfolding contains_id
  Justified-later w l key launched [] h = tt
  Justified-later w l key launched (s ∷ starts) h =
      let (v, m, r, new, e) = h.0 in
      ((v, inr m, r, ground (arith, new), e), Justified-later w l key launched starts h.1)

  Justified-skip :
      (w : Work S) (l : List (Work S)) (launched : List String) (starts : List Launch)
      → All (Justified l launched) starts
      → All (Justified (w ∷ l) launched) starts
  Justified-skip w l launched [] h = tt
  Justified-skip w l launched (s ∷ starts) h =
      let (v, m, r, new, e) = h.0 in ((v, inr m, r, new, e), Justified-skip w l launched starts h.1)

  pub schedule-Justified :
      (l : List (Work S)) (launched : List String)
      → All (Justified l launched) (schedule ready key_of launch l launched).launches
  unfolding schedule
  schedule-Justified [] launched = tt
  schedule-Justified (w ∷ l) launched = elim (Bool-cases (ready w)) [
    | inr e ↦ rw e (
        Justified-skip w l launched (schedule ready key_of launch l launched).launches
          (schedule-Justified l launched))
    | inl e ↦ elim (Bool-cases (contains_id launched (key_of w))) [
      | inl old ↦
          rw (e, old)
            (Justified-skip w l launched (schedule ready key_of launch l launched).launches
              (schedule-Justified l launched))
      | inr new ↦
          rw (e, new)
            (
              (w, inl refl, e, new, refl),
              Justified-later w l (key_of w) launched
                  (schedule ready key_of launch l (key_of w ∷ launched)).launches
                  (schedule-Justified l (key_of w ∷ launched)),
            )
    ]
  ]
