-- ===== src/Runtime/Marks.antt =====
-- internal/orchestrator/runtime.go: a loop over the sorted work of a projection that changes each item
-- that passes a test, by an event of its own: markInterruptedDelegations, cancelActiveDelegations.
use text.Mathlib.Text.{◌==◌ as str_eq}
use alt_tui.Prelude.{
  String, ◌≡◌, refl, sym, ap, ◌∙◌, ◌⊎◌, inl, inr, none, some, true, false, List, [], ◌∷◌, arith,
  eq_iff, Bool-cases, Option-cases, In, subst,
}
use alt_tui.Prelude.Dict.{Dict, lookup, update, lookup-update, on_some, Entries, Entries-lookup}
use alt_tui.Prelude.Dict.Unique.{HasUniqueKeys, lookup-In, In-lookup}
use alt_tui.Projection.{Work}
use alt_tui.Projection.Invariant.{WorkOk}
use alt_tui.Projection.Views.{sorted_work}
use alt_tui.Projection.Sorted.{In-sorted_work, of_In-sorted_work}

module _ {S : Type 0} (f : Work S → Work S) (id_of : S → String) (m : Dict (Work S)) where
  -- an item of a sorted view stands under its id
  abbrev pub Stands : Work S → Type 0
  Stands w = lookup (id_of w.spec) m ≡ some w

  -- Against the map `m` of the start: each item is changed, or it is as it was and to come.
  abbrev pub Marked : List (Work S) → Dict (Work S) → Type 0
  Marked rest c =
      ((k : String) → lookup k m ≡ none → lookup k c ≡ none)
      × ((k : String) (w : Work S)
          → lookup k m ≡ some w
          → (lookup k c ≡ some (f w)) ⊎ ((lookup k c ≡ some w) × In w rest))

  pub Marked-start : HasUniqueKeys m → Marked (sorted_work id_of m) m
  Marked-start h = (λ k e. e, λ k w e. inr (e, In-sorted_work id_of k w m (In-lookup k w m e)))

  keyed :
      (k : String) (w : Work S) → Entries (WorkOk id_of) m → lookup k m ≡ some w → id_of w.spec ≡ k
  keyed k w ok e = (Entries-lookup (WorkOk id_of) k w m ok e).keyed

  pub sorted-Stands :
      (w : Work S)
      → HasUniqueKeys m
      → Entries (WorkOk id_of) m
      → In w (sorted_work id_of m)
      → Stands w
  sorted-Stands w h ok i =
      let (k, j) = of_In-sorted_work id_of w m i in
      let at : lookup k m ≡ some w = lookup-In k w m h j in
      subst (λ n. lookup n m ≡ some w) (sym (keyed k w ok at)) at

  -- an item that is as it would be changed
  pub Marked-skip :
      (w : Work S) (rest : List (Work S)) (c : Dict (Work S))
      → w ≡ f w
      → Marked (w ∷ rest) c
      → Marked rest c
  Marked-skip w rest c e h = (
    h.0,
    λ k v at. elim (h.1 k v at) [
      | inl done ↦ inl done
      | inr (old, inr later) ↦ inr (old, later)
      | inr (old, inl here) ↦ inl (old ∙ ap some (subst (λ (x : Work S). x ≡ f x) (sym here) e))
    ],
  )

  either_way :
      (k : String) (w : Work S) (c : Dict (Work S)) (l : List (Work S))
      → (lookup k c ≡ some (f w)) ⊎ ((lookup k c ≡ some w) × In w l)
      → (lookup k c ≡ some (f w)) ⊎ (lookup k c ≡ some w)
  either_way k w c l (inl a) = inl a
  either_way k w c l (inr b) = inr b.0

  -- how the next item stands
  pub Marked-next :
      (w : Work S) (rest : List (Work S)) (c : Dict (Work S))
      → Stands w
      → Marked (w ∷ rest) c
      → (lookup (id_of w.spec) c ≡ some (f w)) ⊎ (lookup (id_of w.spec) c ≡ some w)
  Marked-next w rest c at h = either_way (id_of w.spec) w c (w ∷ rest) (h.1 (id_of w.spec) w at)

  -- an item that was changed before
  pub Marked-pass :
      (w : Work S) (rest : List (Work S)) (c : Dict (Work S))
      → Entries (WorkOk id_of) m
      → lookup (id_of w.spec) c ≡ some (f w)
      → Marked (w ∷ rest) c
      → Marked rest c
  Marked-pass w rest c ok done h = (
    h.0,
    λ k v at. elim (h.1 k v at) [
      | inl already ↦ inl already
      | inr (old, inr later) ↦ inr (old, later)
      | inr (old, inl here) ↦ inl (passed_over k v here (keyed k v ok at))
    ],
  )
    where
      passed_over : (k : String) (v : Work S) → v ≡ w → id_of v.spec ≡ k → lookup k c ≡ some (f v)
      passed_over k v here key =
          subst (λ (x : Work S). lookup k c ≡ some (f x)) (sym here)
            (subst (λ i. lookup i c ≡ some (f w))
              (ap (λ (x : Work S). id_of x.spec) (sym here) ∙ key) done)

  marked_here :
      (g : Work S → Work S) (w : Work S) (c : Dict (Work S))
      → g w ≡ f w
      → g (f w) ≡ f w
      → (lookup (id_of w.spec) c ≡ some (f w)) ⊎ (lookup (id_of w.spec) c ≡ some w)
      → lookup (id_of w.spec) (update (id_of w.spec) g c) ≡ some (f w)
  marked_here g w c e e' (inl done) =
      lookup-update (id_of w.spec) (id_of w.spec) g c
      ∙ rw ((eq_iff (id_of w.spec) (id_of w.spec)).1 refl) (rw done (ap some e'))
  marked_here g w c e e' (inr old) =
      lookup-update (id_of w.spec) (id_of w.spec) g c
      ∙ rw ((eq_iff (id_of w.spec) (id_of w.spec)).1 refl) (rw old (ap some e))

  -- a write that changes the next item changes no other
  pub Marked-step :
      (g : Work S → Work S) (w : Work S) (rest : List (Work S)) (c : Dict (Work S))
      → Entries (WorkOk id_of) m
      → Stands w
      → g w ≡ f w
      → g (f w) ≡ f w
      → Marked (w ∷ rest) c
      → Marked rest (update (id_of w.spec) g c)
  Marked-step g w rest c ok at e e' h =
      let id = id_of w.spec in
      (
        λ k none'. elim (Bool-cases (str_eq id k)) [
          | inl same ↦ absurd (two_ways k w ((eq_iff id k).0 same) at none')
          | inr other ↦ lookup-update id k g c ∙ rw other (h.0 k none')
        ],
        λ k v here. elim (Bool-cases (str_eq id k)) [
          | inl same ↦
              let key : id ≡ k = (eq_iff id k).0 same in
              let it : w ≡ v = one_entry k w v key at here in
              inl (
                subst (λ i. lookup i (update id g c) ≡ some (f v)) key
                  (subst (λ (x : Work S). lookup id (update id g c) ≡ some (f x)) it
                    (marked_here g w c e e' (Marked-next w rest c at h))))
          | inr other ↦
              untouched w rest c (update id g c) k v (lookup-update id k g c ∙ rw other refl)
                (λ q. different k v w q (keyed k v ok here) other) (h.1 k v here)
        ],
      )
    where
      two_ways :
          (k : String) (w : Work S)
          → id_of w.spec ≡ k
          → lookup (id_of w.spec) m ≡ some w
          → lookup k m ≡ none
          → ⊥
      two_ways k w key at none' =
          let clash : none ≡ some w = sym none' ∙ ap (λ i. lookup i m) (sym key) ∙ at in cc

      one_entry :
          (k : String) (w v : Work S)
          → id_of w.spec ≡ k
          → lookup (id_of w.spec) m ≡ some w
          → lookup k m ≡ some v
          → w ≡ v
      one_entry k w v key at here =
          let both : some w ≡ some v = sym at ∙ ap (λ i. lookup i m) key ∙ here in cc

      different :
          (k : String) (v w : Work S)
          → v ≡ w
          → id_of v.spec ≡ k
          → str_eq (id_of w.spec) k ≡ false
          → ⊥
      different k v w q key other =
          let same : str_eq (id_of w.spec) k ≡ true =
            (eq_iff (id_of w.spec) k).1 (ap (λ (x : Work S). id_of x.spec) (sym q) ∙ key) in
          ground (arith, same, other)

      untouched :
          (w : Work S) (rest : List (Work S)) (c c' : Dict (Work S)) (k : String) (v : Work S)
          → lookup k c' ≡ lookup k c
          → (v ≡ w → ⊥)
          → (lookup k c ≡ some (f v)) ⊎ ((lookup k c ≡ some v) × In v (w ∷ rest))
          → (lookup k c' ≡ some (f v)) ⊎ ((lookup k c' ≡ some v) × In v rest)
      untouched w rest c c' k v e n (inl done) = inl (e ∙ done)
      untouched w rest c c' k v e n (inr (old, inl q)) = absurd (n q)
      untouched w rest c c' k v e n (inr (old, inr i)) = inr (e ∙ old, i)

  -- at the end every item is changed
  pub Marked-end :
      (c : Dict (Work S)) → Marked [] c → (k : String) → lookup k c ≡ on_some f (lookup k m)
  Marked-end c h k = elim (Option-cases (lookup k m)) [
    | inl e ↦ rw e (h.0 k e)
    | inr (w, e) ↦ rw e (only_done c k w (h.1 k w e))
  ]
    where
      only_done :
          (c : Dict (Work S)) (k : String) (w : Work S)
          → (lookup k c ≡ some (f w)) ⊎ ((lookup k c ≡ some w) × In w [])
          → lookup k c ≡ some (f w)
      only_done c k w (inl done) = done
      only_done c k w (inr (old, i)) = elim i [ ]
