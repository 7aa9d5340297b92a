-- ===== src/Projection/Sorted.antt =====
-- internal/orchestrator/state.go: theorems about the sorted views of a projection.
use text.Mathlib.Text.{is_lt}
use Prim.Native.String.{compare}
use alt_tui.Prelude.{String, ◌≡◌, ap, ◌⊎◌, inl, inr, List, [], ◌∷◌, Bool-cases, In}
use alt_tui.Prelude.Dict.{Dict}
use alt_tui.Projection.{Projection, Work, PeerTurn, Delegation}
use alt_tui.Projection.Views.{insert_by_id, sorted_work, sorted_peer_turns, sorted_delegations}

module _ {S : Type 0} (id_of : S → String) where
  In-insert_by_id :
      (w v : Work S) (l : List (Work S)) → (w ≡ v) ⊎ In w l → In w (insert_by_id id_of v l)
  unfolding insert_by_id
  In-insert_by_id w v [] m = m
  In-insert_by_id w v (u ∷ l) m =
      elim (Bool-cases (is_lt (compare (id_of u.spec) (id_of v.spec)))) [
        | inl e ↦ rw e (elim m [
          | inl q ↦ inr (In-insert_by_id w v l (inl q))
          | inr (inl q) ↦ inl q
          | inr (inr n) ↦ inr (In-insert_by_id w v l (inr n))
        ])
        | inr e ↦ rw e m
      ]

  pub In-sorted_work :
      (id : String) (w : Work S) (m : Dict (Work S)) → In (id, w) m → In w (sorted_work id_of m)
  unfolding sorted_work
  In-sorted_work id w [] h = elim h [ ]
  In-sorted_work id w ((j, v) ∷ m) (inl e) =
      In-insert_by_id w v (sorted_work id_of m) (inl (ap (λ (x : String × Work S). x.1) e))
  In-sorted_work id w ((j, v) ∷ m) (inr h) =
      In-insert_by_id w v (sorted_work id_of m) (inr (In-sorted_work id w m h))

pub In-sorted_peer_turns :
    (p : Projection) (id : String) (w : PeerTurn)
    → In (id, w) p.peer_turns
    → In w (sorted_peer_turns p)
unfolding sorted_peer_turns
In-sorted_peer_turns p id w h = In-sorted_work (λ s. s.id) id w p.peer_turns h

pub In-sorted_delegations :
    (p : Projection) (id : String) (w : Delegation)
    → In (id, w) p.delegations
    → In w (sorted_delegations p)
unfolding sorted_delegations
In-sorted_delegations p id w h = In-sorted_work (λ s. s.id) id w p.delegations h

module _ {S : Type 0} (id_of : S → String) where
  of_In-insert_by_id :
      (w v : Work S) (l : List (Work S)) → In w (insert_by_id id_of v l) → (w ≡ v) ⊎ In w l
  unfolding insert_by_id
  of_In-insert_by_id w v [] m = m
  of_In-insert_by_id w v (u ∷ l) m =
      elim (Bool-cases (is_lt (compare (id_of u.spec) (id_of v.spec)))) [
        | inl e ↦
            let n : (w ≡ u) ⊎ In w (insert_by_id id_of v l) = rw e at m in
            elim n [
              | inl q ↦ inr (inl q)
              | inr k ↦ elim (of_In-insert_by_id w v l k) [ inl q ↦ inl q | inr i ↦ inr (inr i) ]
            ]
        | inr e ↦ rw e at m
      ]

  -- what the sorted view holds is an entry of the map
  pub of_In-sorted_work :
      (w : Work S) (m : Dict (Work S)) → In w (sorted_work id_of m) → (k : String) × In (k, w) m
  unfolding sorted_work
  of_In-sorted_work w [] h = elim h [ ]
  of_In-sorted_work w ((j, v) ∷ m) h = elim (of_In-insert_by_id w v (sorted_work id_of m) h) [
    | inl q ↦ (j, inl (ap (λ (x : Work S). (j, x)) q))
    | inr n ↦ let (k, i) = of_In-sorted_work w m n in (k, inr i)
  ]
