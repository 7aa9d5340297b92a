-- ===== src/Runtime/Answer/Silenced.antt =====
-- internal/orchestrator/runtime.go: what cancelActiveDelegations does.
use alt_tui.Prelude.{
  ℕ, String, ◌≡◌, refl, ap, ◌∙◌, inl, inr, none, some, true, false, List, [], ◌∷◌, arith,
  Bool-cases, All, All-intro, ok, if◌then◌else◌,
}
use alt_tui.Prelude.Dict.{Dict, lookup, on_some, Entries}
use alt_tui.Projection.{Projection, Work, Delegation, PeerTurn, stopped}
use alt_tui.Projection.Invariant.{IsCoherent, WorkOk, delegation_id, peer_turn_id}
use alt_tui.Projection.Keys.{IsKeyed}
use alt_tui.Projection.Views.{is_active, sorted_delegations, sorted_peer_turns}
use alt_tui.Runtime.{SessionRuntime, continue}
use alt_tui.Runtime.Work.{
  is_settled, quietly, cancel_delegation, cancel_work, cancel_active, cancel_all,
  cancel_active_delegations,
}
use alt_tui.Runtime.Log.{with_work}
use alt_tui.Runtime.Marks
use alt_tui.Runtime.Marks.{
  Marked, Marked-start, Marked-skip, Marked-pass, Marked-step, Marked-next, Marked-end,
  sorted-Stands,
}
use alt_tui.Runtime.Cancellation.{Stands, after_stop, cancel_delegation_lem, cancel_peer_turn_lem}

-- pending and running work is cancelled, other work is as it was
abbrev pub silenced : {S : Type 0} → Work S → Work S
silenced w = if is_active w then stopped w else w

-- no peer turn has the id of a delegation
abbrev pub AreDisjoint : Projection → Type 0
AreDisjoint p =
    (k : String) (w : PeerTurn) → lookup k p.peer_turns ≡ some w → lookup k p.delegations ≡ none

module _ {S : Type 0} (id_of : S → String) (m : Dict (Work S)) where
  -- the next item is one that a cancellation marks, whether it was marked before or not
  pub next_stop :
      (w : Work S) (rest : List (Work S)) (c : Dict (Work S))
      → Entries (WorkOk id_of) m
      → Marks.Stands silenced id_of m w
      → is_active w ≡ true
      → Marked silenced id_of m (w ∷ rest) c
      → (v : Work S) × (lookup (id_of w.spec) c ≡ some v)
        × Marked silenced id_of m rest (after_stop (id_of w.spec) v c)
  unfolding stopped
  next_stop w rest c entries at e h = elim (Marked-next silenced id_of m w rest c at h) [
    | inl done ↦
        let settled : is_settled (silenced w) ≡ true = ground (arith, e) in
        (silenced w, done, rw settled (Marked-pass silenced id_of m w rest c entries done h))
    | inr old ↦
        let open_ : is_settled w ≡ false = ground (arith, e) in
        (
          w,
          old,
          rw open_ (
              Marked-step silenced id_of m stopped w rest c entries at (ground (arith, e))
                (ground (arith, e)) h),
        )
  ]

module _ (uuid : ℕ → String) (now : ℕ → ℕ) (distinct : (m n : ℕ) → uuid m ≡ uuid n → m ≡ n)
    (reason : String) (p : Projection) (coherent : IsCoherent p) where
  pub delegations_silenced :
      (l : List Delegation) (c : Dict Delegation) (n : ℕ) (r : SessionRuntime)
      → All (Marks.Stands silenced delegation_id p.delegations) l
      → Marked silenced delegation_id p.delegations l c
      → Stands uuid r (with_work p c p.peer_turns n)
      → (r' : SessionRuntime) × (c' : Dict Delegation) × (n' : ℕ) × (cancel_active uuid now
            delegation_id
            (λ id. cancel_delegation uuid now id reason)
            l
            r
          ≡ (r', ok tt))
        × Marked silenced delegation_id p.delegations [] c'
        × Stands uuid r' (with_work p c' p.peer_turns n')
  unfolding cancel_active
  delegations_silenced [] c n r st m h = (r, c, n, refl, m, h)
  delegations_silenced (w ∷ l) c n r st m h = elim (Bool-cases (is_active w)) [
    | inr e ↦ rw e (
        delegations_silenced l c n r st.1
          (Marked-skip silenced delegation_id p.delegations w l c (ground (arith, e)) m) h)
    | inl e ↦
        let (v, at, marked) =
          next_stop delegation_id p.delegations w l c coherent.delegations_ok st.0 e m in
        let (s, k, ran, h') =
          cancel_delegation_lem uuid now distinct w.spec.id reason r (with_work p c p.peer_turns n)
            v h at in
        let (r', c', n', rest, done, h'') =
          delegations_silenced l (after_stop w.spec.id v c) k s st.1 marked h' in
        (
          r',
          c',
          n',
          rw e (
              ap
                (λ x.
                  continue (x.0, ok tt)
                    (λ _.
                      cancel_active uuid now delegation_id
                        (λ id. cancel_delegation uuid now id reason) l))
                ran
              ∙ rest),
          done,
          h'',
        )
  ]

  pub peer_turns_silenced :
      (ds : Dict Delegation) (l : List PeerTurn) (c : Dict PeerTurn) (n : ℕ) (r : SessionRuntime)
      → ((k : String) (w : PeerTurn) → lookup k p.peer_turns ≡ some w → lookup k ds ≡ none)
      → All (Marks.Stands silenced peer_turn_id p.peer_turns) l
      → Marked silenced peer_turn_id p.peer_turns l c
      → Stands uuid r (with_work p ds c n)
      → (r' : SessionRuntime) × (c' : Dict PeerTurn) × (n' : ℕ) × (cancel_active uuid now
            peer_turn_id
            (λ id. cancel_work uuid now id reason)
            l
            r
          ≡ (r', ok tt))
        × Marked silenced peer_turn_id p.peer_turns [] c'
        × Stands uuid r' (with_work p ds c' n')
  unfolding cancel_active
  peer_turns_silenced ds [] c n r d st m h = (r, c, n, refl, m, h)
  peer_turns_silenced ds (w ∷ l) c n r d st m h = elim (Bool-cases (is_active w)) [
    | inr e ↦ rw e (
        peer_turns_silenced ds l c n r d st.1
          (Marked-skip silenced peer_turn_id p.peer_turns w l c (ground (arith, e)) m) h)
    | inl e ↦
        let (v, at, marked) =
          next_stop peer_turn_id p.peer_turns w l c coherent.peer_turns_ok st.0 e m in
        let (s, k, ran, h') =
          cancel_peer_turn_lem uuid now distinct w.spec.id reason r (with_work p ds c n) v h
            (d w.spec.id w st.0) at in
        let (r', c', n', rest, done, h'') =
          peer_turns_silenced ds l (after_stop w.spec.id v c) k s d st.1 marked h' in
        (
          r',
          c',
          n',
          rw e (
              ap
                (λ x.
                  continue (x.0, ok tt)
                    (λ _.
                      cancel_active uuid now peer_turn_id (λ id. cancel_work uuid now id reason) l))
                ran
              ∙ rest),
          done,
          h'',
        )
  ]

  pub delegations_stand :
      IsKeyed p → All (Marks.Stands silenced delegation_id p.delegations) (sorted_delegations p)
  unfolding sorted_delegations
  delegations_stand keys =
      All-intro (Marks.Stands silenced delegation_id p.delegations) (sorted_delegations p) λ w i.
        sorted-Stands silenced delegation_id p.delegations w keys.delegations
          coherent.delegations_ok i

  pub peer_turns_stand :
      IsKeyed p → All (Marks.Stands silenced peer_turn_id p.peer_turns) (sorted_peer_turns p)
  unfolding sorted_peer_turns
  peer_turns_stand keys =
      All-intro (Marks.Stands silenced peer_turn_id p.peer_turns) (sorted_peer_turns p) λ w i.
        sorted-Stands silenced peer_turn_id p.peer_turns w keys.peer_turns coherent.peer_turns_ok i

  -- cancelActiveDelegations cancels what is active, and nothing else
  pub all_silenced :
      (r : SessionRuntime)
      → IsKeyed p
      → AreDisjoint p
      → Stands uuid r p
      → (r' : SessionRuntime) × (ds : Dict Delegation) × (ts : Dict PeerTurn) × (n : ℕ)
        × (cancel_active_delegations uuid now reason r ≡ (r', ok tt))
        × Stands uuid r' (with_work p ds ts n)
        × ((k : String) → lookup k ds ≡ on_some silenced (lookup k p.delegations))
        × ((k : String) → lookup k ts ≡ on_some silenced (lookup k p.peer_turns))
  unfolding cancel_active_delegations sorted_delegations sorted_peer_turns
  all_silenced r keys disjoint h =
      let (s, ds, n, first, marked, h') =
        delegations_silenced (sorted_delegations p) p.delegations p.last_sequence r
          (delegations_stand keys)
          (Marked-start silenced delegation_id p.delegations keys.delegations) h in
      let here = Marked-end silenced delegation_id p.delegations ds marked in
      let (r', ts, n', second, marked', h'') =
        peer_turns_silenced ds (sorted_peer_turns p) p.peer_turns n s
          (λ k w at. here k ∙ ap (on_some silenced) (disjoint k w at)) (peer_turns_stand keys)
          (Marked-start silenced peer_turn_id p.peer_turns keys.peer_turns) h' in
      (
        r',
        ds,
        ts,
        n',
        ap (λ o. quietly (cancel_all uuid now reason) o r) h.read
            ∙ ap
                (λ x. continue x (λ _.
                  cancel_active uuid now peer_turn_id (λ id. cancel_work uuid now id reason)
                    (sorted_peer_turns p)))
                first
            ∙ second,
        h'',
        here,
        Marked-end silenced peer_turn_id p.peer_turns ts marked',
      )
