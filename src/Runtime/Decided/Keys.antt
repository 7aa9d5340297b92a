-- ===== src/Runtime/Decided/Keys.antt =====
-- internal/orchestrator/runtime.go: the work of a projection after cancellations, and after new specs.
use text.Mathlib.Text.{◌==◌ as str_eq}
use alt_tui.Prelude.{
  ℕ, String, ◌≡◌, refl, sym, ap, ◌∙◌, inl, inr, Option, none, some, Bool, true, false, not, ◌&&◌,
  ◌||◌, List, [], ◌∷◌, ◌++◌, arith, eq_iff, Bool-cases, ok, if◌then◌else◌, subst,
}
use alt_tui.Prelude.Dict.{Dict, lookup, insert, lookup-insert, on_some}
use alt_tui.Event.{Event, DelegationSpec, PeerTurnSpec}
use alt_tui.Profile.{contains_id}
use alt_tui.Projection.{Projection, Work, created, stopped}
use alt_tui.Orchestrator.Decision.{Plan, Handoff, is_some, is_known}
use alt_tui.Orchestrator.Schedule.{schedule_ready}
use alt_tui.Runtime.{Run}
use alt_tui.Runtime.Work.{is_settled}
use alt_tui.Runtime.Log.{with_work}
use alt_tui.Runtime.Cancellation.{Stops, stopped_in, halted}

abbrev pub has : {V : Type 0} → String → Dict V → Bool
has k m = is_some (lookup k m)

-- an item under `k`, after the cancellation of the ids where they name items of its map
abbrev pub cancelled_in :
    {S : Type 0} → Bool → List String → Dict (Work S) → String → Option (Work S)
cancelled_in hit ids m k =
    if contains_id ids k && hit then on_some halted (lookup k m) else lookup k m

-- the delegations of the ids, and where there is none the peer turns, are stopped; all else is as it was
pub record Cancels (ids : List String) (p q : Projection) : Type 0 where
  pub delegations :
      (k : String) → lookup k q.delegations ≡ cancelled_in (has k p.delegations) ids p.delegations k
  pub peer_turns :
      (k : String)
      → lookup k q.peer_turns ≡ cancelled_in (not (has k p.delegations)) ids p.peer_turns k
  pub rest : q ≡ with_work p q.delegations q.peer_turns q.last_sequence

halted_twice : {S : Type 0} (w : Work S) → halted (halted w) ≡ halted w
unfolding stopped
halted_twice w = elim (Bool-cases (is_settled w)) [
  | inl e ↦ ap halted (ap (λ b. if b then w else stopped w) e)
  | inr e ↦
      let now : halted w ≡ stopped w = ap (λ b. if b then w else stopped w) e in
      ap halted now ∙ sym now
]

-- one cancellation, and then those of other ids
halted_again :
    {S : Type 0} (hit same later : Bool) (o : Option (Work S))
    → (if later && hit
        then on_some halted (if hit && same then on_some halted o else o)
        else (if hit && same then on_some halted o else o))
      ≡ (if (same || later) && hit then on_some halted o else o)
halted_again true true true none = refl
halted_again true true true (some w) = ap some (halted_twice w)
halted_again true true false o = refl
halted_again true false true o = refl
halted_again true false false o = refl
halted_again false true true o = refl
halted_again false true false o = refl
halted_again false false true o = refl
halted_again false false false o = refl

stopped_in-has :
    {S : Type 0} (hit : Bool) (id : String) (m : Dict (Work S)) (k : String)
    → is_some (stopped_in hit id m k) ≡ has k m
stopped_in-has hit id m k = elim (Bool-cases (hit && str_eq id k)) [
  | inl e ↦ rw e (on_some-has (lookup k m))
  | inr e ↦ rw e refl
]
  where
    on_some-has : {S : Type 0} (o : Option (Work S)) → is_some (on_some halted o) ≡ is_some o
    on_some-has none = refl
    on_some-has (some w) = refl

-- a test of an id is one of the key that is equal to it
same_key :
    (test : String → Bool) (id k : String) → (test id && str_eq id k) ≡ (test k && str_eq id k)
same_key test id k = elim (Bool-cases (str_eq id k)) [
  | inl e ↦ ap (λ i. test i && str_eq id k) ((eq_iff id k).0 e)
  | inr e ↦ ground (arith, e)
]

-- the work under `k` after one cancellation and then others
cancelled_again :
    {S : Type 0} (hit : Bool) (id k : String) (ids : List String) (m m' m'' : Dict (Work S))
    → lookup k m' ≡ (if hit && str_eq id k then on_some halted (lookup k m) else lookup k m)
    → lookup k m'' ≡ cancelled_in hit ids m' k
    → lookup k m'' ≡ cancelled_in hit (id ∷ ids) m k
unfolding contains_id
cancelled_again hit id k ids m m' m'' first later =
    later
    ∙ ap (λ o. if contains_id ids k && hit then on_some halted o else o) first
    ∙ halted_again hit (str_eq id k) (contains_id ids k) (lookup k m)

pub Stops-Cancels :
    (id : String) (ids : List String) (p q s : Projection)
    → Stops id p q
    → Cancels ids q s
    → Cancels (id ∷ ids) p s
Stops-Cancels id ids p q s (ds, ts, rest) c = record {
  delegations = λ k.
      cancelled_again (has k p.delegations) id k ids p.delegations q.delegations s.delegations
        (ds k
          ∙ ap (λ b. if b then on_some halted (lookup k p.delegations) else lookup k p.delegations)
              (same_key (λ i. has i p.delegations) id k))
        (c.delegations k ∙ ap (λ b. cancelled_in b ids q.delegations k) (kept k));
  peer_turns = λ k.
      cancelled_again (not (has k p.delegations)) id k ids p.peer_turns q.peer_turns s.peer_turns
        (ts k
          ∙ ap (λ b. if b then on_some halted (lookup k p.peer_turns) else lookup k p.peer_turns)
              (same_key (λ i. not (has i p.delegations)) id k))
        (c.peer_turns k ∙ ap (λ b. cancelled_in (not b) ids q.peer_turns k) (kept k));
  rest = c.rest ∙ ap (λ x. with_work x s.delegations s.peer_turns s.last_sequence) rest;
}
  where
    kept : (k : String) → has k q.delegations ≡ has k p.delegations
    kept k = ap is_some (ds k) ∙ stopped_in-has (has id p.delegations) id p.delegations k

pub no_Cancels : (p : Projection) → Cancels [] p p
unfolding contains_id
no_Cancels p = record { delegations = λ k. refl; peer_turns = λ k. refl; rest = refl }

pub Stops-known :
    (p q : Projection) (id k : String) → Stops id p q → is_known p k ≡ true → is_known q k ≡ true
Stops-known p q id k (ds, ts, rest) h =
    ap (λ o. is_some o || has k q.peer_turns) (ds k)
    ∙ ap (λ b. b || has k q.peer_turns) (stopped_in-has (has id p.delegations) id p.delegations k)
    ∙ ap (λ o. has k p.delegations || is_some o) (ts k)
    ∙ ap (λ b. has k p.delegations || b)
        (stopped_in-has (not (has id p.delegations)) id p.peer_turns k)
    ∙ h

-- The item under `k` is as an event has created it of the last of the specs with that id, and where there
-- is none, it is what was there before.
abbrev pub Latest :
    {S : Type 0} → (S → String) → List S → String → Option (Work S) → Option (Work S) → Type 0
Latest id_of [] k before after = after ≡ before
Latest id_of (s ∷ rest) k before after =
    (item : Event) × Latest id_of rest k
      (if str_eq (id_of s) k then some (created s item) else before) after

pub Latest-insert :
    {S : Type 0} (id_of : S → String) (s : S) (rest : List S) (k : String) (item : Event)
    (m : Dict (Work S)) (after : Option (Work S))
    → Latest id_of rest k (lookup k (insert (id_of s) (created s item) m)) after
    → Latest id_of (s ∷ rest) k (lookup k m) after
Latest-insert id_of s rest k item m after h = (
  item,
  subst (λ o. Latest id_of rest k o after) (lookup-insert (id_of s) k (created s item) m) h,
)

-- specs have been added to the delegations and to the peer turns, and all else is as it was
pub record Adds (ds : List DelegationSpec) (ts : List PeerTurnSpec) (p q : Projection)
    : Type 0 where
  pub delegations :
      (k : String) → Latest (λ s. s.id) ds k (lookup k p.delegations) (lookup k q.delegations)
  pub peer_turns :
      (k : String) → Latest (λ s. s.id) ts k (lookup k p.peer_turns) (lookup k q.peer_turns)
  pub rest : q ≡ with_work p q.delegations q.peer_turns q.last_sequence

pub Adds-both :
    (ds : List DelegationSpec) (ts : List PeerTurnSpec) (p q s : Projection)
    → Adds ds [] p q
    → Adds [] ts q s
    → Adds ds ts p s
Adds-both ds ts p q s a b = record {
  delegations = λ k.
      subst (Latest (λ x. x.id) ds k (lookup k p.delegations)) (sym (b.delegations k))
        (a.delegations k);
  peer_turns = λ k.
      subst (λ o. Latest (λ x. x.id) ts k o (lookup k s.peer_turns)) (a.peer_turns k)
        (b.peer_turns k);
  rest = b.rest ∙ ap (λ x. with_work x s.delegations s.peer_turns s.last_sequence) a.rest;
}

-- who leads after a decision
abbrev pub leader_after : String → Option Handoff → String
leader_after id none = id
leader_after id (some h) = h.peer.id

-- Every item is new work of the plan, or the one that was there, cancelled where the plan says so and it
-- had not ended; the leader is the plan's; and all else of the projection is as it was.
pub record Decided (p : Projection) (plan : Plan) (q : Projection) : Type 0 where
  pub delegations :
      (k : String)
      → Latest
          (λ s. s.id)
          plan.specs
          k
          (cancelled_in (has k p.delegations) plan.cancellations p.delegations k)
          (lookup k q.delegations)
  pub peer_turns :
      (k : String)
      → Latest
          (λ s. s.id)
          plan.peer_specs
          k
          (cancelled_in (not (has k p.delegations)) plan.cancellations p.peer_turns k)
          (lookup k q.peer_turns)
  pub rest : q ≡ record p {
    leader_id = leader_after p.leader_id plan.handoff;
    delegations = q.delegations;
    peer_turns = q.peer_turns;
    last_sequence = q.last_sequence;
  }

pub Decided-intro :
    (p a s : Projection) (plan : Plan) (n : ℕ)
    → Cancels plan.cancellations p a
    → Adds plan.specs plan.peer_specs a s
    → Decided p plan
        (record s { leader_id = leader_after s.leader_id plan.handoff; last_sequence = n })
Decided-intro p a s plan n c w = record {
  delegations = λ k.
      subst (λ o. Latest (λ x. x.id) plan.specs k o (lookup k s.delegations)) (c.delegations k)
        (w.delegations k);
  peer_turns = λ k.
      subst (λ o. Latest (λ x. x.id) plan.peer_specs k o (lookup k s.peer_turns)) (c.peer_turns k)
        (w.peer_turns k);
  rest =
      ap
        (λ (x : Projection). record x {
          leader_id = leader_after x.leader_id plan.handoff;
          last_sequence = n;
        })
        (w.rest ∙ ap (λ x. with_work x s.delegations s.peer_turns s.last_sequence) c.rest);
}

abbrev pub launch_all : Projection → Run (Unit {0})
launch_all state r =
    let s = schedule_ready state r.launched in
    (record r { launched = s.launched; launches = r.launches ++ s.launches }, ok tt)
