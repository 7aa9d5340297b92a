-- ===== src/Profile/Peers.antt =====
-- internal/profile/profile.go: theorems about peers.
use text.Mathlib.Text.{◌==◌ as str_eq}
use alt_tui.Prelude.{
  String, ◌≡◌, refl, ap, ◌↔◌, inl, inr, Option, none, some, true, false, List, [], ◌∷◌, map, arith,
  eq_iff, Bool-cases, In, In-keep, of_In-keep,
}
use alt_tui.Profile.{
  Profile, AgentAssignment, find_agent, agent, agents, is_peer, peer_agents_for, peer_if_related,
  peer_agent_for, contains_id,
}

abbrev pub agent_ids : List AgentAssignment → List String
agent_ids = map (λ a. a.id)

-- an agent that is found has the id that was asked for
pub find_agent-id :
    (id : String) (l : List AgentAssignment) (x : AgentAssignment)
    → find_agent id l ≡ some x
    → x.id ≡ id
unfolding find_agent
find_agent-id id [] x h = cc
find_agent-id id (a ∷ l) x h = ground (arith, eq_iff a.id id, find_agent-id id l x)

pub agent-id : (p : Profile) (id : String) (x : AgentAssignment) → agent p id ≡ some x → x.id ≡ id
unfolding agent find_agent
agent-id p id x h = find_agent-id id (agents p) x h

-- Peer relationships are undirected: of two agents of a Team, the first may consult or hand
-- leadership to the second exactly when the second may do so to the first.
pub peer_agent_for_symm :
    (p : Profile) (i j : String) (a b : AgentAssignment)
    → agent p i ≡ some a
    → agent p j ≡ some b
    → (peer_agent_for p a j ≡ some b) ↔ (peer_agent_for p b i ≡ some a)
unfolding peer_agent_for
peer_agent_for_symm p i j a b ha hb =
    rw (ha, hb)
      (ground (arith, agent-id p i a ha, agent-id p j b hb, eq_iff a.id b.id, eq_iff b.id a.id))

-- The ids of a list differ from one another.
abbrev pub Distinct : List String → Type 0
Distinct [] = Unit
Distinct (x ∷ xs) = (contains_id xs x ≡ false) × Distinct xs

contains_id-agent_ids :
    (x : AgentAssignment) (l : List AgentAssignment)
    → In x l
    → contains_id (agent_ids l) x.id ≡ true
unfolding contains_id
contains_id-agent_ids x [] m = elim m [ ]
contains_id-agent_ids x (a ∷ l) (inl e) =
    rw (ap (λ (r : AgentAssignment). r.id) e, (eq_iff a.id a.id).1 refl) refl
contains_id-agent_ids x (a ∷ l) (inr m) = ground (arith, contains_id-agent_ids x l m)

-- of agents with distinct ids, each is the one found by its id
find_agent-of-In :
    (x : AgentAssignment) (l : List AgentAssignment)
    → Distinct (agent_ids l)
    → In x l
    → find_agent x.id l ≡ some x
unfolding find_agent
find_agent-of-In x [] d m = elim m [ ]
find_agent-of-In x (a ∷ l) d (inl e) = rw (e, (eq_iff a.id a.id).1 refl) refl
find_agent-of-In x (a ∷ l) d (inr m) =
    ground (arith, eq_iff a.id x.id, contains_id-agent_ids x l m, find_agent-of-In x l d.1 m)

In-find_agent :
    (id : String) (l : List AgentAssignment) (x : AgentAssignment)
    → find_agent id l ≡ some x
    → In x l
unfolding find_agent
In-find_agent id [] x h = cc
In-find_agent id (a ∷ l) x h = elim (Bool-cases (str_eq a.id id)) [
  | inl e ↦ inl (ground arith)
  | inr e ↦ inr (In-find_agent id l x (ground arith))
]

related_agent :
    (p : Profile) (a : AgentAssignment) (id : String) (x : AgentAssignment)
    (found : Option AgentAssignment)
    → agent p id ≡ found
    → peer_if_related a id found ≡ some x
    → (agent p id ≡ some x) × (peer_if_related a id (some x) ≡ some x)
unfolding peer_if_related
related_agent p a id x none e h = cc
related_agent p a id x (some y) e h = ground arith

-- the peer that is found has the id that was asked for
pub peer_agent_for-id :
    (p : Profile) (a : AgentAssignment) (id : String) (x : AgentAssignment)
    → peer_agent_for p a id ≡ some x
    → x.id ≡ id
unfolding peer_agent_for
peer_agent_for-id p a id x h = agent-id p id x (related_agent p a id x (agent p id) refl h).0

is_peer_of_related :
    (a : AgentAssignment) (id : String) (x : AgentAssignment)
    → x.id ≡ id
    → peer_if_related a id (some x) ≡ some x
    → is_peer a x ≡ true
unfolding peer_if_related
is_peer_of_related a id x e h = ground arith

related_of_is_peer :
    (a x : AgentAssignment) → is_peer a x ≡ true → peer_if_related a x.id (some x) ≡ some x
unfolding peer_if_related
related_of_is_peer a x h = ground arith

-- With distinct agent ids the two views of a Team's peer edges agree: PeerAgentFor finds an agent
-- exactly when PeerAgentsFor lists it and it has the id that was asked for.
pub peer_agent_for_iff_peer_agents_for :
    (p : Profile) (a : AgentAssignment) (id : String) (x : AgentAssignment)
    → Distinct (agent_ids (agents p))
    → (peer_agent_for p a id ≡ some x) ↔ (In x (peer_agents_for p a) × (x.id ≡ id))
unfolding peer_agent_for peer_agents_for agent
peer_agent_for_iff_peer_agents_for p a id x d = (
  λ h.
      let found = related_agent p a id x (agent p id) refl h in
      let same = agent-id p id x found.0 in
      (
        In-keep (is_peer a) x (agents p) (In-find_agent id (agents p) x found.0)
            (is_peer_of_related a id x same found.1),
        same,
      ),
  λ m.
      let (listed, e) = of_In-keep (is_peer a) x (agents p) m.0 in
      rw (← m.1, find_agent-of-In x (agents p) d listed) (related_of_is_peer a x e),
)
