-- ===== src/Profile/Authority.antt =====
-- internal/profile: theorems about validation and the lookups that grant authority at run time.
use text.Mathlib.Text.{◌==◌ as str_eq}
use alt_tui.Prelude.{
  String, ◌≡◌, refl, ap, ◌∙◌, inl, inr, none, some, true, false, List, [], ◌∷◌, arith, eq_iff, map,
  In, All-at, Bool-cases,
}
use alt_tui.Profile.{
  Profile, AgentAssignment, SpecialistAssignment, contains_id, find_agent, agent, find_specialist,
  specialist, agents, peer_agent_for, peer_if_related, specialist_for,
}
use alt_tui.Profile.Peers.{agent_ids, find_agent-id}
use alt_tui.Profile.Validate.{validate, has_errors}
use alt_tui.Profile.Validate.Sound.{validate-IsSound}
use alt_tui.Profile.Validate.Sound.Loops.{SpecialistsOk}
use alt_tui.Profile.Validate.Sound.Edges.{PeersOk, CallsOk}
use alt_tui.Profile.Validate.Members.{add_id}

-- an id among those of the agents is found
found_agent :
    (l : List AgentAssignment) (id : String)
    → contains_id (agent_ids l) id ≡ true
    → (x : AgentAssignment) × (find_agent id l ≡ some x)
unfolding contains_id find_agent
found_agent [] id h = cc
found_agent (a ∷ l) id h = elim (Bool-cases (str_eq a.id id)) [
  | inl e ↦ (a, rw e)
  | inr e ↦ let (x, q) = found_agent l id (ground arith) in (x, rw e q)
]

found_specialist :
    (l : List SpecialistAssignment) (id : String)
    → contains_id (map (λ s. s.id) l) id ≡ true
    → (x : SpecialistAssignment) × (find_specialist id l ≡ some x)
unfolding contains_id find_specialist
found_specialist [] id h = cc
found_specialist (a ∷ l) id h = elim (Bool-cases (str_eq a.id id)) [
  | inl e ↦ (a, rw e)
  | inr e ↦ let (x, q) = found_specialist l id (ground arith) in (x, rw e q)
]

-- a specialist that is found is no agent
not_agent :
    (p : Profile) (leaders taken : List String) (l : List SpecialistAssignment) (id : String)
    (s : SpecialistAssignment)
    → SpecialistsOk p leaders taken l
    → find_specialist id l ≡ some s
    → contains_id leaders id ≡ false
unfolding find_specialist
not_agent p leaders taken [] id s ok h = cc
not_agent p leaders taken (a ∷ l) id s ok h = elim (Bool-cases (str_eq a.id id)) [
  | inl e ↦ rw (← (eq_iff a.id id).0 e) (ground arith)
  | inr e ↦ not_agent p leaders (add_id taken a.id) l id s ok.2 (ground arith)
]

not_found :
    (l : List AgentAssignment) (id : String)
    → contains_id (agent_ids l) id ≡ false
    → find_agent id l ≡ none
unfolding contains_id find_agent
not_found [] id h = refl
not_found (a ∷ l) id h = ground (arith, not_found l id)

peer_declared :
    (leaders : List String) (a : AgentAssignment) (ids : List String) (id : String)
    → PeersOk leaders a ids
    → contains_id ids id ≡ true
    → (contains_id leaders id ≡ true) × (str_eq id a.id ≡ false)
unfolding contains_id
peer_declared leaders a [] id ok h = cc
peer_declared leaders a (i ∷ ids) id ok h = elim (Bool-cases (str_eq i id)) [
  | inl e ↦ rw (← (eq_iff i id).0 e) ok.0
  | inr e ↦ peer_declared leaders a ids id ok.1 (ground arith)
]

call_declared :
    (callable ids : List String) (id : String)
    → CallsOk callable ids
    → contains_id ids id ≡ true
    → contains_id callable id ≡ true
unfolding contains_id
call_declared callable [] id ok h = cc
call_declared callable (i ∷ ids) id ok h = elim (Bool-cases (str_eq i id)) [
  | inl e ↦ rw (← (eq_iff i id).0 e) ok.0
  | inr e ↦ call_declared callable ids id ok.1 (ground arith)
]

related :
    (a : AgentAssignment) (id : String) (x : AgentAssignment)
    → x.id ≡ id
    → str_eq id a.id ≡ false
    → contains_id a.peers id ≡ true
    → peer_if_related a id (some x) ≡ some x
unfolding peer_if_related
related a id x e other declared = ground (arith, ap (λ j. str_eq j a.id) e)

module _ (to_lower : String → String) (p : Profile) where
  -- In a Team that Validate reports no error for, every peer id that an agent declares is the id
  -- of an agent that it may consult or hand leadership to.
  pub validated_peer :
      (a : AgentAssignment) (id : String)
      → has_errors (validate to_lower p) ≡ false
      → In a (agents p)
      → contains_id a.peers id ≡ true
      → (x : AgentAssignment) × (peer_agent_for p a id ≡ some x) × (x.id ≡ id)
  unfolding peer_agent_for peer_if_related agent
  validated_peer a id h m declared =
      let sound = validate-IsSound to_lower p h in
      let own = All-at _ a (agents p) sound.edges_ok m in
      let known = peer_declared (agent_ids (agents p)) a a.peers id own.0 declared in
      let (x, found) = found_agent (agents p) id known.0 in
      (
        x,
        ap (peer_if_related a id) found
            ∙ related a id x (find_agent-id id (agents p) x found) known.1 declared,
        find_agent-id id (agents p) x found,
      )

  -- In a Team that Validate reports no error for, every specialist id that an agent declares can be
  -- called by that agent.
  pub validated_call :
      (a : AgentAssignment) (id : String)
      → has_errors (validate to_lower p) ≡ false
      → In a (agents p)
      → contains_id a.specialists id ≡ true
      → (s : SpecialistAssignment) × (specialist_for p a id ≡ some s)
  unfolding specialist_for specialist
  validated_call a id h m declared =
      let sound = validate-IsSound to_lower p h in
      let own = All-at _ a (agents p) sound.edges_ok m in
      let known = call_declared (map (λ s. s.id) p.specialists) a.specialists id own.1 declared in
      let (s, found) = found_specialist p.specialists id known in (s, rw declared found)

  -- In a Team that Validate reports no error for, the id of a specialist is never that of a
  -- leadership-capable agent.
  pub validated_roles :
      (id : String) (s : SpecialistAssignment)
      → has_errors (validate to_lower p) ≡ false
      → specialist p id ≡ some s
      → agent p id ≡ none
  unfolding specialist agent
  validated_roles id s h found =
      let sound = validate-IsSound to_lower p h in
      not_found (agents p) id
        (not_agent p (agent_ids (agents p)) [] p.specialists id s sound.specialists_ok found)
