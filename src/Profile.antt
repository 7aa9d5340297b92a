-- ===== src/Profile.antt =====
-- internal/profile/profile.go: Team profiles and the lookups that grant authority. A Go result
-- `(value, bool)` is an `Option`. Options and metadata of a profile are kept and never read.
pub mod Peers
pub mod Specialists
pub mod Validate
pub mod Authority
mod Examples
use text.Mathlib.Text.{◌==◌ as str_eq}
use alt_tui.Prelude.{
  String, Option, none, some, Bool, true, false, ◌||◌, List, [], ◌∷◌, keep, cons_some,
  if◌then◌else◌,
}
use alt_tui.Prelude.Int.{ℤ}
use alt_tui.Prelude.Dict.{Dict}
use alt_tui.Prelude.Text.{trim_space, join}

pub record ModelRef : Type 0 where
  pub legacy_gateway : String
  pub route : String
  pub name : String
  pub reasoning_effort : String
  pub options : Dict String

pub record AgentAssignment : Type 0 where
  pub id : String
  pub model : String
  pub definition : String
  pub peers : List String
  pub specialists : List String

pub record SpecialistAssignment : Type 0 where
  pub id : String
  pub model : String
  pub definition : String

pub record DisclosurePolicy : Type 0 where
  pub persist_reasoning : Bool

pub record Profile : Type 0 where
  pub schema : ℤ
  pub id : String
  pub revision : ℤ
  pub name : String
  pub gateway : String
  pub models : Dict ModelRef
  pub primary : AgentAssignment
  pub peers : List AgentAssignment
  pub specialists : List SpecialistAssignment
  pub policy : DisclosurePolicy
  pub metadata : Dict String

-- containsID
unfoldable pub contains_id : List String → String → Bool
contains_id [] expected = false
contains_id (value ∷ values) expected = str_eq value expected || contains_id values expected

-- the loop over `p.Peers` in Agent
unfoldable pub find_agent : String → List AgentAssignment → Option AgentAssignment
find_agent id [] = none
find_agent id (peer ∷ rest) = if str_eq peer.id id then some peer else find_agent id rest

-- Profile.Agent
unfoldable pub agent : Profile → String → Option AgentAssignment
unfolding find_agent
agent p id = if str_eq p.primary.id id then some p.primary else find_agent id p.peers

find_specialist : String → List SpecialistAssignment → Option SpecialistAssignment
find_specialist id [] = none
find_specialist id (s ∷ rest) = if str_eq s.id id then some s else find_specialist id rest

-- Profile.Specialist
unfoldable pub specialist : Profile → String → Option SpecialistAssignment
unfolding find_specialist
specialist p id = find_specialist id p.specialists

-- Profile.Agents
abbrev pub agents : Profile → List AgentAssignment
agents p = p.primary ∷ p.peers

-- Profile.SpecialistsFor
collect_specialists : Profile → List String → List SpecialistAssignment
collect_specialists p [] = []
collect_specialists p (id ∷ ids) = cons_some (specialist p id) (collect_specialists p ids)

unfoldable pub specialists_for : Profile → AgentAssignment → List SpecialistAssignment
unfolding collect_specialists
specialists_for p a = collect_specialists p a.specialists

-- Profile.SpecialistFor
unfoldable pub specialist_for : Profile → AgentAssignment → String → Option SpecialistAssignment
unfolding contains_id
specialist_for p a id = if contains_id a.specialists id then specialist p id else none

-- the test of PeerAgentsFor: another agent, with the edge declared on either endpoint
abbrev pub is_peer : AgentAssignment → AgentAssignment → Bool
is_peer a candidate =
    if str_eq candidate.id a.id
    then false
    else contains_id a.peers candidate.id || contains_id candidate.peers a.id

-- Profile.PeerAgentsFor
unfoldable pub peer_agents_for : Profile → AgentAssignment → List AgentAssignment
peer_agents_for p a = keep (is_peer a) (agents p)

-- Profile.PeerAgentFor
peer_if_related : AgentAssignment → String → Option AgentAssignment → Option AgentAssignment
peer_if_related a id none = none
peer_if_related a id (some peer) =
    if str_eq peer.id a.id
    then none
    else if contains_id a.peers id || contains_id peer.peers a.id
    then some peer
    else none

unfoldable pub peer_agent_for : Profile → AgentAssignment → String → Option AgentAssignment
unfolding peer_if_related
peer_agent_for p a id = peer_if_related a id (agent p id)

-- ModelIdentity, over the Unicode case table of strings.ToLower
unfoldable pub model_identity : (String → String) → ModelRef → String
model_identity to_lower m = join "\0" (to_lower (trim_space m.route) ∷ trim_space m.name ∷ [])
