-- ===== src/Profile/Validate/Edges.antt =====
-- internal/profile/validate.go: the loop over the edges that agents declare.
use Prim.Native.String.{compare}
use text.Mathlib.Text.{◌==◌ as str_eq, is_lt}
use alt_tui.Prelude.{
  ℕ, suc, String, Option, none, some, Bool, true, not, List, [], ◌∷◌, ◌++◌, if◌then◌else◌,
}
use alt_tui.Prelude.Dict.{Dict, lookup, insert}
use alt_tui.Prelude.Text.{concat, itoa}
use alt_tui.Profile.{AgentAssignment, contains_id}
use alt_tui.Profile.Validate.Members.{
  Diagnostic, check, validate_id, is_missing, add_id, agent_path,
}

-- the key of an undirected edge
unfoldable pub edge_key : String → String → String
edge_key first second =
    if is_lt (compare second first)
    then concat (second ∷ "\0" ∷ first ∷ [])
    else concat (first ∷ "\0" ∷ second ∷ [])

pub record PeersChecked : Type 0 where
  pub out : List Diagnostic
  pub edges : Dict String

abbrev pub held_at : Option String → String
held_at none = ""
held_at (some path) = path

-- peerEdges[key] = itemPath, on the branch that makes the entry
unfoldable pub add_edge : Bool → String → String → Dict String → Dict String
add_edge known key item edges =
    if known
    then (if is_missing (lookup key edges) then insert key item edges else edges)
    else edges

-- usedSpecialists[id] = true, on the branch that makes the entry
unfoldable pub add_used : Bool → List String → String → List String
add_used known used id = if known then add_id used id else used

-- the loop over one agent's `Peers`; `local` is `localPeers`
unfoldable pub check_peers :
    List String
    → AgentAssignment
    → String
    → ℕ
    → List String
    → Dict String
    → List String
    → PeersChecked
check_peers agent_ids a path index local edges [] = record { out = []; edges = edges }
check_peers agent_ids a path index local edges (id ∷ rest) =
    let item = concat (path ∷ ".peers[" ∷ itoa index ∷ "]" ∷ []) in
    let known = contains_id agent_ids id in
    let previous = lookup (edge_key a.id id) edges in
    let later =
      check_peers agent_ids a path (suc index) (add_id local id)
        (add_edge known (edge_key a.id id) item edges) rest in
    record later {
      out =
          validate_id item id
          ++ (check (str_eq id a.id) item "an agent cannot peer with itself"
              ++ (check (contains_id local id) item "duplicates another peer relationship"
                  ++ ((if known
                        then check (not (is_missing previous)) item (
                            concat (
                              "duplicates undirected peer relationship declared at "
                              ∷ held_at previous
                              ∷ []))
                        else check true item
                            (concat ("references unknown leadership-capable peer " ∷ id ∷ [])))
                      ++ later.out)));
    }

pub record SpecialistsChecked : Type 0 where
  pub out : List Diagnostic
  pub used : List String

-- the loop over one agent's `Specialists`
unfoldable pub check_calls :
    List String
    → List String
    → String
    → ℕ
    → List String
    → List String
    → List String
    → SpecialistsChecked
check_calls agent_ids specialist_ids path index local used [] = record { out = []; used = used }
check_calls agent_ids specialist_ids path index local used (id ∷ rest) =
    let item = concat (path ∷ ".specialists[" ∷ itoa index ∷ "]" ∷ []) in
    let known = contains_id specialist_ids id in
    let later =
      check_calls agent_ids specialist_ids path (suc index) (add_id local id)
        (add_used known used id) rest in
    record later {
      out =
          validate_id item id
          ++ (check (contains_id local id) item "duplicates another specialist permission"
              ++ ((if known
                    then []
                    else if contains_id agent_ids id
                    then check true item
                        "references a leadership-capable agent; peers and specialists are exclusive roles"
                    else check true item (concat ("references unknown specialist " ∷ id ∷ [])))
                  ++ later.out));
    }

-- the loop over `agents` that checks both kinds of edges
unfoldable pub check_all_edges :
    List String
    → List String
    → ℕ
    → Dict String
    → List String
    → List AgentAssignment
    → SpecialistsChecked
check_all_edges agent_ids specialist_ids index edges used [] = record { out = []; used = used }
check_all_edges agent_ids specialist_ids index edges used (a ∷ rest) =
    let path = agent_path index in
    let peers = check_peers agent_ids a path 0 [] edges a.peers in
    let calls = check_calls agent_ids specialist_ids path 0 [] used a.specialists in
    let later = check_all_edges agent_ids specialist_ids (suc index) peers.edges calls.used rest in
    record later { out = peers.out ++ (calls.out ++ later.out) }
