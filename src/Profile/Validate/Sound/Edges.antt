-- ===== src/Profile/Validate/Sound/Edges.antt =====
-- internal/profile/validate.go: what the loops over edges have checked when they report no error.
use text.Mathlib.Text.{◌==◌ as str_eq}
use alt_tui.Prelude.{
  ℕ, suc, String, ◌≡◌, refl, Bool, false, true, List, [], ◌∷◌, arith, All, if◌then◌else◌,
}
use alt_tui.Prelude.Dict.{Dict}
use alt_tui.Prelude.Text.{concat, itoa}
use alt_tui.Profile.{AgentAssignment, contains_id}
use alt_tui.Profile.Validate.Members.{Diagnostic, add_id, agent_path}
use alt_tui.Profile.Validate.Edges.{
  edge_key, add_edge, add_used, check_peers, check_calls, check_all_edges,
}
use alt_tui.Profile.Validate.Sound.Loops.{
  errors, errors-append, errors-check, errors-validate_id, SameIds,
}

-- what is checked of an agent's own edges
abbrev pub PeersOk : List String → AgentAssignment → List String → Type 0
PeersOk leaders a = All (λ id. (contains_id leaders id ≡ true) × (str_eq id a.id ≡ false))

abbrev pub CallsOk : List String → List String → Type 0
CallsOk callable = All (λ id. contains_id callable id ≡ true)

abbrev pub EdgesOk : List String → List String → List AgentAssignment → Type 0
EdgesOk leaders callable = All (λ a. PeersOk leaders a a.peers × CallsOk callable a.specialists)

PeersOk-ids :
    (xs ys : List String) (a : AgentAssignment) (l : List String)
    → SameIds xs ys
    → PeersOk xs a l
    → PeersOk ys a l
PeersOk-ids xs ys a [] e h = tt
PeersOk-ids xs ys a (id ∷ l) e h = ((rw (← e id) h.0.0, h.0.1), PeersOk-ids xs ys a l e h.1)

CallsOk-ids : (xs ys l : List String) → SameIds xs ys → CallsOk xs l → CallsOk ys l
CallsOk-ids xs ys [] e h = tt
CallsOk-ids xs ys (id ∷ l) e h = (rw (← e id) h.0, CallsOk-ids xs ys l e h.1)

pub EdgesOk-ids :
    (xs ys us vs : List String) (l : List AgentAssignment)
    → SameIds xs ys
    → SameIds us vs
    → EdgesOk xs us l
    → EdgesOk ys vs l
EdgesOk-ids xs ys us vs [] e f h = tt
EdgesOk-ids xs ys us vs (a ∷ l) e f h = (
  (PeersOk-ids xs ys a a.peers e h.0.0, CallsOk-ids us vs a.specialists f h.0.1),
  EdgesOk-ids xs ys us vs l e f h.1,
)

pub errors-if :
    (b : Bool) (x y : List Diagnostic)
    → errors (if b then x else y) ≡ (if b then errors x else errors y)
errors-if true x y = refl
errors-if false x y = refl

pub ruleset errors_laws = (errors-append, errors-if, errors-check, errors-validate_id)

check_peers-PeersOk :
    (leaders : List String) (a : AgentAssignment) (path : String) (l : List String) (index : ℕ)
    (local : List String) (edges : Dict String)
    → errors (check_peers leaders a path index local edges l).out ≡ false
    → PeersOk leaders a l
unfolding check_peers
check_peers-PeersOk leaders a path [] index local edges h = tt
check_peers-PeersOk leaders a path (id ∷ l) index local edges h =
    let h' = simp errors_laws at h in
    let item = concat (path ∷ ".peers[" ∷ itoa index ∷ "]" ∷ []) in
    let edges' = add_edge (contains_id leaders id) (edge_key a.id id) item edges in
    (
      (ground (arith, h'), ground (arith, h')),
      check_peers-PeersOk leaders a path l (suc index) (add_id local id) edges'
          (ground (arith, h')),
    )

check_calls-CallsOk :
    (leaders callable : List String) (path : String) (l : List String) (index : ℕ)
    (local used : List String)
    → errors (check_calls leaders callable path index local used l).out ≡ false
    → CallsOk callable l
unfolding check_calls
check_calls-CallsOk leaders callable path [] index local used h = tt
check_calls-CallsOk leaders callable path (id ∷ l) index local used h =
    let h' = simp errors_laws at h in
    let used' = add_used (contains_id callable id) used id in
    (
      ground (arith, h'),
      check_calls-CallsOk leaders callable path l (suc index) (add_id local id) used'
          (ground (arith, h')),
    )

pub check_all_edges-EdgesOk :
    (leaders callable : List String) (l : List AgentAssignment) (index : ℕ) (edges : Dict String)
    (used : List String)
    → errors (check_all_edges leaders callable index edges used l).out ≡ false
    → EdgesOk leaders callable l
unfolding check_all_edges
check_all_edges-EdgesOk leaders callable [] index edges used h = tt
check_all_edges-EdgesOk leaders callable (a ∷ l) index edges used h =
    let h' = simp errors_laws at h in
    let path = agent_path index in
    let peers = check_peers leaders a path 0 [] edges a.peers in
    let calls = check_calls leaders callable path 0 [] used a.specialists in
    (
      (
        check_peers-PeersOk leaders a path a.peers 0 [] edges (ground (arith, h')),
        check_calls-CallsOk leaders callable path a.specialists 0 [] used (ground (arith, h')),
      ),
      check_all_edges-EdgesOk leaders callable l (suc index) peers.edges calls.used
          (ground (arith, h')),
    )
