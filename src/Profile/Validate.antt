-- ===== src/Profile/Validate.antt =====
-- internal/profile/validate.go: the gateway-independent checks of a Team. A Go closure that appends
-- to `out` returns its diagnostics here, and a Go map that records a set is the list of its keys.
pub mod Members
pub mod Edges
pub mod Sound
mod Examples
pub use Members.{
  Severity, Diagnostic, error, warning, is_error, check, matches_identifier, validate_id, Seen,
}
use Members.{check_agents, check_specialists, no_seen}
use Edges.{check_all_edges}
use Prim.Native.String.{compare}
use text.Mathlib.Text.{◌==◌ as str_eq, is_lt}
use alt_tui.Prelude.{ℕ, String, Bool, true, false, not, List, [], ◌∷◌, ◌++◌, any, if◌then◌else◌}
use alt_tui.Prelude.Int.{pos, eqb_ℤ, ltb_ℤ}
use alt_tui.Prelude.Dict.{Dict}
use alt_tui.Prelude.Text.{is_blank, concat}
use alt_tui.Profile.{Profile, ModelRef, agents, contains_id}

abbrev pub current_schema : ℕ
current_schema = 2

-- the checks before the first loop
check_header : Profile → List Diagnostic
check_header p =
    check (not (eqb_ℤ p.schema (pos current_schema))) "schema" "must be 2"
    ++ (validate_id "id" p.id
        ++ (check (ltb_ℤ p.revision (pos 1)) "revision" "must be at least 1"
            ++ (check (is_blank p.name) "name" "is required"
                ++ check (is_blank p.gateway) "gateway" "select an authenticated gateway")))

-- the loop over `p.Models`
check_models : Dict ModelRef → List Diagnostic
check_models [] = []
check_models ((alias, model) ∷ rest) =
    let path = concat ("models." ∷ alias ∷ []) in
    validate_id path alias
    ++ (check (is_blank model.route) (concat (path ∷ ".route" ∷ [])) "is required"
        ++ (check (is_blank model.name) (concat (path ∷ ".name" ∷ [])) "is required"
            ++ check_models rest))

abbrev pub is_empty : Dict ModelRef → Bool
is_empty [] = true
is_empty (_ ∷ _) = false

-- the last loop, over the specialists that no agent may call
check_unused : List String → List String → List Diagnostic
check_unused used [] = []
check_unused used (id ∷ ids) =
    let rest = check_unused used ids in
    if contains_id used id
    then rest
    else record {
      severity = warning;
      path = concat ("specialists." ∷ id ∷ []);
      message = "is not callable by any leadership-capable agent";
    }
      ∷ rest

-- the order of the diagnostics: errors first, then by path
less : Diagnostic → Diagnostic → Bool
less a b =
    if is_error a
    then (if is_error b then is_lt (compare a.path b.path) else true)
    else (if is_error b then false else is_lt (compare a.path b.path))

insert_sorted : Diagnostic → List Diagnostic → List Diagnostic
insert_sorted d [] = d ∷ []
insert_sorted d (e ∷ rest) =
    let later = insert_sorted d rest in if less e d then e ∷ later else d ∷ e ∷ rest

-- sort.SliceStable
sort_stable : List Diagnostic → List Diagnostic
sort_stable [] = []
sort_stable (d ∷ rest) = insert_sorted d (sort_stable rest)

-- everything that Validate appends to `out`, before the sort
collect_diagnostics : (String → String) → Profile → List Diagnostic
collect_diagnostics to_lower p =
    let led = check_agents to_lower p 0 [] no_seen (agents p) in
    let called = check_specialists to_lower p 0 led.ids [] led.seen p.specialists in
    let edges = check_all_edges led.ids called.ids 0 [] [] (agents p) in
    check_header p
    ++ (check (is_empty p.models) "models" "at least one model is required"
        ++ (check_models p.models
            ++ (led.out ++ (called.out ++ (edges.out ++ check_unused edges.used called.ids)))))

-- Validate, over the Unicode case table of strings.ToLower
pub validate : (String → String) → Profile → List Diagnostic
unfolding sort_stable collect_diagnostics
validate to_lower p = sort_stable (collect_diagnostics to_lower p)

-- HasErrors
unfoldable pub has_errors : List Diagnostic → Bool
has_errors diagnostics = any is_error diagnostics
