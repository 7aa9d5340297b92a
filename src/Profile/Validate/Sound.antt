-- ===== src/Profile/Validate/Sound.antt =====
-- internal/profile/validate.go: theorems about Teams without errors.
pub mod Loops
pub mod Edges
use alt_tui.Prelude.{
  ℕ, String, ◌≡◌, refl, sym, ◌∙◌, Bool, false, true, List, [], ◌∷◌, ◌++◌, any, any-append, arith,
  Bool-cases, if◌then◌else◌, inl, inr, map,
}
use alt_tui.Prelude.Int.{pos, eqb_ℤ, ltb_ℤ}
use alt_tui.Prelude.Text.{is_blank}
use alt_tui.Prelude.Dict.{Dict}
use alt_tui.Profile.{Profile, ModelRef, agents, contains_id}
use alt_tui.Profile.Peers.{Distinct, agent_ids}
use alt_tui.Profile.Validate.{
  Diagnostic, is_error, is_empty, check_models, less, insert_sorted, sort_stable, check_header,
  collect_diagnostics, validate, has_errors, matches_identifier, current_schema,
}
use alt_tui.Profile.Validate.Members.{no_seen, check_agents, check_specialists}
use alt_tui.Profile.Validate.Edges.{check_all_edges}
use Loops.{
  errors, errors-append, errors-check, errors-validate_id, AgentsOk, SpecialistsOk,
  SpecialistsOk-leaders, check_agents-AgentsOk, check_specialists-SpecialistsOk, ids-check_agents,
  ids-check_specialists,
}
use Edges.{EdgesOk, EdgesOk-ids, check_all_edges-EdgesOk, errors_laws}

-- the stable sort keeps the errors
any-insert_sorted :
    (d : Diagnostic) (l : List Diagnostic) → any is_error (insert_sorted d l) ≡ any is_error (d ∷ l)
unfolding insert_sorted
any-insert_sorted d [] = refl
any-insert_sorted d (e ∷ l) = elim (Bool-cases (less e d)) [
  | inl h ↦ rw h (ground (arith, any-insert_sorted d l))
  | inr h ↦ rw h refl
]

any-sort_stable : (l : List Diagnostic) → any is_error (sort_stable l) ≡ any is_error l
unfolding sort_stable
any-sort_stable [] = refl
any-sort_stable (d ∷ l) = ground (arith, any-insert_sorted d (sort_stable l), any-sort_stable l)

abbrev pub ModelsOk : Dict ModelRef → Type 0
ModelsOk [] = Unit
ModelsOk ((alias, m) ∷ rest) =
    (matches_identifier alias ≡ true)
    × (is_blank m.route ≡ false)
    × (is_blank m.name ≡ false)
    × ModelsOk rest

check_models-ModelsOk : (l : Dict ModelRef) → errors (check_models l) ≡ false → ModelsOk l
unfolding check_models
check_models-ModelsOk [] h = tt
check_models-ModelsOk ((alias, m) ∷ l) h =
    let h' = simp errors_laws at h in
    (
      ground (arith, h'),
      ground (arith, h'),
      ground (arith, h'),
      check_models-ModelsOk l (ground (arith, h')),
    )

-- What a published Team satisfies: its header is complete, ids are well formed and belong to one
-- member each, models are known, and every edge ends at a member of the right kind.
pub record IsSound (p : Profile) : Type 0 where
  pub schema : eqb_ℤ p.schema (pos current_schema) ≡ true
  pub revision : ltb_ℤ p.revision (pos 1) ≡ false
  pub named : is_blank p.name ≡ false
  pub routed : is_blank p.gateway ≡ false
  pub identifier : matches_identifier p.id ≡ true
  pub some_model : is_empty p.models ≡ false
  pub models_ok : ModelsOk p.models
  pub agents_ok : AgentsOk p [] (agents p)
  pub specialists_ok : SpecialistsOk p (agent_ids (agents p)) [] p.specialists
  pub edges_ok : EdgesOk (agent_ids (agents p)) (map (λ s. s.id) p.specialists) (agents p)

-- A Team that Validate reports no error for is sound: its header is complete, ids are well formed and
-- belong to one member each, models are known, and every edge ends at a member of the right kind.
pub validate-IsSound :
    (to_lower : String → String) (p : Profile)
    → has_errors (validate to_lower p) ≡ false
    → IsSound p
unfolding validate has_errors check_header collect_diagnostics contains_id
validate-IsSound to_lower p h =
    let h' = simp errors_laws at (sym (any-sort_stable (collect_diagnostics to_lower p)) ∙ h) in
    let led = check_agents to_lower p 0 [] no_seen (agents p) in
    let called = check_specialists to_lower p 0 led.ids [] led.seen p.specialists in
    let same = ids-check_agents to_lower p (agents p) 0 [] no_seen in
    let same' = ids-check_specialists to_lower p led.ids p.specialists 0 [] led.seen in
    record {
      schema = ground (arith, h');
      revision = ground (arith, h');
      named = ground (arith, h');
      routed = ground (arith, h');
      identifier = ground (arith, h');
      some_model = ground (arith, h');
      models_ok = check_models-ModelsOk p.models (ground (arith, h'));
      agents_ok = check_agents-AgentsOk to_lower p (agents p) 0 [] no_seen (ground (arith, h'));
      specialists_ok =
          SpecialistsOk-leaders p led.ids (agent_ids (agents p)) [] p.specialists same (
            check_specialists-SpecialistsOk to_lower p led.ids p.specialists 0 [] led.seen
              (ground (arith, h')));
      edges_ok =
          EdgesOk-ids led.ids (agent_ids (agents p)) called.ids (map (λ s. s.id) p.specialists)
            (agents p) same same'
            (check_all_edges-EdgesOk led.ids called.ids (agents p) 0 [] [] (ground (arith, h')));
    }
