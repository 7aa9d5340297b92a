-- ===== src/Profile/Specialists.antt =====
-- internal/profile/profile.go: whom an agent may call as a stateless specialist.
use text.Mathlib.Text.{◌==◌ as str_eq}
use alt_tui.Prelude.{
  String, ◌≡◌, ◌↔◌, inl, inr, some, true, List, [], ◌∷◌, arith, eq_iff, Bool-cases, In,
  In-cons_some, of_In-cons_some,
}
use alt_tui.Profile.{
  Profile, AgentAssignment, SpecialistAssignment, contains_id, find_specialist, specialist,
  collect_specialists, specialists_for, specialist_for,
}

find_specialist-id :
    (id : String) (l : List SpecialistAssignment) (x : SpecialistAssignment)
    → find_specialist id l ≡ some x
    → x.id ≡ id
unfolding find_specialist
find_specialist-id id [] x h = cc
find_specialist-id id (a ∷ l) x h = ground (arith, eq_iff a.id id, find_specialist-id id l x)

pub specialist-id :
    (p : Profile) (id : String) (x : SpecialistAssignment) → specialist p id ≡ some x → x.id ≡ id
unfolding specialist
specialist-id p id x h = find_specialist-id id p.specialists x h

-- a specialist is listed when its id is among the permitted ones
In-collect :
    (p : Profile) (ids : List String) (id : String) (x : SpecialistAssignment)
    → contains_id ids id ≡ true
    → specialist p id ≡ some x
    → In x (collect_specialists p ids)
unfolding contains_id collect_specialists
In-collect p [] id x c h = cc
In-collect p (i ∷ ids) id x c h =
    In-cons_some x (specialist p i) (collect_specialists p ids) (elim (Bool-cases (str_eq i id)) [
      | inl e ↦ inl (ground (arith, eq_iff i id))
      | inr e ↦ inr (In-collect p ids id x (ground arith) h)
    ])

of_In-collect :
    (p : Profile) (ids : List String) (x : SpecialistAssignment)
    → In x (collect_specialists p ids)
    → (contains_id ids x.id ≡ true) × (specialist p x.id ≡ some x)
unfolding contains_id collect_specialists
of_In-collect p [] x m = elim m [ ]
of_In-collect p (i ∷ ids) x m =
    elim (of_In-cons_some x (specialist p i) (collect_specialists p ids) m) [
      | inl e ↦ ground (arith, eq_iff i x.id, specialist-id p i x e)
      | inr r ↦ let (c, e) = of_In-collect p ids x r in (ground arith, e)
    ]

-- The call permission of one specialist is membership in the agent's list of specialists:
-- SpecialistFor finds a specialist exactly when SpecialistsFor lists it under that id, and then
-- the agent declares the id.
pub specialist_for_iff_specialists_for :
    (p : Profile) (a : AgentAssignment) (id : String) (x : SpecialistAssignment)
    → (specialist_for p a id ≡ some x)
      ↔ (In x (specialists_for p a) × (x.id ≡ id) × (contains_id a.specialists id ≡ true))
unfolding specialist_for specialists_for
specialist_for_iff_specialists_for p a id x = (
  λ h.
      let c : contains_id a.specialists id ≡ true = ground arith in
      let e : specialist p id ≡ some x = ground arith in
      (In-collect p a.specialists id x c e, specialist-id p id x e, c),
  λ m. let (c, e) = of_In-collect p a.specialists x m.0 in ground (arith, m.1),
)
