-- ===== src/Orchestrator/Unique.antt =====
-- internal/orchestrator/runtime.go: uniqueStrings.
use Prim.Native.String.{compare}
use text.Mathlib.Text.{◌==◌ as str_eq, is_lt}
use alt_tui.Prelude.{
  String, ◌≡◌, refl, ap, ◌∙◌, Bool, true, false, not, ◌&&◌, ◌||◌, List, [], ◌∷◌, any, arith, eq_iff,
  Bool-cases, inl, inr,
}
use alt_tui.Prelude.Text.{trim_space}
use alt_tui.Profile.{contains_id}
use alt_tui.Profile.Peers.{Distinct}
use alt_tui.Orchestrator.{unique_from, insert_string, sort_strings, unique_strings}

contains_at :
    (l : List String) (x y : String) → str_eq x y ≡ true → contains_id l x ≡ contains_id l y
contains_at l x y e = ap (contains_id l) ((eq_iff x y).0 e)

contains_id-insert_string :
    (s : String) (l : List String) (x : String)
    → contains_id (insert_string s l) x ≡ (str_eq s x || contains_id l x)
unfolding contains_id insert_string
contains_id-insert_string s [] x = refl
contains_id-insert_string s (t ∷ l) x = ground (arith, contains_id-insert_string s l x)

contains_id-sort_strings :
    (l : List String) (x : String) → contains_id (sort_strings l) x ≡ contains_id l x
unfolding sort_strings contains_id
contains_id-sort_strings [] x = refl
contains_id-sort_strings (s ∷ l) x =
    ground (arith, contains_id-insert_string s (sort_strings l) x, contains_id-sort_strings l x)

insert_string-Distinct :
    (s : String) (l : List String)
    → contains_id l s ≡ false
    → Distinct l
    → Distinct (insert_string s l)
unfolding insert_string contains_id
insert_string-Distinct s [] c d = ground arith
insert_string-Distinct s (t ∷ l) c d = elim (Bool-cases (is_lt (compare t s))) [
  | inl lt ↦ rw lt (
    ground (arith, contains_id-insert_string s l t, eq_iff s t, eq_iff t s),
    insert_string-Distinct s l (ground arith) d.1,
  )
  | inr ge ↦ rw ge (c, d)
]

sort_strings-Distinct : (l : List String) → Distinct l → Distinct (sort_strings l)
unfolding sort_strings
sort_strings-Distinct [] d = tt
sort_strings-Distinct (s ∷ l) d =
    insert_string-Distinct s (sort_strings l) (contains_id-sort_strings l s ∙ d.0)
      (sort_strings-Distinct l d.1)

-- some value becomes `x` when it is trimmed
abbrev pub trims_to : String → List String → Bool
trims_to x = any (λ value. str_eq (trim_space value) x)

-- what the loop keeps
contains_id-unique_from :
    (values seen : List String) (x : String)
    → contains_id (unique_from seen values) x
      ≡ (trims_to x values && not (str_eq x "") && not (contains_id seen x))
unfolding unique_from contains_id
contains_id-unique_from [] seen x = refl
contains_id-unique_from (v ∷ values) seen x = ground (
  arith,
  eq_iff (trim_space v) x,
  eq_iff (trim_space v) "",
  eq_iff x "",
  contains_id-unique_from values seen x,
  contains_id-unique_from values (trim_space v ∷ seen) x,
  contains_at seen (trim_space v) x,
)

unique_from-Distinct : (values seen : List String) → Distinct (unique_from seen values)
unfolding unique_from
unique_from-Distinct [] seen = tt
unique_from-Distinct (v ∷ values) seen = elim (Bool-cases (str_eq (trim_space v) "")) [
  | inl blank ↦ rw blank (unique_from-Distinct values seen)
  | inr word ↦ elim (Bool-cases (contains_id seen (trim_space v))) [
    | inl old ↦ rw (word, old) (unique_from-Distinct values seen)
    | inr new ↦
        rw (word, new)
          (
            contains_id-unique_from values (trim_space v ∷ seen) (trim_space v)
                ∙ unfold contains_id in ground (arith, eq_iff (trim_space v) (trim_space v)),
            unique_from-Distinct values (trim_space v ∷ seen),
          )
  ]
]

-- uniqueStrings keeps exactly the trimmed values that are not empty, each once.
pub unique_strings-exact :
    (values : List String)
    → Distinct (unique_strings values)
      × ((x : String)
          → contains_id (unique_strings values) x ≡ (trims_to x values && not (str_eq x "")))
unfolding unique_strings
unique_strings-exact values = (
  sort_strings-Distinct (unique_from [] values) (unique_from-Distinct values []),
  λ x.
      contains_id-sort_strings (unique_from [] values) x
      ∙ contains_id-unique_from values [] x
      ∙ (unfold contains_id in ground arith),
)
