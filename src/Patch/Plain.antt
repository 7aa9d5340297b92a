-- ===== src/Patch/Plain.antt =====
-- internal/tooling/patch.go: the temporary files stay files while the changes are committed.
use text.Mathlib.Text.{◌==◌ as str_eq}
use alt_tui.Prelude.{
  String, ◌≡◌, refl, ap, ◌∙◌, inl, inr, Bool, true, false, arith, eq_iff, Bool-cases,
}
use alt_tui.Patch.{Nodes, is_directory}
use alt_tui.Patch.Effects.{Aside, Written}

-- the temporary files that stand are no directories
abbrev pub IsPlain : (String → Bool) → Nodes → Type 0
IsPlain temporary f = (p : String) → temporary p ≡ true → is_directory (f p) ≡ false

pub Aside-IsPlain :
    (temporary : String → Bool) (moved : Bool) (a b : String) (f g : Nodes)
    → temporary b ≡ false
    → Aside moved a b f g
    → IsPlain temporary f
    → IsPlain temporary g
Aside-IsPlain temporary false a b f g away same plain p t =
    ap (λ h. is_directory (h p)) same ∙ plain p t
Aside-IsPlain temporary true a b f g away (n, at, empty, apart, same) plain p t =
    ap (λ h. is_directory (h p)) same ∙ elim (Bool-cases (str_eq b p)) [
      | inl e ↦ absurd (ground (arith, ap temporary ((eq_iff b p).0 e), t, away))
      | inr e ↦ elim (Bool-cases (str_eq a p)) [
        | inl i ↦ rw (e, i) refl
        | inr i ↦ rw (e, i) (plain p t)
      ]
    ]

pub Written-IsPlain :
    (temporary : String → Bool) (written : Bool) (temp new : String) (f g : Nodes)
    → temporary new ≡ false
    → Written written temp new f g
    → IsPlain temporary f
    → IsPlain temporary g
Written-IsPlain temporary false temp new f g away same plain p t =
    ap (λ h. is_directory (h p)) same ∙ plain p t
Written-IsPlain temporary true temp new f g away (n, has, at, file, empty, same) plain p t =
    ap (λ h. is_directory (h p)) same ∙ elim (Bool-cases (str_eq new p)) [
      | inl e ↦ absurd (ground (arith, ap temporary ((eq_iff new p).0 e), t, away))
      | inr e ↦ elim (Bool-cases (str_eq temp p)) [
        | inl i ↦ rw (e, i) refl
        | inr i ↦ rw (e, i) (plain p t)
      ]
    ]
