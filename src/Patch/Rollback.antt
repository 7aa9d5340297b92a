-- ===== src/Patch/Rollback.antt =====
-- internal/tooling/patch.go: rollback takes back what commit did before it failed.
use text.Mathlib.Text.{◌==◌ as str_eq}
use alt_tui.Prelude.{
  ℕ, String, ◌≡◌, sym, ap, ◌∙◌, inl, inr, Bool, true, false, ◌||◌, ◌&&◌, List, [], ◌∷◌, arith,
  eq_iff, Bool-cases, if◌then◌else◌, subst,
}
use alt_tui.Patch.{Nodes, Disk, StagedChange, has_path, is_directory, remove, rename, undo}
use alt_tui.Patch.Effects.{IsLike, IsQuiet, and_temp, Aside-undone, Written-undone, temp_removed}
use alt_tui.Patch.Steps.{IsStaged}
use alt_tui.Patch.Plain.{IsPlain}
use alt_tui.Patch.Commit.{Committed, backup_away}

-- the paths of the temporary files of staged changes
unfoldable pub temporary_in : List StagedChange → String → Bool
temporary_in [] p = false
temporary_in (x ∷ rest) p = (has_path x.temp_path && str_eq x.temp_path p) || temporary_in rest p

module _ (faults : ℕ → Bool) (backup_path : ℕ → String → String) where
  last_undone :
      (w : Bool) (temp : String) (gone : String → Bool) (f : Nodes) (d : Disk)
      → IsQuiet faults backup_path d
      → (has_path temp ≡ true → is_directory (f temp) ≡ false)
      → IsLike (if w then and_temp faults backup_path temp gone else gone) f d.nodes
      → let u = if w then "" else temp in
        let e = if has_path u then remove faults backup_path u d else d in
        IsLike (and_temp faults backup_path temp gone) f e.nodes × IsQuiet faults backup_path e
  last_undone true temp gone f d q plain like = (like, q)
  last_undone false temp gone f d q plain like =
      temp_removed faults backup_path temp gone f d q plain like

  module _ (temporary : String → Bool)
      (no_backup : (n : ℕ) (p : String) → temporary (backup_path n p) ≡ false)
      (unnamed : temporary "" ≡ false)
      (distinct : (m n : ℕ) (p q : String) → backup_path m p ≡ backup_path n q → m ≡ n) where
    -- the paths are of temporary files
    abbrev Among : (String → Bool) → Type 0
    Among gone = (p : String) → gone p ≡ true → temporary p ≡ true

    away : (gone : String → Bool) (p : String) → Among gone → temporary p ≡ false → gone p ≡ false
    away gone p among none_there = elim (Bool-cases (gone p)) [
      | inl e ↦ absurd (ground (arith, among p e, none_there))
      | inr e ↦ e
    ]

    and_temp-Among :
        (temp : String) (gone : String → Bool)
        → (has_path temp ≡ true → temporary temp ≡ true)
        → Among gone
        → Among (and_temp faults backup_path temp gone)
    and_temp-Among temp gone mine among p at = elim (Bool-cases (gone p)) [
      | inl e ↦ among p e
      | inr e ↦
          ap temporary (sym ((eq_iff temp p).0 (ground (arith, at, e))))
          ∙ mine (ground (arith, at, e))
    ]

    if-Among :
        (w : Bool) (temp : String) (gone : String → Bool)
        → (has_path temp ≡ true → temporary temp ≡ true)
        → Among gone
        → Among (if w then and_temp faults backup_path temp gone else gone)
    if-Among true temp gone mine among = and_temp-Among temp gone mine among
    if-Among false temp gone mine among = among

    pub undo-Committed :
        (gone : String → Bool) (x y : StagedChange) (d e f : Disk)
        → Among gone
        → (has_path x.temp_path ≡ true → temporary x.temp_path ≡ true)
        → IsStaged faults backup_path temporary x
        → Committed faults backup_path x d y e
        → IsPlain temporary d.nodes
        → IsQuiet faults backup_path f
        → IsLike gone e.nodes f.nodes
        → IsLike
            (and_temp faults backup_path x.temp_path gone)
            d.nodes
            (undo faults backup_path y f).nodes
          × IsQuiet faults backup_path (undo faults backup_path y f)
    unfolding undo
    undo-Committed gone x y d e f among mine s c plain quiet like =
        let left : String → Bool =
          if y.new_written then and_temp faults backup_path x.temp_path gone else gone in
        let within : Among left = if-Among y.new_written x.temp_path gone mine among in
        let f₁ : Disk = if y.new_written then remove faults backup_path x.plan.new_path f else f in
        let f₂ : Disk =
          if y.new_moved
          then (rename faults backup_path y.new_backup x.plan.new_path f₁).0
          else f₁ in
        let f₃ : Disk =
          if y.old_moved
          then (rename faults backup_path y.old_backup x.plan.old_path f₂).0
          else f₂ in
        let one =
          Written-undone faults backup_path y.new_written gone x.temp_path x.plan.new_path c.second
            e.nodes f quiet (away gone x.plan.new_path among s.away_new) c.written like in
        let two =
          Aside-undone faults backup_path y.new_moved left x.plan.new_path y.new_backup c.first
            c.second f₁ one.1 (away left x.plan.new_path within s.away_new)
            (away left y.new_backup within (
              backup_away faults backup_path temporary no_backup unnamed distinct y.new_backup
                c.new_named))
            c.new one.0 in
        let three =
          Aside-undone faults backup_path y.old_moved left x.plan.old_path y.old_backup d.nodes
            c.first f₂ two.1 (away left x.plan.old_path within s.away_old)
            (away left y.old_backup within (
              backup_away faults backup_path temporary no_backup unnamed distinct y.old_backup
                c.old_named))
            c.old two.0 in
        subst (λ pl. Undone (undo faults backup_path (record y { plan = pl }) f)) (sym c.plan)
          (subst
            (λ t. Undone (undo faults backup_path (record y { plan = x.plan; temp_path = t }) f))
            (sym c.temp)
            (last_undone y.new_written x.temp_path gone d.nodes f₃ three.1
              (λ h. plain x.temp_path (mine h)) three.0))
      where
        Undone : Disk → Type 0
        Undone g =
            IsLike (and_temp faults backup_path x.temp_path gone) d.nodes g.nodes
            × IsQuiet faults backup_path g
