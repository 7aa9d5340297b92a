-- ===== src/Patch/Steps.antt =====
-- internal/tooling/patch.go: what the steps of commit do to one staged change and to the files.
use text.Mathlib.Text.{◌==◌ as str_eq}
use alt_tui.Prelude.{
  ℕ, suc, ◌≤◌, String, ◌≡◌, refl, sym, ◌⊎◌, inl, inr, Option, none, some, Bool, true, false, not,
  ◌&&◌, arith, eq_iff, Bool-cases, Option-cases, subst,
}
use alt_tui.Patch.{
  Node, Disk, put, called, StagedChange, Stat, present, absent, unreadable, has_path, blocks,
  rename, lstat, move, Outcome, set_old_aside, set_new_aside, set_found_aside, old_kept, new_kept,
}
use alt_tui.Patch.Effects.{Aside}

module _ (faults : ℕ → Bool) (backup_path : ℕ → String → String) where
  -- nothing stands at a backup that is yet to be drawn
  abbrev pub IsFresh : Disk → Type 0
  IsFresh d = (n : ℕ) (p : String) → d.drawn ≤ n → d.nodes (backup_path n p) ≡ none

  -- the path is no backup
  abbrev pub IsApart : String → Type 0
  IsApart p = (n : ℕ) (q : String) → str_eq p (backup_path n q) ≡ false

  abbrev pub IsBackup : String → Type 0
  IsBackup b = (b ≡ "") ⊎ ((n : ℕ) × (p : String) × (b ≡ backup_path n p))

  -- a rename, by what it did
  pub data Renamed (a b : String) (d : Disk) : Disk × Bool → Type 0 where
    unmoved : Renamed a b d (called d, false)
    moved_to :
        (n : Node)
        → d.nodes a ≡ some n
        → Renamed a b d (record (called d) { nodes = put b (some n) (put a none d.nodes) }, true)

  move-Renamed :
      (a b : String) (d : Disk) (o : Option Node)
      → d.nodes a ≡ o
      → Renamed a b d (move faults backup_path a b d o)
  move-Renamed a b d none e = unmoved
  move-Renamed a b d (some n) e = elim (Bool-cases (blocks (some n) (d.nodes b))) [
    | inl i ↦ rw i unmoved
    | inr i ↦ rw i (moved_to n e)
  ]

  pub rename-Renamed : (a b : String) (d : Disk) → Renamed a b d (rename faults backup_path a b d)
  unfolding rename
  rename-Renamed a b d = elim (Bool-cases (faults d.calls)) [
    | inl e ↦ rw e unmoved
    | inr e ↦ rw e (move-Renamed a b d (d.nodes a) refl)
  ]

  -- a change as it was staged
  -- whose paths are none of `temporary`
  pub record IsStaged (temporary : String → Bool) (x : StagedChange) : Type 0 where
    pub old_moved : x.old_moved ≡ false
    pub new_moved : x.new_moved ≡ false
    pub new_written : x.new_written ≡ false
    pub old_backup : x.old_backup ≡ ""
    pub new_backup : x.new_backup ≡ ""
    pub apart_old : IsApart x.plan.old_path
    pub apart_new : IsApart x.plan.new_path
    pub apart_temp : IsApart x.temp_path
    pub away_old : temporary x.plan.old_path ≡ false
    pub away_new : temporary x.plan.new_path ≡ false
    pub published_to : x.plan.is_delete ≡ false → has_path x.plan.new_path ≡ true
    pub published_from : x.plan.is_delete ≡ false → has_path x.temp_path ≡ true

  pub record OldAside (x : StagedChange) (d : Disk) (o : Outcome faults backup_path) : Type 0 where
    pub change : o.0 ≡ record x { old_backup = o.0.old_backup; old_moved = o.0.old_moved }
    pub named : IsBackup o.0.old_backup
    pub aside : Aside o.0.old_moved x.plan.old_path o.0.old_backup d.nodes o.1.nodes
    pub fresh : IsFresh o.1
    pub cleared : o.2 ≡ true → has_path x.plan.old_path ≡ true → o.1.nodes x.plan.old_path ≡ none

  pub record NewAside (x : StagedChange) (d : Disk) (o : Outcome faults backup_path) : Type 0 where
    pub change : o.0 ≡ record x { new_backup = o.0.new_backup; new_moved = o.0.new_moved }
    pub named : IsBackup o.0.new_backup
    pub aside : Aside o.0.new_moved x.plan.new_path o.0.new_backup d.nodes o.1.nodes
    pub fresh : IsFresh o.1
    pub cleared : o.2 ≡ true → has_path x.plan.new_path ≡ true → o.1.nodes x.plan.new_path ≡ none

  module _ (distinct : (m n : ℕ) (p q : String) → backup_path m p ≡ backup_path n q → m ≡ n) where
    -- a file is moved to a new backup, or nothing happens
    pub record SetAside (a b : String) (d : Disk) (moved : Bool) (e : Disk) : Type 0 where
      pub aside : Aside moved a b d.nodes e.nodes
      pub fresh : IsFresh e
      pub cleared : moved ≡ true → e.nodes a ≡ none

    set_aside :
        (a : String) (d : Disk) (r : Disk × Bool)
        → IsFresh d
        → IsApart a
        → Renamed a (backup_path d.drawn a) (record d { drawn = suc d.drawn }) r
        → SetAside a (backup_path d.drawn a) d r.1 r.0
    set_aside a d r fresh apart unmoved = record {
      aside = refl;
      fresh = λ n p le. fresh n p (omega (arith, le));
      cleared = λ m. absurd (ground (arith, m));
    }
    set_aside a d r fresh apart (moved_to n at) = record {
      aside = (n, at, fresh d.drawn a (omega arith), apart d.drawn a, refl);
      fresh = λ m p le.
          let other : str_eq (backup_path d.drawn a) (backup_path m p) ≡ false =
            elim (Bool-cases (str_eq (backup_path d.drawn a) (backup_path m p))) [
              | inl e ↦
                  let same : d.drawn ≡ m =
                    distinct d.drawn m a p
                      ((eq_iff (backup_path d.drawn a) (backup_path m p)).0 e) in
                  absurd (omega (arith, le, same))
              | inr e ↦ e
            ] in
          rw (other, apart m p) (fresh m p (omega (arith, le)));
      cleared = λ m. ground (
        arith,
        eq_iff (backup_path d.drawn a) a,
        eq_iff a (backup_path d.drawn a),
        apart d.drawn a,
        (eq_iff a a).1 refl,
      );
    }

    old_kept-OldAside :
        {temporary : String → Bool} (x : StagedChange) (d : Disk) (r : Disk × Bool)
        → IsStaged temporary x
        → SetAside x.plan.old_path (backup_path d.drawn x.plan.old_path) d r.1 r.0
        → OldAside x d (
            old_kept faults backup_path
              (record x { old_backup = backup_path d.drawn x.plan.old_path })
              r)
    old_kept-OldAside x d (e, true) staged h = record {
      change = refl;
      named = inr (d.drawn, x.plan.old_path, refl);
      aside = h.aside;
      fresh = h.fresh;
      cleared = λ go has. h.cleared go;
    }
    old_kept-OldAside x d (e, false) staged h = record {
      change = refl;
      named = inr (d.drawn, x.plan.old_path, refl);
      aside =
          subst (λ b. Aside b x.plan.old_path (backup_path d.drawn x.plan.old_path) d.nodes e.nodes)
            (sym staged.old_moved) h.aside;
      fresh = h.fresh;
      cleared = λ go has. h.cleared go;
    }

    pub set_old_aside-OldAside :
        {temporary : String → Bool} (x : StagedChange) (d : Disk)
        → IsStaged temporary x
        → IsFresh d
        → OldAside x d (set_old_aside faults backup_path x d)
    unfolding set_old_aside
    set_old_aside-OldAside x d staged fresh = elim (Bool-cases (has_path x.plan.old_path)) [
      | inl e ↦ rw e (
          old_kept-OldAside x d
            (rename faults backup_path x.plan.old_path (backup_path d.drawn x.plan.old_path)
              (record d { drawn = suc d.drawn }))
            staged
            (set_aside x.plan.old_path d _ fresh staged.apart_old (
              rename-Renamed x.plan.old_path (backup_path d.drawn x.plan.old_path)
                (record d { drawn = suc d.drawn }))))
      | inr e ↦ rw e (record {
        change = refl;
        named = inl staged.old_backup;
        aside =
            subst (λ b. Aside b x.plan.old_path x.old_backup d.nodes d.nodes) (sym staged.old_moved)
              refl;
        fresh = fresh;
        cleared = λ go has. absurd (ground (arith, has, e));
      })
    ]

    new_kept-NewAside :
        (x : StagedChange) (d : Disk) (r : Disk × Bool)
        → x.new_moved ≡ false
        → SetAside x.plan.new_path (backup_path d.drawn x.plan.new_path) d r.1 r.0
        → NewAside x d (
            new_kept faults backup_path
              (record x { new_backup = backup_path d.drawn x.plan.new_path })
              r)
    new_kept-NewAside x d (e, true) unmoved' h = record {
      change = refl;
      named = inr (d.drawn, x.plan.new_path, refl);
      aside = h.aside;
      fresh = h.fresh;
      cleared = λ go has. h.cleared go;
    }
    new_kept-NewAside x d (e, false) unmoved' h = record {
      change = refl;
      named = inr (d.drawn, x.plan.new_path, refl);
      aside =
          subst (λ b. Aside b x.plan.new_path (backup_path d.drawn x.plan.new_path) d.nodes e.nodes)
            (sym unmoved') h.aside;
      fresh = h.fresh;
      cleared = λ go has. h.cleared go;
    }

    still_NewAside :
        (x : StagedChange) (d e : Disk) (go : Bool)
        → x.new_moved ≡ false
        → x.new_backup ≡ ""
        → e.nodes ≡ d.nodes
        → IsFresh e
        → (go ≡ true → has_path x.plan.new_path ≡ true → e.nodes x.plan.new_path ≡ none)
        → NewAside x d (x, e, go)
    still_NewAside x d e go unmoved' unnamed same fresh cleared = record {
      change = refl;
      named = inl unnamed;
      aside = subst (λ b. Aside b x.plan.new_path x.new_backup d.nodes e.nodes) (sym unmoved') same;
      fresh = fresh;
      cleared = cleared;
    }

    found-NewAside :
        (x : StagedChange) (d : Disk) (s : Stat)
        → x.new_moved ≡ false
        → x.new_backup ≡ ""
        → IsApart x.plan.new_path
        → IsFresh d
        → (s ≡ absent → d.nodes x.plan.new_path ≡ none)
        → NewAside x d (set_found_aside faults backup_path x d s)
    found-NewAside x d absent m b apart fresh seen =
        still_NewAside x d d true m b refl fresh (λ go has. seen refl)
    found-NewAside x d unreadable m b apart fresh seen =
        still_NewAside x d d false m b refl fresh (λ go. absurd (ground (arith, go)))
    found-NewAside x d present m b apart fresh seen =
        new_kept-NewAside x d
          (rename faults backup_path x.plan.new_path (backup_path d.drawn x.plan.new_path)
            (record d { drawn = suc d.drawn }))
          m
          (set_aside x.plan.new_path d _ fresh apart (
            rename-Renamed x.plan.new_path (backup_path d.drawn x.plan.new_path)
              (record d { drawn = suc d.drawn })))

    NewAside-called :
        (x : StagedChange) (d : Disk) (o : Outcome faults backup_path)
        → NewAside x (called d) o
        → NewAside x d o
    NewAside-called x d o h = record {
      change = h.change;
      named = h.named;
      aside = h.aside;
      fresh = h.fresh;
      cleared = h.cleared;
    }

    lstat_absent :
        (p : String) (d : Disk) → (lstat faults backup_path p d).1 ≡ absent → d.nodes p ≡ none
    unfolding lstat
    lstat_absent p d e = elim (Bool-cases (faults d.calls)) [
      | inl i ↦ absurd (grind (arith, i, e))
      | inr i ↦ elim (Option-cases (d.nodes p)) [
        | inl j ↦ j
        | inr (n, j) ↦ absurd (grind (arith, i, e, j))
      ]
    ]

    pub set_new_aside-NewAside :
        (x : StagedChange) (d : Disk)
        → x.new_moved ≡ false
        → x.new_backup ≡ ""
        → IsApart x.plan.new_path
        → IsFresh d
        → (str_eq x.plan.new_path x.plan.old_path ≡ true
            → has_path x.plan.new_path ≡ true
            → d.nodes x.plan.new_path ≡ none)
        → NewAside x d (set_new_aside faults backup_path x d)
    unfolding set_new_aside lstat
    set_new_aside-NewAside x d m b apart fresh same_cleared =
        elim (Bool-cases
          (has_path x.plan.new_path && not (str_eq x.plan.new_path x.plan.old_path))) [
            | inr e ↦ rw e (
                still_NewAside x d d true m b refl fresh
                  (λ go has. same_cleared (ground (arith, e, has)) has))
            | inl e ↦ rw e (
                NewAside-called x d _ (
                  found-NewAside x (called d) (lstat faults backup_path x.plan.new_path d).1 m b
                    apart (λ n p le. fresh n p le) (lstat_absent x.plan.new_path d)))
          ]
