-- ===== src/Patch/Commit.antt =====
-- internal/tooling/patch.go: what the body of commit's loop does to one staged change and to the files.
use alt_tui.Prelude.{
  ℕ, String, ◌≡◌, refl, sym, ap, ◌∙◌, inl, inr, Bool, true, false, arith, eq_iff, if◌then◌else◌,
  subst,
}
use alt_tui.Patch.{
  Nodes, Disk, StagedChange, has_path, Outcome, and_then, set_old_aside, set_new_aside, publish,
  commit_item,
}
use alt_tui.Patch.Plain.{IsPlain, Aside-IsPlain, Written-IsPlain}
use alt_tui.Patch.Publish.{Published, publish-Published}
use alt_tui.Patch.Effects.{Aside, Written}
use alt_tui.Patch.Steps.{
  IsFresh, IsApart, IsBackup, IsStaged, OldAside, NewAside, set_old_aside-OldAside,
  set_new_aside-NewAside,
}

module _ (faults : ℕ → Bool) (backup_path : ℕ → String → String) where
  -- what the body of the loop made of a change and of the files, wherever it stopped
  pub record Committed (x : StagedChange) (d : Disk) (y : StagedChange) (e : Disk) : Type 0 where
    pub first : Nodes
    pub second : Nodes
    pub plan : y.plan ≡ x.plan
    pub temp : y.temp_path ≡ (if y.new_written then "" else x.temp_path)
    pub old : Aside y.old_moved x.plan.old_path y.old_backup d.nodes first
    pub new : Aside y.new_moved x.plan.new_path y.new_backup first second
    pub written : Written y.new_written x.temp_path x.plan.new_path second e.nodes
    pub old_named : IsBackup faults backup_path y.old_backup
    pub new_named : IsBackup faults backup_path y.new_backup
    pub fresh : IsFresh faults backup_path e

  Aside-as :
      (m m' : Bool) (a a' b b' : String) (f g : Nodes)
      → m ≡ m'
      → a ≡ a'
      → b ≡ b'
      → Aside m a b f g
      → Aside m' a' b' f g
  Aside-as m m' a a' b b' f g em ea eb h =
      subst (λ k. Aside k a' b' f g) em
        (subst (λ k. Aside m k b' f g) ea (subst (λ k. Aside m a k f g) eb h))

  Written-as :
      (w w' : Bool) (t t' n n' : String) (f g : Nodes)
      → w ≡ w'
      → t ≡ t'
      → n ≡ n'
      → Written w t n f g
      → Written w' t' n' f g
  Written-as w w' t t' n n' f g ew et en h =
      subst (λ k. Written k t' n' f g) ew
        (subst (λ k. Written w k n' f g) et (subst (λ k. Written w t k f g) en h))

  stopped_first :
      (temporary : String → Bool) (x y : StagedChange) (d e : Disk) (go : Bool)
      → IsStaged faults backup_path temporary x
      → OldAside faults backup_path x d (y, e, go)
      → Committed x d y e
  stopped_first temporary x y d e go s o = record {
    first = e.nodes;
    second = e.nodes;
    plan = ap (λ z. z.plan) o.change;
    temp =
        ap (λ z. z.temp_path) o.change ∙ rw (ap (λ z. z.new_written) o.change ∙ s.new_written) refl;
    old = o.aside;
    new =
        Aside-as false y.new_moved _ _ y.new_backup y.new_backup _ _
          (sym (ap (λ z. z.new_moved) o.change ∙ s.new_moved)) refl refl refl;
    written =
        Written-as false y.new_written x.temp_path x.temp_path x.plan.new_path x.plan.new_path _ _
          (sym (ap (λ z. z.new_written) o.change ∙ s.new_written)) refl refl refl;
    old_named = o.named;
    new_named = inl (ap (λ z. z.new_backup) o.change ∙ s.new_backup);
    fresh = o.fresh;
  }

  -- a change that commit did not come to
  pub untouched :
      (temporary : String → Bool) (x : StagedChange) (d : Disk)
      → IsStaged faults backup_path temporary x
      → IsFresh faults backup_path d
      → Committed x d x d
  untouched temporary x d s fresh = stopped_first temporary x x d d false s (record {
    change = refl;
    named = inl s.old_backup;
    aside =
        subst (λ b. Aside b x.plan.old_path x.old_backup d.nodes d.nodes) (sym s.old_moved) refl;
    fresh = fresh;
    cleared = λ go. absurd (ground (arith, go));
  })

  stopped_second :
      (temporary : String → Bool) (x y z : StagedChange) (d e f : Disk) (go : Bool)
      → IsStaged faults backup_path temporary x
      → OldAside faults backup_path x d (y, e, true)
      → NewAside faults backup_path y e (z, f, go)
      → Committed x d z f
  stopped_second temporary x y z d e f go s o n = record {
    first = e.nodes;
    second = f.nodes;
    plan = ap (λ i. i.plan) n.change ∙ ap (λ i. i.plan) o.change;
    temp =
        ap (λ i. i.temp_path) n.change
        ∙ ap (λ i. i.temp_path) o.change
        ∙ rw (ap (λ i. i.new_written) n.change ∙ ap (λ i. i.new_written) o.change ∙ s.new_written)
            refl;
    old =
        Aside-as y.old_moved z.old_moved _ _ y.old_backup z.old_backup _ _
          (sym (ap (λ i. i.old_moved) n.change)) refl (sym (ap (λ i. i.old_backup) n.change))
          o.aside;
    new =
        Aside-as z.new_moved z.new_moved _ _ z.new_backup z.new_backup _ _ refl
          (ap (λ i. i.plan.new_path) o.change) refl n.aside;
    written =
        Written-as false z.new_written x.temp_path x.temp_path x.plan.new_path x.plan.new_path _ _
          (sym
            (ap (λ i. i.new_written) n.change ∙ ap (λ i. i.new_written) o.change ∙ s.new_written))
          refl refl refl;
    old_named = subst (IsBackup faults backup_path) (sym (ap (λ i. i.old_backup) n.change)) o.named;
    new_named = n.named;
    fresh = n.fresh;
  }

  stopped_third :
      (temporary : String → Bool) (x y z w : StagedChange) (d e f g : Disk) (go : Bool)
      → IsStaged faults backup_path temporary x
      → OldAside faults backup_path x d (y, e, true)
      → NewAside faults backup_path y e (z, f, true)
      → Published faults backup_path z f (w, g, go)
      → Committed x d w g
  stopped_third temporary x y z w d e f g go s o n p = record {
    first = e.nodes;
    second = f.nodes;
    plan = ap (λ i. i.plan) p.change ∙ ap (λ i. i.plan) n.change ∙ ap (λ i. i.plan) o.change;
    temp =
        ap (λ i. i.temp_path) p.change
        ∙ ap (λ k. if w.new_written then "" else k)
            (ap (λ i. i.temp_path) n.change ∙ ap (λ i. i.temp_path) o.change);
    old =
        Aside-as y.old_moved w.old_moved _ _ y.old_backup w.old_backup _ _
          (sym (ap (λ i. i.old_moved) p.change ∙ ap (λ i. i.old_moved) n.change)) refl
          (sym (ap (λ i. i.old_backup) p.change ∙ ap (λ i. i.old_backup) n.change)) o.aside;
    new =
        Aside-as z.new_moved w.new_moved _ _ z.new_backup w.new_backup _ _
          (sym (ap (λ i. i.new_moved) p.change)) (ap (λ i. i.plan.new_path) o.change)
          (sym (ap (λ i. i.new_backup) p.change)) n.aside;
    written =
        Written-as w.new_written w.new_written _ _ _ _ _ _ refl
          (ap (λ i. i.temp_path) n.change ∙ ap (λ i. i.temp_path) o.change)
          (ap (λ i. i.plan.new_path) n.change ∙ ap (λ i. i.plan.new_path) o.change) p.written;
    old_named =
        subst (IsBackup faults backup_path)
          (sym (ap (λ i. i.old_backup) p.change ∙ ap (λ i. i.old_backup) n.change)) o.named;
    new_named = subst (IsBackup faults backup_path) (sym (ap (λ i. i.new_backup) p.change)) n.named;
    fresh = p.fresh;
  }

  module _ (temporary : String → Bool)
      (no_backup : (n : ℕ) (p : String) → temporary (backup_path n p) ≡ false)
      (unnamed : temporary "" ≡ false)
      (distinct : (m n : ℕ) (p q : String) → backup_path m p ≡ backup_path n q → m ≡ n) where
    pub backup_away : (b : String) → IsBackup faults backup_path b → temporary b ≡ false
    backup_away b (inl e) = ap temporary e ∙ unnamed
    backup_away b (inr (n, p, e)) = ap temporary e ∙ no_backup n p

    after_new :
        (x y : StagedChange) (d e : Disk) (r : Outcome faults backup_path)
        → IsStaged faults backup_path temporary x
        → (has_path x.temp_path ≡ true → temporary x.temp_path ≡ true)
        → IsPlain temporary e.nodes
        → OldAside faults backup_path x d (y, e, true)
        → NewAside faults backup_path y e r
        → let o = and_then faults backup_path r (publish faults backup_path) in
          Committed x d o.0 o.1
    after_new x y d e (z, f, false) s among plain o n =
        stopped_second temporary x y z d e f false s o n
    after_new x y d e (z, f, true) s among plain o n =
        let kept : z.plan ≡ x.plan = ap (λ i. i.plan) n.change ∙ ap (λ i. i.plan) o.change in
        let temp : z.temp_path ≡ x.temp_path =
          ap (λ i. i.temp_path) n.change ∙ ap (λ i. i.temp_path) o.change in
        let lasting : IsPlain temporary f.nodes =
          Aside-IsPlain temporary z.new_moved y.plan.new_path z.new_backup e.nodes f.nodes
            (backup_away z.new_backup n.named) n.aside plain in
        let as_staged : z.plan.is_delete ≡ false → x.plan.is_delete ≡ false =
          λ i. sym (ap (λ c. c.is_delete) kept) ∙ i in
        let new_path : z.plan.new_path ≡ x.plan.new_path = ap (λ c. c.new_path) kept in
        let p =
          publish-Published faults backup_path z f
            (ap (λ i. i.new_written) n.change ∙ ap (λ i. i.new_written) o.change ∙ s.new_written)
            (λ i. ap has_path temp ∙ s.published_from (as_staged i))
            (λ i. lasting z.temp_path (ap temporary temp ∙ among (s.published_from (as_staged i))))
            (λ i.
              ap f.nodes (ap (λ c. c.plan.new_path) n.change)
              ∙ n.cleared refl
                  (ap has_path (ap (λ c. c.plan.new_path) o.change) ∙ s.published_to (as_staged i)))
            (subst (IsApart faults backup_path) (sym new_path) s.apart_new) n.fresh in
        let r = publish faults backup_path z f in
        stopped_third temporary x y z r.0 d e f r.1 r.2 s o n p

    after_old :
        (x : StagedChange) (d : Disk) (r : Outcome faults backup_path)
        → IsStaged faults backup_path temporary x
        → (has_path x.temp_path ≡ true → temporary x.temp_path ≡ true)
        → IsPlain temporary d.nodes
        → OldAside faults backup_path x d r
        → let o =
            and_then faults backup_path
              (and_then faults backup_path r (set_new_aside faults backup_path))
              (publish faults backup_path) in
          Committed x d o.0 o.1
    after_old x d (y, e, false) s among plain o = stopped_first temporary x y d e false s o
    after_old x d (y, e, true) s among plain o =
        after_new x y d e (set_new_aside faults backup_path y e) s among
          (Aside-IsPlain temporary y.old_moved x.plan.old_path y.old_backup d.nodes e.nodes
            (backup_away y.old_backup o.named) o.aside plain)
          o
          (set_new_aside-NewAside faults backup_path distinct y e
            (ap (λ i. i.new_moved) o.change ∙ s.new_moved)
            (ap (λ i. i.new_backup) o.change ∙ s.new_backup)
            (subst (λ c. IsApart faults backup_path c) (sym (ap (λ i. i.plan.new_path) o.change))
              s.apart_new)
            o.fresh
            (λ same has.
              let path : y.plan.new_path ≡ x.plan.old_path =
                (eq_iff y.plan.new_path y.plan.old_path).0 same
                ∙ ap (λ i. i.plan.old_path) o.change in
              ap e.nodes path ∙ o.cleared refl (ap has_path (sym path) ∙ has)))

    pub commit_item-Committed :
        (x : StagedChange) (d : Disk)
        → IsStaged faults backup_path temporary x
        → (has_path x.temp_path ≡ true → temporary x.temp_path ≡ true)
        → IsPlain temporary d.nodes
        → IsFresh faults backup_path d
        → let o = commit_item faults backup_path x d in Committed x d o.0 o.1
    commit_item-Committed x d s among plain fresh =
        after_old x d (set_old_aside faults backup_path x d) s among plain
          (set_old_aside-OldAside faults backup_path distinct x d s fresh)

    pub Committed-IsPlain :
        (x y : StagedChange) (d e : Disk)
        → IsStaged faults backup_path temporary x
        → Committed x d y e
        → IsPlain temporary d.nodes
        → IsPlain temporary e.nodes
    Committed-IsPlain x y d e s c plain =
        Written-IsPlain temporary y.new_written x.temp_path x.plan.new_path c.second e.nodes
          s.away_new c.written
          (Aside-IsPlain temporary y.new_moved x.plan.new_path y.new_backup c.first c.second
            (backup_away y.new_backup c.new_named) c.new
            (Aside-IsPlain temporary y.old_moved x.plan.old_path y.old_backup d.nodes c.first
              (backup_away y.old_backup c.old_named) c.old plain))
