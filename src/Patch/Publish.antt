-- ===== src/Patch/Publish.antt =====
-- internal/tooling/patch.go: what the publication of a staged file does.
use alt_tui.Prelude.{
  ℕ, String, ◌≡◌, refl, sym, ap, ◌∙◌, inl, inr, none, Bool, true, false, arith, Bool-cases,
  if◌then◌else◌, subst,
}
use alt_tui.Patch.{
  Disk, called, StagedChange, has_path, is_directory, rename, Outcome, publish, published,
}
use alt_tui.Patch.Effects.{Written}
use alt_tui.Patch.Steps.{IsFresh, IsApart, Renamed, unmoved, moved_to, rename-Renamed}

module _ (faults : ℕ → Bool) (backup_path : ℕ → String → String) where
  -- the publication of a change, by what it did
  pub record Published (x : StagedChange) (d : Disk) (o : Outcome faults backup_path) : Type 0 where
    pub change : o.0 ≡ record x {
      temp_path = if o.0.new_written then "" else x.temp_path;
      new_written = o.0.new_written;
    }
    pub written : Written o.0.new_written x.temp_path x.plan.new_path d.nodes o.1.nodes
    pub fresh : IsFresh faults backup_path o.1

  pub unpublished :
      (x : StagedChange) (d e : Disk) (go : Bool)
      → x.new_written ≡ false
      → e.nodes ≡ d.nodes
      → IsFresh faults backup_path e
      → Published x d (x, e, go)
  unpublished x d e go unwritten same fresh = record {
    change = rw unwritten refl;
    written =
        subst (λ b. Written b x.temp_path x.plan.new_path d.nodes e.nodes) (sym unwritten) same;
    fresh = fresh;
  }

  pub Renamed-Published :
      (x : StagedChange) (d : Disk) (r : Disk × Bool)
      → x.new_written ≡ false
      → has_path x.temp_path ≡ true
      → is_directory (d.nodes x.temp_path) ≡ false
      → d.nodes x.plan.new_path ≡ none
      → IsApart faults backup_path x.plan.new_path
      → IsFresh faults backup_path d
      → Renamed faults backup_path x.temp_path x.plan.new_path d r
      → Published x d (published faults backup_path x r)
  Renamed-Published x d r unwritten has plain empty apart fresh unmoved =
      unpublished x d (called d) false unwritten refl (λ n p le. fresh n p le)
  Renamed-Published x d r unwritten has plain empty apart fresh (moved_to n at) = record {
    change = refl;
    written = (n, has, at, ap is_directory (sym at) ∙ plain, empty, refl);
    fresh = λ m p le. rw (apart m p) (ground (arith, fresh m p le));
  }

  pub publish-Published :
      (x : StagedChange) (d : Disk)
      → x.new_written ≡ false
      → (x.plan.is_delete ≡ false → has_path x.temp_path ≡ true)
      → (x.plan.is_delete ≡ false → is_directory (d.nodes x.temp_path) ≡ false)
      → (x.plan.is_delete ≡ false → d.nodes x.plan.new_path ≡ none)
      → IsApart faults backup_path x.plan.new_path
      → IsFresh faults backup_path d
      → Published x d (publish faults backup_path x d)
  unfolding publish
  publish-Published x d unwritten has plain empty apart fresh = elim (Bool-cases x.plan.is_delete) [
    | inl e ↦ chosen true e (unpublished x d d true unwritten refl fresh)
    | inr e ↦ chosen false e (
        Renamed-Published x d _ unwritten (has e) (plain e) (empty e) apart fresh
          (rename-Renamed faults backup_path x.temp_path x.plan.new_path d))
  ]
    where
      chosen :
          (b : Bool)
          → x.plan.is_delete ≡ b
          → Published x d (
              if b
              then (x, d, true)
              else published faults backup_path x
                  (rename faults backup_path x.temp_path x.plan.new_path d))
          → Published x d (publish faults backup_path x d)
      chosen b e h =
          subst
            (λ c. Published x d (
              if c
              then (x, d, true)
              else published faults backup_path x
                  (rename faults backup_path x.temp_path x.plan.new_path d)))
            (sym e) h
