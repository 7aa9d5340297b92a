-- ===== src/Patch/Atomic.antt =====
-- internal/tooling/patch.go: the files after a commit that failed and was rolled back.
use alt_tui.Prelude.{
  ℕ, String, ◌≡◌, refl, inl, inr, Bool, true, false, List, [], ◌∷◌, All, arith, eq_iff, Bool-cases,
}
use alt_tui.Patch.{
  Disk, StagedChange, has_path, Outcome, commit_item, commit, rollback, commit_or_rollback,
}
use alt_tui.Patch.Effects.{IsLike, IsQuiet}
use alt_tui.Patch.Steps.{IsFresh, IsStaged}
use alt_tui.Patch.Plain.{IsPlain}
use alt_tui.Patch.Commit.{Committed, untouched, commit_item-Committed, Committed-IsPlain}
use alt_tui.Patch.Rollback.{temporary_in, undo-Committed}

module _ (faults : ℕ → Bool) (backup_path : ℕ → String → String) where
  -- the changes and the files before and after a commit, wherever it stopped
  data Progress : List StagedChange → Disk → List StagedChange → Disk → Type 0 where
    all_done : (d : Disk) → Progress [] d [] d
    one_more :
        {x y : StagedChange} {l l' : List StagedChange} {d m e : Disk}
        → Committed faults backup_path x d y m
        → Progress l m l' e
        → Progress (x ∷ l) d (y ∷ l') e

  untouched-Progress :
      (temporary : String → Bool) (l : List StagedChange) (d : Disk)
      → All (IsStaged faults backup_path temporary) l
      → IsFresh faults backup_path d
      → Progress l d l d
  untouched-Progress temporary [] d s fresh = all_done d
  untouched-Progress temporary (x ∷ l) d (s, rest) fresh =
      one_more (untouched faults backup_path temporary x d s fresh)
        (untouched-Progress temporary l d rest fresh)

  module _ (temporary : String → Bool)
      (no_backup : (n : ℕ) (p : String) → temporary (backup_path n p) ≡ false)
      (unnamed : temporary "" ≡ false)
      (distinct : (m n : ℕ) (p q : String) → backup_path m p ≡ backup_path n q → m ≡ n) where
    abbrev Holds : List StagedChange → Disk → Type 0
    Holds l d =
        ((p : String) → temporary_in l p ≡ true → temporary p ≡ true)
        × All (IsStaged faults backup_path temporary) l
        × IsPlain temporary d.nodes

    first_among :
        (x : StagedChange) (l : List StagedChange)
        → ((p : String) → temporary_in (x ∷ l) p ≡ true → temporary p ≡ true)
        → has_path x.temp_path ≡ true
        → temporary x.temp_path ≡ true
    unfolding temporary_in
    first_among x l among has =
        among x.temp_path (rw (has, (eq_iff x.temp_path x.temp_path).1 refl) refl)

    rest_among :
        (x : StagedChange) (l : List StagedChange)
        → ((p : String) → temporary_in (x ∷ l) p ≡ true → temporary p ≡ true)
        → (p : String) → temporary_in l p ≡ true
        → temporary p ≡ true
    unfolding temporary_in
    rest_among x l among p at = among p (ground (arith, at))

    commit-Progress :
        (l : List StagedChange) (d : Disk)
        → Holds l d
        → IsFresh faults backup_path d
        → let r = commit faults backup_path l d in Progress l d r.0 r.1
    unfolding commit
    commit-Progress [] d h fresh = all_done d
    commit-Progress (x ∷ l) d (among, (s, rest), plain) fresh =
        let o : Outcome faults backup_path = commit_item faults backup_path x d in
        let c =
          commit_item-Committed faults backup_path temporary no_backup unnamed distinct x d s
            (first_among x l among) plain fresh in
        let m =
          Committed-IsPlain faults backup_path temporary no_backup unnamed distinct x o.0 d o.1 s c
            plain in
        elim (Bool-cases o.2) [
          | inl e ↦
              rw e (one_more c (commit-Progress l o.1 (rest_among x l among, rest, m) c.fresh))
          | inr e ↦ rw e (one_more c (untouched-Progress temporary l o.1 rest c.fresh))
        ]

    rollback-Progress :
        (l l' : List StagedChange) (d e : Disk)
        → Progress l d l' e
        → Holds l d
        → IsQuiet faults backup_path e
        → let f = rollback faults backup_path l' e in
          IsLike (temporary_in l) d.nodes f.nodes × IsQuiet faults backup_path f
    unfolding rollback temporary_in
    rollback-Progress l l' d e (all_done _) h quiet = (λ p. refl, quiet)
    rollback-Progress l l' d e (one_more {x = x} {y = y} {l = l₁} {l' = l₂} {m = m} c next)
          (among, (s, rest), plain) quiet =
        let later =
          rollback-Progress l₁ l₂ m e next
            (
              rest_among x l₁ among,
              rest,
              Committed-IsPlain faults backup_path temporary no_backup unnamed distinct x y d m s c
                  plain,
            )
            quiet in
        undo-Committed faults backup_path temporary no_backup unnamed distinct (temporary_in l₁) x y
          d m (rollback faults backup_path l₂ e) (rest_among x l₁ among) (first_among x l₁ among) s
          c plain later.1 later.0

temporary_in_empty : (l : List StagedChange) → temporary_in l "" ≡ false
unfolding temporary_in
temporary_in_empty [] = refl
temporary_in_empty (x ∷ l) = ground (arith, temporary_in_empty l)

temporary_in-apart :
    (faults : ℕ → Bool) (backup_path : ℕ → String → String) (temporary : String → Bool)
    (l : List StagedChange) (n : ℕ) (p : String)
    → All (IsStaged faults backup_path temporary) l
    → temporary_in l (backup_path n p) ≡ false
unfolding temporary_in
temporary_in-apart faults backup_path temporary [] n p s = refl
temporary_in-apart faults backup_path temporary (x ∷ l) n p (s, rest) =
    ground (arith, s.apart_temp n p, temporary_in-apart faults backup_path temporary l n p rest)

-- After a commit that fails, wherever it does, and the rollback that follows, every path has the node
-- that it had before the commit, but for the temporary files of the staged changes, which are gone. It
-- is asked that the changes are as stage leaves them, that backups get new names at which nothing
-- stands, that the paths of the plans are no temporary files, and that no call fails in the rollback.
pub commit_or_rollback_restores :
    (faults : ℕ → Bool) (backup_path : ℕ → String → String) (l : List StagedChange) (d : Disk)
    → ((m n : ℕ) (p q : String) → backup_path m p ≡ backup_path n q → m ≡ n)
    → IsFresh faults backup_path d
    → All (IsStaged faults backup_path (temporary_in l)) l
    → IsPlain (temporary_in l) d.nodes
    → IsQuiet faults backup_path (commit faults backup_path l d).1
    → (commit faults backup_path l d).2 ≡ false
    → (commit_or_rollback faults backup_path l d).1 ≡ false
      × IsLike (temporary_in l) d.nodes (commit_or_rollback faults backup_path l d).0.nodes
unfolding commit_or_rollback
commit_or_rollback_restores faults backup_path l d distinct fresh staged plain quiet fails =
    let none_of =
      λ (n : ℕ) (p : String). temporary_in-apart faults backup_path (temporary_in l) l n p staged in
    let named = temporary_in_empty l in
    let holds : Holds faults backup_path (temporary_in l) none_of named distinct l d =
      (λ p at. at, staged, plain) in
    let r = commit faults backup_path l d in
    let run : Progress faults backup_path l d r.0 r.1 =
      commit-Progress faults backup_path (temporary_in l) none_of named distinct l d holds fresh in
    let back =
      rollback-Progress faults backup_path (temporary_in l) none_of named distinct l r.0 d r.1 run
        holds quiet in
    rw fails (refl, back.0)
