-- ===== src/Patch.antt =====
-- internal/tooling/patch.go: the commit of staged changes, and its rollback. The files are a map from
-- paths to nodes; `faults` says which of the calls of the system fail, counted from the start, and
-- `backup_path` is the name that backupPath draws. What a rename replaces, removes and refuses is that
-- of os.Rename and os.Remove on one file system, for files whose directories exist. The parsing of a
-- patch, the staging in temporary files and the directories that it creates are left out.
pub mod Effects
pub mod Steps
pub mod Plain
pub mod Publish
pub mod Commit
pub mod Rollback
pub mod Atomic
mod Examples
use text.Mathlib.Text.{◌==◌ as str_eq}
use alt_tui.Prelude.{
  ℕ, suc, String, Option, none, some, Bool, true, false, not, ◌&&◌, ◌||◌, List, [], ◌∷◌,
  if◌then◌else◌,
}

-- a file or a link with its content and mode, or a directory, which is one node with all that it holds
pub data Node : Type 0 where
  file : String → ℕ → Node
  directory : Node

abbrev pub Nodes : Type 0
Nodes = String → Option Node

-- `calls` have been made of the system, and `drawn` names of backups
pub record Disk : Type 0 where
  pub nodes : Nodes
  pub calls : ℕ
  pub drawn : ℕ

-- the content of a path replaced
abbrev pub put : String → Option Node → Nodes → Nodes
put k v f p = if str_eq k p then v else f p

abbrev pub called : Disk → Disk
called d = record d { calls = suc d.calls }

pub record PlannedChange : Type 0 where
  pub old_path : String
  pub new_path : String
  pub content : String
  pub mode : ℕ
  pub is_delete : Bool

pub record StagedChange : Type 0 where
  pub plan : PlannedChange
  pub temp_path : String
  pub old_backup : String
  pub new_backup : String
  pub old_moved : Bool
  pub new_moved : Bool
  pub new_written : Bool

-- the answer of os.Lstat: a node, os.ErrNotExist, or another error
pub data Stat : Type 0 where
  present absent unreadable : Stat

abbrev pub has_path : String → Bool
has_path p = not (str_eq p "")

abbrev pub is_directory : Option Node → Bool
is_directory (some directory) = true
is_directory _ = false

-- a rename over a directory is refused, and that of a directory over a file
abbrev pub blocks : Option Node → Option Node → Bool
blocks moving none = false
blocks moving (some at) = is_directory (some at) || is_directory moving

abbrev pub stat_of : Option Node → Stat
stat_of none = absent
stat_of (some _) = present

module _ (faults : ℕ → Bool) (backup_path : ℕ → String → String) where
  abbrev move : String → String → Disk → Option Node → Disk × Bool
  move a b d none = (called d, false)
  move a b d (some n) =
      if blocks (some n) (d.nodes b)
      then (called d, false)
      else (record (called d) { nodes = put b (some n) (put a none d.nodes) }, true)

  -- os.Rename, and whether it succeeded
  unfoldable pub rename : String → String → Disk → Disk × Bool
  rename a b d = if faults d.calls then (called d, false) else move a b d (d.nodes a)

  -- os.Remove, whose error is never read; a directory is taken to have entries
  unfoldable pub remove : String → Disk → Disk
  remove p d =
      if faults d.calls || is_directory (d.nodes p)
      then called d
      else record (called d) { nodes = put p none d.nodes }

  -- os.Lstat
  unfoldable pub lstat : String → Disk → Disk × Stat
  lstat p d = (called d, if faults d.calls then unreadable else stat_of (d.nodes p))

  -- what a step of commit leaves: the change with its marks, the files, and whether to go on
  abbrev pub Outcome : Type 0
  Outcome = StagedChange × Disk × Bool

  abbrev pub and_then : Outcome → (StagedChange → Disk → Outcome) → Outcome
  and_then (x, d, true) next = next x d
  and_then (x, d, false) next = (x, d, false)

  abbrev old_kept : StagedChange → Disk × Bool → Outcome
  old_kept x (d, true) = (record x { old_moved = true }, d, true)
  old_kept x (d, false) = (x, d, false)

  abbrev new_kept : StagedChange → Disk × Bool → Outcome
  new_kept x (d, true) = (record x { new_moved = true }, d, true)
  new_kept x (d, false) = (x, d, false)

  abbrev published : StagedChange → Disk × Bool → Outcome
  published x (d, true) = (record x { temp_path = ""; new_written = true }, d, true)
  published x (d, false) = (x, d, false)

  -- the old file is moved to its backup
  unfoldable pub set_old_aside : StagedChange → Disk → Outcome
  set_old_aside x d =
      let backup = backup_path d.drawn x.plan.old_path in
      if has_path x.plan.old_path
      then old_kept (record x { old_backup = backup })
          (rename x.plan.old_path backup (record d { drawn = suc d.drawn }))
      else (x, d, true)

  abbrev set_found_aside : StagedChange → Disk → Stat → Outcome
  set_found_aside x d absent = (x, d, true)
  set_found_aside x d unreadable = (x, d, false)
  set_found_aside x d present =
      let backup = backup_path d.drawn x.plan.new_path in
      new_kept (record x { new_backup = backup })
        (rename x.plan.new_path backup (record d { drawn = suc d.drawn }))

  abbrev looked_up : StagedChange → Disk × Stat → Outcome
  looked_up x (d, s) = set_found_aside x d s

  -- what stands at a new path is moved to a backup
  unfoldable pub set_new_aside : StagedChange → Disk → Outcome
  set_new_aside x d =
      if has_path x.plan.new_path && not (str_eq x.plan.new_path x.plan.old_path)
      then looked_up x (lstat x.plan.new_path d)
      else (x, d, true)

  -- the staged file is moved to the new path
  unfoldable pub publish : StagedChange → Disk → Outcome
  publish x d =
      if x.plan.is_delete then (x, d, true) else published x (rename x.temp_path x.plan.new_path d)

  -- the body of the loop of commit
  abbrev pub commit_item : StagedChange → Disk → Outcome
  commit_item x d = and_then (and_then (set_old_aside x d) set_new_aside) publish

  abbrev pub before :
      StagedChange → List StagedChange × Disk × Bool → List StagedChange × Disk × Bool
  before x (l, d, done) = (x ∷ l, d, done)

  -- patchApplier.commit: an error leaves the later changes as they were staged
  unfoldable pub commit : List StagedChange → Disk → List StagedChange × Disk × Bool
  commit [] d = ([], d, true)
  commit (x ∷ rest) d =
      let (y, e, done) = commit_item x d in
      let later = before y (commit rest e) in if done then later else (y ∷ rest, e, false)

  -- the body of the loop of rollback
  unfoldable pub undo : StagedChange → Disk → Disk
  undo x d =
      let d₁ = if x.new_written then remove x.plan.new_path d else d in
      let d₂ = if x.new_moved then (rename x.new_backup x.plan.new_path d₁).0 else d₁ in
      let d₃ = if x.old_moved then (rename x.old_backup x.plan.old_path d₂).0 else d₂ in
      if has_path x.temp_path then remove x.temp_path d₃ else d₃

  -- patchApplier.rollback, from the last change to the first
  unfoldable pub rollback : List StagedChange → Disk → Disk
  rollback [] d = d
  rollback (x ∷ rest) d = undo x (rollback rest d)

  abbrev rolled_back : List StagedChange × Disk × Bool → Disk × Bool
  rolled_back (l, d, true) = (d, true)
  rolled_back (l, d, false) = (rollback l d, false)

  -- the end of patchApplier.apply: what could not be committed is rolled back
  unfoldable pub commit_or_rollback : List StagedChange → Disk → Disk × Bool
  commit_or_rollback l d = rolled_back (commit l d)
