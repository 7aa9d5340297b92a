-- ===== src/Patch/Examples.antt =====
-- internal/tooling/patch.go: a patch of two files, of which the second cannot be published.
use text.Mathlib.Text.{◌==◌ as str_eq}
use Prim.Native.Char.{code}
use alt_tui.Prelude.{
  ℕ, zero, suc, String, ◌≡◌, refl, ap, inl, inr, none, some, Bool, true, false, List, [], ◌∷◌, All,
  arith, eq_iff, ◌==◌, Bool-cases,
}
use alt_tui.Patch.{
  file, Nodes, Disk, put, StagedChange, is_directory, commit, commit_or_rollback, rename, lstat,
  set_old_aside, set_new_aside, publish,
}
use alt_tui.Patch.Effects.{IsLike, IsQuiet}
use alt_tui.Patch.Steps.{IsFresh, IsStaged, IsApart}
use alt_tui.Patch.Plain.{IsPlain}
use alt_tui.Patch.Rollback.{temporary_in}
use alt_tui.Patch.Atomic.{commit_or_rollback_restores}

abbrev marks : ℕ → String
marks zero = ""
marks (suc n) = String.◌∷◌ "#" (marks n)

-- the n-th backup
abbrev backup_name : ℕ → String → String
backup_name n p = String.◌∷◌ "." (marks n)

abbrev size : String → ℕ
size String.[] = 0
size (String.◌∷◌ c s) = suc (size s)

size-marks : (n : ℕ) → size (marks n) ≡ n
size-marks zero = refl
size-marks (suc n) = ap suc (size-marks n)

backups_differ : (m n : ℕ) (p q : String) → backup_name m p ≡ backup_name n q → m ≡ n
backups_differ m n p q e =
    let sizes : suc (size (marks m)) ≡ suc (size (marks n)) = ap size e in
    ground (arith, sizes, size-marks m, size-marks n)

abbrev is_dotted : String → Bool
is_dotted String.[] = false
is_dotted (String.◌∷◌ c s) = code c == 46

undotted-IsApart : (p : String) → is_dotted p ≡ false → IsApart (λ n. n == 4) backup_name p
undotted-IsApart p e n q = elim (Bool-cases (str_eq p (backup_name n q))) [
  | inl i ↦
      let dotted : is_dotted p ≡ true = ap is_dotted ((eq_iff p (backup_name n q)).0 i) in
      absurd (ground (arith, e, dotted))
  | inr i ↦ i
]

-- a.txt is changed, and b.txt is changed and becomes c.txt
abbrev edit : StagedChange
edit = record {
  plan = record {
    old_path = "a.txt";
    new_path = "a.txt";
    content = "two";
    mode = 420;
    is_delete = false;
  };
  temp_path = "t1";
  old_backup = "";
  new_backup = "";
  old_moved = false;
  new_moved = false;
  new_written = false;
}

abbrev renaming : StagedChange
renaming = record {
  plan = record {
    old_path = "b.txt";
    new_path = "c.txt";
    content = "four";
    mode = 420;
    is_delete = false;
  };
  temp_path = "t2";
  old_backup = "";
  new_backup = "";
  old_moved = false;
  new_moved = false;
  new_written = false;
}

abbrev staged_files : Nodes
staged_files = put "t1" (some (file "two" 420)) (put "t2" (some (file "four" 420)) (λ p. none))

abbrev files : Nodes
files = put "a.txt" (some (file "one" 420)) (put "b.txt" (some (file "three" 420)) staged_files)

abbrev staged_disk : Disk
staged_disk = record { nodes = files; calls = 0; drawn = 0 }

-- the fifth call, which publishes c.txt, fails
abbrev fifth : ℕ → Bool
fifth n = n == 4

abbrev changes : List StagedChange
changes = edit ∷ renaming ∷ []

changes-IsStaged : All (IsStaged fifth backup_name (temporary_in changes)) changes
unfolding temporary_in
changes-IsStaged = (
  record {
    old_moved = refl;
    new_moved = refl;
    new_written = refl;
    old_backup = refl;
    new_backup = refl;
    apart_old = undotted-IsApart "a.txt" refl;
    apart_new = undotted-IsApart "a.txt" refl;
    apart_temp = undotted-IsApart "t1" refl;
    away_old = refl;
    away_new = refl;
    published_to = λ e. refl;
    published_from = λ e. refl;
  },
  (
    record {
      old_moved = refl;
      new_moved = refl;
      new_written = refl;
      old_backup = refl;
      new_backup = refl;
      apart_old = undotted-IsApart "b.txt" refl;
      apart_new = undotted-IsApart "c.txt" refl;
      apart_temp = undotted-IsApart "t2" refl;
      away_old = refl;
      away_new = refl;
      published_to = λ e. refl;
      published_from = λ e. refl;
    },
    tt,
  ),
)

staged_disk-IsFresh : IsFresh fifth backup_name staged_disk
staged_disk-IsFresh n p le =
    rw
      (
        undotted-IsApart "a.txt" refl n p,
        undotted-IsApart "b.txt" refl n p,
        undotted-IsApart "t1" refl n p,
        undotted-IsApart "t2" refl n p,
      )
      refl

put-plain :
    (k t : String) (m : ℕ) (f : Nodes) (p : String)
    → is_directory (f p) ≡ false
    → is_directory (put k (some (file t m)) f p) ≡ false
put-plain k t m f p e = elim (Bool-cases (str_eq k p)) [ inl i ↦ rw i refl | inr i ↦ rw i e ]

staged_disk-IsPlain : IsPlain (temporary_in changes) staged_disk.nodes
staged_disk-IsPlain p at =
    put-plain "a.txt" "one" 420 (put "b.txt" (some (file "three" 420)) staged_files) p (
      put-plain "b.txt" "three" 420 staged_files p (
        put-plain "t1" "two" 420 (put "t2" (some (file "four" 420)) (λ q. none)) p
          (put-plain "t2" "four" 420 (λ q. none) p refl)))

commit_fails : (commit fifth backup_name changes staged_disk).2 ≡ false
unfolding commit set_old_aside set_new_aside publish rename lstat
commit_fails = refl

calls_after : (commit fifth backup_name changes staged_disk).1.calls ≡ 5
unfolding commit set_old_aside set_new_aside publish rename lstat
calls_after = refl

after-IsQuiet : IsQuiet fifth backup_name (commit fifth backup_name changes staged_disk).1
after-IsQuiet n le = ground (arith, le, calls_after)

commit_or_rollback_restores_example :
    ((commit_or_rollback fifth backup_name changes staged_disk).1 ≡ false)
    × IsLike
        (temporary_in changes)
        staged_disk.nodes
        (commit_or_rollback fifth backup_name changes staged_disk).0.nodes
commit_or_rollback_restores_example =
    commit_or_rollback_restores fifth backup_name changes staged_disk backups_differ
      staged_disk-IsFresh changes-IsStaged staged_disk-IsPlain after-IsQuiet commit_fails
