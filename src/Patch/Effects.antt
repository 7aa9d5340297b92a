-- ===== src/Patch/Effects.antt =====
-- internal/tooling/patch.go: what the steps of rollback take back.
use text.Mathlib.Text.{◌==◌ as str_eq}
use alt_tui.Prelude.{
  ℕ, ◌≤◌, String, ◌≡◌, refl, sym, ap, ◌∙◌, inl, inr, Option, none, some, Bool, true, false, ◌||◌,
  ◌&&◌, arith, eq_iff, Bool-cases, if◌then◌else◌,
}
use alt_tui.Patch.{Node, Nodes, Disk, put, has_path, is_directory, rename, remove}

-- The nodes are those of `f`, but for the paths of `gone`, where there is nothing.
abbrev pub IsLike : (String → Bool) → Nodes → Nodes → Type 0
IsLike gone f g = (p : String) → g p ≡ (if gone p then none else f p)

-- what a rename to a backup made of the nodes
abbrev pub Aside : Bool → String → String → Nodes → Nodes → Type 0
Aside true a b f g =
    (n : Node) × (f a ≡ some n)
    × (f b ≡ none)
    × (str_eq a b ≡ false)
    × (g ≡ put b (some n) (put a none f))
Aside false a b f g = g ≡ f

-- what the publication of a staged file made of them
abbrev pub Written : Bool → String → String → Nodes → Nodes → Type 0
Written true temp new f g =
    (n : Node) × (has_path temp ≡ true)
    × (f temp ≡ some n)
    × (is_directory (some n) ≡ false)
    × (f new ≡ none)
    × (g ≡ put new (some n) (put temp none f))
Written false temp new f g = g ≡ f

module _ (faults : ℕ → Bool) (backup_path : ℕ → String → String) where
  -- no call fails from now on
  abbrev pub IsQuiet : Disk → Type 0
  IsQuiet d = (n : ℕ) → d.calls ≤ n → faults n ≡ false

  pub rename-IsQuiet :
      (a b : String) (d : Disk) → IsQuiet d → IsQuiet (rename faults backup_path a b d).0
  unfolding rename
  rename-IsQuiet a b d q n le = q n (elim (Bool-cases (faults d.calls)) [
    | inl e ↦ absurd (ground (arith, q d.calls, e))
    | inr e ↦ ground (arith, le, e)
  ])

  pub remove-IsQuiet : (p : String) (d : Disk) → IsQuiet d → IsQuiet (remove faults backup_path p d)
  unfolding remove
  remove-IsQuiet p d q n le = q n (ground (arith, le))

  -- a rename back from a backup
  rename_back :
      (gone : String → Bool) (a b : String) (n : Node) (f : Nodes) (d : Disk)
      → IsQuiet d
      → gone a ≡ false
      → gone b ≡ false
      → f a ≡ some n
      → f b ≡ none
      → str_eq a b ≡ false
      → IsLike gone (put b (some n) (put a none f)) d.nodes
      → IsLike gone f (rename faults backup_path b a d).0.nodes
  unfolding rename
  rename_back gone a b n f d q ga gb fa fb apart like p =
      let from : d.nodes b ≡ some n = like b ∙ ground (arith, gb, (eq_iff b b).1 refl) in
      let to : d.nodes a ≡ none =
        like a ∙ ground (arith, ga, apart, eq_iff b a, eq_iff a b, (eq_iff a a).1 refl) in
      let runs : faults d.calls ≡ false = q d.calls (ground arith) in
      rw (runs, from, to)
        (elim (Bool-cases (str_eq a p)) [
          | inl e ↦
              rw e
                (sym (ap (λ i. if gone i then none else f i) (sym ((eq_iff a p).0 e)) ∙ rw ga fa))
          | inr e ↦ elim (Bool-cases (str_eq b p)) [
            | inl i ↦
                rw (e, i)
                  (sym (ap (λ j. if gone j then none else f j) (sym ((eq_iff b p).0 i)) ∙ rw gb fb))
            | inr i ↦ rw (e, i) (like p ∙ rw (i, e) refl)
          ]
        ])

  pub Aside-undone :
      (moved : Bool) (gone : String → Bool) (a b : String) (f g : Nodes) (d : Disk)
      → IsQuiet d
      → gone a ≡ false
      → gone b ≡ false
      → Aside moved a b f g
      → IsLike gone g d.nodes
      → IsLike gone f (if moved then (rename faults backup_path b a d).0 else d).nodes
        × IsQuiet (if moved then (rename faults backup_path b a d).0 else d)
  Aside-undone false gone a b f g d q ga gb same like =
      (λ p. like p ∙ ap (λ h. if gone p then none else h p) same, q)
  Aside-undone true gone a b f g d q ga gb (n, fa, fb, apart, same) like = (
    rename_back gone a b n f d q ga gb fa fb apart
        (λ p. like p ∙ ap (λ h. if gone p then none else h p) same),
    rename-IsQuiet b a d q,
  )

  -- a path of a temporary file, besides those that are gone
  abbrev pub and_temp : String → (String → Bool) → String → Bool
  and_temp temp gone p = (has_path temp && str_eq temp p) || gone p

  pub Written-undone :
      (written : Bool) (gone : String → Bool) (temp new : String) (f g : Nodes) (d : Disk)
      → IsQuiet d
      → gone new ≡ false
      → Written written temp new f g
      → IsLike gone g d.nodes
      → IsLike
          (if written then and_temp temp gone else gone)
          f
          (if written then remove faults backup_path new d else d).nodes
        × IsQuiet (if written then remove faults backup_path new d else d)
  unfolding remove
  Written-undone false gone temp new f g d q gn same like =
      (λ p. like p ∙ ap (λ h. if gone p then none else h p) same, q)
  Written-undone true gone temp new f g d q gn (n, has, ft, plain, fn, same) like =
      let like' : IsLike gone (put new (some n) (put temp none f)) d.nodes =
        λ p. like p ∙ ap (λ h. if gone p then none else h p) same in
      let runs : faults d.calls ≡ false = q d.calls (omega arith) in
      let at : d.nodes new ≡ some n = like' new ∙ rw (gn, (eq_iff new new).1 refl) refl in
      (
        λ p.
            rw (runs, at, plain)
              (elim (Bool-cases (str_eq new p)) [
                | inl e ↦
                    let nothing : f p ≡ none = ap f (sym ((eq_iff new p).0 e)) ∙ fn in
                    rw e (ground (arith, nothing))
                | inr e ↦ rw e (like' p ∙ rw e (ground (arith, has)))
              ]),
        remove-IsQuiet new d q,
      )

  pub temp_removed :
      (temp : String) (gone : String → Bool) (f : Nodes) (d : Disk)
      → IsQuiet d
      → (has_path temp ≡ true → is_directory (f temp) ≡ false)
      → IsLike gone f d.nodes
      → IsLike
          (and_temp temp gone)
          f
          (if has_path temp then remove faults backup_path temp d else d).nodes
        × IsQuiet (if has_path temp then remove faults backup_path temp d else d)
  unfolding remove
  temp_removed temp gone f d q plain like = elim (Bool-cases (has_path temp)) [
    | inr e ↦ rw e (λ p. like p, q)
    | inl e ↦
        let runs : faults d.calls ≡ false = q d.calls (omega arith) in
        let kind : is_directory (d.nodes temp) ≡ false =
          ap is_directory (like temp) ∙ either (gone temp) (f temp) (plain e) in
        rw e (λ p. rw (runs, kind) (ground (arith, like p)), remove-IsQuiet temp d q)
  ]
    where
      either :
          (b : Bool) (o : Option Node)
          → is_directory o ≡ false
          → is_directory (if b then none else o) ≡ false
      either true o h = refl
      either false o h = h
