-- ===== src/ModelSurface/Clean.antt =====
-- internal/orchestrator/model_surface.go: what the next turn of a conversation sends to the model
-- begins with what its surface holds.
use text.Mathlib.Text.{◌==◌ as str_eq}
use alt_tui.Prelude.{
  suc, String, ◌≡◌, refl, sym, ap, ◌∙◌, inl, inr, Option, none, some, Bool, true, false, not, [],
  ◌∷◌, ◌++◌, map, length, ltb, arith, eq_iff, Bool-cases, ◌==◌, if◌then◌else◌, length-append,
}
use mathlib.Core.List.{append_assoc, append-nil}
use alt_tui.Prelude.Dict.{Dict, remove}
use alt_tui.ModelSurface.{
  ModelMessage, Messages, Surface, SurfaceError, snapshot_message_required, user_message_required,
  sanitize, on_message, clean, clone_messages, take, without_system, with_message, with_snapshot,
  prepare_messages, have_prefix,
}

remove_twice : (k : String) (m : Dict String) → remove k (remove k m) ≡ remove k m
unfolding remove
remove_twice k [] = refl
remove_twice k ((j, v) ∷ m) = elim (Bool-cases (str_eq j k)) [
  | inl e ↦ rw e (remove_twice k m)
  | inr e ↦ rw e (rw e (ap (λ r. (j, v) ∷ r) (remove_twice k m)))
]

module _ (recode : ModelMessage → ModelMessage) (marshal : Messages → String) where
  -- a message that was decoded and cleaned is encoded and decoded to itself
  abbrev pub IsSettled : Type 0
  IsSettled = (m : ModelMessage) → recode (clean recode marshal m) ≡ clean recode marshal m

  clean-clean :
      IsSettled
      → (m : ModelMessage) → clean recode marshal (clean recode marshal m) ≡ clean recode marshal m
  clean-clean settled m =
      ap sanitize (settled m)
      ∙ ap (λ e. record (recode m) { response_meta = none; extra = e })
          (remove_twice "alt.cache_usage" (recode m).extra)

  pub clone_twice :
      IsSettled
      → (l : Messages)
      → clone_messages recode marshal (clone_messages recode marshal l)
        ≡ clone_messages recode marshal l
  clone_twice settled [] = refl
  clone_twice settled (none ∷ l) = ap (λ r. none ∷ r) (clone_twice settled l)
  clone_twice settled (some m ∷ l) =
      rw (clean-clean settled m)
        (ap (λ r. some (clean recode marshal m) ∷ r) (clone_twice settled l))

  take_all : (l more : Messages) → take (length l) (l ++ more) ≡ l
  take_all [] more = refl
  take_all (m ∷ l) more = ap (λ r. m ∷ r) (take_all l more)

  length-clone : (l : Messages) → length (clone_messages recode marshal l) ≡ length l
  length-clone [] = refl
  length-clone (m ∷ l) = ap suc (length-clone l)

  abbrev Begins : Messages → Option SurfaceError × Messages → Type 0
  Begins seen r = r.0 ≡ none → (more : Messages) × (r.1 ≡ seen ++ more)

  with_message-Begins :
      (m : Option ModelMessage) (e : SurfaceError) (seen l : Messages)
      → (more : Messages) × (l ≡ seen ++ more)
      → Begins seen (with_message recode marshal m e l)
  with_message-Begins none e seen l b h = absurd (cc h)
  with_message-Begins (some m) e seen l (more, same) h =
      let last : Messages = some (clean recode marshal m) ∷ [] in
      (more ++ last, ap (λ r. r ++ last) same ∙ append_assoc seen more last)

  with_snapshot-Begins :
      (changed : Bool) (snapshot : Option ModelMessage) (seen : Messages)
      (r : Option SurfaceError × Messages)
      → Begins seen r
      → Begins seen (with_snapshot recode marshal changed snapshot r)
  with_snapshot-Begins changed snapshot seen (some e, l) b h = absurd (cc h)
  with_snapshot-Begins false snapshot seen (none, l) b h = b h
  with_snapshot-Begins true snapshot seen (none, l) b h =
      with_message-Begins snapshot snapshot_message_required seen l (b refl) h

  -- what prepare_messages answers begins with what the surface holds after its system message
  pub prepared-begins :
      (s : Surface) (session_id : String) (user snapshot : Option ModelMessage)
      (snapshot_digest : String) (l : Messages)
      → prepare_messages recode marshal s session_id user snapshot snapshot_digest ≡ (none, l)
      → (more : Messages) × (l ≡ without_system (clone_messages recode marshal s.messages) ++ more)
  unfolding prepare_messages
  prepared-begins s session_id user snapshot snapshot_digest l e =
      let seen = without_system (clone_messages recode marshal s.messages) in
      let whole : (more : Messages) × (seen ≡ seen ++ more) = ([], sym (append-nil seen)) in
      let first : Begins seen (
          if not (str_eq s.last_session_id session_id)
          then with_message recode marshal user user_message_required seen
          else (none, seen)) =
        elim (Bool-cases (not (str_eq s.last_session_id session_id))) [
          | inl i ↦ rw i (with_message-Begins user user_message_required seen seen whole)
          | inr i ↦ rw i (λ h. whole)
        ] in
      let (more, same) =
        with_snapshot-Begins (not (str_eq snapshot_digest s.last_snapshot_digest)) snapshot seen _
          first (ap (λ r. r.0) e) in
      (more, sym (ap (λ r. r.1) e) ∙ same)

  -- a list that goes on from the messages of a surface has them as a prefix
  pub have_prefix-clone :
      IsSettled
      → (l more : Messages)
      → have_prefix recode marshal (l ++ more) (clone_messages recode marshal l) ≡ true
  unfolding have_prefix
  have_prefix-clone settled l more =
      elim (Bool-cases (length (clone_messages recode marshal l) == 0)) [
        | inl e ↦ rw e refl
        | inr e ↦
            let long : ltb (length (l ++ more)) (length (clone_messages recode marshal l)) ≡ false =
              ground (arith, length-append l more, length-clone l) in
            let first : take (length (clone_messages recode marshal l)) (l ++ more) ≡ l =
              ap (λ n. take n (l ++ more)) (length-clone l) ∙ take_all l more in
            rw (e, long, first, clone_twice settled l)
              ((eq_iff (marshal (map (on_message sanitize) (clone_messages recode marshal l))) _).1
                refl)
      ]
