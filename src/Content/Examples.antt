-- ===== src/Content/Examples.antt =====
-- Examples of payloads.
use alt_tui.Prelude.{◌≡◌, refl, none, some, [], ◌∷◌, ok}
use alt_tui.Prelude.Dict.{lookup, insert}
use alt_tui.Prelude.Text.{trim_space, concat, itoa}
use alt_tui.Profile.{contains_id}
use alt_tui.Content.{
  ArtifactRef, Payload, image, part_text, part_attachment, validate, index_artifacts, check_parts,
  check_part, check_attachment, check_referenced, ref_eq, display_text,
}
use alt_tui.Content.Payloads.{IsExact, validate-IsExact}

abbrev picture : ArtifactRef
picture = record {
  reference = "r1";
  kind = image;
  mime_type = "image/png";
  name = "a.png";
  digest = "d";
  byte_count = 3;
  width = 1;
  height = 1;
}

abbrev rich : Payload
rich = record {
  input =
      record { type = part_text; text = "see "; attachment = none }
      ∷ record { type = part_attachment; text = ""; attachment = some picture }
      ∷ [];
  artifacts = record { ref = picture; bytes = 1 ∷ 2 ∷ 3 ∷ [] } ∷ [];
}

rich-valid : validate rich ≡ ok tt
unfolding validate index_artifacts check_parts check_part check_attachment check_referenced ref_eq
    contains_id lookup insert trim_space
rich-valid = refl

rich-shown : display_text rich.input ≡ "see [Image #1]"
unfolding display_text concat itoa
rich-shown = refl

validate-IsExact_example : IsExact rich
validate-IsExact_example = validate-IsExact rich rich-valid
