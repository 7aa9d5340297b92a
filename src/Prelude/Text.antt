-- ===== src/Prelude/Text.antt =====
-- The parts of Go's `strings` that the program uses, over the native texts.
use Prim.Native.Nat.{ℕ, zero, suc, ◌/◌, ◌%◌}
use Prim.Native.Char.{Char, code}
use Prim.Native.String.{String, ◌++◌ as append}
use mathlib.Core.Path.{◌≡◌, refl}
use mathlib.Core.Bool.{Bool, false, not, ◌||◌, ◌&&◌}
use mathlib.Core.List.{List, [], ◌∷◌}
use text.Mathlib.Text.{◌==◌ as str_eq}
use alt_tui.Prelude.Tests.{leb, ◌==◌, if◌then◌else◌}

-- unicode.IsSpace
is_space : ℕ → Bool
is_space c =
    (leb 9 c && leb c 13)
    || c == 32
    || c == 0x85
    || c == 0xa0
    || c == 0x1680
    || (leb 0x2000 c && leb c 0x200a)
    || c == 0x2028
    || c == 0x2029
    || c == 0x202f
    || c == 0x205f
    || c == 0x3000

trim_left : String → String
unfolding is_space
trim_left String.[] = ""
trim_left (String.◌∷◌ c s) = if is_space (code c) then trim_left s else String.◌∷◌ c s

-- `c` before a text that is already trimmed at its end
keep_before : Char → String → String
unfolding is_space
keep_before c String.[] = if is_space (code c) then "" else String.◌∷◌ c ""
keep_before c (String.◌∷◌ d s) = String.◌∷◌ c (String.◌∷◌ d s)

trim_right : String → String
unfolding keep_before
trim_right String.[] = ""
trim_right (String.◌∷◌ c s) = keep_before c (trim_right s)

-- strings.TrimSpace
unfoldable pub trim_space : String → String
unfolding trim_left trim_right
trim_space s = trim_right (trim_left s)

trim_space_test : trim_space "  a b\t\n" ≡ "a b"
unfolding trim_space
trim_space_test = refl

-- strings.TrimSpace(s) == ""
abbrev pub is_blank : String → Bool
is_blank s = str_eq (trim_space s) ""

-- strings.Join(parts, "")
unfoldable pub concat : List String → String
concat [] = ""
concat (s ∷ rest) = append s (concat rest)

digit : ℕ → String
digit d =
    if d == 0
    then "0"
    else if d == 1
    then "1"
    else if d == 2
    then "2"
    else if d == 3
    then "3"
    else if d == 4
    then "4"
    else if d == 5
    then "5"
    else if d == 6
    then "6"
    else if d == 7
    then "7"
    else if d == 8
    then "8"
    else "9"

decimal : ℕ → ℕ → String → String
unfolding digit
decimal zero n tail = tail
decimal (suc fuel) n tail =
    let rest = decimal fuel (n / 10) (append (digit (n % 10)) tail) in
    if leb n 9 then append (digit n) tail else rest

-- fmt's %d of a number that is not negative; a number has no more digits than `n + 1`
unfoldable pub itoa : ℕ → String
unfolding decimal
itoa n = decimal (suc n) n ""

-- `word` is the text of the word that is being read, `open` tells that there is one
fields_from : Bool → String → String → List String
unfolding is_space
fields_from reading word String.[] = if reading then word ∷ [] else []
fields_from reading word (String.◌∷◌ c s) =
    let space = is_space (code c) in
    let rest =
      fields_from (not space) (if space then "" else append word (String.◌∷◌ c String.[])) s in
    if space && reading then word ∷ rest else rest

-- strings.Fields
unfoldable pub fields : String → List String
unfolding fields_from
fields s = fields_from false "" s

-- strings.Join(parts, separator)
unfoldable pub join : String → List String → String
join separator [] = ""
join separator (s ∷ []) = s
join separator (s ∷ t ∷ rest) = append s (append separator (join separator (t ∷ rest)))

text_test :
    (itoa 1204 ≡ "1204")
    × (itoa 0 ≡ "0")
    × (join " " (fields " a  bc d ") ≡ "a bc d")
    × (concat ("x[" ∷ itoa 7 ∷ "]" ∷ []) ≡ "x[7]")
unfolding itoa fields join concat
text_test = (refl, refl, refl, refl)
