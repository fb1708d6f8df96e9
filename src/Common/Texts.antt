-- ===== src/Common/Texts.antt =====
-- Functions of package strings on texts, for code that takes short texts apart.
use Prim.Native.Nat.{ℕ}
use Prim.Native.Char.{Char, code}
use Prim.Native.String.{String, ◌++◌ as append}
use mathlib.Core.Bool.{Bool, ◌&&◌, ◌||◌}
use mathlib.Core.Option.{Option, none, some}
use mathlib.Core.List.{List, [], ◌∷◌}
use text.Mathlib.Text.{◌==◌ as str_eq}
use matrixctrl.Common.Tests.{◌==◌, if◌then◌else◌}
use matrixctrl.Common.Dots.{onto_first}

-- `strings.Split` at one character.
unfoldable pub split_at : ℕ → String → List String
split_at sep String.[] = String.[] ∷ []
split_at sep (String.◌∷◌ c s) =
    let rest = split_at sep s in if code c == sep then String.[] ∷ rest else onto_first c rest

-- `strings.Join`
unfoldable pub join_with : String → List String → String
join_with sep [] = ""
join_with sep (s ∷ []) = s
join_with sep (s ∷ t ∷ rest) = append s (append sep (join_with sep (t ∷ rest)))

abbrev pub onto_left : Char → Option (String × String) → Option (String × String)
onto_left c none = none
onto_left c (some (a, b)) = some (String.◌∷◌ c a, b)

-- `strings.Cut` at one character.
unfoldable pub cut_at : ℕ → String → Option (String × String)
cut_at sep String.[] = none
cut_at sep (String.◌∷◌ c s) =
    let rest = cut_at sep s in if code c == sep then some (String.[], s) else onto_left c rest

-- `s[1:]` of a text that is not empty, by its first character.
abbrev pub after_first : String → String
after_first String.[] = String.[]
after_first (String.◌∷◌ c s) = s

-- What is before a last character that is the one given, if it is.
unfoldable pub before_last : ℕ → String → Option String
before_last last String.[] = none
before_last last (String.◌∷◌ c String.[]) = if code c == last then some String.[] else none
before_last last (String.◌∷◌ c (String.◌∷◌ d s)) = elim (before_last last (String.◌∷◌ d s)) [
  | none ↦ none
  | some rest ↦ some (String.◌∷◌ c rest)
]

-- `strings.ReplaceAll` of two characters.
unfoldable pub replace_pair : ℕ → ℕ → String → String → String
replace_pair a b new String.[] = String.[]
replace_pair a b new (String.◌∷◌ c String.[]) = String.◌∷◌ c String.[]
replace_pair a b new (String.◌∷◌ c (String.◌∷◌ d s)) =
    let replaced = append new (replace_pair a b new s) in
    let kept = String.◌∷◌ c (replace_pair a b new (String.◌∷◌ d s)) in
    if code c == a && code d == b then replaced else kept

-- `strings.ReplaceAll` of one character.
unfoldable pub replace_char : ℕ → String → String → String
replace_char a new String.[] = String.[]
replace_char a new (String.◌∷◌ c s) =
    let rest = replace_char a new s in if code c == a then append new rest else String.◌∷◌ c rest

-- What is behind the last of one character: `s[strings.LastIndex(s, "c")+1:]`.
abbrev pub last_of : List String → String
last_of [] = ""
last_of (s ∷ []) = s
last_of (s ∷ t ∷ rest) = last_of (t ∷ rest)

abbrev pub after_last : ℕ → String → String
after_last sep s = last_of (split_at sep s)

-- `strings.HasSuffix`
unfoldable pub ends_with : String → String → Bool
ends_with String.[] suffix = str_eq String.[] suffix
ends_with (String.◌∷◌ c s) suffix = str_eq (String.◌∷◌ c s) suffix || ends_with s suffix
