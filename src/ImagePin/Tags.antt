-- ===== src/ImagePin/Tags.antt =====
-- How internal/imagepin/imagepin.go compares two tags.
use Prim.Native.Char.{code}
use text.Mathlib.Text.{starts_with}
use matrixctrl.Common.{
  ℕ, ◌+◌, ◌-◌, ◌*◌, String, Bool, true, false, not, Option, none, some, List, [], ◌∷◌, ◌&&◌, ◌||◌,
  str_eq, ltb, leb, ◌==◌, if◌then◌else◌,
}
use matrixctrl.Common.Texts.{split_at, after_first}

abbrev pub is_digit : ℕ → Bool
is_digit c = leb b'0' c && leb c b'9'

-- The text before its first digit, and from it on.
unfoldable pub prefix_of : String → String
prefix_of String.[] = String.[]
prefix_of (String.◌∷◌ c s) =
    let rest = prefix_of s in if is_digit (code c) then String.[] else String.◌∷◌ c rest

unfoldable pub prefix_trim : String → String
prefix_trim String.[] = String.[]
prefix_trim (String.◌∷◌ c s) =
    let rest = prefix_trim s in if is_digit (code c) then String.◌∷◌ c s else rest

abbrev is_marker : ℕ → Bool
is_marker c = c == b'-' || (c == b'+' || c == b'_')

-- The part before one of `-+_`, if there is one.
unfoldable pub before_marker : String → Option String
before_marker String.[] = none
before_marker (String.◌∷◌ c s) =
    let rest = before_marker s in
    if is_marker (code c)
    then some String.[]
    else elim rest [ none ↦ none | some head ↦ some (String.◌∷◌ c head) ]

-- `strconv.Atoi` of a text without a sign, which a part cut at a marker has not.
unfoldable pub digits_from : ℕ → String → Option ℕ
digits_from n String.[] = some n
digits_from n (String.◌∷◌ c s) =
    let rest = digits_from (10 * n + (code c - b'0')) s in if is_digit (code c) then rest else none

abbrev max_int : ℕ
max_int = 9223372036854775807

abbrev in_range : Option ℕ → Option ℕ
in_range none = none
in_range (some n) = if leb n max_int then some n else none

abbrev pub atoi : String → Option ℕ
atoi s = if str_eq s "" then none else in_range (digits_from 0 s)

abbrev first_only : Option ℕ → List ℕ
first_only none = []
first_only (some n) = n ∷ []

-- The loop over the parts.
unfoldable pub numbers_of : List String → List ℕ
numbers_of [] = []
numbers_of (part ∷ parts) = elim (before_marker part) [
  | some head ↦ first_only (atoi head)
  | none ↦ elim (atoi part) [ none ↦ [] | some n ↦ n ∷ numbers_of parts ]
]

abbrev trim_dot : String → String
trim_dot s = if starts_with s "." then after_first s else s

-- `numbers`, which is in order if the list is not empty.
unfoldable pub numbers : String → List ℕ
numbers s = numbers_of (split_at b'.' (trim_dot (prefix_trim s)))

unfoldable pub older_numbers : List ℕ → List ℕ → Bool
older_numbers [] [] = false
older_numbers [] (n ∷ bn) = true
older_numbers (m ∷ an) [] = false
older_numbers (m ∷ an) (n ∷ bn) = if m == n then older_numbers an bn else ltb m n

abbrev pub has_numbers : List ℕ → Bool
has_numbers [] = false
has_numbers (n ∷ ns) = true

-- `older` and `comparable`.
unfoldable pub is_older : String → String → Bool × Bool
is_older a b =
    if not (has_numbers (numbers a)) || not (has_numbers (numbers b))
    then (false, false)
    else (if not (str_eq (prefix_of a) (prefix_of b))
        then (false, false)
        else (older_numbers (numbers a) (numbers b), true))
