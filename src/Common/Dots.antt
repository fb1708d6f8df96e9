-- ===== src/Common/Dots.antt =====
-- Dotted paths: `strings.Split(s, ".")`.
use Prim.Native.Char.{Char, code}
use Prim.Native.String.{String, ◌++◌ as append}
use Prim.Native.String.append
use mathlib.Core.Path.{◌≡◌, refl, ap, ◌∙◌}
use mathlib.Core.Bool.{Bool, true, false, not, ◌&&◌}
use mathlib.Core.List.{List, [], ◌∷◌}
use mathlib.Core.Logic.{inl, inr}
use matrixctrl.Common.Tests.{Bool-cases, ◌==◌, if◌then◌else◌}

abbrev pub onto_first : Char → List String → List String
onto_first c [] = String.◌∷◌ c String.[] ∷ []
onto_first c (s ∷ rest) = String.◌∷◌ c s ∷ rest

unfoldable pub split_dots : String → List String
split_dots String.[] = String.[] ∷ []
split_dots (String.◌∷◌ c s) =
    let rest = split_dots s in if code c == b'.' then String.[] ∷ rest else onto_first c rest

abbrev pub has_no_dot : String → Bool
has_no_dot String.[] = true
has_no_dot (String.◌∷◌ c s) = not (code c == b'.') && has_no_dot s

pub append-nil_left : (t : String) → append String.[] t ≡ t
append-nil_left t i = append.nil t i

pub append-cons : (c : Char) (s t : String) → append (String.◌∷◌ c s) t ≡ String.◌∷◌ c (append s t)
append-cons c s t i = append.cons c s t i

dot-append : (t : String) → split_dots (append "." t) ≡ String.[] ∷ split_dots t
unfolding split_dots
dot-append t = ap split_dots (append-cons "." String.[] t ∙ ap (String.◌∷◌ ".") (append-nil_left t))

-- A first part without a dot is split off.
pub split_dots-append :
    (s t : String) → has_no_dot s ≡ true → split_dots (append s (append "." t)) ≡ s ∷ split_dots t
unfolding split_dots
split_dots-append String.[] t h = ap split_dots (append-nil_left (append "." t)) ∙ dot-append t
split_dots-append (String.◌∷◌ c s) t h = elim (Bool-cases (code c == b'.')) [
  | inl e ↦ cc (rw e at h)
  | inr e ↦
      ap split_dots (append-cons c s (append "." t))
      ∙ rw (e, split_dots-append s t (rw e at h)) refl
]

abbrev pub is_cons : List String → Bool
is_cons [] = false
is_cons (s ∷ path) = true

is_cons-onto_first : (c : Char) (path : List String) → is_cons (onto_first c path) ≡ true
is_cons-onto_first c [] = refl
is_cons-onto_first c (s ∷ path) = refl

-- There is always a first part.
pub split_dots-is_cons : (s : String) → is_cons (split_dots s) ≡ true
unfolding split_dots
split_dots-is_cons String.[] = refl
split_dots-is_cons (String.◌∷◌ c s) = elim (Bool-cases (code c == b'.')) [
  | inl e ↦ rw e refl
  | inr e ↦ rw e (is_cons-onto_first c (split_dots s))
]
