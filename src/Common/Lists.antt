-- ===== src/Common/Lists.antt =====
-- Lists over the native numbers, predicates on lists, and association lists with text keys.
use Prim.Native.Nat.{ℕ, zero, suc, ◌+◌, ◌≤◌}
use Prim.Native.String.{String}
use mathlib.Core.Path.{◌≡◌, refl}
use mathlib.Core.Bool.{Bool, false, ◌||◌}
use mathlib.Core.Option.{Option, none, some}
use mathlib.Core.List.{List, [], ◌∷◌, ◌++◌}
use native.Mathlib.Omega.{arith}
use text.Mathlib.Text.{◌==◌ as str_eq}
use text.Mathlib.TextEquality.{eq_iff}
use matrixctrl.Common.Tests.{if◌then◌else◌}

module _ {ℓ} {A : Type ℓ} where
  abbrev pub length : List A → ℕ
  length [] = 0
  length (x ∷ xs) = suc (length xs)

  abbrev pub take : ℕ → List A → List A
  take zero xs = []
  take (suc n) [] = []
  take (suc n) (x ∷ xs) = x ∷ take n xs

  pub length-take : (n : ℕ) (xs : List A) → length (take n xs) ≤ n
  length-take zero xs = omega arith
  length-take (suc n) [] = omega arith
  length-take (suc n) (x ∷ xs) = omega (arith, length-take n xs)

  pub length-append : (xs ys : List A) → length (xs ++ ys) ≡ length xs + length ys
  length-append [] ys = omega arith
  length-append (x ∷ xs) ys = omega (arith, length-append xs ys)

-- Every element satisfies `P`.
abbrev pub All {ℓ κ} : {A : Type ℓ} → (A → Type κ) → List A → Type κ
All P [] = Unit
All P (x ∷ xs) = P x × All P xs

abbrev pub has_text : String → List String → Bool
has_text k [] = false
has_text k (j ∷ xs) = str_eq j k || has_text k xs

-- A Go map with string keys is an association list: `m[k]`, `m[k] = v` and `delete(m, k)`.
module _ {ℓ} {V : Type ℓ} where
  unfoldable pub delete : String → List (String × V) → List (String × V)
  delete key [] = []
  delete key ((k, old) ∷ entries) =
      let rest = delete key entries in if str_eq k key then rest else (k, old) ∷ rest

  unfoldable pub insert : String → V → List (String × V) → List (String × V)
  insert key value [] = (key, value) ∷ []
  insert key value ((k, old) ∷ entries) =
      if str_eq k key then (key, value) ∷ entries else (k, old) ∷ insert key value entries

  unfoldable pub lookup : String → List (String × V) → Option V
  lookup key [] = none
  lookup key ((k, value) ∷ entries) = if str_eq k key then some value else lookup key entries

  pub lookup-delete :
      (key other : String) (entries : List (String × V))
      → lookup other (delete key entries)
        ≡ (if str_eq key other then none else lookup other entries)
  unfolding lookup delete
  lookup-delete key other [] = ground arith
  lookup-delete key other ((k, v) ∷ entries) =
      ground
        (arith, lookup-delete key other entries, eq_iff key other, eq_iff k key, eq_iff k other)

  pub lookup-insert :
      (key other : String) (value : V) (entries : List (String × V))
      → lookup other (insert key value entries)
        ≡ (if str_eq key other then some value else lookup other entries)
  unfolding insert lookup
  lookup-insert key other value [] = refl
  lookup-insert key other value ((k, v) ∷ entries) =
      ground (
        arith,
        lookup-insert key other value entries,
        eq_iff k key,
        eq_iff k other,
        eq_iff key other,
      )
