-- ===== src/Common/Sort.antt =====
-- `sort.SliceStable`: a stable sort by a given `less`, as an insertion sort, with what it promises.
use Prim.Native.Nat.{ℕ, suc}
use mathlib.Core.Path.{◌≡◌, refl}
use mathlib.Core.Logic.{inl, inr}
use mathlib.Core.Bool.{Bool, true, false}
use mathlib.Core.List.{List, [], ◌∷◌}
use native.Mathlib.Omega.{arith}
use matrixctrl.Common.Tests.{Bool-cases, if◌then◌else◌}
use matrixctrl.Common.Lists.{All}

module _ {A : Type 0} (before : A → A → Bool) where
  -- `x` goes behind what comes before it, and ahead of what is level with it.
  unfoldable pub place : A → List A → List A
  place x [] = x ∷ []
  place x (y ∷ ys) = if before y x then y ∷ place x ys else x ∷ y ∷ ys

  unfoldable pub stable_sort : List A → List A
  stable_sort [] = []
  stable_sort (x ∷ xs) = place x (stable_sort xs)

  -- No element comes before one that stands ahead of it.
  abbrev pub IsOrdered : List A → Type 0
  IsOrdered [] = Unit {0}
  IsOrdered (x ∷ xs) = All (λ y. before y x ≡ false) xs × IsOrdered xs

  -- How many elements pass a test.
  abbrev pub tally : (A → Bool) → List A → ℕ
  tally p [] = 0
  tally p (x ∷ xs) = if p x then suc (tally p xs) else tally p xs

  tally-place : (p : A → Bool) (x : A) (xs : List A) → tally p (place x xs) ≡ tally p (x ∷ xs)
  unfolding place
  tally-place p x [] = refl
  tally-place p x (y ∷ ys) = ground (arith, tally-place p x ys)

  -- The same elements, each as often: every test counts alike.
  pub tally-stable_sort : (p : A → Bool) (xs : List A) → tally p (stable_sort xs) ≡ tally p xs
  unfolding stable_sort
  tally-stable_sort p [] = refl
  tally-stable_sort p (x ∷ xs) =
      ground (arith, tally-place p x (stable_sort xs), tally-stable_sort p xs)

  module _ (antisym : (x y : A) → before x y ≡ true → before y x ≡ false)
      (negtrans : (x y z : A) → before y x ≡ false → before z y ≡ false → before z x ≡ false) where
    All-negtrans :
        (x y : A) (xs : List A)
        → before y x ≡ false
        → All (λ z. before z y ≡ false) xs
        → All (λ z. before z x ≡ false) xs
    All-negtrans x y [] h a = tt
    All-negtrans x y (z ∷ xs) h (hz, a) = (negtrans x y z h hz, All-negtrans x y xs h a)

    All-place :
        (x y : A) (xs : List A)
        → before x y ≡ false
        → All (λ z. before z y ≡ false) xs
        → All (λ z. before z y ≡ false) (place x xs)
    unfolding place
    All-place x y [] h a = (h, tt)
    All-place x y (z ∷ xs) h (hz, a) =
        elim (before z x)
          as (λ b. All (λ w. before w y ≡ false) (if b then z ∷ place x xs else x ∷ z ∷ xs)) [
            | true ↦ (hz, All-place x y xs h a)
            | false ↦ (h, (hz, a))
          ]

    place-IsOrdered : (x : A) (xs : List A) → IsOrdered xs → IsOrdered (place x xs)
    unfolding place
    place-IsOrdered x [] o = (tt, tt)
    place-IsOrdered x (y ∷ ys) o = elim (Bool-cases (before y x)) [
      | inl h ↦ rw h (All-place x y ys (antisym y x h) o.0, place-IsOrdered x ys o.1)
      | inr h ↦ rw h ((h, All-negtrans x y ys h o.0), o)
    ]

    pub stable_sort-IsOrdered : (xs : List A) → IsOrdered (stable_sort xs)
    unfolding stable_sort
    stable_sort-IsOrdered [] = tt
    stable_sort-IsOrdered (x ∷ xs) = place-IsOrdered x (stable_sort xs) (stable_sort-IsOrdered xs)
