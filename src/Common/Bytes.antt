-- ===== src/Common/Bytes.antt =====
-- Texts as lists of bytes, for code that takes them apart: Go's comparison, and the functions of
-- package strings that are about bytes.
use Prim.Native.Nat.{ℕ}
use Prim.Native.Char.{code}
use Prim.Native.String.{String}
use mathlib.Core.Path.{◌≡◌, refl, sym, ap, ◌∙◌}
use mathlib.Core.Logic.{◌↔◌, inl, inr}
use mathlib.Core.Bool.{Bool, true, false, ◌&&◌, ◌||◌}
use mathlib.Core.List.{List, [], ◌∷◌, ◌++◌}
use native.Mathlib.Omega.{arith}
use matrixctrl.Common.Tests.{Bool-cases, ==_iff, ltb, ◌==◌, if◌then◌else◌}

abbrev pub Bytes : Type 0
Bytes = List ℕ

-- A literal of ASCII characters.
abbrev pub ascii : String → Bytes
ascii String.[] = []
ascii (String.◌∷◌ ch rest) = code ch ∷ ascii rest

-- `a == b`
unfoldable pub same : Bytes → Bytes → Bool
same [] [] = true
same [] (y ∷ b) = false
same (x ∷ a) [] = false
same (x ∷ a) (y ∷ b) = x == y && same a b

-- `a < b`
unfoldable pub less : Bytes → Bytes → Bool
less [] [] = false
less [] (y ∷ b) = true
less (x ∷ a) [] = false
less (x ∷ a) (y ∷ b) = ltb x y || (x == y && less a b)

-- `strings.HasPrefix`
unfoldable pub has_prefix : Bytes → Bytes → Bool
has_prefix s [] = true
has_prefix [] (y ∷ p) = false
has_prefix (x ∷ s) (y ∷ p) = x == y && has_prefix s p

-- `strings.Contains`
unfoldable pub contains : Bytes → Bytes → Bool
contains [] part = has_prefix [] part
contains (x ∷ s) part = has_prefix (x ∷ s) part || contains s part

-- `strings.Join`
unfoldable pub join : Bytes → List Bytes → Bytes
join sep [] = []
join sep (s ∷ []) = s
join sep (s ∷ t ∷ rest) = s ++ (sep ++ join sep (t ∷ rest))

abbrev pub onto_first : ℕ → List Bytes → List Bytes
onto_first b [] = (b ∷ []) ∷ []
onto_first b (s ∷ rest) = (b ∷ s) ∷ rest

-- `strings.Split` at one byte.
unfoldable pub split : ℕ → Bytes → List Bytes
split sep [] = [] ∷ []
split sep (b ∷ s) = let rest = split sep s in if b == sep then [] ∷ rest else onto_first b rest

pub same_iff : (a b : Bytes) → (same a b ≡ true) ↔ (a ≡ b)
unfolding same
same_iff [] [] = (λ h. refl, λ h. refl)
same_iff [] (y ∷ b) = (λ h. cc, λ h. cc)
same_iff (x ∷ a) [] = (λ h. cc, λ h. cc)
same_iff (x ∷ a) (y ∷ b) = (λ h. ground (arith, same_iff a b), λ h. ground (arith, same_iff a b))

pub less_antisym : (a b : Bytes) → less a b ≡ true → less b a ≡ false
unfolding less
less_antisym [] [] h = cc
less_antisym [] (y ∷ b) h = refl
less_antisym (x ∷ a) [] h = cc
less_antisym (x ∷ a) (y ∷ b) h = ground (arith, less_antisym a b)

-- What is not before `a` bounds what is not before it.
pub less_negtrans : (a b c : Bytes) → less b a ≡ false → less c b ≡ false → less c a ≡ false
unfolding less
less_negtrans a [] [] h k = h
less_negtrans [] [] (z ∷ c) h k = refl
less_negtrans (x ∷ a) [] (z ∷ c) h k = cc
less_negtrans [] (y ∷ b) [] h k = refl
less_negtrans [] (y ∷ b) (z ∷ c) h k = refl
less_negtrans (x ∷ a) (y ∷ b) [] h k = cc
less_negtrans (x ∷ a) (y ∷ b) (z ∷ c) h k = ground (arith, less_negtrans a b c)

pub less_total : (a b : Bytes) → less a b ≡ false → less b a ≡ false → a ≡ b
unfolding less
less_total [] [] h k = refl
less_total [] (y ∷ b) h k = cc
less_total (x ∷ a) [] h k = cc
less_total (x ∷ a) (y ∷ b) h k = ground (arith, less_total a b)

split-ne-nil : (sep : ℕ) (s : Bytes) → (t : Bytes) × (rest : List Bytes) × (split sep s ≡ t ∷ rest)
unfolding split
split-ne-nil sep [] = ([], [], refl)
split-ne-nil sep (b ∷ s) = elim (Bool-cases (b == sep)) [
  | inl h ↦ ([], split sep s, rw h)
  | inr h ↦ let (t, rest, e) = split-ne-nil sep s in (b ∷ t, rest, rw (h, e))
]

join-onto_first :
    (sep : Bytes) (b : ℕ) (l : List Bytes) → join sep (onto_first b l) ≡ b ∷ join sep l
unfolding join
join-onto_first sep b [] = refl
join-onto_first sep b (s ∷ []) = refl
join-onto_first sep b (s ∷ t ∷ rest) = refl

join-empty_first :
    (sep : Bytes) (l : List Bytes) (t : Bytes) (rest : List Bytes)
    → l ≡ t ∷ rest
    → join sep ([] ∷ l) ≡ sep ++ join sep l
unfolding join
join-empty_first sep l t rest e = rw e refl

pub join-split : (sep : ℕ) (s : Bytes) → join (sep ∷ []) (split sep s) ≡ s
unfolding split
join-split sep [] = unfold join in refl
join-split sep (b ∷ s) = elim (Bool-cases (b == sep)) [
  | inl h ↦
      let (t, rest, e) = split-ne-nil sep s in
      rw h (
        join-empty_first (sep ∷ []) (split sep s) t rest e
        ∙ ap (λ r. sep ∷ r) (join-split sep s)
        ∙ ap (λ k. k ∷ s) (sym ((==_iff b sep).0 h)))
  | inr h ↦ rw h (join-onto_first (sep ∷ []) b (split sep s) ∙ ap (λ r. b ∷ r) (join-split sep s))
]
