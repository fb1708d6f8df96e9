-- ===== src/ImagePin/Order.antt =====
-- About `isOlder` of internal/imagepin/imagepin.go.
use matrixctrl.Common.{
  ℕ, ◌<◌, ◌↔◌, ◌==◌, ◌++◌, subst, false≢true, ◌≡◌, refl, sym, ap, ◌∙◌, ◌⊎◌, inl, inr, String,
  Bool-cases, true, false, List, [], ◌∷◌, str_eq, str_eq_self, eq_iff, ==_iff, arith,
}
use matrixctrl.ImagePin.Tags.{prefix_of, numbers, older_numbers, has_numbers, is_older}

older_numbers_irrefl : (an : List ℕ) → older_numbers an an ≡ false
unfolding older_numbers
older_numbers_irrefl [] = refl
older_numbers_irrefl (m ∷ an) = ground (arith, older_numbers_irrefl an)

older_numbers_trans :
    (an bn cn : List ℕ)
    → older_numbers an bn ≡ true
    → older_numbers bn cn ≡ true
    → older_numbers an cn ≡ true
unfolding older_numbers
older_numbers_trans [] [] cn h k = k
older_numbers_trans [] (n ∷ bn) [] h k = cc k
older_numbers_trans [] (n ∷ bn) (l ∷ cn) h k = refl
older_numbers_trans (m ∷ an) [] cn h k = cc h
older_numbers_trans (m ∷ an) (n ∷ bn) [] h k = cc k
older_numbers_trans (m ∷ an) (n ∷ bn) (l ∷ cn) h k = ground (arith, older_numbers_trans an bn cn)

-- Two tags of the same lead-in, both with a number.
unfoldable pub IsComparable : String → String → Type 0
IsComparable a b =
    (prefix_of a ≡ prefix_of b)
    × (has_numbers (numbers a) ≡ true)
    × (has_numbers (numbers b) ≡ true)

abbrev pub IsOlder : String → String → Type 0
IsOlder a b = is_older a b ≡ (true, true)

older_numbers_cases :
    (an bn : List ℕ) → (older_numbers an bn ≡ true) ⊎ ((older_numbers bn an ≡ true) ⊎ (an ≡ bn))
unfolding older_numbers
older_numbers_cases [] [] = inr (inr refl)
older_numbers_cases [] (n ∷ bn) = inl refl
older_numbers_cases (m ∷ an) [] = inr (inl refl)
older_numbers_cases (m ∷ an) (n ∷ bn) =
    ground (arith, older_numbers_cases an bn, ==_iff m n, ==_iff n m)

is_older-comparable :
    (a b : String) → IsComparable a b → is_older a b ≡ (older_numbers (numbers a) (numbers b), true)
unfolding is_older IsComparable
is_older-comparable a b (p, m, n) = rw (m, n, p, str_eq_self (prefix_of b)) refl

is_older-IsComparable : (a b : String) → (is_older a b).1 ≡ true → IsComparable a b
unfolding is_older IsComparable
is_older-IsComparable a b h = elim (Bool-cases (has_numbers (numbers a))) [
  | inr m ↦ cc (rw m at h)
  | inl m ↦ elim (Bool-cases (has_numbers (numbers b))) [
    | inr n ↦ cc (rw (m, n) at h)
    | inl n ↦ elim (Bool-cases (str_eq (prefix_of a) (prefix_of b))) [
      | inr p ↦ cc (rw (m, n, p) at h)
      | inl p ↦ ((eq_iff (prefix_of a) (prefix_of b)).0 p, m, n)
    ]
  ]
]

IsComparable-sym : (a b : String) → IsComparable a b → IsComparable b a
unfolding IsComparable
IsComparable-sym a b (p, m, n) = (sym p, n, m)

IsComparable-trans : (a b c : String) → IsComparable a b → IsComparable b c → IsComparable a c
unfolding IsComparable
IsComparable-trans a b c (p, m, n) (q, k, l) = (p ∙ q, m, l)

pub IsOlder-parts :
    (a b : String) → IsOlder a b → IsComparable a b × (older_numbers (numbers a) (numbers b) ≡ true)
IsOlder-parts a b h =
    let c = is_older-IsComparable a b (ap (λ r. r.1) h) in
    (c, ap (λ r. r.0) (sym (is_older-comparable a b c) ∙ h))

IsOlder-of :
    (a b : String) → IsComparable a b → older_numbers (numbers a) (numbers b) ≡ true → IsOlder a b
IsOlder-of a b c h = is_older-comparable a b c ∙ ap (λ o. (o, true)) h

pub IsOlder-irrefl : (a : String) → IsOlder a a → ⊥
IsOlder-irrefl a h = cc ((IsOlder-parts a a h).1, older_numbers_irrefl (numbers a))

IsOlder-trans : (a b c : String) → IsOlder a b → IsOlder b c → IsOlder a c
IsOlder-trans a b c h k =
    let x = IsOlder-parts a b h in
    let y = IsOlder-parts b c k in
    IsOlder-of a c (IsComparable-trans a b c (x.0) (y.0))
      (older_numbers_trans (numbers a) (numbers b) (numbers c) (x.1) (y.1))

IsOlder-cases :
    (a b : String) → IsComparable a b → IsOlder a b ⊎ (IsOlder b a ⊎ (numbers a ≡ numbers b))
IsOlder-cases a b c = elim (older_numbers_cases (numbers a) (numbers b)) [
  | inl h ↦ inl (IsOlder-of a b c h)
  | inr h ↦ elim h [
    | inl k ↦ inr (inl (IsOlder-of b a (IsComparable-sym a b c) k))
    | inr e ↦ inr (inr e)
  ]
]

-- The first number on which two lists differ is smaller, or the list ends where the other goes on.
abbrev pub IsBelowAtHead : List ℕ → List ℕ → Type 0
IsBelowAtHead [] [] = ⊥
IsBelowAtHead [] (n ∷ bn) = Unit
IsBelowAtHead (m ∷ an) [] = ⊥
IsBelowAtHead (m ∷ an) (n ∷ bn) = m < n

-- The lists have a lead in common, and below it the one is below the other.
abbrev pub IsBelow : List ℕ → List ℕ → Type 0
IsBelow an bn =
    (lead : List ℕ) × (rest_a : List ℕ) × (rest_b : List ℕ) × (an ≡ lead ++ rest_a)
    × (bn ≡ lead ++ rest_b)
    × IsBelowAtHead rest_a rest_b

cons-IsBelow : (m : ℕ) (an bn : List ℕ) → IsBelow an bn → IsBelow (m ∷ an) (m ∷ bn)
cons-IsBelow m an bn (lead, rest_a, rest_b, ea, eb, h) =
    (m ∷ lead, rest_a, rest_b, ap (λ t. m ∷ t) ea, ap (λ t. m ∷ t) eb, h)

older_numbers-IsBelow : (an bn : List ℕ) → older_numbers an bn ≡ true → IsBelow an bn
unfolding older_numbers
older_numbers-IsBelow [] [] h = absurd (false≢true h)
older_numbers-IsBelow [] (n ∷ bn) h = ([], [], n ∷ bn, refl, refl, tt)
older_numbers-IsBelow (m ∷ an) [] h = absurd (false≢true h)
older_numbers-IsBelow (m ∷ an) (n ∷ bn) h = elim (Bool-cases (m == n)) [
  | inl e ↦
      subst (λ k. IsBelow (m ∷ an) (k ∷ bn)) ((==_iff m n).0 e)
        (cons-IsBelow m an bn (older_numbers-IsBelow an bn (rw e at h)))
  | inr e ↦ ([], m ∷ an, n ∷ bn, refl, refl, ground arith)
]

older_numbers-append :
    (lead an bn : List ℕ) → IsBelowAtHead an bn → older_numbers (lead ++ an) (lead ++ bn) ≡ true
unfolding older_numbers
older_numbers-append [] [] [] h = absurd h
older_numbers-append [] [] (n ∷ bn) h = refl
older_numbers-append [] (m ∷ an) [] h = absurd h
older_numbers-append [] (m ∷ an) (n ∷ bn) h = ground arith
older_numbers-append (k ∷ lead) an bn h = ground (arith, older_numbers-append lead an bn h)

IsBelow-older_numbers : (an bn : List ℕ) → IsBelow an bn → older_numbers an bn ≡ true
IsBelow-older_numbers an bn (lead, rest_a, rest_b, ea, eb, h) =
    rw (ea, eb) (older_numbers-append lead rest_a rest_b h)

IsOlder-IsBelow :
    (a b : String) → IsOlder a b ↔ (IsComparable a b × IsBelow (numbers a) (numbers b))
IsOlder-IsBelow a b = (
  λ h. let (c, o) = IsOlder-parts a b h in (c, older_numbers-IsBelow (numbers a) (numbers b) o),
  λ (c, o). IsOlder-of a b c (IsBelow-older_numbers (numbers a) (numbers b) o),
)

-- A tag is older than another exactly if both have a number, their lead-ins are the same, and of the
-- numbers read from them the first ones to differ are the smaller and the greater, or the first has all
-- its numbers in common with the other, which has more. No tag is older than itself; a tag older than another is older than what that one is older than; and
-- of two tags with a number and the same lead-in, one is older unless they have the same numbers.
pub is_older_lem :
    (a b c : String)
    → (IsOlder a b ↔ (IsComparable a b × IsBelow (numbers a) (numbers b)))
      × (IsOlder a a → ⊥)
      × (IsOlder a b → IsOlder b c → IsOlder a c)
      × (IsComparable a b → IsOlder a b ⊎ (IsOlder b a ⊎ (numbers a ≡ numbers b)))
is_older_lem a b c = (IsOlder-IsBelow a b, IsOlder-irrefl a, IsOlder-trans a b c, IsOlder-cases a b)
