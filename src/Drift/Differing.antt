-- ===== src/Drift/Differing.antt =====
-- Which paths `diff` of internal/drift/drift.go reports: those at which the two values differ.
use matrixctrl.Common.{
  ◌≡◌, refl, ap, ◌∙◌, inl, inr, String, Bool, Bool-cases, true, false, Option, none, some, List, [],
  ◌∷◌, ◌++◌, ◌&&◌, ◌||◌, not, has_text, str_eq, str_eq_self, eq_iff, arith, if◌then◌else◌,
}
use matrixctrl.Common.Sort.{place, stable_sort}
use matrixctrl.Common.Tree.{Value, null, object, Fields, end, field, find}
use matrixctrl.Common.Tree.Maps.{has_key, find-not_has_key}
use matrixctrl.Drift.Check.{
  join, as_map, value_or_null, gone, equal_json, diff_leaf, diff, diff_fields,
}

abbrev pub is_some : Option Fields → Bool
is_some none = false
is_some (some m) = true

abbrev pub join_all : String → List String → String
join_all prefix [] = prefix
join_all prefix (k ∷ q) = join_all (join prefix k) q

abbrev pub is_nil : List String → Bool
is_nil [] = true
is_nil (k ∷ q) = false

-- Each map in the value has each key once.
unfoldable mutual
  pub AreDistinct : Value → Type 0
  AreDistinct (object m) = AreDistinctFields m
  AreDistinct _ = Unit {0}

  pub AreDistinctFields : Fields → Type 0
  AreDistinctFields end = Unit {0}
  AreDistinctFields (field k v m) = (has_key k m ≡ false) × AreDistinct v × AreDistinctFields m

-- Both are maps: whether the key is gone and nothing follows it, or what is below it differs.
abbrev pub in_maps : String → Bool → (Value → Value → Bool) → Option Fields → Option Fields → Bool
in_maps k last below (some am) (some bm) =
    if has_key k am && not (has_key k bm)
    then last
    else below (value_or_null (find k am)) (value_or_null (find k bm))
in_maps k last below _ _ = false

pub not_last : (a last below : Bool) → (if a && not true then last else below) ≡ below
not_last a last below = ground arith

is_nil_lem : (q : List String) → is_nil q ≡ true → q ≡ []
is_nil_lem [] h = refl
is_nil_lem (k ∷ q) h = cc h

or_right : (a : Bool) {b : Bool} → b ≡ true → (a || b) ≡ true
or_right a h = ground arith

pub has_text-append :
    (p : String) (xs ys : List String) → has_text p (xs ++ ys) ≡ (has_text p xs || has_text p ys)
has_text-append p [] ys = refl
has_text-append p (x ∷ xs) ys = ground (arith, has_text-append p xs ys)

has_text-append_left :
    (p : String) (xs ys : List String) → has_text p xs ≡ true → has_text p (xs ++ ys) ≡ true
has_text-append_left p xs ys h = rw (has_text-append p xs ys, h) refl

has_text-append_right :
    (p : String) (xs ys : List String) → has_text p ys ≡ true → has_text p (xs ++ ys) ≡ true
has_text-append_right p xs ys h = ground (arith, has_text-append p xs ys)

has_text-place :
    (before : String → String → Bool) (p x : String) (xs : List String)
    → has_text p (place before x xs) ≡ (str_eq x p || has_text p xs)
unfolding place
has_text-place before p x [] = refl
has_text-place before p x (y ∷ ys) = ground (arith, has_text-place before p x ys)

pub has_text-stable_sort :
    (before : String → String → Bool) (p : String) (xs : List String)
    → has_text p (stable_sort before xs) ≡ has_text p xs
unfolding stable_sort
has_text-stable_sort before p [] = refl
has_text-stable_sort before p (x ∷ xs) =
    has_text-place before p x (stable_sort before xs)
    ∙ ap (λ b. str_eq x p || b) (has_text-stable_sort before p xs)

pub has_key-find : (k : String) (m : Fields) (v : Value) → find k m ≡ some v → has_key k m ≡ true
has_key-find k m v h = elim (Bool-cases (has_key k m)) [
  | inl e ↦ e
  | inr e ↦ cc (find-not_has_key k m e, h)
]

find-has_key : (k : String) (m : Fields) → has_key k m ≡ true → (v : Value) × (find k m ≡ some v)
unfolding find
find-has_key k end h = cc h
find-has_key k (field j v m) h = elim (Bool-cases (str_eq j k)) [
  | inl e ↦ (v, rw e refl)
  | inr e ↦ let r = find-has_key k m (rw e at h) in (r.0, rw e (r.1))
]

has_text-gone :
    (prefix k : String) (bm am : Fields)
    → has_key k am ≡ true
    → has_key k bm ≡ false
    → has_text (join prefix k) (gone prefix bm am) ≡ true
unfolding gone
has_text-gone prefix k bm end h n = cc h
has_text-gone prefix k bm (field j v am) h n = elim (Bool-cases (str_eq j k)) [
  | inl e ↦ rw ((eq_iff j k).0 e, n, str_eq_self (join prefix k)) refl
  | inr e ↦
      let ih = has_text-gone prefix k bm am (rw e at h) n in
      elim (Bool-cases (has_key j bm)) [
        | inl d ↦ rw d ih
        | inr d ↦ rw d (or_right (str_eq (join prefix j) (join prefix k)) ih)
      ]
]

module _ (json_text : Value → Option String) where
  -- The values differ at the path: there they are not both maps and have different texts, or the value
  -- is gone.
  unfoldable pub differs : List String → Value → Value → Bool
  differs [] a b = not (is_some (as_map a) && is_some (as_map b)) && not (equal_json json_text a b)
  differs (k ∷ q) a b = in_maps k (is_nil q) (differs q) (as_map a) (as_map b)

  abbrev pub with_maps : String → Value → Value → Option Fields → Option Fields → List String
  with_maps prefix a b (some am) (some bm) = diff_fields json_text prefix am bm ++ gone prefix bm am
  with_maps prefix a b _ _ = diff_leaf json_text prefix a b

  pub diff_lem :
      (prefix : String) (a b : Value)
      → diff json_text prefix a b ≡ with_maps prefix a b (as_map a) (as_map b)
  unfolding diff
  diff_lem prefix (object am) (object bm) = refl
  diff_lem prefix (object am) _ = refl
  diff_lem prefix _ (object bm) = refl
  diff_lem prefix _ _ = refl

  -- A path below a key that is in the second map.
  diff_fields-find :
      (prefix p k : String) (am bm : Fields) (v : Value)
      → find k bm ≡ some v
      → has_text p (diff json_text (join prefix k) (value_or_null (find k am)) v) ≡ true
      → has_text p (diff_fields json_text prefix am bm) ≡ true
  unfolding diff find
  diff_fields-find prefix p k am end v f h = cc f
  diff_fields-find prefix p k am (field j w bm) v f h = elim (Bool-cases (str_eq j k)) [
    | inl e ↦
        let same : w ≡ v = cc (rw e at f) in
        has_text-append_left p (diff json_text (join prefix j) (value_or_null (find j am)) w)
          (diff_fields json_text prefix am bm) (rw ((eq_iff j k).0 e, same) h)
    | inr e ↦
        has_text-append_right p (diff json_text (join prefix j) (value_or_null (find j am)) w)
          (diff_fields json_text prefix am bm) (diff_fields-find prefix p k am bm v (rw e at f) h)
  ]

  differs-null :
      (t : String) (q : List String) → json_text null ≡ some t → differs q null null ≡ false
  unfolding differs
  differs-null t [] n = rw (n, str_eq_self t) refl
  differs-null t (k ∷ q) n = refl

  with_maps-nil :
      (prefix : String) (a b : Value) (ma mb : Option Fields)
      → (not (is_some ma && is_some mb) && not (equal_json json_text a b)) ≡ true
      → has_text prefix (with_maps prefix a b ma mb) ≡ true
  with_maps-nil prefix a b (some am) (some bm) h = cc h
  with_maps-nil prefix a b (some am) none h = ground (arith, str_eq_self prefix)
  with_maps-nil prefix a b none (some bm) h = ground (arith, str_eq_self prefix)
  with_maps-nil prefix a b none none h = ground (arith, str_eq_self prefix)

  with_maps-in_maps :
      (prefix t k : String) (q : List String) (a b : Value) (ma mb : Option Fields)
      → json_text null ≡ some t
      → ((x y : Value)
          → differs q x y ≡ true
          → has_text (join_all (join prefix k) q) (diff json_text (join prefix k) x y) ≡ true)
      → in_maps k (is_nil q) (differs q) ma mb ≡ true
      → has_text (join_all (join prefix k) q) (with_maps prefix a b ma mb) ≡ true
  with_maps-in_maps prefix t k q a b none mb n ih h = cc h
  with_maps-in_maps prefix t k q a b (some am) none n ih h = cc h
  with_maps-in_maps prefix t k q a b (some am) (some bm) n ih h = elim (Bool-cases (has_key k bm)) [
    | inl e ↦
        let r = find-has_key k bm e in
        has_text-append_left (join_all (join prefix k) q) (diff_fields json_text prefix am bm)
          (gone prefix bm am)
          (diff_fields-find prefix (join_all (join prefix k) q) k am bm (r.0) (r.1) (
            ih (value_or_null (find k am)) (r.0) (
              rw
                (
                  e,
                  r.1,
                  not_last (has_key k am) (is_nil q) (differs q (value_or_null (find k am)) (r.0)),
                )
                at h)))
    | inr e ↦ elim (Bool-cases (has_key k am)) [
      | inl d ↦
          has_text-append_right (join_all (join prefix k) q) (diff_fields json_text prefix am bm)
            (gone prefix bm am)
            (rw (is_nil_lem q (rw (e, d) at h)) (has_text-gone prefix k bm am d e))
      | inr d ↦
          cc (differs-null t q n, rw (e, d, find-not_has_key k am d, find-not_has_key k bm e) at h)
    ]
  ]

  pub has_text-diff :
      (prefix t : String) (q : List String) (a b : Value)
      → json_text null ≡ some t
      → differs q a b ≡ true
      → has_text (join_all prefix q) (diff json_text prefix a b) ≡ true
  unfolding differs
  has_text-diff prefix t [] a b n h =
      rw (diff_lem prefix a b) (with_maps-nil prefix a b (as_map a) (as_map b) h)
  has_text-diff prefix t (k ∷ q) a b n h = rw (diff_lem prefix a b) (
      with_maps-in_maps prefix t k q a b (as_map a) (as_map b) n
        (λ x y. has_text-diff (join prefix k) t q x y n) h)
