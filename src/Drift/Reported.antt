-- ===== src/Drift/Reported.antt =====
-- What `Check` of internal/drift/drift.go reports of an action, beside the paths at which the values differ.
use matrixctrl.Common.{
  ◌≡◌, refl, sym, ◌⊎◌, inl, inr, String, Bool-cases, true, false, Option, some, List, [], ◌∷◌, ◌++◌,
  ◌&&◌, has_text, str_eq, str_eq_self, eq_iff, arith,
}
use matrixctrl.Common.Sort.{stable_sort}
use matrixctrl.Common.Tree.{Value, null, object, Fields, end, field, find}
use matrixctrl.Common.Tree.Maps.{has_key}
use matrixctrl.Drift.Check.{
  satisfied, drifted, Finding, Action, namespace_or, text_before, join, as_map, value_or_null, gone,
  equal_json, diff_leaf, diff, diff_fields, apply, of_paths, check_one,
}
use matrixctrl.Drift.Differing.{
  is_some, join_all, is_nil, AreDistinct, AreDistinctFields, has_text-append, has_text-stable_sort,
  has_key-find, not_last, differs, has_text-diff,
}

has_text-append_cases :
    (p : String) (xs ys : List String)
    → has_text p (xs ++ ys) ≡ true
    → (has_text p xs ≡ true) ⊎ (has_text p ys ≡ true)
has_text-append_cases p xs ys h = elim (Bool-cases (has_text p xs)) [
  | inl e ↦ inl e
  | inr e ↦ inr (ground (arith, has_text-append p xs ys))
]

gone-lost :
    (prefix p : String) (bm am : Fields)
    → has_text p (gone prefix bm am) ≡ true
    → (k : String) × (has_key k am ≡ true) × (has_key k bm ≡ false) × (p ≡ join prefix k)
unfolding gone
gone-lost prefix p bm end h = cc h
gone-lost prefix p bm (field j v am) h = elim (Bool-cases (has_key j bm)) [
  | inl e ↦ let r = gone-lost prefix p bm am (rw e at h) in (r.0, ground arith, r.2, r.3)
  | inr e ↦ elim (Bool-cases (str_eq (join prefix j) p)) [
    | inl t ↦ (j, rw (str_eq_self j) refl, e, sym ((eq_iff (join prefix j) p).0 t))
    | inr t ↦ let r = gone-lost prefix p bm am (rw (e, t) at h) in (r.0, ground arith, r.2, r.3)
  ]
]

module _ (json_text : Value → Option String) where
  unfoldable pub IsDiffering : String → String → Value → Value → Type 0
  IsDiffering p prefix a b =
      (q : List String) × (differs json_text q a b ≡ true) × (p ≡ join_all prefix q)

  leaf-IsDiffering :
      (p prefix : String) (a b : Value)
      → (is_some (as_map a) && is_some (as_map b)) ≡ false
      → has_text p (diff_leaf json_text prefix a b) ≡ true
      → IsDiffering p prefix a b
  unfolding differs IsDiffering
  leaf-IsDiffering p prefix a b m h = elim (Bool-cases (equal_json json_text a b)) [
    | inl e ↦ cc (rw e at h)
    | inr e ↦ ([], rw (m, e) refl, sym ((eq_iff prefix p).0 (ground (arith, rw e at h))))
  ]

  gone-IsDiffering :
      (p prefix : String) (a b : Value) (am bm : Fields)
      → as_map a ≡ some am
      → as_map b ≡ some bm
      → has_text p (gone prefix bm am) ≡ true
      → IsDiffering p prefix a b
  unfolding differs IsDiffering
  gone-IsDiffering p prefix a b am bm x y h =
      let r = gone-lost prefix p bm am h in (r.0 ∷ [], rw (x, y, r.1, r.2) refl, r.3)

  below-IsDiffering :
      (p prefix k : String) (a b v : Value) (am bm : Fields)
      → as_map a ≡ some am
      → as_map b ≡ some bm
      → find k bm ≡ some v
      → IsDiffering p (join prefix k) (value_or_null (find k am)) v
      → IsDiffering p prefix a b
  unfolding differs IsDiffering
  below-IsDiffering p prefix k a b v am bm x y f r = (
    k ∷ r.0,
    rw
        (
          x,
          y,
          has_key-find k bm v f,
          f,
          not_last (has_key k am) (is_nil (r.0))
              (differs json_text (r.0) (value_or_null (find k am)) v),
        )
        (r.1),
    r.2,
  )

  mutual
    unfolding diff AreDistinct find

    diff-IsDiffering :
        (prefix p : String) (a b : Value)
        → AreDistinct b
        → has_text p (diff json_text prefix a b) ≡ true
        → IsDiffering p prefix a b
    diff-IsDiffering prefix p (object am) (object bm) d h =
        elim (has_text-append_cases p (diff_fields json_text prefix am bm) (gone prefix bm am) h) [
          | inl e ↦
              let r = diff_fields-IsDiffering prefix p am bm d e in
              below-IsDiffering p prefix (r.0) (object am) (object bm) (r.1) am bm refl refl (r.2)
                (r.3)
          | inr e ↦ gone-IsDiffering p prefix (object am) (object bm) am bm refl refl e
        ]
    diff-IsDiffering prefix p (object am) b d h = leaf-IsDiffering p prefix (object am) b refl h
    diff-IsDiffering prefix p a (object bm) d h = leaf-IsDiffering p prefix a (object bm) refl h
    diff-IsDiffering prefix p a b d h = leaf-IsDiffering p prefix a b refl h

    diff_fields-IsDiffering :
        (prefix p : String) (am m : Fields)
        → AreDistinctFields m
        → has_text p (diff_fields json_text prefix am m) ≡ true
        → (k : String) × (v : Value) × (find k m ≡ some v)
          × IsDiffering p (join prefix k) (value_or_null (find k am)) v
    diff_fields-IsDiffering prefix p am end d h = cc h
    diff_fields-IsDiffering prefix p am (field j w m) d h =
        elim (has_text-append_cases p (diff json_text (join prefix j) (value_or_null (find j am)) w)
          (diff_fields json_text prefix am m) h) [
            | inl e ↦ (
              j,
              w,
              rw (str_eq_self j) refl,
              diff-IsDiffering (join prefix j) p (value_or_null (find j am)) w (d.1) e,
            )
            | inr e ↦
                let r = diff_fields-IsDiffering prefix p am m (d.2) e in
                elim (Bool-cases (str_eq j (r.0))) [
                  | inl t ↦ cc (has_key-find (r.0) m (r.1) (r.2), (eq_iff j (r.0)).0 t, d.0)
                  | inr t ↦ (r.0, r.1, rw t (r.2), r.3)
                ]
          ]

  module _ (decode : String → Option Value)
      (decode_patch : String → String ⊎ (String → String ⊎ String))
      (merge_patch : String → String → String ⊎ String) where
    -- The finding: satisfied where no path differs, else drifted with just the paths that differ.
    unfoldable pub IsReport : Finding → Value → Value → Type 0
    IsReport f x y =
        (f.status ≡ satisfied) × ((q : List String) → differs json_text q x y ≡ false)
        ⊎ (f.status ≡ drifted)
          × ((q : List String)
              → differs json_text q x y ≡ true
              → has_text (join_all "" q) f.paths ≡ true)
          × ((p : String) → has_text p f.paths ≡ true → IsDiffering p "" x y)

    of_paths-IsReport :
        (a : Action) (x y : Value) (paths : List String)
        → ((q : List String)
            → differs json_text q x y ≡ true
            → has_text (join_all "" q) paths ≡ true)
        → ((p : String) → has_text p paths ≡ true → IsDiffering p "" x y)
        → IsReport (of_paths json_text decode decode_patch merge_patch a paths) x y
    unfolding IsReport
    of_paths-IsReport a x y [] f g =
        inl (
          refl,
          λ q. elim (Bool-cases (differs json_text q x y)) [ inl e ↦ cc (f q e) | inr e ↦ e ],
        )
    of_paths-IsReport a x y (p ∷ ps) f g = inr (refl, f, g)

    -- Where the live object can be read and the patch applied to it, both are decoded, the patched value
    -- has each key of a map once, and nil has a text, the finding is satisfied and no path differs, or it
    -- is drifted and its paths are just those at which the two differ.
    pub check_one-IsReport :
        (get : String → String → String → String ⊎ String) (a : Action) (live patched t : String)
        (x y : Value)
        → get a.resource (namespace_or a.namespace) a.name ≡ inr live
        → apply json_text decode decode_patch merge_patch live a.patch_type a.patch ≡ inr patched
        → decode live ≡ some x
        → decode patched ≡ some y
        → json_text null ≡ some t
        → AreDistinct y
        → IsReport (check_one json_text decode decode_patch merge_patch (some get) a) x y
    unfolding check_one
    check_one-IsReport get a live patched t x y g e dx dy n d =
        rw (g, e, dx, dy)
          (of_paths-IsReport a x y (stable_sort text_before (diff json_text "" x y))
            (λ q h.
              rw (has_text-stable_sort text_before (join_all "" q) (diff json_text "" x y))
                (has_text-diff json_text "" t q x y n h))
            (λ p h.
              diff-IsDiffering "" p x y d
                (rw (has_text-stable_sort text_before p (diff json_text "" x y)) at h)))
