-- ===== src/ImagePin/Extracted.antt =====
-- The map of tags that `ExtractTags` of internal/imagepin/imagepin.go makes.
use matrixctrl.Common.{
  ◌≡◌, refl, subst, ap, ◌∙◌, inl, inr, String, Bool, Bool-cases, false, Option, some, List, [], ◌∷◌,
  ◌||◌, insert, lookup, lookup-insert, str_eq, eq_iff, arith, if◌then◌else◌,
}
use matrixctrl.Common.Tree.{Fields, end, field, find}
use matrixctrl.Common.Tree.Maps.{has_key, HasDistinctKeys, find-not_has_key}
use matrixctrl.ImagePin.Report.{image_of, text_in, extract_tags}

-- The tag that the values give a component, "" for none.
abbrev pub tag_of : Fields → String → String
tag_of values c = text_in "tag" (image_of (find c values))

abbrev pub lists : String → List (String × String) → Bool
lists c [] = false
lists c ((k, v) ∷ tags) = str_eq k c || lists c tags

abbrev pub IsSingle : List (String × String) → Type 0
IsSingle [] = Unit {0}
IsSingle ((k, v) ∷ tags) = (lists k tags ≡ false) × IsSingle tags

lists-insert :
    (c k v : String) (tags : List (String × String))
    → lists c (insert k v tags) ≡ (str_eq k c || lists c tags)
unfolding insert
lists-insert c k v [] = refl
lists-insert c k v ((j, w) ∷ tags) =
    ground (arith, lists-insert c k v tags, eq_iff j k, eq_iff j c, eq_iff k c)

insert-IsSingle :
    (k v : String) (tags : List (String × String)) → IsSingle tags → IsSingle (insert k v tags)
unfolding insert
insert-IsSingle k v [] s = (refl, tt)
insert-IsSingle k v ((j, w) ∷ tags) s = elim (Bool-cases (str_eq j k)) [
  | inl e ↦ rw e (ground (arith, s.0, (eq_iff j k).0 e), s.1)
  | inr e ↦ rw e (
    ground (arith, lists-insert j k v tags, eq_iff j k, eq_iff k j, s.0),
    insert-IsSingle k v tags (s.1),
  )
]

pub extract_tags-IsSingle :
    (values : Fields) (out : List (String × String))
    → IsSingle out
    → IsSingle (extract_tags values out)
unfolding extract_tags
extract_tags-IsSingle end out s = s
extract_tags-IsSingle (field k v values) out s =
    elim (Bool-cases (str_eq (text_in "tag" (image_of (some v))) "")) [
      | inl e ↦ rw e (extract_tags-IsSingle values out s)
      | inr e ↦ rw e (
          extract_tags-IsSingle values (insert k (text_in "tag" (image_of (some v))) out)
            (insert-IsSingle k (text_in "tag" (image_of (some v))) out s))
    ]

abbrev pub some_unless_empty : String → Option String → Option String
some_unless_empty tag otherwise = if str_eq tag "" then otherwise else some tag

lookup-after :
    (c k t : String) (out : List (String × String))
    → lookup c (if str_eq t "" then out else insert k t out)
      ≡ (if str_eq k c then some_unless_empty t (lookup c out) else lookup c out)
lookup-after c k t out = ground (arith, lookup-insert k c t out)

tag_of-not_has_key :
    (values : Fields) (c : String) → has_key c values ≡ false → tag_of values c ≡ ""
tag_of-not_has_key values c h = ap (λ r. text_in "tag" (image_of r)) (find-not_has_key c values h)

pub lookup-extract_tags :
    (c : String) (values : Fields) (out : List (String × String))
    → HasDistinctKeys values
    → lookup c (extract_tags values out) ≡ some_unless_empty (tag_of values c) (lookup c out)
unfolding extract_tags find
lookup-extract_tags c end out d = refl
lookup-extract_tags c (field k v values) out d =
    let t = text_in "tag" (image_of (some v)) in
    let after = lookup-after c k t out in
    lookup-extract_tags c values (if str_eq t "" then out else insert k t out) (d.1)
    ∙ elim (Bool-cases (str_eq k c)) [
      | inl e ↦
          let absent : has_key c values ≡ false =
            subst (λ x. has_key x values ≡ false) ((eq_iff k c).0 e) (d.0) in
          rw (e, tag_of-not_has_key values c absent) (rw e at after)
      | inr e ↦ rw e (ap (some_unless_empty (tag_of values c)) (rw e at after))
    ]
