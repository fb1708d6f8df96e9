-- ===== src/Drift/Chart.antt =====
-- internal/drift/chartmatch.go: what the manifest of the release says at a path, and whether that is what is live.
use matrixctrl.Common.{
  ℕ, zero, suc, String, Bool, true, false, not, Option, none, some, List, [], ◌∷◌, ◌&&◌, ◌||◌,
  insert, length, str_eq, ◌==◌, if◌then◌else◌,
}
use Prim.Native.String.{◌++◌ as append}
use text.Mathlib.Text.{starts_with}
use matrixctrl.Common.Bytes.{Bytes}
use matrixctrl.Common.Dots.{split_dots}
use matrixctrl.Common.Sort.{stable_sort}
use matrixctrl.Common.Texts.{split_at, cut_at, after_first, before_last}
use matrixctrl.Common.Tree.{
  Value, null, bool, float, int, number, str, list, object, Items, nil, item, Fields, end, field,
  find,
}
use matrixctrl.Capacity.Manifest.{documents}
use matrixctrl.Drift.Check.{text_before, value_or_null}

-- What a loop with a bound on its calls finds; `stopped` is the bound.
pub data Found : Type 0 where
  found : Value → Found
  missing stopped : Found

abbrev pub with_rest : List String → Option Value → Option (Value × List String)
with_rest segs none = none
with_rest segs (some v) = some (v, segs)

abbrev pub or_else :
    Option (Value × List String) → Option (Value × List String) → Option (Value × List String)
or_else none r = r
or_else (some r) _ = some r

-- The longest run of segments that names a key, with the segments behind it; `key` is the run so far.
unfoldable pub longest_from : String → List String → Fields → Option (Value × List String)
longest_from key [] m = with_rest [] (find key m)
longest_from key (s ∷ segs) m =
    or_else (longest_from (append key (append "." s)) segs m) (with_rest (s ∷ segs) (find key m))

abbrev pub option_of : Found → Option Value
option_of (found v) = some v
option_of _ = none

abbrev pub go_on : (Value → List String → Found) → Option (Value × List String) → Found
go_on below none = missing
go_on below (some (v, segs)) = below v segs

abbrev pub with_segments : List String → Option Fields → Option (Value × List String)
with_segments segs none = none
with_segments segs (some m) = some (object m, segs)

-- `want`: the keys and texts of a selector without its braces.
unfoldable pub wants : List String → List (String × String) → Option (List (String × String))
wants [] want = some want
wants (kv ∷ kvs) want = elim (cut_at b'=' kv) [
  | none ↦ none
  | some (k, v) ↦ wants kvs (insert k v want)
]

abbrev pub selector : String → Option (List (String × String))
selector seg =
    if starts_with seg "{"
    then (elim (before_last b'}' (after_first seg)) [
      | none ↦ none
      | some inner ↦ wants (split_at b',' inner) []
    ])
    else none

-- `fmt.Sprint`
module _ (sprint : Value → String) where
  unfoldable pub has_wanted : List (String × String) → Fields → Bool
  has_wanted [] m = true
  has_wanted ((k, v) ∷ want) m = str_eq (sprint (value_or_null (find k m))) v && has_wanted want m

  unfoldable pub selected : List (String × String) → Items → Option Fields
  selected want nil = none
  selected want (item (object m) items) =
      let rest = selected want items in if has_wanted want m then some m else rest
  selected want (item v items) = selected want items

  abbrev pub select : Option (List (String × String)) → Items → Option Fields
  select none items = none
  select (some want) items = selected want items

  -- `valueAt`, with a bound on its calls.
  unfoldable pub value_at_segments : ℕ → Value → List String → Found
  value_at_segments n cur [] = found cur
  value_at_segments zero cur (s ∷ segs) = stopped
  value_at_segments (suc n) (object m) (s ∷ segs) =
      go_on (value_at_segments n) (longest_from s segs m)
  value_at_segments (suc n) (list items) (s ∷ segs) =
      go_on (value_at_segments n) (with_segments segs (select (selector s) items))
  value_at_segments (suc n) cur (s ∷ segs) = missing

  unfoldable pub value_at : Value → String → Option Value
  value_at obj path = option_of (value_at_segments (length (split_dots path)) obj (split_dots path))

-- `reflect.DeepEqual`
unfoldable pub fields_length : Fields → ℕ
fields_length end = 0
fields_length (field k v m) = suc (fields_length m)

unfoldable mutual
  pub deep_equal : Value → Value → Bool
  deep_equal null null = true
  deep_equal (bool true) (bool b) = b
  deep_equal (bool false) (bool b) = not b
  deep_equal (float a) (float b) = a == b
  deep_equal (int a) (int b) = a == b
  deep_equal (number a) (number b) = str_eq a b
  deep_equal (str a) (str b) = str_eq a b
  deep_equal (list xs) (list ys) = deep_equal_items xs ys
  deep_equal (object m) (object n) = (fields_length m == fields_length n) && deep_equal_fields m n
  deep_equal _ _ = false

  pub deep_equal_items : Items → Items → Bool
  deep_equal_items nil nil = true
  deep_equal_items (item x xs) (item y ys) = deep_equal x y && deep_equal_items xs ys
  deep_equal_items _ _ = false

  -- Each entry of the first is one of the second.
  pub deep_equal_fields : Fields → Fields → Bool
  deep_equal_fields end n = true
  deep_equal_fields (field k v m) n =
      elim (find k n) [ none ↦ false | some w ↦ deep_equal v w ] && deep_equal_fields m n

abbrev pub is_none_missing : List String → Bool
is_none_missing [] = true
is_none_missing (p ∷ ps) = false

-- `resource.ParseQuantity` and `Cmp`.
module _ {Q : Type 0} (sprint : Value → String) (parse_quantity : String → Option Q)
    (same_amount : Q → Q → Bool) where
  abbrev same_quantity : Option Q → Option Q → Bool → Bool
  same_quantity (some a) (some b) otherwise = same_amount a b
  same_quantity _ _ otherwise = otherwise

  unfoldable pub same_value : Value → Value → Bool
  same_value a b =
      deep_equal a b
      || same_quantity (parse_quantity (sprint a)) (parse_quantity (sprint b))
          (str_eq (sprint a) (sprint b))

  abbrev pub same_found : Option Value → Option Value → Bool
  same_found (some a) (some b) = same_value a b
  same_found _ _ = false

  unfoldable pub match_at : Value → Value → List String → Bool
  match_at live chart [] = true
  match_at live chart (p ∷ paths) =
      same_found (value_at sprint live p) (value_at sprint chart p) && match_at live chart paths

  abbrev pub matches_chart : Option Fields → Option Fields → List String → Bool
  matches_chart (some live) (some chart) (p ∷ paths) =
      match_at (object live) (object chart) (p ∷ paths)
  matches_chart _ _ _ = false

  -- `yaml.Unmarshal` into a map, `none` for an error and for nil, and `strings.EqualFold`.
  module _ (decode_yaml : Bytes → Option Fields) (equal_fold : String → String → Bool) where
    abbrev text_of : Option Value → String
    text_of (some (str s)) = s
    text_of _ = ""

    abbrev name_in : Option Value → String
    name_in (some (object meta)) = text_of (find "name" meta)
    name_in _ = ""

    abbrev pub is_named : String → String → Fields → Bool
    is_named resource_type name obj =
        equal_fold (text_of (find "kind" obj)) resource_type
        && str_eq (name_in (find "metadata" obj)) name

    unfoldable pub object_among : List Bytes → String → String → Option Fields
    object_among [] resource_type name = none
    object_among (doc ∷ docs) resource_type name =
        let rest = object_among docs resource_type name in
        elim (decode_yaml doc) [
          | none ↦ rest
          | some obj ↦ if is_named resource_type name obj then some obj else rest
        ]

    abbrev pub manifest_object : Bytes → String → String → Option Fields
    manifest_object manifest resource_type name =
        object_among (documents 0 manifest) resource_type name

    -- What the object has at the path is the value.
    abbrev pub carries : Option Fields → String → Value → Bool
    carries none path want = false
    carries (some obj) path want = same_found (value_at sprint (object obj) path) (some want)

    unfoldable pub missing_in : Option Fields → List (String × Value) → List String
    missing_in obj [] = []
    missing_in obj ((path, want) ∷ sets) =
        let rest = missing_in obj sets in if carries obj path want then rest else path ∷ rest

    -- `len(sets) == 0` first.
    unfoldable pub patch_covered :
        Bytes → String → String → List (String × Value) → Bool × List String
    patch_covered manifest resource_type name [] = (false, [])
    patch_covered manifest resource_type name (s ∷ sets) =
        let missing =
          stable_sort text_before
            (missing_in (manifest_object manifest resource_type name) (s ∷ sets)) in
        (is_none_missing missing, missing)
