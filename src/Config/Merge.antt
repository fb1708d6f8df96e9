-- ===== src/Config/Merge.antt =====
-- `MergeToMap` and `deepMerge` of internal/config/merge.go. The loop over a map is one over the list of
-- its entries, whose keys differ.
use matrixctrl.Common.{
  String, Bool, true, false, Option, none, some, List, [], ◌∷◌, str_eq, if◌then◌else◌,
}
use matrixctrl.Common.Tree.{Value, object, Fields, end, field, find, put}
pub mod Laws

unfoldable mutual
  unfolding find put

  -- Values in `src` overwrite those in `dst`; two maps are merged.
  pub deep_merge : Fields → Fields → Fields
  deep_merge dst end = dst
  deep_merge dst (field k v src) = deep_merge (put k (merge_value (find k dst) v) dst) src

  pub merge_value : Option Value → Value → Value
  merge_value (some (object dst)) (object src) = object (deep_merge dst src)
  merge_value old v = v

abbrev pub merge_next : Option Fields → Fields → (Fields → Option Fields) → Option Fields
merge_next none merged next = none
merge_next (some m) merged next = next (deep_merge merged m)

-- `yaml.Unmarshal` into a map: `none` is an error.
module _ (parse : String → Option Fields) where
  unfoldable pub merge_all : List String → Fields → Option Fields
  merge_all [] merged = some merged
  merge_all (c ∷ contents) merged =
      if str_eq c ""
      then merge_all contents merged
      else merge_next (parse c) merged (λ m. merge_all contents m)

  -- `MergeToMap`
  unfoldable pub merge_to_map : List String → Option Fields
  merge_to_map contents = merge_all contents end
