-- ===== src/Drift/Check.antt =====
-- `Check` of internal/drift/drift.go: whether a hook's patch would still change the live object.
use Prim.Native.Nat.{Ordering}
use Prim.Native.String.{◌++◌ as append, compare}
use matrixctrl.Common.{
  ℕ, suc, String, Bool, true, false, Option, none, some, List, [], ◌∷◌, ◌++◌, ◌⊎◌, inl, inr, str_eq,
  if◌then◌else◌,
}
use matrixctrl.Common.Sort.{stable_sort}
use matrixctrl.Common.Texts.{join_with}
use matrixctrl.Common.Tree.{Value, null, object, Fields, end, field, find}
use matrixctrl.Common.Tree.Maps.{has_key}

pub data Status : Type 0 where
  satisfied drifted unknown : Status

pub record Finding : Type 0 where
  pub hook : String
  pub action : String
  pub resource : String
  pub namespace : String
  pub name : String
  pub status : Status
  pub detail : String
  pub paths : List String

pub record Action : Type 0 where
  pub hook : String
  pub description : String
  pub resource : String
  pub namespace : String
  pub name : String
  pub patch_type : String
  pub patch : String

abbrev pub join : String → String → String
join prefix key = if str_eq prefix "" then key else append prefix (append "." key)

abbrev pub namespace_or : String → String
namespace_or ns = if str_eq ns "" then "ess" else ns

abbrev pub text_before : String → String → Bool
text_before s t = elim (compare s t) [ Ordering.lt ↦ true | _ ↦ false ]

-- `a.(map[string]any)`
abbrev pub as_map : Value → Option Fields
as_map (object m) = some m
as_map _ = none

-- `m[k]`, which is nil for a key that is not there.
abbrev pub value_or_null : Option Value → Value
value_or_null none = null
value_or_null (some v) = v

-- The keys that disappeared.
unfoldable pub gone : String → Fields → Fields → List String
gone prefix bm end = []
gone prefix bm (field k v am) =
    let rest = gone prefix bm am in if has_key k bm then rest else join prefix k ∷ rest

-- `json.Marshal`; `none` is an error.
module _ (json_text : Value → Option String) where
  abbrev pub same_text : Option String → Option String → Bool
  same_text (some s) (some t) = str_eq s t
  same_text _ _ = false

  abbrev pub equal_json : Value → Value → Bool
  equal_json a b = same_text (json_text a) (json_text b)

  abbrev pub diff_leaf : String → Value → Value → List String
  diff_leaf prefix a b = if equal_json a b then [] else prefix ∷ []

  unfoldable mutual
    pub diff : String → Value → Value → List String
    diff prefix a (object bm) = elim (as_map a) [
      | none ↦ diff_leaf prefix a (object bm)
      | some am ↦ diff_fields prefix am bm ++ gone prefix bm am
    ]
    diff prefix a b = diff_leaf prefix a b

    pub diff_fields : String → Fields → Fields → List String
    diff_fields prefix am end = []
    diff_fields prefix am (field k bv bm) =
        diff (join prefix k) (value_or_null (find k am)) bv ++ diff_fields prefix am bm

  -- `json.Unmarshal`, and the package jsonpatch on texts; an error is its text.
  module _ (decode : String → Option Value)
      (decode_patch : String → String ⊎ (String → String ⊎ String))
      (merge_patch : String → String → String ⊎ String) where
    abbrev pub paths_between : Option Value → Option Value → List String
    paths_between (some a) (some b) = stable_sort text_before (diff "" a b)
    paths_between _ _ = []

    abbrev pub changed_paths : String → String → List String
    changed_paths before after = paths_between (decode before) (decode after)

    abbrev pub apply_json : String ⊎ (String → String ⊎ String) → String → String ⊎ String
    apply_json (inl e) live = inl (append "undecodable json patch: " e)
    apply_json (inr p) live = p live

    abbrev pub apply : String → String → String → String ⊎ String
    apply live patch_type patch =
        if str_eq patch_type "json"
        then apply_json (decode_patch patch) live
        else (if str_eq patch_type "strategic"
            then inl "strategic merge patches cannot be checked without the resource schema"
            else merge_patch live patch)

    abbrev pub finding : Action → Status → String → List String → Finding
    finding a status detail paths = record {
      hook = a.hook;
      action = a.description;
      resource = a.resource;
      namespace = namespace_or a.namespace;
      name = a.name;
      status = status;
      detail = detail;
      paths = paths;
    }

    abbrev pub of_paths : Action → List String → Finding
    of_paths a [] = finding a satisfied "applying this patch would change nothing" []
    of_paths a (p ∷ ps) =
        finding a drifted
          (append "the patch is not in effect; it would still change " (join_with ", " (p ∷ ps)))
          (p ∷ ps)

    abbrev pub of_patched : Action → String → String ⊎ String → Finding
    of_patched a live (inl e) = finding a unknown e []
    of_patched a live (inr patched) = of_paths a (changed_paths live patched)

    abbrev pub of_live : Action → String ⊎ String → Finding
    of_live a (inl e) = finding a unknown e []
    of_live a (inr live) = of_patched a live (apply live a.patch_type a.patch)

    -- `GetObjectJSON` of the fetcher, if there is one.
    module _ (fetcher : Option (String → String → String → String ⊎ String)) where
      unfoldable pub check_one : Action → Finding
      check_one a = elim fetcher [
        | none ↦ finding a unknown "no cluster connection" []
        | some get ↦ of_live a (get a.resource (namespace_or a.namespace) a.name)
      ]

      -- `Check`
      unfoldable pub check : List Action → List Finding
      check [] = []
      check (a ∷ actions) = check_one a ∷ check actions

-- `Summary`: satisfied, drifted and unknown.
abbrev pub counted : Status → ℕ × ℕ × ℕ → ℕ × ℕ × ℕ
counted satisfied (s, d, u) = (suc s, d, u)
counted drifted (s, d, u) = (s, suc d, u)
counted unknown (s, d, u) = (s, d, suc u)

unfoldable pub summary : List Finding → ℕ × ℕ × ℕ
summary [] = (0, 0, 0)
summary (f ∷ fs) = counted f.status (summary fs)
