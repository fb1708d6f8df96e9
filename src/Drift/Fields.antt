-- ===== src/Drift/Fields.antt =====
-- The texts of internal/drift/manual.go: who manages a field, and which paths an ownership record or a patch names.
use Prim.Native.String.{◌++◌ as append}
use text.Mathlib.Text.{starts_with}
use matrixctrl.Common.{
  String, Bool, false, not, Option, none, some, List, [], ◌∷◌, ◌++◌, has_text, str_eq, ◌||◌,
  if◌then◌else◌,
}
use matrixctrl.Common.Sort.{stable_sort}
use matrixctrl.Common.Texts.{join_with, after_first, ends_with, replace_char}
use matrixctrl.Common.Tree.{Value, str, object, Fields, end, field}
use matrixctrl.Drift.Check.{text_before}

pub data ManagerKind : Type 0 where
  human automation foreign : ManagerKind

abbrev known_automation : List String
known_automation =
    "helm" ∷ "matrixctrl" ∷ "k3s" ∷ "kube-controller-manager" ∷ "kube-scheduler" ∷ "kubelet"
    ∷ "traefik" ∷ "cert-manager" ∷ "matrix-tools" ∷ []

unfoldable pub classify_manager : String → ManagerKind
classify_manager manager =
    if str_eq manager ""
    then foreign
    else (if str_eq manager "kubectl" || starts_with manager "kubectl-"
        then human
        else (if has_text manager known_automation
            then automation
            else (if ends_with manager "-controller" || ends_with manager "-operator"
                then automation
                else foreign)))

abbrev pub has_named_children : Fields → Bool
has_named_children end = false
has_named_children (field k v m) = not (str_eq k ".") || has_named_children m

abbrev pub path_below : String → String → String
path_below prefix name = if str_eq prefix "" then name else append prefix (append "." name)

abbrev ignored_prefixes : List String
ignored_prefixes =
    "status" ∷ "metadata.managedFields" ∷ "metadata.resourceVersion" ∷ "metadata.generation"
    ∷ "metadata.annotations.kubectl.kubernetes.io/last-applied-configuration"
    ∷ "metadata.annotations.deployment.kubernetes.io/revision"
    ∷ "spec.template.metadata.annotations.kubectl.kubernetes.io/restartedAt" ∷ []

abbrev pub is_at_or_below : String → String → Bool
is_at_or_below path p = str_eq path p || starts_with path (append p ".")

abbrev pub is_below_any : String → List String → Bool
is_below_any path [] = false
is_below_any path (p ∷ ps) = is_at_or_below path p || is_below_any path ps

unfoldable pub interesting : String → Bool
interesting path = not (is_below_any path ignored_prefixes)

-- `json.Marshal`, and `json.Unmarshal` into a map; `none` is an error.
module _ (json_text : Value → Option String) (decode_map : String → Option Fields) where
  abbrev text_or_empty : Option String → String
  text_or_empty none = ""
  text_or_empty (some s) = s

  abbrev pub scalar : Value → String
  scalar (str s) = s
  scalar v = text_or_empty (json_text v)

  abbrev pub selector_parts : Fields → List String
  selector_parts end = []
  selector_parts (field k v m) = append k (append "=" (scalar v)) ∷ selector_parts m

  abbrev pub decode_selector : String → Option Fields → String
  decode_selector key none = key
  decode_selector key (some end) = key
  decode_selector key (some (field k v m)) =
      append "{"
        (append (join_with "," (stable_sort text_before (selector_parts (field k v m)))) "}")

  unfoldable pub decode_field_key : String → String
  decode_field_key key =
      let rest = after_first (after_first key) in
      if starts_with key "f:"
      then rest
      else (if starts_with key "k:"
          then decode_selector rest (decode_map rest)
          else (if starts_with key "v:" || starts_with key "i:"
              then append "[" (append rest "]")
              else key))

  unfoldable pub walk_fields : String → Fields → List String
  walk_fields prefix end = []
  walk_fields prefix (field key (object child) m) =
      let path = path_below prefix (decode_field_key key) in
      let below = walk_fields path child in
      let rest = walk_fields prefix m in
      if str_eq key "."
      then rest
      else (if has_named_children child then below ++ rest else path ∷ rest)
  walk_fields prefix (field key raw m) =
      let rest = walk_fields prefix m in
      if str_eq key "." then rest else path_below prefix (decode_field_key key) ∷ rest

  abbrev paths_in : Option Fields → List String
  paths_in none = []
  paths_in (some doc) = stable_sort text_before (walk_fields "" doc)

  abbrev pub field_paths : String → List String
  field_paths fields_v1 = if str_eq fields_v1 "" then [] else paths_in (decode_map fields_v1)

  unfoldable pub walk_json : String → Fields → List String
  walk_json prefix end = []
  walk_json prefix (field k (object (field j v child)) m) =
      walk_json (path_below prefix k) (field j v child) ++ walk_json prefix m
  walk_json prefix (field k v m) = path_below prefix k ∷ walk_json prefix m

  abbrev patch_paths_in : Option Fields → List String
  patch_paths_in none = []
  patch_paths_in (some doc) = stable_sort text_before (walk_json "" doc)

  -- The paths of the operations of a JSON patch, as they are decoded.
  module _ (decode_paths : String → Option (List String)) where
    abbrev pub without_slash : String → String
    without_slash p = if starts_with p "/" then after_first p else p

    unfoldable pub op_paths : List String → List String
    op_paths [] = []
    op_paths (path ∷ ops) =
        let rest = op_paths ops in
        if str_eq (without_slash path) ""
        then rest
        else replace_char b'/' "." (without_slash path) ∷ rest

    abbrev op_paths_in : Option (List String) → List String
    op_paths_in none = []
    op_paths_in (some ops) = stable_sort text_before (op_paths ops)

    unfoldable pub patch_paths : String → String → List String
    patch_paths patch_type patch =
        if str_eq patch_type "json"
        then op_paths_in (decode_paths patch)
        else (if str_eq patch_type "strategic" then [] else patch_paths_in (decode_map patch))
