-- ===== src/Config/Migrate.antt =====
-- `BuildSectionFiles` and `flattenLeaves` of internal/config/migrate.go, `SplitTopLevel` and
-- `TopLevelKeys` of internal/config/yamledit.go, and `sortSectionMetas` of internal/config/sections.go.
use Prim.Native.Nat.{Ordering}
use Prim.Native.String.{◌++◌ as append, compare}
use matrixctrl.Common.{
  String, Bool, true, false, Option, none, some, List, [], ◌∷◌, ◌++◌, not, ◌⊎◌, inl, inr, str_eq,
  has_text, insert, lookup, if◌then◌else◌,
}
use matrixctrl.Common.Sort.{stable_sort}
use matrixctrl.Common.Tree.{Value, object, Fields, end, field}
use matrixctrl.Config.Nodes.{Key, Pairs, no_pairs, pair, YamlNode, set_node_value}
use matrixctrl.Config.Store.{SliceMeta, general_keys}
pub mod Kept
pub mod Owned
mod Examples

-- `SplitTopLevel`: one document for each key.
unfoldable pub split_top_level : Pairs → List (String × Pairs) → List (String × Pairs)
split_top_level no_pairs docs = docs
split_top_level (pair k n m) docs = split_top_level m (insert k.text (pair k n no_pairs) docs)

-- `TopLevelKeys`
unfoldable pub top_level_keys : Pairs → List String
top_level_keys no_pairs = []
top_level_keys (pair k n m) = k.text ∷ top_level_keys m

-- `flattenLeaves`: the paths of what is no map, or an empty one.
unfoldable mutual
  pub flatten_leaves : Fields → List String → List (List String × Value)
  flatten_leaves end prefix = []
  flatten_leaves (field k v m) prefix =
      flatten_value v (prefix ++ k ∷ []) ++ flatten_leaves m prefix

  pub flatten_value : Value → List String → List (List String × Value)
  flatten_value (object (field k v m)) path =
      flatten_value v (path ++ k ∷ []) ++ flatten_leaves m path
  flatten_value v path = (path, v) ∷ []

abbrev pub doc_or_empty : Option Pairs → Pairs
doc_or_empty none = no_pairs
doc_or_empty (some d) = d

abbrev pub set_doc : String → Option Pairs → List (String × Pairs) → Option (List (String × Pairs))
set_doc top none docs = none
set_doc top (some d) docs = some (insert top d docs)

abbrev pub and_then : {A B : Type 0} → Option A → (A → Option B) → Option B
and_then none f = none
and_then (some a) f = f a

-- The files, and the mapping of general.yaml.
pub record Parts : Type 0 where
  pub files : List (String × String)
  pub general : Pairs

abbrev pub files_of : Option Parts → Option (List (String × String))
files_of none = none
files_of (some p) = some p.files

abbrev pub no_parts : Parts
no_parts = record { files = []; general = no_pairs }

unfoldable pub append_pairs : Pairs → Pairs → Pairs
append_pairs no_pairs n = n
append_pairs (pair k v m) n = pair k v (append_pairs m n)

abbrev pub key_before : String × Pairs → String × Pairs → Bool
key_before (a, m) (b, n) = elim (compare a b) [ Ordering.lt ↦ true | _ ↦ false ]

abbrev pub add_file : String → Option String → Parts → Option Parts
add_file name none p = none
add_file name (some t) p = some (record { files = insert name t p.files; general = p.general })

-- The body of the loop over the sorted keys, with the encoder of yaml.v3.
abbrev pub place_doc : (Pairs → Option String) → String → Pairs → Parts → Option Parts
place_doc marshal key d p =
    if has_text key general_keys
    then some (record { files = p.files; general = append_pairs p.general d })
    else add_file (append key ".yaml") (marshal d) p

unfoldable pub place_docs : (Pairs → Option String) → List (String × Pairs) → Parts → Option Parts
place_docs marshal [] p = some p
place_docs marshal ((key, d) ∷ docs) p =
    and_then (place_doc marshal key d p) (λ q. place_docs marshal docs q)

-- The package yaml.v3; an error is `none`.
module _ (has_newline : String → Bool) (encode : Value → Option YamlNode)
    (parse_yaml : String → Option Pairs) (yaml_to_map : String → Fields)
    (marshal : Pairs → Option String) where
  abbrev pub set_leaf : List String → Value → List (String × Pairs) → Option (List (String × Pairs))
  set_leaf [] v docs = some docs
  set_leaf (top ∷ path) v docs =
      set_doc top (set_node_value has_newline encode top path v (doc_or_empty (lookup top docs)))
        docs

  unfoldable pub set_leaves :
      List (List String × Value) → List (String × Pairs) → Option (List (String × Pairs))
  set_leaves [] docs = some docs
  set_leaves ((path, v) ∷ leaves) docs = and_then (set_leaf path v docs) (λ d. set_leaves leaves d)

  -- The slices behind the first.
  unfoldable pub override_all : List String → List (String × Pairs) → Option (List (String × Pairs))
  override_all [] docs = some docs
  override_all (c ∷ contents) docs =
      if str_eq c ""
      then override_all contents docs
      else and_then (set_leaves (flatten_leaves (yaml_to_map c) []) docs)
          (λ d. override_all contents d)

  abbrev pub base_docs : String → Option (List (String × Pairs))
  base_docs c =
      if str_eq c ""
      then some []
      else elim (parse_yaml c) [ none ↦ none | some m ↦ some (split_top_level m []) ]

  abbrev pub docs_of : List String → Option (List (String × Pairs))
  docs_of [] = some []
  docs_of (c ∷ contents) = and_then (base_docs c) (λ d. override_all contents d)

  abbrev pub with_general : Parts → Option (List (String × String))
  with_general p = elim p.general [
    | no_pairs ↦ some p.files
    | pair k n m ↦ files_of (add_file "general.yaml" (marshal p.general) p)
  ]

  -- `BuildSectionFiles`
  unfoldable pub build_section_files : List String → Option (List (String × String))
  build_section_files contents =
      and_then (docs_of contents)
        (λ docs. and_then (place_docs marshal (stable_sort key_before docs) no_parts) with_general)

-- `sortSectionMetas`: general first, then the others in the order of their names.
abbrev pub meta_before : SliceMeta → SliceMeta → Bool
meta_before a b = elim (compare a.name b.name) [ Ordering.lt ↦ true | _ ↦ false ]

unfoldable pub with_name : Bool → List SliceMeta → List SliceMeta
with_name general [] = []
with_name general (m ∷ metas) =
    let rest = with_name general metas in
    if str_eq m.name "general"
    then (if general then m ∷ rest else rest)
    else (if general then rest else m ∷ rest)

unfoldable pub sort_section_metas : List SliceMeta → List SliceMeta
sort_section_metas metas = with_name true metas ++ stable_sort meta_before (with_name false metas)
