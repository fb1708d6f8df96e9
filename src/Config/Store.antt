-- ===== src/Config/Store.antt =====
-- The section files of the config repository: internal/config/store.go, and `SetSectionValues` of
-- internal/config/sections.go. The files of the directory are an association list of their texts,
-- and writing one succeeds.
use Prim.Native.String.{◌++◌ as append}
use matrixctrl.Common.{
  String, Bool, true, false, Option, none, some, List, [], ◌∷◌, ◌++◌, ◌||◌, not, ◌⊎◌, inl, inr,
  str_eq, has_text, insert, lookup, if◌then◌else◌,
}
use matrixctrl.Common.Dots.{split_dots}
use matrixctrl.Common.Tree.{Value}
use matrixctrl.Config.Comments.{Diffs, restored}
use matrixctrl.Config.Nodes.{Pairs, no_pairs, YamlNode, set_in, delete_in, set_node_value}
pub mod Untouched

pub record SliceMeta : Type 0 where
  pub name : String
  pub file : String
  pub description : String

-- `none` for a manifest that is missing or cannot be parsed.
pub record Repo : Type 0 where
  pub slices : Option (List SliceMeta)
  pub files : List (String × String)

pub data StoreError : Type 0 where
  no_manifest : StoreError
  not_found : String → StoreError
  invalid_yaml : StoreError
  not_parsed : String → StoreError
  not_encoded : StoreError

-- `MergedContent`: the texts of the manifest's files that exist, in its order. A file that exists can
-- be read.
abbrev pub onto_texts : Option String → List String → List String
onto_texts none texts = texts
onto_texts (some t) texts = t ∷ texts

unfoldable pub texts_of : List (String × String) → List SliceMeta → List String
texts_of files [] = []
texts_of files (m ∷ ms) = onto_texts (lookup m.file files) (texts_of files ms)

abbrev pub merged_content : Repo → Option (List String)
merged_content r = elim r.slices [ none ↦ none | some ms ↦ some (texts_of r.files ms) ]

-- `IsMigrated`
unfoldable pub has_no_values : List SliceMeta → Bool
has_no_values [] = true
has_no_values (m ∷ ms) =
    let rest = has_no_values ms in if str_eq m.name "values" then false else rest

abbrev pub is_migrated : Repo → Bool
is_migrated r = elim r.slices [ none ↦ false | some ms ↦ has_no_values ms ]

-- `Put`, with the test of `yaml.Unmarshal`.
unfoldable pub file_of : String → List SliceMeta → Option String
file_of name [] = none
file_of name (m ∷ ms) = if str_eq m.name name then some m.file else file_of name ms

abbrev pub put_file : (String → Bool) → Repo → String → String → Option String → StoreError ⊎ Repo
put_file is_yaml r name content none = inl (not_found name)
put_file is_yaml r name content (some f) =
    if is_yaml content
    then inr (record { slices = r.slices; files = insert f content r.files })
    else inl invalid_yaml

abbrev pub put : (String → Bool) → Repo → String → String → StoreError ⊎ Repo
put is_yaml r name content = elim r.slices [
  | none ↦ inl no_manifest
  | some ms ↦ put_file is_yaml r name content (file_of name ms)
]

abbrev pub general_keys : List String
general_keys =
    "serverName" ∷ "labels" ∷ "certManager" ∷ "ingress" ∷ "matrixTools" ∷ "global"
    ∷ "deploymentMarkers" ∷ "imagePullSecrets" ∷ []

-- `ownerFile`
abbrev pub owner_file : String → String
owner_file top = if has_text top general_keys then "general" else top

-- `splitDot`
abbrev pub split_dot : String → List String
split_dot s = if str_eq s "" then [] else split_dots s

pub record Edit : Type 0 where
  pub sets : List (String × Value)
  pub removes : List (List String)

-- `ensure`
abbrev pub edit_of : Option Edit → Edit
edit_of none = record { sets = []; removes = [] }
edit_of (some e) = e

abbrev pub group_set : String → Value → List String → List (String × Edit) → List (String × Edit)
group_set path v [] by_file = by_file
group_set path v (top ∷ rest) by_file =
    let e = edit_of (lookup (owner_file top) by_file) in
    insert (owner_file top) (record { sets = insert path v e.sets; removes = e.removes }) by_file

unfoldable pub group_sets : List (String × Value) → List (String × Edit) → List (String × Edit)
group_sets [] by_file = by_file
group_sets ((path, v) ∷ changes) by_file =
    group_sets changes (group_set path v (split_dot path) by_file)

abbrev pub group_remove : List String → List (String × Edit) → List (String × Edit)
group_remove [] by_file = by_file
group_remove (top ∷ rest) by_file =
    let e = edit_of (lookup (owner_file top) by_file) in
    insert (owner_file top) (record { sets = e.sets; removes = e.removes ++ (top ∷ rest) ∷ [] })
      by_file

unfoldable pub group_removes : List String → List (String × Edit) → List (String × Edit)
group_removes [] by_file = by_file
group_removes (path ∷ removals) by_file =
    group_removes removals (group_remove (split_dot path) by_file)

abbrev pub text_or_empty : Option String → String
text_or_empty none = ""
text_or_empty (some t) = t

abbrev pub written :
    String → StoreError ⊎ String → List (String × String) → StoreError ⊎ List (String × String)
written file (inl e) files = inl e
written file (inr t) files = inr (insert file t files)

abbrev pub after_file :
    StoreError ⊎ List (String × String)
    → List (String × String)
    → (List (String × String) → Option StoreError × List (String × String))
    → Option StoreError × List (String × String)
after_file (inl e) files next = (some e, files)
after_file (inr written) files next = next written

-- The package yaml.v3 on documents whose root is a mapping, and the comparison of diffmatchpatch.
module _ (has_newline : String → Bool) (encode : Value → Option YamlNode)
    (parse_yaml : String → Option Pairs) (marshal : Pairs → Option String)
    (trim_space : String → String) (diff_lines : String → String → Diffs) where
  abbrev pub set_path : List String → Value → Pairs → Option Pairs
  set_path [] v m = some m
  set_path (k ∷ path) v m = set_node_value has_newline encode k path v m

  unfoldable pub set_all : List (String × Value) → Option Pairs → Option Pairs
  set_all [] o = o
  set_all ((path, v) ∷ sets) none = none
  set_all ((path, v) ∷ sets) (some m) = set_all sets (set_path (split_dot path) v m)

  abbrev pub delete_path : List String → Pairs → Pairs
  delete_path [] m = m
  delete_path (k ∷ path) m = delete_in k path m

  unfoldable pub delete_all : List (List String) → Pairs → Pairs
  delete_all [] m = m
  delete_all (path ∷ removes) m = delete_all removes (delete_path path m)

  unfoldable pub concat : List String → String
  concat [] = ""
  concat (l ∷ ls) = append l (concat ls)

  abbrev pub tidy : String → String → String
  tidy original edited =
      if str_eq original ""
      then edited
      else concat (restored trim_space (diff_lines original edited) [] [] [])

  abbrev pub marshalled : String → Option String → StoreError ⊎ String
  marshalled existing none = inl not_encoded
  marshalled existing (some out) = inr (tidy existing out)

  abbrev pub edited : String → Edit → Option Pairs → StoreError ⊎ String
  edited existing e none = inl not_encoded
  edited existing e (some m) = marshalled existing (marshal (delete_all e.removes m))

  abbrev pub new_text : String → String → Edit → Option Pairs → StoreError ⊎ String
  new_text file existing e none = inl (not_parsed file)
  new_text file existing e (some m) = edited existing e (set_all e.sets (some m))

  -- The body of the loop over the files; the files before an error stay written.
  abbrev pub edit_file :
      String → Edit → List (String × String) → StoreError ⊎ List (String × String)
  edit_file base e files =
      let file = append base ".yaml" in
      let existing = text_or_empty (lookup file files) in
      written file (new_text file existing e (parse_yaml existing)) files

  unfoldable pub edit_files :
      List (String × Edit) → List (String × String) → Option StoreError × List (String × String)
  edit_files [] files = (none, files)
  edit_files ((base, e) ∷ by_file) files =
      after_file (edit_file base e files) files (λ written. edit_files by_file written)

  -- `SetSectionValues`
  unfoldable pub set_section_values :
      Repo → List (String × Value) → List String → Option StoreError × Repo
  set_section_values r changes removals =
      let result = edit_files (group_removes removals (group_sets changes [])) r.files in
      (result.0, record { slices = r.slices; files = result.1 })
