-- ===== src/Config/Store/Untouched.antt =====
-- Which files `SetSectionValues` (internal/config/sections.go) leaves alone.
use Prim.Native.String.{◌++◌ as append}
use matrixctrl.Common.{
  ◌≡◌, refl, ap, ◌∙◌, String, Bool, false, Bool-cases, Option, some, List, [], ◌∷◌, ◌⊎◌, inl, inr,
  All, str_eq, insert, lookup, lookup-insert,
}
use matrixctrl.Common.Tree.{Value}
use matrixctrl.Config.Comments.{Diffs}
use matrixctrl.Config.Nodes.{Pairs, YamlNode}
use matrixctrl.Config.Store.{
  SliceMeta, Repo, StoreError, onto_texts, texts_of, merged_content, owner_file, split_dot, Edit,
  group_set, group_sets, group_remove, group_removes, written, after_file, edit_files,
  set_section_values,
}

-- The file is not the one that the section of the path is kept in.
abbrev pub IsElsewhere : String → List String → Type 0
IsElsewhere file [] = Unit {0}
IsElsewhere file (top ∷ rest) = str_eq (append (owner_file top) ".yaml") file ≡ false

abbrev pub IsOtherFile : String → String × Edit → Type 0
IsOtherFile file (base, e) = str_eq (append base ".yaml") file ≡ false

insert-All :
    (file base : String) (e : Edit) (by_file : List (String × Edit))
    → str_eq (append base ".yaml") file ≡ false
    → All (IsOtherFile file) by_file
    → All (IsOtherFile file) (insert base e by_file)
unfolding insert
insert-All file base e [] h a = (h, tt)
insert-All file base e ((b, d) ∷ by_file) h a = elim (Bool-cases (str_eq b base)) [
  | inl s ↦ rw s (h, a.1)
  | inr s ↦ rw s (a.0, insert-All file base e by_file h (a.1))
]

group_set-All :
    (file path : String) (v : Value) (parts : List String) (by_file : List (String × Edit))
    → IsElsewhere file parts
    → All (IsOtherFile file) by_file
    → All (IsOtherFile file) (group_set path v parts by_file)
group_set-All file path v [] by_file h a = a
group_set-All file path v (top ∷ rest) by_file h a = insert-All file (owner_file top) _ by_file h a

group_sets-All :
    (file : String) (changes : List (String × Value)) (by_file : List (String × Edit))
    → All (λ c. IsElsewhere file (split_dot (c.0))) changes
    → All (IsOtherFile file) by_file
    → All (IsOtherFile file) (group_sets changes by_file)
unfolding group_sets
group_sets-All file [] by_file h a = a
group_sets-All file ((path, v) ∷ changes) by_file h a =
    group_sets-All file changes (group_set path v (split_dot path) by_file) (h.1)
      (group_set-All file path v (split_dot path) by_file (h.0) a)

group_remove-All :
    (file : String) (parts : List String) (by_file : List (String × Edit))
    → IsElsewhere file parts
    → All (IsOtherFile file) by_file
    → All (IsOtherFile file) (group_remove parts by_file)
group_remove-All file [] by_file h a = a
group_remove-All file (top ∷ rest) by_file h a = insert-All file (owner_file top) _ by_file h a

group_removes-All :
    (file : String) (removals : List String) (by_file : List (String × Edit))
    → All (λ p. IsElsewhere file (split_dot p)) removals
    → All (IsOtherFile file) by_file
    → All (IsOtherFile file) (group_removes removals by_file)
unfolding group_removes
group_removes-All file [] by_file h a = a
group_removes-All file (path ∷ removals) by_file h a =
    group_removes-All file removals (group_remove (split_dot path) by_file) (h.1)
      (group_remove-All file (split_dot path) by_file (h.0) a)

after_file-lookup :
    (file target : String) (o : StoreError ⊎ String) (files : List (String × String))
    (next : List (String × String) → Option StoreError × List (String × String))
    → str_eq target file ≡ false
    → ((fs : List (String × String)) → lookup file ((next fs).1) ≡ lookup file fs)
    → lookup file ((after_file (written target o files) files next).1) ≡ lookup file files
after_file-lookup file target (inl e) files next h ih = refl
after_file-lookup file target (inr t) files next h ih =
    ih (insert target t files) ∙ lookup-insert target file t files ∙ rw h refl

texts_of-lookup :
    (old new : List (String × String)) (ms : List SliceMeta)
    → All (λ m. lookup m.file new ≡ lookup m.file old) ms
    → texts_of new ms ≡ texts_of old ms
unfolding texts_of
texts_of-lookup old new [] h = refl
texts_of-lookup old new (m ∷ ms) h =
    rw (h.0) (ap (onto_texts (lookup m.file old)) (texts_of-lookup old new ms (h.1)))

module _ (has_newline : String → Bool) (encode : Value → Option YamlNode)
    (parse_yaml : String → Option Pairs) (marshal : Pairs → Option String)
    (trim_space : String → String) (diff_lines : String → String → Diffs) where
  edit_files-lookup :
      (file : String) (by_file : List (String × Edit)) (files : List (String × String))
      → All (IsOtherFile file) by_file
      → lookup file
          ((edit_files has_newline encode parse_yaml marshal trim_space diff_lines by_file files).1)
        ≡ lookup file files
  unfolding edit_files
  edit_files-lookup file [] files a = refl
  edit_files-lookup file ((base, e) ∷ by_file) files a =
      after_file-lookup file (append base ".yaml") _ files
        (λ fs. edit_files has_newline encode parse_yaml marshal trim_space diff_lines by_file fs)
        (a.0) (λ fs. edit_files-lookup file by_file fs (a.1))

  -- A request that fails or succeeds leaves every file alone that keeps none of the sections it names.
  pub set_section_values-lookup :
      (file : String) (r : Repo) (changes : List (String × Value)) (removals : List String)
      → All (λ c. IsElsewhere file (split_dot (c.0))) changes
      → All (λ p. IsElsewhere file (split_dot p)) removals
      → lookup file
          ((set_section_values has_newline encode parse_yaml marshal trim_space diff_lines r changes
              removals).1
            ).files
        ≡ lookup file r.files
  unfolding set_section_values
  set_section_values-lookup file r changes removals c d =
      edit_files-lookup file (group_removes removals (group_sets changes [])) r.files (
        group_removes-All file removals (group_sets changes []) d
          (group_sets-All file changes [] c tt))

  -- A slice whose file keeps none of the sections that a request names.
  abbrev pub IsSpared : List (String × Value) → List String → SliceMeta → Type 0
  IsSpared changes removals m =
      All (λ c. IsElsewhere m.file (split_dot (c.0))) changes
      × All (λ p. IsElsewhere m.file (split_dot p)) removals

  spared-lookup :
      (r : Repo) (changes : List (String × Value)) (removals : List String) (ms : List SliceMeta)
      → All (IsSpared changes removals) ms
      → All
          (λ m.
            lookup m.file
              ((set_section_values has_newline encode parse_yaml marshal trim_space diff_lines r
                  changes removals).1
                ).files
            ≡ lookup m.file r.files)
          ms
  spared-lookup r changes removals [] s = tt
  spared-lookup r changes removals (m ∷ ms) s = (
    set_section_values-lookup m.file r changes removals (s.0.0) (s.0.1),
    spared-lookup r changes removals ms (s.1),
  )

  -- A request of which no section is kept in a file of the manifest changes nothing of what is merged,
  -- whether it succeeds or fails.
  pub merged_content-set_section_values :
      (r : Repo) (ms : List SliceMeta) (changes : List (String × Value)) (removals : List String)
      → r.slices ≡ some ms
      → All (IsSpared changes removals) ms
      → merged_content (
          (set_section_values has_newline encode parse_yaml marshal trim_space diff_lines r changes
            removals).1)
        ≡ merged_content r
  unfolding set_section_values
  merged_content-set_section_values r ms changes removals h s =
      rw h (ap some (texts_of-lookup r.files _ ms (spared-lookup r changes removals ms s)))
