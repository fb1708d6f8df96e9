-- ===== src/Config/Migrate/Owned.antt =====
-- The section files of `BuildSectionFiles` (internal/config/migrate.go) are those that
-- `SetSectionValues` edits.
use Prim.Native.String.{◌++◌ as append}
use matrixctrl.Common.{
  ◌≡◌, refl, ap, sym, ◌∙◌, String, Bool, true, false, Option, none, some, List, [], ◌∷◌, ◌⊎◌, inl,
  inr, All, str_eq, eq_iff, arith, insert, lookup, lookup-insert,
}
use matrixctrl.Common.Sort.{stable_sort}
use matrixctrl.Common.Tree.{Value, Fields}
use matrixctrl.Config.Nodes.{Pairs, no_pairs, pair, YamlNode}
use matrixctrl.Config.Store.{owner_file}
use matrixctrl.Config.Migrate.{
  no_parts, Parts, append_pairs, files_of, add_file, place_docs, with_general, docs_of, key_before,
  build_section_files,
}
use matrixctrl.Config.Migrate.Kept.{
  HasPart, IsOtherSection, AreApart, append_pairs-nil, and_then-some, add_file-some, other_name,
  IsPlaced, place_docs-IsPlaced,
}

abbrev pub is_full : Pairs → Bool
is_full no_pairs = false
is_full (pair k n m) = true

HasPart-not_full : (d : Pairs) → is_full d ≡ true → HasPart no_pairs d → is_full no_pairs ≡ true
unfolding append_pairs
HasPart-not_full no_pairs f h = cc f
HasPart-not_full (pair k n d) f (no_pairs, after, e) = cc e
HasPart-not_full (pair k n d) f (pair l o before, after, e) = cc e

files_of-some :
    (o : Option Parts) (files : List (String × String))
    → files_of o ≡ some files
    → (q : Parts) × (o ≡ some q) × (files ≡ q.files)
files_of-some none files h = cc h
files_of-some (some q) files h = (q, refl, cc h)

str_eq_ne_sym : (s t : String) → str_eq s t ≡ false → str_eq t s ≡ false
str_eq_ne_sym s t h = ground (arith, h, eq_iff s t, eq_iff t s)

module _ (has_newline : String → Bool) (encode : Value → Option YamlNode)
    (parse_yaml : String → Option Pairs) (yaml_to_map : String → Fields)
    (marshal : Pairs → Option String) where
  -- The section stands whole in the document of the file that its edits go to.
  abbrev pub IsOwned : List (String × String) → String × Pairs → Type 0
  IsOwned files (key, d) =
      (m : Pairs) × (t : String) × HasPart m d
      × (marshal m ≡ some t)
      × (lookup (append (owner_file key) ".yaml") files ≡ some t)

  with_general-cases :
      (fs : List (String × String)) (g : Pairs) (files : List (String × String))
      → with_general has_newline encode parse_yaml yaml_to_map marshal
          (record { files = fs; general = g })
        ≡ some files
      → ((g ≡ no_pairs) × (files ≡ fs))
        ⊎ ((t : String) × (marshal g ≡ some t) × (files ≡ insert "general.yaml" t fs))
  with_general-cases fs no_pairs files h = inl (refl, cc h)
  with_general-cases fs (pair k n m) files h =
      let q =
        files_of-some
          (add_file "general.yaml" (marshal (pair k n m))
            (record { files = fs; general = pair k n m }))
          files h in
      let w =
        add_file-some "general.yaml" (marshal (pair k n m))
          (record { files = fs; general = pair k n m }) (q.0) (q.1) in
      inr (w.0, w.1, q.2 ∙ ap (λ r. r.files) (w.2))

  placed-IsOwned :
      (p : Parts) (files : List (String × String)) (key : String) (d : Pairs)
      → with_general has_newline encode parse_yaml yaml_to_map marshal p ≡ some files
      → is_full d ≡ true
      → IsOtherSection "general.yaml" (key, d)
      → IsPlaced marshal p (key, d)
      → IsOwned files (key, d)
  unfolding append_pairs
  placed-IsOwned p files key d h f s (inl g) = elim (with_general-cases p.files p.general files h) [
    | inl w ↦ cc (HasPart-not_full d f (g.1.0, g.1.1, sym (w.0) ∙ g.1.2))
    | inr w ↦ (
      p.general,
      w.0,
      g.1,
      w.1,
      rw (g.0, w.2) (lookup-insert "general.yaml" "general.yaml" (w.0) p.files),
    )
  ]
  placed-IsOwned p files key d h f s (inr g) = elim (with_general-cases p.files p.general files h) [
    | inl w ↦
        (d, g.1.0, (no_pairs, no_pairs, sym (append_pairs-nil d)), g.1.1, rw (g.0, w.1) (g.1.2))
    | inr w ↦ (
      d,
      g.1.0,
      (no_pairs, no_pairs, sym (append_pairs-nil d)),
      g.1.1,
      rw (g.0, w.2)
          (lookup-insert "general.yaml" (append key ".yaml") (w.0) p.files
            ∙ rw
                (str_eq_ne_sym (append key ".yaml") "general.yaml"
                  (other_name "general.yaml" key d s (g.0)))
                (g.1.2)),
    )
  ]

  All-IsOwned :
      (p : Parts) (files : List (String × String)) (docs : List (String × Pairs))
      → with_general has_newline encode parse_yaml yaml_to_map marshal p ≡ some files
      → All (λ d. is_full (d.1) ≡ true) docs
      → All (IsOtherSection "general.yaml") docs
      → All (IsPlaced marshal p) docs
      → All (IsOwned files) docs
  All-IsOwned p files [] h f s g = tt
  All-IsOwned p files ((key, d) ∷ docs) h f s g = (
    placed-IsOwned p files key d h (f.0) (s.0) (g.0),
    All-IsOwned p files docs h (f.1) (s.1) (g.1),
  )

  -- Where section files can be built from the contents, and the sections they are merged to are not
  -- empty, have files of different names and none the name of general.yaml, every section
  -- stands whole in the document of the file that its edits go to.
  pub build_section_files-IsOwned :
      (contents : List String) (docs : List (String × Pairs)) (files : List (String × String))
      → docs_of has_newline encode parse_yaml yaml_to_map marshal contents ≡ some docs
      → build_section_files has_newline encode parse_yaml yaml_to_map marshal contents ≡ some files
      → All (λ d. is_full (d.1) ≡ true) (stable_sort key_before docs)
      → All (IsOtherSection "general.yaml") (stable_sort key_before docs)
      → AreApart (stable_sort key_before docs)
      → All (IsOwned files) (stable_sort key_before docs)
  unfolding build_section_files
  build_section_files-IsOwned contents docs files k h f s a =
      let one =
        and_then-some (place_docs marshal (stable_sort key_before docs) no_parts)
          (with_general has_newline encode parse_yaml yaml_to_map marshal) files (rw k at h) in
      All-IsOwned (one.0) files (stable_sort key_before docs) (one.2) f s
        (place_docs-IsPlaced marshal (stable_sort key_before docs) no_parts (one.0) (one.1) a)
