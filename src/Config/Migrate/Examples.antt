-- ===== src/Config/Migrate/Examples.antt =====
-- The division of a file with a server name and a section of Synapse.
use matrixctrl.Common.{
  refl, inl, inr, String, Bool, false, Option, some, List, [], ◌∷◌, All, insert,
}
use matrixctrl.Common.Sort.{stable_sort, place}
use matrixctrl.Common.Tree.{Value, int, Fields, end}
use matrixctrl.Config.Nodes.{new_key, no_remarks, Pairs, no_pairs, pair, YamlNode, leaf, mapping}
use matrixctrl.Config.Migrate.{
  split_top_level, override_all, append_pairs, key_before, place_docs, build_section_files,
}
use matrixctrl.Config.Migrate.Owned.{IsOwned, build_section_files-IsOwned}

abbrev section : String → Pairs
section key =
    pair (new_key key)
      (mapping false no_remarks
        (pair (new_key "replicas") (leaf (int 1) false no_remarks) no_pairs))
      no_pairs

abbrev base : Pairs
base = pair (new_key "synapse") (leaf (int 1) false no_remarks) (section "serverName")

abbrev docs : List (String × Pairs)
docs =
    ("synapse", pair (new_key "synapse") (leaf (int 1) false no_remarks) no_pairs)
    ∷ ("serverName", section "serverName")
    ∷ []

abbrev no_newline : String → Bool
no_newline s = false

abbrev encode : Value → Option YamlNode
encode v = some (leaf v false no_remarks)

abbrev parse_yaml : String → Option Pairs
parse_yaml s = some base

abbrev yaml_to_map : String → Fields
yaml_to_map s = end

abbrev marshal : Pairs → Option String
marshal no_pairs = some ""
marshal (pair k n m) = some k.text

build_section_files-IsOwned_example :
    All
      (IsOwned no_newline encode parse_yaml yaml_to_map marshal
        (("synapse.yaml", "synapse") ∷ ("general.yaml", "serverName") ∷ []))
      (stable_sort key_before docs)
unfolding split_top_level override_all insert build_section_files place_docs append_pairs
    stable_sort place
build_section_files-IsOwned_example =
    build_section_files-IsOwned no_newline encode parse_yaml yaml_to_map marshal ("base" ∷ []) docs
      (("synapse.yaml", "synapse") ∷ ("general.yaml", "serverName") ∷ []) refl refl
      (refl, (refl, tt)) (inl refl, (inr refl, tt)) ((inr refl, tt), (tt, tt))
