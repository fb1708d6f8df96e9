-- ===== src/Config/Examples.antt =====
-- Two section files, an edit of one, and a section that the manifest does not name.
use matrixctrl.Common.{
  ◌≡◌, refl, subst, inl, inr, String, Bool, true, false, Option, none, some, List, [], ◌∷◌, str_eq,
  lookup, insert, if◌then◌else◌,
}
use matrixctrl.Common.Dots.{split_dots}
use matrixctrl.Common.Tree.{Value, int, object, Fields, end, field, find, get, set, del}
use matrixctrl.Common.Bytes.{has_prefix}
use matrixctrl.Config.Merge.{deep_merge, merge_all, merge_to_map}
use matrixctrl.Config.Merge.Laws.{IsSilentFile, IsMapAlong, IsSilent, get-merge_to_map}
use matrixctrl.Config.Nodes.{
  Remarks, no_remarks, new_key, YamlNode, leaf, mapping, Pairs, no_pairs, pair, find_node, upsert,
  set_in, set_node_value, delete_in,
}
use matrixctrl.Config.Nodes.Plain.{plain_node, plain, plain-edits}
use matrixctrl.Config.Comments.{
  equal, delete, insert as put_in, Diffs, keep_comments, settings, new_text, only_comments,
  restored, settings-keep_comments,
}
use matrixctrl.Config.Store.{
  SliceMeta, Repo, merged_content, edit_files, group_removes, group_sets, set_all, delete_all,
  concat, set_section_values,
}
use matrixctrl.Config.Store.Untouched.{merged_content-set_section_values}

abbrev synapse_section : Value → Fields
synapse_section v = field "synapse" (object (field "replicas" v end)) end

abbrev rtc : Fields
rtc = field "matrixRTC" (object end) end

abbrev parse : String → Option Fields
parse s =
    if str_eq s "one"
    then some (synapse_section (int 1))
    else (if str_eq s "two"
        then some (synapse_section (int 2))
        else (if str_eq s "rtc" then some rtc else none))

rtc_is : (m : Fields) → some rtc ≡ some m → rtc ≡ m
rtc_is m h = cc h

rtc-IsSilentFile : IsSilentFile parse ("synapse" ∷ "replicas" ∷ []) "rtc"
unfolding find
rtc-IsSilentFile m h =
    subst
      (λ f.
        IsMapAlong ("synapse" ∷ "replicas" ∷ []) (some (object f))
        × IsSilent ("synapse" ∷ "replicas" ∷ []) (some (object f)))
      (rtc_is m h) (((refl, tt), (tt, tt)), inr (rtc, refl, inl refl))

get-merge_to_map_example :
    get
      ("synapse" ∷ "replicas" ∷ [])
      (object (field "synapse" (object (field "replicas" (int 2) end)) rtc))
    ≡ some (int 2)
unfolding merge_to_map merge_all deep_merge find get
get-merge_to_map_example =
    get-merge_to_map parse ("synapse" ∷ "replicas" ∷ []) ("one" ∷ []) ("rtc" ∷ []) "two"
      (synapse_section (int 2)) (field "synapse" (object (field "replicas" (int 2) end)) rtc)
      (int 2) refl refl refl ((refl, tt), ((refl, tt), tt)) refl refl (rtc-IsSilentFile, tt)

abbrev encode : Value → Option YamlNode
encode v = some (leaf v false no_remarks)

abbrev no_newline : String → Bool
no_newline s = false

abbrev remarks : Remarks
remarks = record { head = "## Synapse"; line = ""; foot = "" }

abbrev document : Value → Bool → Pairs
document v flow =
    pair (record { text = "synapse"; remarks = remarks })
      (mapping flow no_remarks (pair (new_key "replicas") (leaf v false remarks) no_pairs)) no_pairs

leaf_is : (n : YamlNode) → encode (int 2) ≡ some n → leaf (int 2) false no_remarks ≡ n
leaf_is n h = cc h

encoded-plain : (n : YamlNode) → encode (int 2) ≡ some n → plain_node n ≡ int 2
unfolding plain
encoded-plain n h = subst (λ k. plain_node k ≡ int 2) (leaf_is n h) refl

plain-edits_example :
    (plain (document (int 2) false)
      ≡ set "synapse" ("replicas" ∷ []) (int 2) (plain (document (int 1) true)))
    × (plain (delete_in "synapse" ("replicas" ∷ []) (document (int 1) true))
        ≡ del "synapse" ("replicas" ∷ []) (plain (document (int 1) true)))
unfolding set_node_value set_in upsert find_node plain
plain-edits_example =
    plain-edits no_newline encode "synapse" ("replicas" ∷ []) (int 2) (document (int 1) true)
      (document (int 2) false) (tt, tt) ((refl, tt), (refl, tt)) encoded-plain refl

abbrev same : String → String
same s = s

abbrev diffs : Diffs
diffs =
    (equal, "a: 1" ∷ [])
    ∷ (delete, "# moved" ∷ [])
    ∷ (put_in, "#  moved" ∷ [])
    ∷ (equal, "b:" ∷ [])
    ∷ (delete, " c: 2" ∷ [])
    ∷ (put_in, " c: 3" ∷ [])
    ∷ []

settings-keep_comments_example :
    settings same (
      keep_comments same
        ("a: 1" ∷ "# moved" ∷ "b:" ∷ " c: 2" ∷ [])
        ("a: 1" ∷ "#  moved" ∷ "b:" ∷ " c: 3" ∷ [])
        diffs)
    ≡ settings same ("a: 1" ∷ "#  moved" ∷ "b:" ∷ " c: 3" ∷ [])
unfolding new_text
settings-keep_comments_example =
    settings-keep_comments same ("a: 1" ∷ "# moved" ∷ "b:" ∷ " c: 2" ∷ [])
      ("a: 1" ∷ "#  moved" ∷ "b:" ∷ " c: 3" ∷ []) diffs refl

-- The comment is put back as it was.
kept :
    keep_comments same
      ("a: 1" ∷ "# moved" ∷ "b:" ∷ " c: 2" ∷ [])
      ("a: 1" ∷ "#  moved" ∷ "b:" ∷ " c: 3" ∷ [])
      diffs
    ≡ "a: 1" ∷ "# moved" ∷ "b:" ∷ " c: 3" ∷ []
unfolding keep_comments restored only_comments has_prefix
kept = refl

abbrev slices : List SliceMeta
slices = record { name = "synapse"; file = "synapse.yaml"; description = "" } ∷ []

abbrev repo : Repo
repo = record { slices = some slices; files = ("synapse.yaml", "one") ∷ [] }

abbrev parse_yaml : String → Option Pairs
parse_yaml s = some no_pairs

abbrev marshal : Pairs → Option String
marshal m = some "text"

abbrev no_diffs : String → String → Diffs
no_diffs a b = []

-- The request below succeeds.
saved :
    (set_section_values no_newline encode parse_yaml marshal same no_diffs repo
      (("hookshot.enabled", Value.bool true) ∷ [])
      []).0
    ≡ none
unfolding set_section_values edit_files group_removes group_sets insert lookup set_all delete_all
    set_node_value set_in upsert split_dots concat
saved = refl

merged_content-set_section_values_example :
    merged_content (
      (set_section_values no_newline encode parse_yaml marshal same no_diffs repo
        (("hookshot.enabled", Value.bool true) ∷ [])
        []).1)
    ≡ merged_content repo
unfolding split_dots
merged_content-set_section_values_example =
    merged_content-set_section_values no_newline encode parse_yaml marshal same no_diffs repo slices
      (("hookshot.enabled", Value.bool true) ∷ []) [] refl ((((refl, tt), tt)), tt)
