-- ===== src/Drift/Examples/Hand.antt =====
-- A deployment with a field of Helm, one that kubectl set, and one of an unknown writer.
use matrixctrl.Common.{
  ℕ, ◌≡◌, refl, ◌⊎◌, inr, String, Bool, true, Option, none, some, List, [], ◌∷◌, lookup, ◌==◌,
}
use matrixctrl.Common.Bytes.{Bytes, ascii, has_prefix}
use matrixctrl.Common.Dots.{split_dots}
use matrixctrl.Common.Sort.{place, stable_sort}
use matrixctrl.Common.Texts.{ends_with}
use matrixctrl.Common.Tree.{Value, bool, str, object, Fields, end, field, find}
use matrixctrl.Capacity.Manifest.{documents}
use matrixctrl.Drift.Chart.{
  value_at_segments, value_at, longest_from, object_among, match_at, same_value, deep_equal,
}
use matrixctrl.Drift.Fields.{classify_manager, interesting, decode_field_key, walk_fields}
use matrixctrl.Drift.Manual.{
  ManualEdit, ManagedFieldsEntry, ObjectFields, rank, interesting_of, covered_by_hook,
  edits_of_entry, edits_of_entries, edits_of_objects, find_manual_edits, summarise_manual,
}
use matrixctrl.Drift.Marking.{mark_edit, mark_edits, mark_chart_matches}

abbrev to_lower : String → String
to_lower s = s

abbrev json_text : Value → Option String
json_text v = none

abbrev decode_map : String → Option Fields
decode_map s = some (field "f:spec" (object (field "f:hostNetwork" (object end) end)) end)

abbrev entry : String → ManagedFieldsEntry
entry manager = record {
  manager = manager;
  operation = "Update";
  time = "";
  subresource = "";
  fields_v1 = "{}";
}

abbrev objects : List ObjectFields
objects =
    record {
      resource = "deployment";
      namespace = "ess";
      name = "sfu";
      entries = entry "helm" ∷ entry "someone" ∷ entry "kubectl-edit" ∷ [];
    }
    ∷ []

abbrev edits : List ManualEdit
edits = find_manual_edits to_lower json_text decode_map [] objects

edits_summary : summarise_manual edits ≡ (1, 0, 1, 0)
unfolding summarise_manual find_manual_edits edits_of_objects edits_of_entries edits_of_entry
    classify_manager ends_with interesting_of interesting walk_fields decode_field_key stable_sort
    place rank covered_by_hook lookup
edits_summary = refl

abbrev sprint : Value → String
sprint v = "true"

abbrev parse_quantity : String → Option ℕ
parse_quantity s = none

abbrev same_amount : ℕ → ℕ → Bool
same_amount a b = a == b

abbrev decode_yaml : Bytes → Option Fields
decode_yaml doc = some (
    field "kind" (str "Deployment") (
      field "metadata" (object (field "name" (str "sfu") end))
        (field "spec" (object (field "hostNetwork" (bool true) end)) end)))

abbrev equal_fold : String → String → Bool
equal_fold a b = true

abbrev decode_live : String → Option Fields
decode_live s = decode_yaml []

abbrev get_object : String → String → String → String ⊎ String
get_object resource namespace name = inr "live"

abbrev source : Option (String ⊎ Bytes)
source = some (inr (ascii "kind"))

abbrev marked : List ManualEdit
marked =
    mark_chart_matches sprint parse_quantity same_amount decode_yaml equal_fold decode_live
      get_object source edits

marked_summary : summarise_manual marked ≡ (0, 0, 1, 1)
unfolding summarise_manual find_manual_edits edits_of_objects edits_of_entries edits_of_entry
    classify_manager ends_with interesting_of interesting walk_fields decode_field_key stable_sort
    place rank covered_by_hook lookup mark_chart_matches mark_edits mark_edit object_among documents
    match_at value_at value_at_segments longest_from split_dots find same_value deep_equal
    has_prefix
marked_summary = refl
