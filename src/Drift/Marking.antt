-- ===== src/Drift/Marking.antt =====
-- `manualEdits` and `markChartMatches` of internal/api/handlers/drift.go. The manifest's source is asked once.
use matrixctrl.Common.{
  ◌⊎◌, inl, inr, String, Bool, true, false, Option, none, some, List, [], ◌∷◌, if◌then◌else◌,
}
use matrixctrl.Common.Bytes.{Bytes}
use matrixctrl.Common.Tree.{Value, Fields}
use matrixctrl.Drift.Check.{Action}
use matrixctrl.Drift.Chart.{matches_chart, manifest_object}
use matrixctrl.Drift.Manual.{ManualEdit, ObjectFields, is_human, hook_paths_of, find_manual_edits}

abbrev has_some : List String → Bool
has_some [] = false
has_some (p ∷ ps) = true

-- What `ListOwnership` returns, if there is a client: the objects, and the types that could not be listed.
module _ (to_lower : String → String) (json_text : Value → Option String)
    (decode_map : String → Option Fields) (decode_paths : String → Option (List String)) where
  abbrev manual_edits_of : List ObjectFields → List String → List Action → List ManualEdit × Bool
  manual_edits_of [] (p ∷ problems) actions = ([], true)
  manual_edits_of objects problems actions = (
    find_manual_edits to_lower json_text decode_map
        (hook_paths_of to_lower json_text decode_map decode_paths actions []) objects,
    has_some problems,
  )

  unfoldable pub manual_edits :
      Option (List ObjectFields × List String) → List Action → List ManualEdit × Bool
  manual_edits none actions = ([], true)
  manual_edits (some (objects, problems)) actions = manual_edits_of objects problems actions

abbrev pub with_match : ManualEdit → Bool → ManualEdit
with_match e b = record {
  resource = e.resource;
  namespace = e.namespace;
  name = e.name;
  manager = e.manager;
  kind = e.kind;
  paths = e.paths;
  covered = e.covered;
  matches_chart = b;
  updated_at = e.updated_at;
}

-- `json.Unmarshal` into a map is `none` for an error, and for null, which matches nothing either.
module _ {Q : Type 0} (sprint : Value → String) (parse_quantity : String → Option Q)
    (same_amount : Q → Q → Bool) (decode_yaml : Bytes → Option Fields)
    (equal_fold : String → String → Bool) (decode_map : String → Option Fields) where
  abbrev pub mark_with : ManualEdit → Option Fields → Option Fields → ManualEdit
  mark_with e (some chart) (some live) =
      with_match e
        (matches_chart sprint parse_quantity same_amount (some live) (some chart) e.paths)
  mark_with e _ _ = e

  abbrev pub decoded : String ⊎ String → Option Fields
  decoded (inl e) = none
  decoded (inr raw) = decode_map raw

  abbrev pub chart_of : Bytes → ManualEdit → Option Fields
  chart_of m e =
      manifest_object sprint parse_quantity same_amount decode_yaml equal_fold m e.resource e.name

  -- `GetObjectJSON` of the client.
  module _ (get_object : String → String → String → String ⊎ String) where
    abbrev pub live_of : ManualEdit → Option Fields
    live_of e = decoded (get_object e.resource e.namespace e.name)

    unfoldable pub mark_edit : Bytes → ManualEdit → ManualEdit
    mark_edit m e = if is_human e.kind then mark_with e (chart_of m e) (live_of e) else e

    unfoldable pub mark_edits : Bytes → List ManualEdit → List ManualEdit
    mark_edits m [] = []
    mark_edits m (e ∷ edits) = mark_edit m e ∷ mark_edits m edits

    -- Without a source or a client the first is `none`.
    unfoldable pub mark_chart_matches : Option (String ⊎ Bytes) → List ManualEdit → List ManualEdit
    mark_chart_matches none edits = edits
    mark_chart_matches (some (inl e)) edits = edits
    mark_chart_matches (some (inr [])) edits = edits
    mark_chart_matches (some (inr (b ∷ m))) edits = mark_edits (b ∷ m) edits
