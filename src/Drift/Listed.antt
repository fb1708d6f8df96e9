-- ===== src/Drift/Listed.antt =====
-- What `FindManualEdits` of internal/drift/manual.go lists, and in which order.
use matrixctrl.Common.{
  ℕ, suc, ◌+◌, ◌≤◌, ◌≡◌, String, Bool, false, not, Option, List, [], ◌∷◌, All, str_eq, ◌&&◌, ◌||◌,
  if◌then◌else◌,
}
use matrixctrl.Common.Tree.{Value, Fields}
use matrixctrl.Drift.Fields.{human, classify_manager, interesting, field_paths}
use matrixctrl.Drift.Manual.{
  ManualEdit, ManagedFieldsEntry, ObjectFields, is_automation, interesting_of, rank, edit_of,
}

-- An edit by hand that no hook maintains and that the chart does not set alike.
abbrev pub IsUnmaintained : ManualEdit → Type 0
IsUnmaintained e = (e.kind ≡ human) × (e.covered ≡ false) × (e.matches_chart ≡ false)

-- What stands behind an edit is not louder: behind one that is not unmaintained there is none that is,
-- and behind one that is not by hand there is none that is.
abbrev pub IsLoudestFirst : List ManualEdit → Type 0
IsLoudestFirst [] = Unit {0}
IsLoudestFirst (e ∷ edits) =
    All (λ d. (IsUnmaintained d → IsUnmaintained e) × (d.kind ≡ human → e.kind ≡ human)) edits
    × IsLoudestFirst edits

-- No edit stands behind one of a higher rank.
abbrev IsRanked : List ManualEdit → Type 0
IsRanked [] = Unit {0}
IsRanked (e ∷ edits) = All (λ d. rank e ≤ rank d) edits × IsRanked edits

abbrev pub any_interesting : List String → Bool
any_interesting [] = false
any_interesting (p ∷ ps) = interesting p || any_interesting ps

module _ (to_lower : String → String) (json_text : Value → Option String)
    (decode_map : String → Option Fields) (hook_paths : List (String × List String)) where
  abbrev paths_of_entry : ManagedFieldsEntry → List String
  paths_of_entry e = field_paths json_text decode_map e.fields_v1

  -- The writer is no automation and wrote no subresource, and one of the paths is worth mentioning.
  unfoldable pub is_reported : ManagedFieldsEntry → Bool
  is_reported e =
      not (is_automation (classify_manager e.manager))
      && (str_eq e.subresource "" && any_interesting (paths_of_entry e))

  -- The edit that an entry is reported as.
  abbrev pub report_of : ObjectFields → ManagedFieldsEntry → ManualEdit
  report_of obj e =
      edit_of to_lower json_text decode_map hook_paths obj e (interesting_of (paths_of_entry e))

  -- How many entries are reported as an edit that passes the test.
  abbrev pub tally_entries : (ManualEdit → Bool) → ObjectFields → List ManagedFieldsEntry → ℕ
  tally_entries p obj [] = 0
  tally_entries p obj (e ∷ entries) =
      if is_reported e && p (report_of obj e)
      then suc (tally_entries p obj entries)
      else tally_entries p obj entries

  abbrev pub tally_objects : (ManualEdit → Bool) → List ObjectFields → ℕ
  tally_objects p [] = 0
  tally_objects p (obj ∷ objects) = tally_entries p obj obj.entries + tally_objects p objects
