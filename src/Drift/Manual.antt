-- ===== src/Drift/Manual.antt =====
-- The report of internal/drift/manual.go on what was set by hand, as internal/api/handlers/drift.go makes it.
use Prim.Native.String.{◌++◌ as append}
use text.Mathlib.Text.{starts_with}
use matrixctrl.Common.{
  ℕ, suc, String, Bool, true, false, not, Option, none, some, List, [], ◌∷◌, ◌++◌, insert, lookup,
  str_eq, ◌&&◌, ◌||◌, ltb, ◌==◌, if◌then◌else◌,
}
use matrixctrl.Common.Sort.{stable_sort}
use matrixctrl.Common.Tree.{Value, Fields}
use matrixctrl.Drift.Check.{Action, text_before, namespace_or}
use matrixctrl.Drift.Fields.{
  ManagerKind, human, automation, classify_manager, interesting, field_paths, patch_paths,
}

pub record ManualEdit : Type 0 where
  pub resource : String
  pub namespace : String
  pub name : String
  pub manager : String
  pub kind : ManagerKind
  pub paths : List String
  pub covered : Bool
  pub matches_chart : Bool
  pub updated_at : String

pub record ManagedFieldsEntry : Type 0 where
  pub manager : String
  pub operation : String
  pub time : String
  pub subresource : String
  pub fields_v1 : String

pub record ObjectFields : Type 0 where
  pub resource : String
  pub namespace : String
  pub name : String
  pub entries : List ManagedFieldsEntry

abbrev pub is_human : ManagerKind → Bool
is_human human = true
is_human _ = false

abbrev pub is_automation : ManagerKind → Bool
is_automation automation = true
is_automation _ = false

unfoldable pub interesting_of : List String → List String
interesting_of [] = []
interesting_of (p ∷ ps) = let rest = interesting_of ps in if interesting p then p ∷ rest else rest

abbrev pub overlaps : String → String → Bool
overlaps hp ep = str_eq hp ep || (starts_with ep (append hp ".") || starts_with hp (append ep "."))

abbrev pub overlaps_any : String → List String → Bool
overlaps_any hp [] = false
overlaps_any hp (ep ∷ edited) = overlaps hp ep || overlaps_any hp edited

unfoldable pub covered_by_hook : List String → List String → Bool
covered_by_hook [] edited = false
covered_by_hook (hp ∷ hook_paths) edited =
    overlaps_any hp edited || covered_by_hook hook_paths edited

unfoldable pub rank : ManualEdit → ℕ
rank e =
    if is_human e.kind && (not e.covered && not e.matches_chart)
    then 0
    else (if is_human e.kind then 1 else 2)

abbrev pub louder : ManualEdit → ManualEdit → Bool
louder a b =
    if not (rank a == rank b)
    then ltb (rank a) (rank b)
    else (if not (str_eq a.resource b.resource)
        then text_before a.resource b.resource
        else (if not (str_eq a.name b.name)
            then text_before a.name b.name
            else text_before a.manager b.manager))

-- `unmaintained`, `byHand`, `foreign` and `aligned`.
abbrev pub counted_edit : ManualEdit → ℕ × ℕ × ℕ × ℕ → ℕ × ℕ × ℕ × ℕ
counted_edit e (u, h, f, a) =
    if is_human e.kind && (not e.covered && e.matches_chart)
    then (u, h, f, suc a)
    else (if is_human e.kind && not e.covered
        then (suc u, h, f, a)
        else (if is_human e.kind then (u, suc h, f, a) else (u, h, suc f, a)))

unfoldable pub summarise_manual : List ManualEdit → ℕ × ℕ × ℕ × ℕ
summarise_manual [] = (0, 0, 0, 0)
summarise_manual (e ∷ edits) = counted_edit e (summarise_manual edits)

abbrev pub paths_of : Option (List String) → List String
paths_of none = []
paths_of (some paths) = paths

-- `strings.ToLower`
module _ (to_lower : String → String) (json_text : Value → Option String)
    (decode_map : String → Option Fields) where
  unfoldable pub hook_key : String → String → String → String
  hook_key resource namespace name =
      append (to_lower resource) (append "/" (append (namespace_or namespace) (append "/" name)))

  module _ (hook_paths : List (String × List String)) where
    abbrev pub edit_of : ObjectFields → ManagedFieldsEntry → List String → ManualEdit
    edit_of obj e paths = record {
      resource = obj.resource;
      namespace = obj.namespace;
      name = obj.name;
      manager = e.manager;
      kind = classify_manager e.manager;
      paths = paths;
      covered =
          covered_by_hook
            (paths_of (lookup (hook_key obj.resource obj.namespace obj.name) hook_paths)) paths;
      matches_chart = false;
      updated_at = e.time;
    }

    abbrev pub edits_with : ObjectFields → ManagedFieldsEntry → List String → List ManualEdit
    edits_with obj e [] = []
    edits_with obj e (p ∷ paths) = edit_of obj e (p ∷ paths) ∷ []

    unfoldable pub edits_of_entry : ObjectFields → ManagedFieldsEntry → List ManualEdit
    edits_of_entry obj e =
        if is_automation (classify_manager e.manager)
        then []
        else (if not (str_eq e.subresource "")
            then []
            else edits_with obj e (interesting_of (field_paths json_text decode_map e.fields_v1)))

    unfoldable pub edits_of_entries : ObjectFields → List ManagedFieldsEntry → List ManualEdit
    edits_of_entries obj [] = []
    edits_of_entries obj (e ∷ entries) = edits_of_entry obj e ++ edits_of_entries obj entries

    unfoldable pub edits_of_objects : List ObjectFields → List ManualEdit
    edits_of_objects [] = []
    edits_of_objects (obj ∷ objects) = edits_of_entries obj obj.entries ++ edits_of_objects objects

    unfoldable pub find_manual_edits : List ObjectFields → List ManualEdit
    find_manual_edits objects = stable_sort louder (edits_of_objects objects)

  -- `hookPaths` of the handler.
  module _ (decode_paths : String → Option (List String)) where
    unfoldable pub hook_paths_of :
        List Action → List (String × List String) → List (String × List String)
    hook_paths_of [] hook_paths = hook_paths
    hook_paths_of (a ∷ actions) hook_paths =
        let key = hook_key a.resource a.namespace a.name in
        hook_paths_of actions (
          insert key
            (paths_of (lookup key hook_paths)
              ++ patch_paths json_text decode_map decode_paths a.patch_type a.patch)
            hook_paths)
