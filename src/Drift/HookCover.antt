-- ===== src/Drift/HookCover.antt =====
-- internal/drift/hookcover.go: whether the manifest of the release already has all that a hook patches.
use Prim.Native.String.{◌++◌ as append}
use matrixctrl.Common.{
  String, Bool, false, Option, none, some, List, [], ◌∷◌, ◌++◌, ◌⊎◌, inl, inr, if◌then◌else◌,
}
use matrixctrl.Common.Bytes.{Bytes}
use matrixctrl.Common.Sort.{stable_sort}
use matrixctrl.Common.Texts.{join_with, after_last}
use matrixctrl.Common.Tree.{Value, Fields}
use matrixctrl.Hooks.Engine.{
  ActionType, kubectl_patch, wait_rollout, http_request, HookAction, Hook,
}
use matrixctrl.Hooks.Coverage.{PatchOp, sets}
use matrixctrl.Drift.Check.{text_before}
use matrixctrl.Drift.Chart.{patch_covered}

unfoldable pub leaves : List (String × Value) → List String
leaves [] = []
leaves ((p, v) ∷ sets) = after_last b'.' p ∷ leaves sets

abbrev pub covered_entry : HookAction → List (String × Value) → String
covered_entry a sets =
    append a.name
      (append " (" (append (join_with ", " (stable_sort text_before (leaves sets))) ")"))

abbrev pub reason_of : Option (List String) → String
reason_of none = ""
reason_of (some []) = ""
reason_of (some (c ∷ covered)) =
    append "Nicht mehr nötig: Die ESS-Konfiguration setzt das bereits selbst — "
      (append (join_with "; " (c ∷ covered)) ". Der Patch würde nichts ändern.")

module _ {Q : Type 0} (sprint : Value → String) (parse_quantity : String → Option Q)
    (same_amount : Q → Q → Bool) (decode_yaml : Bytes → Option Fields)
    (equal_fold : String → String → Bool) (quote : String → String)
    (decode_ops : String → String ⊎ List PatchOp) (decode_map : String → String ⊎ Fields) where
  abbrev pub covered_in : Bytes → HookAction → List (String × Value) → Bool × List String
  covered_in m a sets =
      patch_covered sprint parse_quantity same_amount decode_yaml equal_fold m a.resource a.name
        sets

  abbrev pub sets_of : HookAction → String ⊎ List (String × Value)
  sets_of a = sets quote decode_ops decode_map a

  -- Whether a patch that sets these values is covered, given what `manifest()` returned.
  abbrev pub is_covered_by : String ⊎ Bytes → HookAction → String ⊎ List (String × Value) → Bool
  is_covered_by manifest a (inl e) = false
  is_covered_by manifest a (inr []) = false
  is_covered_by (inl e) a (inr (s ∷ sets)) = false
  is_covered_by (inr []) a (inr (s ∷ sets)) = false
  is_covered_by (inr (b ∷ m)) a (inr (s ∷ sets)) = (covered_in (b ∷ m) a (s ∷ sets)).0

  abbrev pub entry_of : HookAction → String ⊎ List (String × Value) → List String
  entry_of a (inl e) = []
  entry_of a (inr sets) = covered_entry a sets ∷ []

  -- The loop over the actions; `none` is an early `return ""`.
  module _ (manifest : String ⊎ Bytes) where
    abbrev pub for_action :
        ActionType
        → HookAction
        → List String
        → (List String → Option (List String))
        → Option (List String)
    for_action wait_rollout a covered next = next covered
    for_action kubectl_patch a covered next =
        if is_covered_by manifest a (sets_of a)
        then next (covered ++ entry_of a (sets_of a))
        else none
    for_action http_request a covered next = none

    unfoldable pub covered_actions : List HookAction → List String → Option (List String)
    covered_actions [] covered = some covered
    covered_actions (a ∷ actions) covered = for_action a.type a covered (covered_actions actions)

    unfoldable pub hook_coverage : Hook → String
    hook_coverage h = reason_of (covered_actions h.actions [])
