-- ===== src/Drift/Examples/Covering.antt =====
-- A hook that waits and puts a deployment on the host network, with a manifest that does so already.
use matrixctrl.Common.{
  ℕ, suc, ◌≡◌, ◌↔◌, refl, ◌⊎◌, inl, inr, String, Bool, true, Option, none, some, List, [], ◌∷◌,
  insert, ◌==◌,
}
use matrixctrl.Common.Bytes.{Bytes, ascii, has_prefix}
use matrixctrl.Common.Dots.{split_dots}
use matrixctrl.Common.Sort.{place, stable_sort}
use matrixctrl.Common.Texts.{split_at, join_with, replace_pair}
use matrixctrl.Common.Tree.{Value, bool, str, object, Fields, end, field, find}
use matrixctrl.Capacity.Manifest.{documents}
use matrixctrl.Hooks.Engine.{
  ActionType, kubectl_patch, wait_rollout, TriggerType, post_upgrade, HookAction, Hook,
  ActionResult, RunStatus, run_skipped, outcome_of,
}
use matrixctrl.Hooks.Coverage.{PatchOp, json_pointer_to_dotted, sets_of_ops, sets}
use matrixctrl.Drift.Chart.{
  value_at_segments, value_at, longest_from, object_among, missing_in, patch_covered, same_value,
  deep_equal,
}
use matrixctrl.Drift.HookCover.{leaves, covered_actions, hook_coverage}
use matrixctrl.Drift.Skipped.{AreDone, has_patch, outcome_of-skipped}

abbrev sprint : Value → String
sprint (str s) = s
sprint (bool true) = "true"
sprint _ = "false"

abbrev parse_quantity : String → Option ℕ
parse_quantity s = none

abbrev same_amount : ℕ → ℕ → Bool
same_amount a b = a == b

abbrev decode_yaml : Bytes → Option Fields
decode_yaml doc = some (
    field "kind" (str "Deployment") (
      field "metadata" (object (field "name" (str "sfu") end))
        (field "spec" (object (field "hostNetwork" (bool true) end)) end)))

abbrev equal_fold : String → String → Bool
equal_fold a b = true

abbrev quote : String → String
quote s = s

abbrev decode_ops : String → String ⊎ List PatchOp
decode_ops s = inr (record { op = "replace"; path = "/spec/hostNetwork"; value = bool true } ∷ [])

abbrev decode_map : String → String ⊎ Fields
decode_map s = inl "no map"

abbrev action : ActionType → HookAction
action t = record {
  type = t;
  resource = "deployment";
  name = "sfu";
  namespace = "ess";
  patch_type = "json";
  patch = "[]";
  timeout_secs = 0;
  url = "";
  method = "";
  body = "";
}

abbrev hook : Hook
hook = record {
  id = 1;
  name = "host network";
  trigger = post_upgrade;
  enabled = true;
  priority = 0;
  actions = action wait_rollout ∷ action kubectl_patch ∷ [];
}

abbrev manifest : String ⊎ Bytes
manifest = inr (ascii "kind")

abbrev coverage : Hook → ℕ → String
coverage h calls =
    hook_coverage sprint parse_quantity same_amount decode_yaml equal_fold quote decode_ops
      decode_map manifest h

abbrev run : HookAction → ℕ → ActionResult × ℕ
run a calls =
    (record { action_index = 0; type = ""; status = "success"; error = ""; note = "" }, suc calls)

abbrev new_id : ℕ → ℕ × ℕ
new_id calls = (suc calls, suc calls)

abbrev insert_run : ℕ → Hook → TriggerType → ℕ → Option String × ℕ
insert_run run_id h trigger calls = (none, suc calls)

abbrev update_run : ℕ → RunStatus → List ActionResult → ℕ → Option String × ℕ
update_run run_id status results calls = (none, suc calls)

skipped : (outcome_of run coverage new_id insert_run update_run hook 0).0.1 ≡ run_skipped
unfolding outcome_of hook_coverage covered_actions leaves sets json_pointer_to_dotted split_at
    replace_pair join_with patch_covered missing_in object_among documents value_at
    value_at_segments longest_from find split_dots same_value deep_equal stable_sort place insert
    sets_of_ops has_prefix
skipped = refl

outcome_of-skipped_example :
    ((outcome_of run coverage new_id insert_run update_run hook 0).0.1 ≡ run_skipped) ↔ (
      AreDone sprint parse_quantity same_amount decode_yaml equal_fold quote decode_ops decode_map
        manifest hook.actions
      × (has_patch hook.actions ≡ true))
outcome_of-skipped_example =
    outcome_of-skipped sprint parse_quantity same_amount decode_yaml equal_fold quote decode_ops
      decode_map manifest run new_id insert_run update_run hook 0
