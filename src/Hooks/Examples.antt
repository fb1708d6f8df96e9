-- ===== src/Hooks/Examples.antt =====
-- Two hooks, of which the first patches the call server and waits for it, on a state that counts calls.
use matrixctrl.Common.{
  ℕ, suc, ◌≤◌, ◌≡◌, ◌⊎◌, refl, String, true, Option, none, some, Bool, List, [], ◌∷◌, length,
  str_eq, if◌then◌else◌,
}
use matrixctrl.Hooks.Engine.{
  TriggerType, post_upgrade, post_rollback, kubectl_patch, HookAction, Hook, ActionResult,
  RunStatus, run_partial, outcome_of, run_actions, run_hook, run_hooks, run_trigger,
}
use matrixctrl.Hooks.Runs.{IsStopped, any_failed, status_for, IsRunOf, outcome_of-not_covered}

abbrev action : String → HookAction
action name = record {
  type = kubectl_patch;
  resource = "deployment";
  name = name;
  namespace = "ess";
  patch_type = "json";
  patch = "[]";
  timeout_secs = 0;
  url = "";
  method = "";
  body = "";
}

abbrev hook : TriggerType → ℕ → Hook
hook trigger priority = record {
  id = priority;
  name = "host network";
  trigger = trigger;
  enabled = true;
  priority = priority;
  actions = action "sfu" ∷ action "auth" ∷ action "turn" ∷ [];
}

abbrev table : List Hook
table = hook post_upgrade 20 ∷ hook post_rollback 10 ∷ []

-- The second action fails.
abbrev run : HookAction → ℕ → ActionResult × ℕ
run a calls = (
  record {
    action_index = 0;
    type = "kubectl_patch";
    status = if str_eq a.name "auth" then "failed" else "success";
    error = "";
    note = "";
  },
  suc calls,
)

abbrev covered : Hook → ℕ → String
covered h calls = ""

abbrev new_id : ℕ → ℕ × ℕ
new_id calls = (suc calls, suc calls)

abbrev insert_run : ℕ → Hook → TriggerType → ℕ → Option String × ℕ
insert_run run_id h trigger calls = (none, suc calls)

abbrev update_run : ℕ → RunStatus → List ActionResult → ℕ → Option String × ℕ
update_run run_id status results calls = (none, suc calls)

partial_run :
    (outcome_of run covered new_id insert_run update_run (hook post_upgrade 20) 0).0.1 ≡ run_partial
unfolding outcome_of run_actions
partial_run = refl

abbrev as_listed : (Hook → Hook → Bool) → List Hook → List Hook
as_listed before hooks = hooks

abbrev answer : Option String → TriggerType → ℕ → (Option String × List Hook) × ℕ
answer err trigger calls = ((err, table), suc calls)

-- Each hook's id, and none if the query fails.
all_ids :
    run_trigger run covered new_id insert_run update_run as_listed (answer none) post_rollback 0
    ≡ ((2 ∷ 7 ∷ [], none), 11)
unfolding run_trigger run_hooks run_hook outcome_of run_actions
all_ids = refl

no_ids :
    run_trigger run covered new_id insert_run update_run as_listed
      (answer (some "closed"))
      post_rollback
      0
    ≡ (([], some "list hooks: closed"), 1)
unfolding run_trigger
no_ids = refl

outcome_of-not_covered_example :
    let ((results, status), w1) =
      outcome_of run covered new_id insert_run update_run (hook post_upgrade 20) 0 in
    IsRunOf run 0 (hook post_upgrade 20).actions 0 results w1
    × IsStopped 0 results
    × (status ≡ status_for results)
    × ((any_failed results ≡ true) ⊎ (length results ≡ 3))
    × (length results ≤ 3)
outcome_of-not_covered_example =
    outcome_of-not_covered run covered new_id insert_run update_run (hook post_upgrade 20) 0 refl
