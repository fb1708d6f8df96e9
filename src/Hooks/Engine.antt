-- ===== src/Hooks/Engine.antt =====
-- `RunTrigger`, `RunHookByID` and `runHook` of internal/hooks/engine.go over a state of any type, with
-- the database, the runner of one action, the coverage check and the generator of ids as parameters.
-- An id is a number, and uuid.Nil is 0. The times and names that a row only stores are left out.
use Prim.Native.String.{◌++◌ as append}
use matrixctrl.Common.{
  ℕ, suc, String, Bool, true, false, Option, none, some, List, [], ◌∷◌, ◌||◌, ◌&&◌, str_eq, ltb,
  if◌then◌else◌,
}

pub data TriggerType : Type 0 where
  post_upgrade post_rollback manual : TriggerType

pub data ActionType : Type 0 where
  kubectl_patch wait_rollout http_request : ActionType

pub record HookAction : Type 0 where
  pub type : ActionType
  pub resource : String
  pub name : String
  pub namespace : String
  pub patch_type : String
  pub patch : String
  pub timeout_secs : ℕ
  pub url : String
  pub method : String
  pub body : String

pub record Hook : Type 0 where
  pub id : ℕ
  pub name : String
  pub trigger : TriggerType
  pub enabled : Bool
  pub priority : ℕ
  pub actions : List HookAction

pub record ActionResult : Type 0 where
  pub action_index : ℕ
  pub type : String
  pub status : String
  pub error : String
  pub note : String

pub data RunStatus : Type 0 where
  run_success run_failed run_partial run_skipped : RunStatus

abbrev pub same_trigger : TriggerType → TriggerType → Bool
same_trigger post_upgrade post_upgrade = true
same_trigger post_rollback post_rollback = true
same_trigger manual manual = true
same_trigger _ _ = false

abbrev pub triggered_by : TriggerType → List TriggerType
triggered_by post_rollback = post_rollback ∷ post_upgrade ∷ []
triggered_by post_upgrade = post_upgrade ∷ []
triggered_by manual = manual ∷ []

abbrev pub has_trigger : TriggerType → List TriggerType → Bool
has_trigger t [] = false
has_trigger t (u ∷ us) = same_trigger u t || has_trigger t us

abbrev pub by_priority : Hook → Hook → Bool
by_priority a b = ltb a.priority b.priority

-- The rows that the query asks for; it asks for them by their priority too.
unfoldable pub matching : TriggerType → List Hook → List Hook
matching trigger [] = []
matching trigger (h ∷ hooks) =
    let rest = matching trigger hooks in
    if has_trigger h.trigger (triggered_by trigger) && h.enabled then h ∷ rest else rest

abbrev pub is_failed : ActionResult → Bool
is_failed r = str_eq r.status "failed"

abbrev pub at_index : ℕ → ActionResult → ActionResult
at_index i r = record {
  action_index = i;
  type = r.type;
  status = r.status;
  error = r.error;
  note = r.note;
}

-- The status after the loop: RunSuccess, or what a failure makes of it.
abbrev pub final_status : Bool → List ActionResult → RunStatus
final_status false results = run_success
final_status true [] = run_failed
final_status true (r ∷ results) = if str_eq r.status "success" then run_partial else run_failed

abbrev pub covered_result : String → ActionResult
covered_result reason = record {
  action_index = 0;
  type = "covered";
  status = "skipped";
  error = "";
  note = reason;
}

module _ {W : Type 0} (run : HookAction → W → ActionResult × W) where
  -- The loop over the actions from index `i`, which a failed one ends; whether one failed.
  unfoldable pub run_actions : ℕ → List HookAction → W → List ActionResult × (Bool × W)
  run_actions i [] w = ([], (false, w))
  run_actions i (a ∷ actions) w =
      let (res, w1) = run a w in
      elim (is_failed res) [
        | true ↦ (at_index i res ∷ [], (true, w1))
        | false ↦
            let (results, rest) = run_actions (suc i) actions w1 in (at_index i res ∷ results, rest)
      ]

module _ {W : Type 0} (run : HookAction → W → ActionResult × W) (covered : Hook → W → String)
    (new_id : W → ℕ × W) (insert_run : ℕ → Hook → TriggerType → W → Option String × W)
    (update_run : ℕ → RunStatus → List ActionResult → W → Option String × W) where
  -- The results and the status of a run, before it is written down.
  unfoldable pub outcome_of : Hook → W → (List ActionResult × RunStatus) × W
  outcome_of h w =
      if str_eq (covered h w) ""
      then (let (results, (failed, w1)) = run_actions run 0 h.actions w in
          ((results, final_status failed results), w1))
      else ((covered_result (covered h w) ∷ [], run_skipped), w)

  abbrev pub end_run : ℕ → (List ActionResult × RunStatus) × W → (ℕ × Option String) × W
  end_run run_id ((results, status), w) =
      let (err, w1) = update_run run_id status results w in ((run_id, err), w1)

  abbrev pub go_on : ℕ → Hook → Option String × W → (ℕ × Option String) × W
  go_on run_id h (some e, w) = ((0, some e), w)
  go_on run_id h (none, w) = end_run run_id (outcome_of h w)

  unfoldable pub run_hook : Hook → TriggerType → W → (ℕ × Option String) × W
  run_hook h trigger w =
      let (run_id, w1) = new_id w in go_on run_id h (insert_run run_id h trigger w1)

  -- The loop over the hooks: an error of one is logged, and its id kept.
  unfoldable pub run_hooks : List Hook → TriggerType → W → List ℕ × W
  run_hooks [] trigger w = ([], w)
  run_hooks (h ∷ hooks) trigger w =
      if h.enabled
      then (let ((run_id, err), w1) = run_hook h trigger w in
          let (ids, w2) = run_hooks hooks trigger w1 in (run_id ∷ ids, w2))
      else run_hooks hooks trigger w

  -- What the loop makes of the answer of the query: the ids, or none and the error.
  abbrev pub answered :
      (List Hook → List Hook)
      → Option String × List Hook
      → TriggerType
      → W
      → (List ℕ × Option String) × W
  answered sort (some e, hooks) trigger w = (([], some (append "list hooks: " e)), w)
  answered sort (none, hooks) trigger w =
      let (ids, w1) = run_hooks (sort hooks) trigger w in ((ids, none), w1)

  -- `sort_slice` is sort.Slice, whose order of hooks of one priority is not laid down.
  unfoldable pub run_trigger :
      ((Hook → Hook → Bool) → List Hook → List Hook)
      → (TriggerType → W → (Option String × List Hook) × W)
      → TriggerType
      → W
      → (List ℕ × Option String) × W
  run_trigger sort_slice list_by_trigger trigger w =
      let (rows, w1) = list_by_trigger trigger w in
      answered (sort_slice by_priority) rows trigger w1
