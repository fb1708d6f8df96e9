-- ===== src/Hooks/Runs.antt =====
-- What runs of the hooks of internal/hooks/engine.go leave behind.
use matrixctrl.Common.{
  ℕ, suc, ◌+◌, ◌≤◌, ◌≡◌, ◌≢◌, eq_iff, refl, ap, sym, ◌∙◌, ◌⊎◌, inl, inr, String, Bool, Bool-cases,
  true, false, false≢true, Option, List, [], ◌∷◌, ◌||◌, ◌&&◌, length, str_eq, arith, if◌then◌else◌,
}
use matrixctrl.Common.Sort.{tally}
use matrixctrl.Hooks.Engine.{
  TriggerType, post_upgrade, post_rollback, manual, HookAction, Hook, ActionResult, RunStatus,
  run_success, run_failed, run_partial, same_trigger, by_priority, matching, is_failed, at_index,
  final_status, run_actions, outcome_of, run_hook, run_hooks,
}

-- Numbered from `i` on, and only the last may have failed.
abbrev pub IsStopped : ℕ → List ActionResult → Type 0
IsStopped i [] = Unit
IsStopped i (r ∷ []) = r.action_index ≡ i
IsStopped i (r ∷ s ∷ results) =
    (r.action_index ≡ i) × (is_failed r ≡ false) × IsStopped (suc i) (s ∷ results)

abbrev pub any_failed : List ActionResult → Bool
any_failed [] = false
any_failed (r ∷ results) = is_failed r || any_failed results

any_failed-cons :
    (i : ℕ) (r : ActionResult) (rest : List ActionResult)
    → is_failed r ≡ false
    → any_failed (at_index i r ∷ rest) ≡ any_failed rest
any_failed-cons i r rest h = ground arith

abbrev pub first_succeeded : List ActionResult → Bool
first_succeeded [] = false
first_succeeded (r ∷ results) = str_eq r.status "success"

cons-IsStopped :
    (i : ℕ) (r : ActionResult) (rest : List ActionResult)
    → is_failed r ≡ false
    → IsStopped (suc i) rest
    → IsStopped i (at_index i r ∷ rest)
cons-IsStopped i r [] h s = refl
cons-IsStopped i r (t ∷ rest) h s = (refl, h, s)

abbrev pub status_for : List ActionResult → RunStatus
status_for results =
    if any_failed results
    then (if first_succeeded results then run_partial else run_failed)
    else run_success

final_status_lem :
    (b : Bool) (results : List ActionResult)
    → b ≡ any_failed results
    → final_status b results ≡ status_for results
final_status_lem true [] h = absurd (false≢true (sym h))
final_status_lem true (r ∷ results) h = rw (sym h) refl
final_status_lem false results h = rw (sym h) refl

trigger-cases :
    (t : TriggerType)
    → ((same_trigger post_rollback t ≡ true)
        × (same_trigger t post_rollback ≡ true)
        × (same_trigger post_upgrade t ≡ false))
      ⊎ ((same_trigger post_rollback t ≡ false) × (same_trigger t post_rollback ≡ false))
trigger-cases post_rollback = inl (refl, refl, refl)
trigger-cases post_upgrade = inr (refl, refl)
trigger-cases manual = inr (refl, refl)

-- The hooks of a rollback: those of an upgrade and, beside them, the enabled ones for rollbacks alone;
-- an upgrade runs none of the latter.
pub tally-matching-post_rollback :
    (test : Hook → Bool) (table : List Hook)
    → (tally by_priority test (matching post_rollback table)
        ≡ tally by_priority test (matching post_upgrade table)
          + tally by_priority
              (λ h. same_trigger h.trigger post_rollback && h.enabled && test h)
              table)
      × (tally by_priority (λ h. same_trigger h.trigger post_rollback) (matching post_upgrade table)
          ≡ 0)
unfolding matching
tally-matching-post_rollback test [] = (refl, refl)
tally-matching-post_rollback test (h ∷ table) =
    ground (arith, trigger-cases h.trigger, tally-matching-post_rollback test table)

-- What running an action came to, under the action's number.
abbrev pub IsNumbered : ℕ → ActionResult → ActionResult → Type 0
IsNumbered i r q =
    (q.action_index ≡ i)
    × (q.type ≡ r.type)
    × (q.status ≡ r.status)
    × (q.error ≡ r.error)
    × (q.note ≡ r.note)

module _ {W : Type 0} (run : HookAction → W → ActionResult × W) where
  -- The results of running the actions one after the other from a state, each in the state that the one
  -- before it left, up to the first whose status is "failed"; and the state that is left at the end.
  abbrev pub IsRunOf : ℕ → List HookAction → W → List ActionResult → W → Type 0
  IsRunOf i [] w [] w1 = w1 ≡ w
  IsRunOf i [] w (q ∷ results) w1 = ⊥
  IsRunOf i (a ∷ actions) w [] w1 = ⊥
  IsRunOf i (a ∷ actions) w (q ∷ results) w1 =
      IsNumbered i (run a w).0 q
      × ((((run a w).0.status ≡ "failed") × (results ≡ []) × (w1 ≡ (run a w).1))
          ⊎ (((run a w).0.status ≢ "failed") × IsRunOf (suc i) actions (run a w).1 results w1))

  run_actions-IsRunOf :
      (i : ℕ) (actions : List HookAction) (w : W)
      → let (results, (failed, w1)) = run_actions run i actions w in IsRunOf i actions w results w1
  unfolding run_actions
  run_actions-IsRunOf i [] w = refl
  run_actions-IsRunOf i (a ∷ actions) w = elim (Bool-cases (is_failed (run a w).0)) [
    | inl h ↦
        rw (h, run_actions)
          (
            (refl, refl, refl, refl, refl),
            inl ((eq_iff (run a w).0.status "failed").0 h, refl, refl),
          )
    | inr h ↦
        rw (h, run_actions)
          (
            (refl, refl, refl, refl, refl),
            inr (
              λ e. false≢true (sym h ∙ (eq_iff (run a w).0.status "failed").1 e),
              run_actions-IsRunOf (suc i) actions (run a w).1,
            ),
          )
  ]

  run_actions_lem :
      (i : ℕ) (actions : List HookAction) (w : W)
      → let (results, (failed, w1)) = run_actions run i actions w in
        IsStopped i results
        × (failed ≡ any_failed results)
        × ((any_failed results ≡ true) ⊎ (length results ≡ length actions))
        × (length results ≤ length actions)
  unfolding run_actions
  run_actions_lem i [] w = (tt, refl, inr refl, omega arith)
  run_actions_lem i (a ∷ actions) w = elim (Bool-cases (is_failed (run a w).0)) [
    | inl h ↦ rw (h, run_actions) (refl, ground arith, inl (ground arith), omega arith)
    | inr h ↦
        let (s, f, l, le) = run_actions_lem (suc i) actions (run a w).1 in
        rw (h, run_actions)
          (
            cons-IsStopped i (run a w).0 _ h s,
            f
                ∙ sym (
                    any_failed-cons i (run a w).0 (run_actions run (suc i) actions (run a w).1).0
                      h),
            elim l [
              | inl t ↦ inl (
                  any_failed-cons i (run a w).0 (run_actions run (suc i) actions (run a w).1).0 h
                  ∙ t)
              | inr e ↦ inr (ap suc e)
            ],
            omega (arith, le),
          )
  ]

module _ {W : Type 0} (run : HookAction → W → ActionResult × W) (covered : Hook → W → String)
    (new_id : W → ℕ × W) (insert_run : ℕ → Hook → TriggerType → W → Option String × W)
    (update_run : ℕ → RunStatus → List ActionResult → W → Option String × W) where
  -- A hook that is not covered: its results are what running its actions one after the other comes to,
  -- each in the state that the one before it left and up to the first failure, and the last of these
  -- states is the one it leaves. They are numbered from 0 and end with the first failure, they are
  -- those of all its actions unless one failed, and the status tells of them whether none failed, one
  -- failed after a success of the first, or one failed without it.
  pub outcome_of-not_covered :
      (h : Hook) (w : W)
      → str_eq (covered h w) "" ≡ true
      → let ((results, status), w1) = outcome_of run covered new_id insert_run update_run h w in
        IsRunOf run 0 h.actions w results w1
        × IsStopped 0 results
        × (status ≡ status_for results)
        × ((any_failed results ≡ true) ⊎ (length results ≡ length h.actions))
        × (length results ≤ length h.actions)
  unfolding outcome_of
  outcome_of-not_covered h w e =
      let (s, f, l, le) = run_actions_lem run 0 h.actions w in
      rw e (run_actions-IsRunOf run 0 h.actions w, s, final_status_lem _ _ f, l, le)

  -- Whatever fails, one id is kept for each hook that is enabled.
  length-run_hooks :
      (hooks : List Hook) (trigger : TriggerType) (w : W)
      → length (run_hooks run covered new_id insert_run update_run hooks trigger w).0
        ≡ tally by_priority (λ h. h.enabled) hooks
  unfolding run_hooks
  length-run_hooks [] trigger w = refl
  length-run_hooks (h ∷ hooks) trigger w = ground (
    arith,
    length-run_hooks hooks trigger
        (run_hook run covered new_id insert_run update_run h trigger w).1,
    length-run_hooks hooks trigger w,
  )
