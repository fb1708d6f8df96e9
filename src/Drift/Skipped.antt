-- ===== src/Drift/Skipped.antt =====
-- Which hooks the engine (internal/hooks/engine.go) skips with the coverage of internal/drift/hookcover.go.
use Prim.Native.String.{◌++◌ as append}
use matrixctrl.Common.{
  ℕ, String, Bool, Bool-cases, true, false, Option, none, some, List, [], ◌∷◌, ◌++◌, ◌⊎◌, inl, inr,
  ◌≡◌, ◌≢◌, ◌↔◌, refl, sym, All, str_eq, eq_iff, ◌||◌, arith,
}
use matrixctrl.Common.Bytes.{Bytes}
use matrixctrl.Common.Dots.{append-cons, is_cons}
use matrixctrl.Common.Texts.{join_with}
use matrixctrl.Common.Tree.{Value, Fields}
use matrixctrl.Hooks.Engine.{
  ActionType, kubectl_patch, wait_rollout, http_request, HookAction, Hook, TriggerType,
  ActionResult, RunStatus, run_skipped, final_status, outcome_of, run_actions,
}
use matrixctrl.Hooks.Coverage.{PatchOp}
use matrixctrl.Drift.HookCover.{
  reason_of, sets_of, is_covered_by, entry_of, for_action, covered_actions, hook_coverage,
}
use matrixctrl.Drift.Covered.{IsCoveredPatch, is_covered_by-IsCoveredPatch, entry_of-is_cons}

reason_of-cons : (c : String) (cs : List String) → reason_of (some (c ∷ cs)) ≢ ""
reason_of-cons c cs h = cc (
  sym (
      append-cons "N" "icht mehr nötig: Die ESS-Konfiguration setzt das bereits selbst — "
        (append (join_with "; " (c ∷ cs)) ". Der Patch würde nichts ändern.")),
  h,
)

abbrev is_patch : ActionType → Bool
is_patch kubectl_patch = true
is_patch _ = false

abbrev pub has_patch : List HookAction → Bool
has_patch [] = false
has_patch (a ∷ actions) = is_patch a.type || has_patch actions

or_left : {a : Bool} (b : Bool) → a ≡ true → (a || b) ≡ true
or_left b h = rw h refl

final_status-lem : (b : Bool) (results : List ActionResult) → final_status b results ≢ run_skipped
final_status-lem false results h = cc h
final_status-lem true [] h = cc h
final_status-lem true (r ∷ results) h = elim (Bool-cases (str_eq r.status "success")) [
  | inl e ↦ cc (rw e at h)
  | inr e ↦ cc (rw e at h)
]

module _ {Q : Type 0} (sprint : Value → String) (parse_quantity : String → Option Q)
    (same_amount : Q → Q → Bool) (decode_yaml : Bytes → Option Fields)
    (equal_fold : String → String → Bool) (quote : String → String)
    (decode_ops : String → String ⊎ List PatchOp) (decode_map : String → String ⊎ Fields) where
  module _ (manifest : String ⊎ Bytes) where
    -- An action that leaves nothing to do: a wait, or a covered patch.
    unfoldable pub IsDoneAs : ActionType → HookAction → Type 0
    IsDoneAs wait_rollout a = Unit {0}
    IsDoneAs kubectl_patch a =
        IsCoveredPatch sprint parse_quantity same_amount decode_yaml equal_fold quote decode_ops
          decode_map manifest a
          (sets_of sprint parse_quantity same_amount decode_yaml equal_fold quote decode_ops
            decode_map a)
    IsDoneAs http_request a = ⊥

    abbrev pub AreDone : List HookAction → Type 0
    AreDone actions = All (λ a. IsDoneAs a.type a) actions

    abbrev sets_for : HookAction → String ⊎ List (String × Value)
    sets_for a =
        sets_of sprint parse_quantity same_amount decode_yaml equal_fold quote decode_ops decode_map
          a

    abbrev entries : HookAction → List String
    entries a =
        entry_of sprint parse_quantity same_amount decode_yaml equal_fold quote decode_ops
          decode_map a (sets_for a)

    abbrev covered_by : HookAction → Bool
    covered_by a =
        is_covered_by sprint parse_quantity same_amount decode_yaml equal_fold quote decode_ops
          decode_map manifest a (sets_for a)

    abbrev next_for :
        ActionType
        → HookAction
        → List String
        → (List String → Option (List String))
        → Option (List String)
    next_for t a covered next =
        for_action sprint parse_quantity same_amount decode_yaml equal_fold quote decode_ops
          decode_map manifest t a covered next

    abbrev all_covered : List HookAction → List String → Option (List String)
    all_covered actions covered =
        covered_actions sprint parse_quantity same_amount decode_yaml equal_fold quote decode_ops
          decode_map manifest actions covered

    next_for-some :
        (t : ActionType) (a : HookAction) (covered r : List String)
        (next : List String → Option (List String))
        → next_for t a covered next ≡ some r
        → IsDoneAs t a
          × (c : List String) × (next c ≡ some r)
          × ((is_patch t ≡ true) ⊎ (c ≡ covered))
    unfolding IsDoneAs
    next_for-some wait_rollout a covered r next h = (tt, covered, h, inr refl)
    next_for-some http_request a covered r next h = cc h
    next_for-some kubectl_patch a covered r next h = elim (Bool-cases (covered_by a)) [
      | inl e ↦ (
        (is_covered_by-IsCoveredPatch sprint parse_quantity same_amount decode_yaml equal_fold quote
              decode_ops decode_map manifest a (sets_for a)).0
            e,
        covered ++ entries a,
        rw e at h,
        inl refl,
      )
      | inr e ↦ cc (rw e at h)
    ]

    covered_actions-some :
        (actions : List HookAction) (covered r : List String)
        → all_covered actions covered ≡ some r
        → AreDone actions × ((has_patch actions ≡ true) ⊎ (r ≡ covered))
    unfolding covered_actions
    covered_actions-some [] covered r h = (tt, inr (cc h))
    covered_actions-some (a ∷ actions) covered r h =
        let s = next_for-some a.type a covered r (all_covered actions) h in
        let ih = covered_actions-some actions (s.1) r (s.2) in
        ((s.0, ih.0), ground (arith, s.3, ih.1))

    IsCons : Option (List String) → Type 0
    IsCons r = (c : String) × (cs : List String) × (r ≡ some (c ∷ cs))

    next_for-IsDoneAs :
        (t : ActionType) (a : HookAction) (actions : List HookAction) (covered : List String)
        → IsDoneAs t a
        → (is_cons covered || (is_patch t || has_patch actions)) ≡ true
        → ((c : List String)
            → (is_cons c || has_patch actions) ≡ true
            → IsCons (all_covered actions c))
        → IsCons (next_for t a covered (all_covered actions))
    unfolding IsDoneAs
    next_for-IsDoneAs wait_rollout a actions covered d h k = k covered h
    next_for-IsDoneAs http_request a actions covered d h k = absurd d
    next_for-IsDoneAs kubectl_patch a actions covered d h k =
        rw
          ((is_covered_by-IsCoveredPatch sprint parse_quantity same_amount decode_yaml equal_fold
              quote decode_ops decode_map manifest a (sets_for a)).1
            d)
          (k (covered ++ entries a) (
            or_left (has_patch actions) (
              entry_of-is_cons sprint parse_quantity same_amount decode_yaml equal_fold quote
                decode_ops decode_map manifest a (sets_for a) covered d)))

    covered_actions-AreDone :
        (actions : List HookAction) (covered : List String)
        → AreDone actions
        → (is_cons covered || has_patch actions) ≡ true
        → IsCons (all_covered actions covered)
    unfolding covered_actions IsCons
    covered_actions-AreDone [] (c ∷ cs) d h = (c, cs, refl)
    covered_actions-AreDone [] [] d h = cc h
    covered_actions-AreDone (a ∷ actions) covered d h =
        next_for-IsDoneAs a.type a actions covered (d.0) h
          (λ c k. covered_actions-AreDone actions c (d.1) k)

    reason_of-some : (r : Option (List String)) → reason_of r ≢ "" → IsCons r
    unfolding IsCons
    reason_of-some none h = absurd (h refl)
    reason_of-some (some []) h = absurd (h refl)
    reason_of-some (some (c ∷ cs)) h = (c, cs, refl)

    abbrev pub coverage : Hook → String
    coverage h =
        hook_coverage sprint parse_quantity same_amount decode_yaml equal_fold quote decode_ops
          decode_map manifest h

    coverage_iff :
        (h : Hook) → (coverage h ≢ "") ↔ (AreDone h.actions × (has_patch h.actions ≡ true))
    unfolding hook_coverage IsCons
    coverage_iff h = (
      λ n.
          let r = reason_of-some (all_covered h.actions []) n in
          let s = covered_actions-some h.actions [] (r.0 ∷ r.1) (r.2) in
          (s.0, elim (s.1) [ inl e ↦ e | inr e ↦ cc e ]),
      λ d.
          let r = covered_actions-AreDone h.actions [] (d.0) (d.1) in
          rw (r.2) (reason_of-cons (r.0) (r.1)),
    )

    module _ {W : Type 0} (run : HookAction → W → ActionResult × W) (new_id : W → ℕ × W)
        (insert_run : ℕ → Hook → TriggerType → W → Option String × W)
        (update_run : ℕ → RunStatus → List ActionResult → W → Option String × W) where
      -- A hook is recorded as skipped exactly if it has a patch, and each of its actions is a wait or a
      -- patch that sets something, all of which the object of the release's manifest has already.
      pub outcome_of-skipped :
          (h : Hook) (w : W)
          → ((outcome_of run (λ k v. coverage k) new_id insert_run update_run h w).0.1
              ≡ run_skipped)
            ↔ (AreDone h.actions × (has_patch h.actions ≡ true))
      unfolding outcome_of
      outcome_of-skipped h w = elim (Bool-cases (str_eq (coverage h) "")) [
        | inl e ↦ (
          λ q. absurd (
              final_status-lem ((run_actions run 0 h.actions w).1.0)
                ((run_actions run 0 h.actions w).0) (rw e at q)),
          λ d. absurd ((coverage_iff h).1 d ((eq_iff (coverage h) "").0 e)),
        )
        | inr e ↦
            (λ q. (coverage_iff h).0 (λ n. cc (e, (eq_iff (coverage h) "").1 n)), λ d. rw e refl)
      ]
