-- ===== src/Restore/Rollback.antt =====
-- The way back (`rollback` of internal/restore/restore.go): from any point after the old database
-- was set aside, whatever the ports answer.
use matrixctrl.Common.{
  ℕ, ◌⊎◌, String, ◌≡◌, ◌≢◌, refl, true, false, Option, none, some, str_eq, str_eq_ne, str_eq_self,
  sym, subst, arith,
}
use matrixctrl.Restore.Ports.{
  Part, Call, terminate, Failure, schema_not_built, not_what_was_written, rename_blocked, Answers,
  State, Fault, port, ignore,
}
use matrixctrl.Restore.Run.{perform, stop, start, put_back, rollback}
use matrixctrl.Restore.Server.{original, Server}
use matrixctrl.Restore.Triple.{
  Triple, called, bind_rule, call_rule, wrap_rule, ignore_rule, modify_rule, gets_rule, raise_rule,
  pure_rule, weaken,
}
use matrixctrl.Restore.Verdict.{now, WritesSafely, IsBack, IsAside, Verdict, is_cause}

module _ (answers : Answers) {P : State → Type 0} {Q : Unit {0} → State → Type 0}
    {E : Failure → State → Type 0} where
  pub perform_rule :
      (c : Call)
      → ((s : State) → P s → Q tt (called c true s))
      → ((s : State) (f : Fault) → P s → E (port f) (called c false s))
      → Triple P (perform answers c) Q E
  unfolding perform
  perform_rule c good bad =
      call_rule c (λ s. answers.act s.trace c) (λ s h a e. good s h) (λ s h f. bad s f h)

module _ (answers : Answers) (v₀ : Server) (p : Part) (aside : String)
    (apart : aside ≢ p.database) where
  abbrev Aside : State → Type 0
  Aside = IsAside v₀ p.database aside

  abbrev Back : State → Type 0
  Back = IsBack v₀ p.database aside

  abbrev ScaledTo : ℕ → State → Type 0
  ScaledTo n s = (now v₀ s).scaled ≡ n

  pub database-ne-aside : str_eq p.database aside ≡ false
  database-ne-aside = str_eq_ne _ _ (λ e. apart (sym e))

  pub stop-Aside :
      Triple Aside
        (stop answers p)
        (λ _ s. Aside s × ScaledTo 0 s)
        (λ f s. (is_cause f ≡ true) × Aside s)
  unfolding stop
  stop-Aside =
      bind_rule _ _
        (perform_rule answers {Q = λ _ s. Aside s × ScaledTo 0 s} _ (λ s h. ground arith)
          (λ s f h. ground arith))
        (λ _. perform_rule answers _ (λ s h. ground arith) (λ s f h. ground arith))

  pub start-Back :
      (want : ℕ)
      → Triple
          (λ s. Back s × ScaledTo 0 s)
          (start answers p want)
          (λ _ s. Back s × ScaledTo want s)
          (λ _ s. Back s × (ScaledTo 0 s ⊎ ScaledTo want s))
  unfolding start
  start-Back want =
      bind_rule _ _
        (perform_rule answers {Q = λ _ s. Back s × ScaledTo want s} _ (λ s h. ground arith)
          (λ s f h. ground arith))
        (λ _. perform_rule answers _ (λ s h. ground arith) (λ s f h. ground arith))

  put_back-aside :
      (cause : Failure) (previous : Option String)
      → Triple
          (λ s. (Aside s × ScaledTo 0 s) × (s.result.previous ≡ previous))
          (put_back answers p aside cause previous)
          (λ _ s. Back s × ScaledTo 0 s)
          (λ f s. (e : Failure) × (f ≡ rename_blocked cause e) × Aside s × ScaledTo 0 s)
  unfolding put_back
  put_back-aside cause none = pure_rule _ (λ s h. absurd (ground arith))
  put_back-aside cause (some _) =
      bind_rule _ _
        (wrap_rule _ _ (
          perform_rule answers
            {Q = λ _ s.
              ((now v₀ s).holds p.database ≡ some original)
              × WritesSafely v₀ p.database aside s.trace
              × ScaledTo 0 s}
            _ (λ s h. ground (arith, str_eq_self p.database))
            (λ s f h. (port f, refl, ground arith, ground arith))))
        (λ _. modify_rule _ (λ s h. ground arith))

  -- Terminating the connections is tried, and its error is passed over.
  terminate-Aside :
      {E : Failure → State → Type 0}
      → Triple
          (λ s. Aside s × ScaledTo 0 s)
          (ignore (perform answers (terminate p.database)))
          (λ _ s. Aside s × ScaledTo 0 s)
          E
  terminate-Aside =
      ignore_rule _
        (perform_rule answers {Q = λ _ s. Aside s × ScaledTo 0 s}
          {E = λ _ s. Aside s × ScaledTo 0 s} _ (λ s h. ground arith) (λ s f h. ground arith))
        (λ _ s h. h) (λ _ s h. h)

  cause-Verdict :
      (want : ℕ) (cause : Failure) (s : State)
      → is_cause cause ≡ true
      → Back s × ScaledTo want s
      → Verdict v₀ p.database aside want cause s
  cause-Verdict want (port f) s c h = h
  cause-Verdict want (schema_not_built e) s c h = h
  cause-Verdict want (not_what_was_written bad) s c h = h
  cause-Verdict want _ s c h = cc

  -- However far the restore came: either the way back succeeds, and the old data has its name, the
  -- result names no other place and the service has its replicas, or the error says which step is
  -- blocked, and the old data is where the result says.
  pub rollback_lem :
      {A : Type 0} (want : ℕ) (cause : Failure)
      → is_cause cause ≡ true
      → Triple Aside
          (rollback answers p aside {A = A} want cause)
          (λ _ _. ⊥)
          (λ f s. Verdict v₀ p.database aside want f s)
  unfolding rollback
  rollback_lem want cause c =
      bind_rule _ _ (wrap_rule _ _ (weaken stop-Aside (λ s h. h) (λ _ s h. h) (λ f s h. h.1))) λ _.
        bind_rule _ _ terminate-Aside λ _.
          bind_rule _ _
            (wrap_rule _ _ (
              perform_rule answers _ (λ s h. ground (arith, database-ne-aside))
                (λ s f h. ground arith)))
            λ _. bind_rule _ _ (gets_rule _ (λ s h. (h, refl))) λ previous.
              bind_rule _ _
                (weaken (put_back-aside cause previous) (λ s h. h) (λ _ s h. h)
                  (λ f s (e, is_e, h, n).
                    subst (λ f. Verdict v₀ p.database aside want f s) (sym is_e) (h, n)))
                λ _.
                  bind_rule _ _
                    (wrap_rule _ _ (weaken (start-Back want) (λ s h. h) (λ _ s h. h) (λ f s h. h)))
                    λ _. raise_rule _ (λ s h. cause-Verdict want cause s c h)
