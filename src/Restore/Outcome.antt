-- ===== src/Restore/Outcome.antt =====
-- `Database` of internal/restore/restore.go as a whole: what it leaves behind on every path.
use Prim.Native.String.{len, ◌++◌ as append}
use text.Mathlib.TextPositions.{len-append}
use matrixctrl.Common.{ℕ, String, ◌≡◌, ◌≢◌, refl, ap, Bool, true, false, [], arith}
use matrixctrl.Restore.Ports.{
  Part, close, Failure, not_started, Answers, State, gives, refuses, settle, Reply, stop_blocked,
  wrap, ignore,
}
use matrixctrl.Restore.Run.{perform, start, Archive, aside_name, replace, rollback, database}
use matrixctrl.Restore.Server.{Server}
use matrixctrl.Restore.Triple.{
  Triple, called, bind_rule, wrap_rule, weaken, failure_rule, finally_rule, ignore_rule,
}
use matrixctrl.Restore.Verdict.{now, IsAside, IsFilled, Verdict}
use matrixctrl.Restore.Rollback.{perform_rule, rollback_lem}
use matrixctrl.Restore.Filling.{restored, build_lem, fill_lem, Checked, Undone}

-- A name is not the name of what is put aside for it.
aside_name-ne : (database stamp : String) → aside_name database stamp ≢ database
unfolding aside_name
aside_name-ne database stamp e = absurd (
    omega
      (arith, ap len e, len-append database (append "_vor_" stamp), len-append "_vor_" stamp, five))
  where
    five : len "_vor_" ≡ 5
    five = refl

module _ (answers : Answers) (v₀ : Server) (p : Part) (stamp : String) (archive : Archive) where
  abbrev aside : String
  aside = aside_name p.database stamp

  -- The restore is complete: the rows of the archive's tables are in, counted and found equal, the
  -- service is up again, and the old data is kept under the name that the result gives.
  pub record IsComplete (want : ℕ) (s : State) : Type 0 where
    pub filled : IsFilled v₀ p.database aside (restored archive.tables []) s
    pub agreed : s.result.mismatches ≡ []
    pub running : (now v₀ s).scaled ≡ want

  start-IsComplete :
      (want : ℕ)
      → Triple
          (λ s.
            IsFilled v₀ p.database aside (restored archive.tables []) s
            × (s.result.mismatches ≡ []))
          (wrap not_started (start answers p want))
          (λ _ s. IsComplete want s)
          (λ f s. Verdict v₀ p.database aside want f s)
  unfolding start
  start-IsComplete want = wrap_rule _ _ (
      bind_rule _ _
        (perform_rule answers {Q = λ _ s. IsComplete want s} _ (λ s h. ground arith)
          (λ s f h. ground arith))
        (λ _. perform_rule answers _ (λ s h. ground arith) (λ s f h. ground arith)))

  close-Verdict :
      (want : ℕ) (f : Failure) (done : Bool) (s : State)
      → Verdict v₀ p.database aside want f s
      → Verdict v₀ p.database aside want f (called close done s)
  close-Verdict want (stop_blocked cause e) true s h = ground arith
  close-Verdict want (stop_blocked cause e) false s h = ground arith
  close-Verdict want _ true s h = ground arith
  close-Verdict want _ false s h = ground arith

  -- What holds after a call of Close, whatever became of it.
  close_last :
      (R : State → Type 0) (s : State)
      → ((done : Bool) → R (called close done s))
      → R (ignore (perform answers close) s).1
  unfolding ignore perform
  close_last R s h = go (answers.act s.trace close)
    where
      go : (r : Reply (Unit {0})) → R (settle close r s).1
      go (gives a) = h true
      go (refuses f) = h false

  closed :
      {Q : Unit {0} → State → Type 0} {E : Failure → State → Type 0} {P : State → Type 0}
      → ((s : State) (done : Bool) → P s → Q tt (called close done s))
      → Triple P (ignore (perform answers close)) Q E
  closed {Q} {E} {P} h =
      ignore_rule _
        (perform_rule answers {Q = Q} {E = λ _ s. Q tt s} _ (λ s x. h s true x)
          (λ s f x. h s false x))
        (λ _ s x. x) (λ _ s x. x)

  pub replace_lem :
      (want : ℕ)
      → Triple
          (λ s. IsAside v₀ p.database aside s × (s.result.tables ≡ 0))
          (replace answers p stamp archive want)
          (λ _ s. IsComplete want s)
          (λ f s. Verdict v₀ p.database aside want f s)
  unfolding replace
  replace_lem want =
      bind_rule _ _ (failure_rule _ _ (build_lem answers v₀ p aside apart want) (undo _)) λ _.
        finally_rule _ _
          (bind_rule _ _ (failure_rule _ _ (fill_lem answers v₀ p aside apart archive) (undo _))
            λ _.
              bind_rule _ _
                (closed
                  {Q = λ _ s.
                    IsFilled v₀ p.database aside (restored archive.tables []) s
                    × (s.result.mismatches ≡ [])}
                  closed_filled)
                λ _. start-IsComplete want)
          (λ _ s h. close_last (λ s. IsComplete want s) s (closed_complete s h))
          (λ f s h.
            close_last (λ s. Verdict v₀ p.database aside want f s) s
              (λ done. close-Verdict want f done s h))
    where
      closed_filled :
          (s : State) (done : Bool)
          → Checked answers v₀ p aside
              (aside_name-ne p.database stamp)
              (restored archive.tables [])
              s
          → IsFilled v₀ p.database aside (restored archive.tables []) (called close done s)
            × (s.result.mismatches ≡ [])
      closed_filled s true h = ground arith
      closed_filled s false h = ground arith

      closed_complete :
          (s : State) → IsComplete want s → (done : Bool) → IsComplete want (called close done s)
      closed_complete s h true = ground arith
      closed_complete s h false = ground arith

      apart : aside ≢ p.database
      apart = aside_name-ne p.database stamp

      undo :
          {A : Type 0} (Q : A → State → Type 0) (f : Failure)
          → Triple
              (Undone answers v₀ p aside apart f)
              (rollback answers p aside {A = A} want f)
              Q
              (λ f s. Verdict v₀ p.database aside want f s)
      undo Q f = record {
        at = λ s h.
            (weaken (rollback_lem answers v₀ p aside apart want f h.0) (λ _ x. x)
                (λ _ _ b. absurd b) (λ _ _ x. x)).at
              s h.1;
      }
