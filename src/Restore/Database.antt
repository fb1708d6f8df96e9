-- ===== src/Restore/Database.antt =====
-- `Database` of internal/restore/restore.go from its first call to its last, on a server that
-- holds the old data under the database's name.
use matrixctrl.Common.{
  ℕ, ◌⊎◌, String, ◌≡◌, refl, sym, subst, Bool, true, false, some, arith, str_eq_self,
}
use matrixctrl.Restore.Ports.{
  Part, exists, replicas, Trace, Failure, port, aside_taken, replicas_unknown, not_stopped,
  not_disconnected, schema_not_built, not_what_was_written, stop_blocked, drop_blocked,
  rename_blocked, not_restarted, not_started, Answers, State, gives, Fault, wrap,
}
use matrixctrl.Restore.Run.{
  count, ask, stop, start, Archive, aside_name, set_aside, replace, wanted, refuse_taken, database,
  begin,
}
use matrixctrl.Restore.Server.{original, Server, after, is_some}
use matrixctrl.Restore.Triple.{
  Triple, Outcome, bind_rule, call_rule, wrap_rule, modify_rule, raise_rule, pure_rule, weaken,
  fact_rule, failure_rule, ignore_rule,
}
use matrixctrl.Restore.Verdict.{now, IsBack, IsAside, Verdict, WritesSafely}
use matrixctrl.Restore.Rollback.{perform_rule}
use matrixctrl.Restore.Outcome.{IsComplete, replace_lem}

-- The ports tell the truth about what exists and about the replicas. Nothing is asked of the calls
-- that act: each may fail at any time.
pub record IsTruthful (answers : Answers) (v₀ : Server) : Type 0 where
  pub tells_exists :
      (t : Trace) (n : String) (b : Bool)
      → answers.test t (exists n) ≡ gives b
      → b ≡ is_some ((after v₀ t).holds n)
  pub tells_replicas :
      (t : Trace) (p : Part) (n : ℕ)
      → answers.number t (replicas p.workload) ≡ gives n
      → n ≡ (after v₀ t).scaled

module _ (v₀ : Server) (p : Part) (stamp : String) where
  abbrev Back : State → Type 0
  Back = IsBack v₀ p.database (aside_name p.database stamp)

  abbrev Aside : State → Type 0
  Aside = IsAside v₀ p.database (aside_name p.database stamp)

  abbrev Scaled : ℕ → State → Type 0
  Scaled n s = (now v₀ s).scaled ≡ n

  -- Where the old data is after each error and, but for three of them, how many replicas the service
  -- is set to: as many as before the restore, none, or as many as the restore starts at its end.
  abbrev pub Failed : Failure → State → Type 0
  Failed (aside_taken n) s = Back s × Scaled v₀.scaled s
  Failed (replicas_unknown e) s = Back s × Scaled v₀.scaled s
  Failed (not_stopped e) s = Back s × (Scaled v₀.scaled s ⊎ Scaled 0 s)
  Failed (not_disconnected e) s = Back s × Scaled 0 s
  Failed (schema_not_built e) s = Back s × Scaled (wanted v₀.scaled) s
  Failed (not_what_was_written bad) s = Back s × Scaled (wanted v₀.scaled) s
  Failed (not_restarted cause e) s = Back s × (Scaled 0 s ⊎ Scaled (wanted v₀.scaled) s)
  Failed (drop_blocked cause e) s = Aside s × Scaled 0 s
  Failed (rename_blocked cause e) s = Aside s × Scaled 0 s
  Failed (stop_blocked cause e) s = Aside s
  Failed (not_started e) s = Aside s
  Failed (port e) s = Back s

  Verdict-Failed :
      (f : Failure) (s : State)
      → Verdict v₀ p.database (aside_name p.database stamp) (wanted v₀.scaled) f s
      → Failed f s
  Verdict-Failed (stop_blocked cause e) s h = h
  Verdict-Failed (not_restarted cause e) s h = h
  Verdict-Failed (drop_blocked cause e) s h = h
  Verdict-Failed (rename_blocked cause e) s h = h
  Verdict-Failed (not_started e) s h = h
  Verdict-Failed (schema_not_built e) s h = h
  Verdict-Failed (not_what_was_written bad) s h = h
  Verdict-Failed (aside_taken n) s h = absurd h
  Verdict-Failed (replicas_unknown e) s h = absurd h
  Verdict-Failed (not_stopped e) s h = absurd h
  Verdict-Failed (not_disconnected e) s h = absurd h
  Verdict-Failed (port e) s h = h.0

module _ (answers : Answers) (v₀ : Server) (p : Part) (stamp : String) (archive : Archive)
    (true_answers : IsTruthful answers v₀) where
  abbrev aside : String
  aside = aside_name p.database stamp

  -- Nothing was written, and the old data has its name.
  record IsUntouched (s : State) : Type 0 where
    back : IsBack v₀ p.database aside s
    none_counted : s.result.tables ≡ 0

  abbrev Resting : State → Type 0
  Resting s = IsUntouched s × ((now v₀ s).scaled ≡ v₀.scaled)

  abbrev Halted : State → Type 0
  Halted s = IsUntouched s × ((now v₀ s).scaled ≡ 0)

  ask-aside : Triple Resting (ask answers (exists aside)) (λ _ s. Resting s) (Failed v₀ p stamp)
  unfolding ask
  ask-aside = call_rule _ _ (λ s h a e. ground arith) (λ s h f. ground arith)

  refuse_taken_lem :
      (taken : Bool)
      → Triple Resting (refuse_taken answers p stamp taken) (λ _ s. Resting s) (Failed v₀ p stamp)
  unfolding refuse_taken
  refuse_taken_lem false = pure_rule _ (λ s h. h)
  refuse_taken_lem true = raise_rule _ (λ s h. ground arith)

  ask_replicas :
      Triple Resting
        (wrap replicas_unknown (count answers (replicas p.workload)))
        (λ n s. Resting s × (n ≡ v₀.scaled))
        (Failed v₀ p stamp)
  unfolding count
  ask_replicas = wrap_rule _ _ (
      call_rule _ _ (λ s h n e. ground (arith, true_answers.tells_replicas s.trace p n e))
        (λ s h f. ground arith))

  stop-Resting :
      Triple Resting (wrap not_stopped (stop answers p)) (λ _ s. Halted s) (Failed v₀ p stamp)
  unfolding stop
  stop-Resting = wrap_rule _ _ (
      bind_rule _ _
        (perform_rule answers {Q = λ _ s. Halted s} _ (λ s h. ground arith) (λ s f h. ground arith))
        (λ _. perform_rule answers _ (λ s h. ground arith) (λ s f h. ground arith)))

  ask_database :
      Triple Halted
        (ask answers (exists p.database))
        (λ b s. IsUntouched s × (b ≡ true))
        (Failed v₀ p stamp)
  unfolding ask
  ask_database =
      call_rule _ _ (λ s h b e. ground (arith, true_answers.tells_exists s.trace p.database b e))
        (λ s h f. ground arith)

  start-IsUntouched :
      (want : ℕ)
      → Triple IsUntouched (start answers p want) (λ _ s. IsUntouched s) (λ _ s. IsUntouched s)
  unfolding start
  start-IsUntouched want =
      bind_rule _ _
        (perform_rule answers {Q = λ _ s. IsUntouched s} _ (λ s h. ground arith)
          (λ s f h. ground arith))
        (λ _. perform_rule answers _ (λ s h. ground arith) (λ s f h. ground arith))

  -- If the rename fails, the service is started again as it was, and the error is handed on.
  set_aside_lem :
      (existed : Bool) (want : ℕ)
      → Triple
          (λ s. IsUntouched s × (existed ≡ true))
          (set_aside answers p aside existed want)
          (λ _ s. IsAside v₀ p.database aside s × (s.result.tables ≡ 0))
          (Failed v₀ p stamp)
  unfolding set_aside
  set_aside_lem false want = pure_rule _ (λ s h. cc)
  set_aside_lem true want =
      bind_rule _ _
        (failure_rule _ _
          (perform_rule answers {Q = λ _ s. Renamed s}
            {E = λ f s. (e : Fault) × (f ≡ port e) × IsUntouched s} _
            (λ s h. ground (arith, str_eq_self aside)) (λ s f h. (f, refl, ground arith)))
          (λ f.
            bind_rule {R = λ _ s. (e : Fault) × (f ≡ port e) × IsUntouched s} _ _
              (record {
                at = λ s (e, is_e, h).
                    (ignore_rule {Q = λ _ s. (e : Fault) × (f ≡ port e) × IsUntouched s} _
                        (start-IsUntouched want) (λ _ s x. (e, is_e, x)) (λ _ s x. (e, is_e, x))).at
                      s h;
              })
              (λ _.
                raise_rule _
                  (λ s (e, is_e, h). subst (λ f. Failed v₀ p stamp f s) (sym is_e) h.back))))
        (λ _. modify_rule _ (λ s h. ground arith))
    where
      Renamed : State → Type 0
      Renamed s =
          ((now v₀ s).holds aside ≡ some original)
          × WritesSafely v₀ p.database aside s.trace
          × (s.result.tables ≡ 0)

  database_lem :
      Triple Resting
        (database answers p stamp archive)
        (λ _ s. IsComplete answers v₀ p stamp archive (wanted v₀.scaled) s)
        (Failed v₀ p stamp)
  unfolding database
  database_lem = bind_rule _ _ ask-aside λ taken. bind_rule _ _ (refuse_taken_lem taken) λ _.
      bind_rule _ _ ask_replicas λ n. fact_rule λ n_is.
        bind_rule _ _ (weaken stop-Resting (λ s h. h) (λ _ s h. h) (λ f s h. h)) λ _.
          bind_rule _ _
            (wrap_rule _ _ (
              perform_rule answers {Q = λ _ s. Halted s} _ (λ s h. ground arith)
                (λ s f h. ground arith)))
            λ _. bind_rule _ _ ask_database λ existed.
              bind_rule _ _ (set_aside_lem existed (wanted n)) λ _.
                subst
                  (λ k.
                    Triple Renamed (replace answers p stamp archive (wanted k))
                      (λ _ s. IsComplete answers v₀ p stamp archive (wanted v₀.scaled) s)
                      (Failed v₀ p stamp))
                  (sym n_is)
                  (weaken (replace_lem answers v₀ p stamp archive (wanted v₀.scaled)) (λ s h. h)
                    (λ _ s h. h) (λ f s h. Verdict-Failed v₀ p stamp f s h))
    where
      Renamed : State → Type 0
      Renamed s = IsAside v₀ p.database aside s × (s.result.tables ≡ 0)

-- Whatever calls fail, and wherever: a restore of a database that holds data ends complete, or with
-- an error after which the old data is where the result says. Where the service was not to be stopped
-- yet, it has its replicas; where the way back was not blocked after the new database was begun, it
-- has those that it is to be started with; `Failed` lists the errors, and after a blocked stop, a
-- failed start and an error handed on as it is, nothing is said of the replicas.
pub database-IsComplete_or_Failed :
    (answers : Answers) (v₀ : Server) (p : Part) (stamp : String) (archive : Archive)
    → IsTruthful answers v₀
    → v₀.holds p.database ≡ some original
    → Outcome
        (λ _ s. IsComplete answers v₀ p stamp archive (wanted v₀.scaled) s)
        (Failed v₀ p stamp)
        (database answers p stamp archive (begin p.database)).0
        (database answers p stamp archive (begin p.database)).1
database-IsComplete_or_Failed answers v₀ p stamp archive t held =
    (database_lem answers v₀ p stamp archive t).at (begin p.database) (ground arith)
