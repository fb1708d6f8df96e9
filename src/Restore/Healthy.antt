-- ===== src/Restore/Healthy.antt =====
-- Where no port refuses anything and the count finds no difference, a restore returns with no error.
use matrixctrl.Common.{
  ℕ, String, ◌≡◌, refl, Bool, Bool-cases, inl, inr, true, false, none, List, [], ◌∷◌, has_text,
  ◌==◌, ◌||◌, ltb,
}
use matrixctrl.Restore.Ports.{
  Part, Call, exists, Failure, Reply, gives, refuses, Trace, Answers, State, Attempt, ok, err, Exec,
  Mismatch, settle, wrap, on_failure, ◌>>=◌,
}
use matrixctrl.Restore.Run.{
  perform, count, ask, ask_sequences, ask_mismatches, stop, start, build, belongs_to_the_target,
  ArchiveTable, Archive, aside_name, load, feed, break_off, check_rows, keep_background_work, fill,
  set_aside, replace, refuse_taken, database, begin,
}
use matrixctrl.Restore.Triple.{
  Triple, Outcome, bind_rule, wrap_rule, modify_rule, gets_rule, pure_rule, fact_rule, failure_rule,
  finally_rule, ignore_rule,
}

pub record IsHealthy (answers : Answers) (aside : String) : Type 0 where
  pub acts : (t : Trace) (c : Call) → answers.act t c ≡ gives tt
  pub free : answers.test [] (exists aside) ≡ gives false
  pub tests : (t : Trace) (c : Call) → (b : Bool) × (answers.test t c ≡ gives b)
  pub numbers : (t : Trace) (c : Call) → (n : ℕ) × (answers.number t c ≡ gives n)
  pub counters : (t : Trace) (c : Call) → (r : ℕ × List String) × (answers.sequences t c ≡ gives r)
  pub agreed : (t : Trace) (c : Call) → answers.mismatches t c ≡ gives []

-- `m` returns, from every state.
abbrev Returns : {A : Type 0} → Exec A → Type 0
Returns m = Triple (λ _. Unit {0}) m (λ _ _. Unit {0}) (λ _ _. ⊥)

settle-Returns :
    {A : Type 0} (c : Call) (reply : State → Reply A)
    → ((s : State) → (a : A) × (reply s ≡ gives a))
    → Returns (λ s. settle c (reply s) s)
settle-Returns {A} c reply given = record { at = λ s _. go s (reply s) (given s) }
  where
    go :
        (s : State) (r : Reply A)
        → ((a : A) × (r ≡ gives a))
        → Outcome (λ _ _. Unit {0}) (λ _ _. ⊥) (settle c r s).0 (settle c r s).1
    go s (gives a) g = tt
    go s (refuses f) g = cc g.1

-- The answer is known beforehand.
known-Returns :
    {A : Type 0} {P : State → Type 0} (c : Call) (reply : State → Reply A) (a : A)
    → ((s : State) → P s → reply s ≡ gives a)
    → Triple P (λ s. settle c (reply s) s) (λ b _. Unit {0} × (b ≡ a)) (λ _ _. ⊥)
known-Returns {A} c reply a given = record { at = λ s h. go s (reply s) (given s h) }
  where
    go :
        (s : State) (r : Reply A)
        → r ≡ gives a
        → Outcome (λ b _. Unit {0} × (b ≡ a)) (λ _ _. ⊥) (settle c r s).0 (settle c r s).1
    go s (gives b) e = (tt, cc)
    go s (refuses f) e = cc

module _ {A : Type 0} where
  wrap-Returns : (w : Failure → Failure) {m : Exec A} → Returns m → Returns (wrap w m)
  wrap-Returns w t = wrap_rule _ _ t

  on_failure-Returns : (h : Failure → Exec A) {m : Exec A} → Returns m → Returns (on_failure h m)
  on_failure-Returns h t = failure_rule _ _ t (λ f. record { at = λ s x. absurd x })

  bind-Returns :
      {B : Type 0} {m : Exec B} {f : B → Exec A}
      → Returns m
      → ((b : B) → Returns (f b))
      → Returns (m >>= f)
  bind-Returns t u = bind_rule _ _ t u

module _ (answers : Answers) (p : Part) (stamp : String)
    (h : IsHealthy answers (aside_name p.database stamp)) where
  perform-Returns : (c : Call) → Returns (perform answers c)
  unfolding perform
  perform-Returns c = settle-Returns c _ (λ s. (tt, h.acts s.trace c))

  count-Returns : (c : Call) → Returns (count answers c)
  unfolding count
  count-Returns c = settle-Returns c _ (λ s. h.numbers s.trace c)

  ask-Returns : (c : Call) → Returns (ask answers c)
  unfolding ask
  ask-Returns c = settle-Returns c _ (λ s. h.tests s.trace c)

  stop-Returns : Returns (stop answers p)
  unfolding stop
  stop-Returns = bind-Returns (perform-Returns _) (λ _. perform-Returns _)

  start-Returns : (n : ℕ) → Returns (start answers p n)
  unfolding start
  start-Returns n = bind-Returns (perform-Returns _) (λ _. perform-Returns _)

  load-Returns : (t : ArchiveTable) (v : ℕ) → Returns (load answers p t v)
  unfolding load
  load-Returns t v = elim (Bool-cases (has_text t.table belongs_to_the_target)) [
    | inl kept ↦ rw kept (pure_rule _ (λ _ _. tt))
    | inr new ↦ rw new (
        bind-Returns (count-Returns _)
          (λ n. bind-Returns (modify_rule _ (λ _ _. tt)) (λ _. pure_rule _ (λ _ _. tt))))
  ]

  feed-Returns : (tables : List ArchiveTable) (v : ℕ) → Returns (feed answers p tables v)
  unfolding feed
  feed-Returns [] v = pure_rule _ (λ _ _. tt)
  feed-Returns (t ∷ tables) v = bind-Returns (load-Returns t v) (λ v'. feed-Returns tables v')

  keep_background_work-Returns :
      (target archive : ℕ) → Returns (keep_background_work answers p target archive)
  unfolding keep_background_work
  keep_background_work-Returns target archive = elim (Bool-cases (target == 0 || archive == 0)) [
    | inl unknown ↦ rw unknown (pure_rule _ (λ _ _. tt))
    | inr known ↦ rw known elim (Bool-cases (ltb archive target)) [
      | inl newer ↦ rw newer (bind-Returns (count-Returns _) (λ _. pure_rule _ (λ _ _. tt)))
      | inr same ↦ rw same (pure_rule _ (λ _ _. tt))
    ]
  ]

  break_off-Returns :
      (archive : Archive) → archive.broken ≡ none → Returns (break_off archive.broken)
  unfolding break_off
  break_off-Returns archive whole = rw whole (pure_rule _ (λ _ _. tt))

  -- The count answers with no mismatch, and none is raised.
  check_rows-Returns : (bad : List Mismatch) → bad ≡ [] → Returns (check_rows bad)
  unfolding check_rows
  check_rows-Returns bad e = rw e (pure_rule _ (λ _ _. tt))

  set_aside-Returns :
      (existed : Bool) (want : ℕ)
      → Returns (set_aside answers p (aside_name p.database stamp) existed want)
  unfolding set_aside
  set_aside-Returns false want = pure_rule _ (λ _ _. tt)
  set_aside-Returns true want =
      bind-Returns (on_failure-Returns _ (perform-Returns _)) (λ _. modify_rule _ (λ _ _. tt))

  build-Returns : (want : ℕ) → Returns (build answers p (aside_name p.database stamp) want)
  unfolding build
  build-Returns want = bind-Returns (perform-Returns _) λ _.
      bind-Returns (wrap-Returns _ (start-Returns want)) λ _.
        bind-Returns stop-Returns λ _. bind-Returns (perform-Returns _) (λ _. perform-Returns _)

  fill-Returns : (archive : Archive) → archive.broken ≡ none → Returns (fill answers p archive)
  unfolding fill ask_sequences ask_mismatches
  fill-Returns archive whole = bind-Returns (perform-Returns _) λ _.
      bind-Returns (perform-Returns _) λ _. bind-Returns (count-Returns _) λ _.
        bind-Returns (feed-Returns archive.tables 0) λ v.
          bind-Returns (break_off-Returns archive whole) λ _.
            bind-Returns (settle-Returns _ _ (λ s. h.counters s.trace _)) λ a.
              bind-Returns (modify_rule _ (λ _ _. tt)) λ _.
                bind-Returns (gets_rule _ (λ _ _. tt)) λ rows.
                  bind_rule {R = λ bad _. Unit {0} × (bad ≡ [])} _ _
                    (known-Returns _ _ [] (λ s _. h.agreed s.trace _))
                    λ bad. fact_rule λ none_bad. bind-Returns (modify_rule _ (λ _ _. tt)) λ _.
                      bind-Returns (check_rows-Returns bad none_bad) λ _.
                        bind-Returns (count-Returns _)
                          λ target. keep_background_work-Returns target v

  refuse_taken-Returns :
      (taken : Bool) → taken ≡ false → Returns (refuse_taken answers p stamp taken)
  unfolding refuse_taken
  refuse_taken-Returns taken e = rw e (pure_rule _ (λ _ _. tt))

  -- The defer at the end changes no result.
  replace-Returns :
      (archive : Archive) (want : ℕ)
      → archive.broken ≡ none
      → Returns (replace answers p stamp archive want)
  unfolding replace
  replace-Returns archive want whole = bind-Returns (on_failure-Returns _ (build-Returns want)) λ _.
      finally_rule _ _
        (bind-Returns (on_failure-Returns _ (fill-Returns archive whole)) λ _.
          bind-Returns (ignore_rule _ (perform-Returns _) (λ _ _ _. tt) (λ _ _ x. absurd x))
            λ _. wrap-Returns _ (start-Returns want))
        (λ _ _ _. tt) (λ _ _ x. x)

  database-Returns :
      (archive : Archive)
      → archive.broken ≡ none
      → Triple (λ s. s.trace ≡ []) (database answers p stamp archive) (λ _ _. Unit {0}) (λ _ _. ⊥)
  unfolding database ask
  database-Returns archive whole =
      bind_rule {R = λ taken _. Unit {0} × (taken ≡ false)} _ _
        (known-Returns _ _ false (λ s e. rw e h.free))
        λ taken. fact_rule λ is_free. bind-Returns (refuse_taken-Returns taken is_free) λ _.
          bind-Returns (wrap-Returns _ (count-Returns _)) λ n.
            bind-Returns (wrap-Returns _ stop-Returns) λ _.
              bind-Returns (wrap-Returns _ (perform-Returns _)) λ _.
                bind-Returns (settle-Returns _ _ (λ s. h.tests s.trace _)) λ existed.
                  bind-Returns (set_aside-Returns existed _) λ _. replace-Returns archive _ whole

-- Where no port refuses a call, nothing has the aside name, the archive is read to its end and the
-- count finds no difference, a restore returns without an error.
pub database-ok :
    (answers : Answers) (p : Part) (stamp : String) (archive : Archive)
    → IsHealthy answers (aside_name p.database stamp)
    → archive.broken ≡ none
    → (database answers p stamp archive (begin p.database)).0 ≡ ok tt
database-ok answers p stamp archive h whole =
    returned _ _ ((database-Returns answers p stamp h archive whole).at (begin p.database) refl)
  where
    returned :
        (r : Attempt (Unit {0})) (s : State) → Outcome (λ _ _. Unit {0}) (λ _ _. ⊥) r s → r ≡ ok tt
    returned (ok tt) s x = refl
    returned (err f) s x = absurd x
