-- ===== src/Restore/Filling.antt =====
-- The forward half of a restore: the empty database is built and filled. Whatever the ports answer,
-- the old data stays aside, and rows are written only while the service is down.
use matrixctrl.Common.{
  ℕ, String, ◌≡◌, ◌≢◌, refl, Bool-cases, inl, inr, true, false, Option, none, some, List, [], ◌∷◌,
  str_eq, str_eq_self, arith, has_text, length, if◌then◌else◌, ◌||◌, ◌==◌, ltb,
}
use matrixctrl.Restore.Ports.{
  Part, Call, Failure, schema_not_built, Answers, State, Fault, port, Mismatch,
}
use matrixctrl.Restore.Run.{
  count, ask_sequences, ask_mismatches, stop, start, build, belongs_to_the_target, ArchiveTable,
  Archive, add_rows, load, feed, break_off, check_rows, keep_background_work, fill,
}
use matrixctrl.Restore.Server.{fresh, Server}
use matrixctrl.Restore.Triple.{
  Triple, called, bind_rule, call_rule, wrap_rule, modify_rule, gets_rule, raise_rule, pure_rule,
  weaken,
}
use matrixctrl.Restore.Verdict.{now, IsAside, IsFilled, is_cause}
use matrixctrl.Restore.Rollback.{perform_rule, database-ne-aside}

-- The tables that a walk loads, onto those loaded before, the newest first.
pub restored : List ArchiveTable → List String → List String
restored [] ts = ts
restored (a ∷ as') ts =
    restored as' (if has_text a.table belongs_to_the_target then ts else a.table ∷ ts)

module _ (answers : Answers) (v₀ : Server) (p : Part) (aside : String)
    (apart : aside ≢ p.database) where
  abbrev Filled : List String → State → Type 0
  Filled ts s = IsFilled v₀ p.database aside ts s

  abbrev Stopped : List String → State → Type 0
  Stopped ts s = Filled ts s × ((now v₀ s).scaled ≡ 0)

  -- Filling is under way: `ts` are in, the service is down, the connection is to the new database.
  pub record IsFilling (ts : List String) (s : State) : Type 0 where
    pub filled : Filled ts s
    pub stopped : (now v₀ s).scaled ≡ 0
    pub connected : (now v₀ s).sink ≡ some p.database

  -- An error that leads to the way back.
  abbrev pub Undone : Failure → State → Type 0
  Undone f s = (is_cause f ≡ true) × IsAside v₀ p.database aside s

  abbrev Ready : State → Type 0
  Ready s = IsAside v₀ p.database aside s × (s.result.tables ≡ 0)

  -- The rows of `t` are in, and not counted yet.
  record IsLoaded (t : String) (ts : List String) (s : State) : Type 0 where
    old : IsAside v₀ p.database aside s
    new : (now v₀ s).holds p.database ≡ some (fresh (t ∷ ts))
    counted : s.result.tables ≡ length ts
    stopped : (now v₀ s).scaled ≡ 0
    connected : (now v₀ s).sink ≡ some p.database

  apart_eq : str_eq p.database aside ≡ false
  apart_eq = database-ne-aside answers v₀ p aside apart

  pub start-Filled :
      {E : Failure → State → Type 0} (ts : List String) (want : ℕ)
      → ((f : Failure) (s : State) → Undone f s → E f s)
      → Triple
          (Filled ts)
          (start answers p want)
          (λ _ s. Filled ts s × ((now v₀ s).scaled ≡ want))
          E
  unfolding start
  start-Filled ts want e =
      bind_rule _ _
        (perform_rule answers {Q = λ _ s. Filled ts s × ((now v₀ s).scaled ≡ want)} _
          (λ s h. ground arith) (λ s f h. e _ _ (ground arith)))
        (λ _. perform_rule answers _ (λ s h. ground arith) (λ s f h. e _ _ (ground arith)))

  stop-Filled :
      (ts : List String) → Triple (Filled ts) (stop answers p) (λ _ s. Stopped ts s) Undone
  unfolding stop
  stop-Filled ts =
      bind_rule _ _
        (perform_rule answers {Q = λ _ s. Stopped ts s} _ (λ s h. ground arith)
          (λ s f h. ground arith))
        (λ _. perform_rule answers _ (λ s h. ground arith) (λ s f h. ground arith))

  pub build_lem :
      (want : ℕ) → Triple Ready (build answers p aside want) (λ _ s. IsFilling [] s) Undone
  unfolding build
  build_lem want =
      bind_rule _ _
        (perform_rule answers {Q = λ _ s. Filled [] s} _
          (λ s h. ground (arith, apart_eq, str_eq_self p.database)) (λ s f h. ground arith))
        λ _.
          bind_rule _ _
            (wrap_rule _ _ (
              weaken
                (start-Filled {E = λ f s. Undone (schema_not_built f) s} [] want
                  (λ f s h. (refl, h.1)))
                (λ s h. h) (λ _ s h. h.0) (λ f s h. h)))
            λ _. bind_rule _ _ (stop-Filled []) λ _.
              bind_rule _ _
                (perform_rule answers {Q = λ _ s. Stopped [] s} _ (λ s h. ground arith)
                  (λ s f h. ground arith))
                λ _. perform_rule answers _ (λ s h. ground arith) (λ s f h. ground arith)

  count_rule :
      {P : State → Type 0} {Q : ℕ → State → Type 0} {E : Failure → State → Type 0} (c : Call)
      → ((s : State) (n : ℕ) → P s → Q n (called c true s))
      → ((s : State) (f : Fault) → P s → E (port f) (called c false s))
      → Triple P (count answers c) Q E
  unfolding count
  count_rule c good bad =
      call_rule c (λ s. answers.number s.trace c) (λ s h n e. good s n h) (λ s h f. bad s f h)

  load_lem :
      (t : ArchiveTable) (v : ℕ) (ts : List String)
      → Triple
          (IsFilling ts)
          (load answers p t v)
          (λ _ s. IsFilling (if has_text t.table belongs_to_the_target then ts else t.table ∷ ts) s)
          Undone
  unfolding load add_rows
  load_lem t v ts = elim (Bool-cases (has_text t.table belongs_to_the_target)) [
    | inl kept ↦ rw kept (pure_rule _ (λ s h. h))
    | inr new ↦ rw new (
        bind_rule _ _
          (count_rule {Q = λ _ s. IsLoaded t.table ts s} _
            (λ s n h. ground (arith, apart_eq, str_eq_self p.database)) (λ s f h. ground arith))
          (λ n.
            bind_rule _ _
              (modify_rule {Q = λ _ s. IsFilling (t.table ∷ ts) s} _ (λ s h. ground arith))
              (λ _. pure_rule _ (λ s h. h))))
  ]

  feed_lem :
      (tables : List ArchiveTable) (v : ℕ) (ts : List String)
      → Triple
          (IsFilling ts)
          (feed answers p tables v)
          (λ _ s. IsFilling (restored tables ts) s)
          Undone
  unfolding feed restored
  feed_lem [] v ts = pure_rule _ (λ s h. h)
  feed_lem (t ∷ tables) v ts = bind_rule _ _ (load_lem t v ts) (λ v'. feed_lem tables v' _)

  break_off_lem :
      (broken : Option Fault) (ts : List String)
      → Triple (IsFilling ts) (break_off broken) (λ _ s. IsFilling ts s) Undone
  unfolding break_off
  break_off_lem none ts = pure_rule _ (λ s h. h)
  break_off_lem (some f) ts = raise_rule _ (λ s h. (refl, h.filled.old))

  -- The rows in place, and the count found no difference.
  abbrev pub Checked : List String → State → Type 0
  Checked ts s = IsFilling ts s × (s.result.mismatches ≡ [])

  check_rows_lem :
      (bad : List Mismatch) (ts : List String)
      → Triple
          (λ s. IsFilling ts s × (s.result.mismatches ≡ bad))
          (check_rows bad)
          (λ _ s. Checked ts s)
          Undone
  unfolding check_rows
  check_rows_lem [] ts = pure_rule _ (λ s h. h)
  check_rows_lem (m ∷ bad) ts = raise_rule _ (λ s h. (refl, h.0.filled.old))

  keep_background_work_lem :
      (target archive : ℕ) (ts : List String)
      → Triple
          (Checked ts)
          (keep_background_work answers p target archive)
          (λ _ s. Checked ts s)
          Undone
  unfolding keep_background_work
  keep_background_work_lem target archive ts = elim (Bool-cases (target == 0 || archive == 0)) [
    | inl unknown ↦ rw unknown (pure_rule _ (λ s h. h))
    | inr known ↦ rw known elim (Bool-cases (ltb archive target)) [
      | inl newer ↦ rw newer (
          bind_rule _ _
            (count_rule {Q = λ _ s. Checked ts s} _
              (λ s n h. ground (arith, apart_eq, str_eq_self p.database)) (λ s f h. ground arith))
            (λ _. pure_rule _ (λ s h. h)))
      | inr same ↦ rw same (pure_rule _ (λ s h. h))
    ]
  ]

  pub fill_lem :
      (archive : Archive)
      → Triple
          (IsFilling [])
          (fill answers p archive)
          (λ _ s. Checked (restored archive.tables []) s)
          Undone
  unfolding fill ask_sequences ask_mismatches
  fill_lem archive =
      bind_rule _ _
        (perform_rule answers {Q = λ _ s. IsFilling [] s} _ (λ s h. ground arith)
          (λ s f h. ground arith))
        λ _.
          bind_rule _ _
            (perform_rule answers {Q = λ _ s. IsFilling [] s} _ (λ s h. ground arith)
              (λ s f h. ground arith))
            λ _.
              bind_rule _ _
                (count_rule {Q = λ _ s. IsFilling [] s} _
                  (λ s n h. ground (arith, apart_eq, str_eq_self p.database))
                  (λ s f h. ground arith))
                λ _. bind_rule _ _ (feed_lem archive.tables 0 []) λ v.
                  bind_rule _ _ (break_off_lem archive.broken _) λ _.
                    bind_rule _ _
                      (call_rule {Q = λ _ s. IsFilling done s} _ _
                        (λ s h a e. ground (arith, apart_eq, str_eq_self p.database))
                        (λ s h f. ground arith))
                      λ a.
                        bind_rule _ _
                          (modify_rule {Q = λ _ s. IsFilling done s} _ (λ s h. ground arith))
                          λ _.
                            bind_rule _ _ (gets_rule {Q = λ _ s. IsFilling done s} _ (λ s h. h))
                              λ rows.
                                bind_rule _ _
                                  (call_rule {Q = λ _ s. IsFilling done s} _ _
                                    (λ s h a e. ground arith) (λ s h f. ground arith))
                                  λ bad.
                                    bind_rule _ _
                                      (modify_rule
                                        {Q = λ _ s. IsFilling done s × (s.result.mismatches ≡ bad)}
                                        _ (λ s h. ground arith))
                                      λ _. bind_rule _ _ (check_rows_lem bad _) λ _.
                                        bind_rule _ _
                                          (count_rule {Q = λ _ s. Checked done s} _
                                            (λ s n h. ground arith) (λ s f h. ground arith))
                                          λ target. keep_background_work_lem target v _
    where
      done : List String
      done = restored archive.tables []
