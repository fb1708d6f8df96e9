-- ===== src/Restore/Triple.antt =====
-- What an action of a restore ensures: a condition on the state before it, one on the value and the
-- state after it, and one on the error and the state, with a rule for each way to build an action.
use matrixctrl.Common.{◌≡◌, refl, Bool, true, false, ◌∷◌}
use matrixctrl.Restore.Ports.{
  Call, Fault, Failure, port, Reply, gives, refuses, Summary, State, Attempt, ok, err, Exec, settle,
  pure, raise, modify, gets, ◌>>=◌, proceed, wrap, rewrap, ignore, finally, on_failure, recover,
}

-- The state after the call `c`.
abbrev pub called : Call → Bool → State → State
called c done s = record s { trace = record { call = c; done = done } ∷ s.trace }

module _ {A : Type 0} (Q : A → State → Type 0) (E : Failure → State → Type 0) where
  abbrev pub Outcome : Attempt A → State → Type 0
  Outcome (ok a) s = Q a s
  Outcome (err f) s = E f s

-- `m`, from a state with `P`, returns with `Q` or fails with `E`.
pub record Triple {A : Type 0} (P : State → Type 0) (m : Exec A) (Q : A → State → Type 0)
    (E : Failure → State → Type 0) : Type 0 where
  pub at : (s : State) → P s → Outcome Q E (m s).0 (m s).1

module _ {A : Type 0} (Q : A → State → Type 0) (E : Failure → State → Type 0) where
  settled :
      (c : Call) (r : Reply A) (s : State)
      → ((a : A) → r ≡ gives a → Q a (called c true s))
      → ((f : Fault) → E (port f) (called c false s))
      → Outcome Q E (settle c r s).0 (settle c r s).1
  settled c (gives a) s good bad = good a refl
  settled c (refuses f) s good bad = bad f

module _ {A : Type 0} {P : State → Type 0} {Q : A → State → Type 0}
    {E : Failure → State → Type 0} where
  pub pure_rule : (a : A) → ((s : State) → P s → Q a s) → Triple P (pure a) Q E
  unfolding pure
  pure_rule a h = record { at = h }

  pub raise_rule : (f : Failure) → ((s : State) → P s → E f s) → Triple P (raise f) Q E
  unfolding raise
  raise_rule f h = record { at = h }

  pub gets_rule : (g : Summary → A) → ((s : State) → P s → Q (g s.result) s) → Triple P (gets g) Q E
  unfolding gets
  gets_rule g h = record { at = h }

  pub weaken :
      {P' : State → Type 0} {Q' : A → State → Type 0} {E' : Failure → State → Type 0} {m : Exec A}
      → Triple P' m Q' E'
      → ((s : State) → P s → P' s)
      → ((a : A) (s : State) → Q' a s → Q a s)
      → ((f : Failure) (s : State) → E' f s → E f s)
      → Triple P m Q E
  weaken {P'} {Q'} {E'} {m} t pre post bad = record {
    at = λ s h. go (m s).0 (m s).1 (t.at s (pre s h));
  }
    where
      go : (r : Attempt A) (s : State) → Outcome Q' E' r s → Outcome Q E r s
      go (ok a) s h = post a s h
      go (err f) s h = bad f s h

  pub call_rule :
      (c : Call) (reply : State → Reply A)
      → ((s : State) → P s → (a : A) → reply s ≡ gives a → Q a (called c true s))
      → ((s : State) → P s → (f : Fault) → E (port f) (called c false s))
      → Triple P (λ s. settle c (reply s) s) Q E
  call_rule c reply good bad = record { at = λ s h. settled Q E c (reply s) s (good s h) (bad s h) }

  -- A fact that does not speak of the state is taken out of the condition before.
  pub fact_rule : {F : Type 0} {m : Exec A} → (F → Triple P m Q E) → Triple (λ s. P s × F) m Q E
  fact_rule t = record { at = λ s h. (t h.1).at s h.0 }

  pub wrap_rule :
      (w : Failure → Failure) (m : Exec A)
      → Triple P m Q (λ f s. E (w f) s)
      → Triple P (wrap w m) Q E
  unfolding wrap
  wrap_rule w m t = record { at = λ s h. go (m s).0 (m s).1 (t.at s h) }
    where
      go :
          (r : Attempt A) (s : State)
          → Outcome Q (λ f s. E (w f) s) r s
          → Outcome Q E (rewrap w r) s
      go (ok a) s h = h
      go (err f) s h = h

  pub failure_rule :
      {R : Failure → State → Type 0} (h : Failure → Exec A) (m : Exec A)
      → Triple P m Q R
      → ((f : Failure) → Triple (R f) (h f) Q E)
      → Triple P (on_failure h m) Q E
  unfolding on_failure
  failure_rule {R} h m t th = record { at = λ s p. go (m s).0 (m s).1 (t.at s p) }
    where
      go :
          (r : Attempt A) (s : State)
          → Outcome Q R r s
          → Outcome Q E (recover h r s).0 (recover h r s).1
      go (ok a) s x = x
      go (err f) s x = (th f).at s x

  -- What runs at the end keeps the conditions.
  pub finally_rule :
      (last : Exec (Unit {0})) (m : Exec A)
      → Triple P m Q E
      → ((a : A) (s : State) → Q a s → Q a (last s).1)
      → ((f : Failure) (s : State) → E f s → E f (last s).1)
      → Triple P (finally last m) Q E
  unfolding finally
  finally_rule last m t good bad = record { at = λ s p. go (m s).0 (m s).1 (t.at s p) }
    where
      go : (r : Attempt A) (s : State) → Outcome Q E r s → Outcome Q E r (last s).1
      go (ok a) s x = good a s x
      go (err f) s x = bad f s x

module _ {P : State → Type 0} {Q : Unit {0} → State → Type 0} {E : Failure → State → Type 0} where
  pub modify_rule :
      (g : Summary → Summary)
      → ((s : State) → P s → Q tt (record s { result = g s.result }))
      → Triple P (modify g) Q E
  unfolding modify
  modify_rule g h = record { at = h }

  pub ignore_rule :
      {A : Type 0} {R : A → State → Type 0} {R' : Failure → State → Type 0} (m : Exec A)
      → Triple P m R R'
      → ((a : A) (s : State) → R a s → Q tt s)
      → ((f : Failure) (s : State) → R' f s → Q tt s)
      → Triple P (ignore m) Q E
  unfolding ignore
  ignore_rule {A} {R} {R'} m t good bad = record { at = λ s p. go (m s).0 (m s).1 (t.at s p) }
    where
      go : (r : Attempt A) (s : State) → Outcome R R' r s → Q tt s
      go (ok a) s x = good a s x
      go (err f) s x = bad f s x

module _ {A B : Type 0} {P : State → Type 0} {Q : B → State → Type 0}
    {E : Failure → State → Type 0} where
  pub bind_rule :
      {R : A → State → Type 0} (m : Exec A) (f : A → Exec B)
      → Triple P m R E
      → ((a : A) → Triple (R a) (f a) Q E)
      → Triple P (m >>= f) Q E
  unfolding ◌>>=◌
  bind_rule {R} m f t tf = record { at = λ s p. go (m s).0 (m s).1 (t.at s p) }
    where
      go :
          (r : Attempt A) (s : State)
          → Outcome R E r s
          → Outcome Q E (proceed r f s).0 (proceed r f s).1
      go (ok a) s x = (tf a).at s x
      go (err e) s x = x
