-- ===== src/Auth/Throttle/Lockout.antt =====
-- When the throttle of internal/auth/throttle.go refuses a login, and for whom.
use matrixctrl.Common.{
  ℕ, ◌+◌, ◌-◌, ◌≤◌, ◌<◌, String, ◌≡◌, ◌≢◌, ap, ◌∙◌, true, none, some, List, [], ◌∷◌, lookup,
  lookup-insert, lookup-delete, length, str_eq_self, str_eq_ne, arith,
}
use matrixctrl.Auth.Throttle.{
  Attempts, Table, wait, locked_out, check, count_failure, failed, succeeded, forget_after,
  lockout_after, lockout_for,
}

-- The failures at the given times, one after the other.
pub fail_all : List ℕ → String → Table → Table
fail_all [] key t = t
fail_all (now ∷ later) key t = fail_all later key (failed now key t)

-- No failure comes later than the forget window after the one before it.
abbrev pub IsSteady : ℕ → List ℕ → Type 0
IsSteady last [] = Unit {0}
IsSteady last (now ∷ later) = (now ≤ last + forget_after) × IsSteady now later

abbrev pub last_of : ℕ → List ℕ → ℕ
last_of last [] = last
last_of last (now ∷ later) = last_of now later

lookup-failed :
    (now : ℕ) (key : String) (t : Table)
    → lookup key (failed now key t) ≡ some (count_failure now (lookup key t))
unfolding failed
lookup-failed now key t = rw (lookup-insert, str_eq_self key)

-- Each failure of a steady run is counted.
fail_all_counts :
    (times : List ℕ) (key : String) (t : Table) (a : Attempts)
    → lookup key t ≡ some a
    → IsSteady a.last_failed times
    → lookup key (fail_all times key t)
      ≡ some (record a {
        failures = a.failures + length times;
        last_failed = last_of a.last_failed times;
      })
unfolding fail_all
fail_all_counts [] key t a e h = ground arith
fail_all_counts (now ∷ later) key t a e h =
    fail_all_counts later key (failed now key t)
      (record a { failures = a.failures + 1; last_failed = now })
      (lookup-failed now key t ∙ rw e (ground arith)) h.1
    ∙ ground arith

check-locked :
    (db_now now : ℕ) (key : String) (t : Table) (a : Attempts)
    → lookup key t ≡ some a
    → lockout_after ≤ a.failures
    → db_now < a.last_failed + forget_after
    → now < a.last_failed + lockout_for
    → check true db_now now key t ≡ locked_out (a.last_failed + lockout_for - now)
unfolding check
check-locked db_now now key t a e many fresh soon = rw e (ground arith)

-- Fifteen failures in a row, none a forget window after the one before, lock the key: until fifteen
-- minutes after the last of them it is refused, with the time that is left.
pub check-fail_all :
    (first : ℕ) (times : List ℕ) (key : String) (t : Table) (db_now now : ℕ)
    → lookup key t ≡ none
    → IsSteady first times
    → 14 ≤ length times
    → db_now < last_of first times + forget_after
    → now < last_of first times + lockout_for
    → check true db_now now key (fail_all times key (failed first key t))
      ≡ locked_out (last_of first times + lockout_for - now)
check-fail_all first times key t db_now now unknown steady many fresh soon =
    check-locked db_now now key _ _
      (fail_all_counts times key (failed first key t) _
        (lookup-failed first key t ∙ ap (λ o. some (count_failure first o)) unknown) steady)
      (omega arith) fresh soon

-- A key that was locked once is locked again by one more failure, as long as its last one is not
-- forgotten: the budget is not renewed when a lockout runs out.
pub check-failed_again :
    (db_now db_later now : ℕ) (key : String) (t : Table) (a : Attempts)
    → lookup key t ≡ some a
    → lockout_after ≤ a.failures
    → db_now ≤ a.last_failed + forget_after
    → db_later < db_now + forget_after
    → now < db_now + lockout_for
    → check true db_later now key (failed db_now key t) ≡ locked_out (db_now + lockout_for - now)
check-failed_again db_now db_later now key t a e many recent' fresh soon =
    check-locked db_later now key _ (record a { failures = a.failures + 1; last_failed = db_now })
      (lookup-failed db_now key t ∙ rw e (ground arith)) (omega arith) fresh soon

-- A success clears its own key, and neither a failure nor a success touches another one.
pub check_own_key :
    (key other : String) (db_now db_later now : ℕ) (t : Table)
    → key ≢ other
    → (check true db_later now key (succeeded key t) ≡ wait 0)
      × (check true db_later now other (succeeded key t) ≡ check true db_later now other t)
      × (check true db_later now other (failed db_now key t) ≡ check true db_later now other t)
unfolding check failed succeeded
check_own_key key other db_now db_later now t apart = (
  rw (lookup-delete, str_eq_self key),
  rw (lookup-delete, str_eq_ne key other apart),
  rw (lookup-insert, str_eq_ne key other apart),
)
