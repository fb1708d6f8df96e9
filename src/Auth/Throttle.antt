-- ===== src/Auth/Throttle.antt =====
-- internal/auth/throttle.go: counting failed logins in the table login_attempts.
--
-- Durations and times are nanoseconds. The table is an association list by key; the database's
-- clock, `NOW()`, and the process's, `time.Now()`, are two arguments. A query that fails for another
-- reason than a missing row is `unreachable`.
pub mod Backoff
pub mod Lockout
mod Examples
use matrixctrl.Common.{
  ℕ, ◌+◌, ◌-◌, ◌*◌, ◌%◌, ◌^◌, String, Bool, true, false, Option, none, some, List, ◌∷◌, lookup,
  insert, delete, ltb, leb, if◌then◌else◌,
}

abbrev pub millisecond : ℕ
millisecond = 1_000_000

abbrev pub second : ℕ
second = 1000 * millisecond

abbrev pub minute : ℕ
minute = 60 * second

abbrev pub free_attempts : ℕ
free_attempts = 5

abbrev pub lockout_after : ℕ
lockout_after = 15

abbrev pub lockout_for : ℕ
lockout_for = 15 * minute

abbrev pub forget_after : ℕ
forget_after = 60 * minute

abbrev pub max_backoff : ℕ
max_backoff = 4 * second

-- A row of login_attempts, but for its key.
pub record Attempts : Type 0 where
  pub failures : ℕ
  pub first_failed : ℕ
  pub last_failed : ℕ

abbrev pub Table : Type 0
Table = List (String × Attempts)

-- What `Check` returns: a delay, `ErrLockedOut` with the time left, or the database's error.
pub data Verdict : Type 0 where
  wait : ℕ → Verdict
  locked_out : ℕ → Verdict
  unreachable : Verdict

-- The shift, clamped before it happens.
unfoldable pub steps_for : ℕ → ℕ
steps_for failures = if ltb 8 (failures - free_attempts) then 8 else failures - free_attempts

abbrev pub cap : ℕ → ℕ
cap d = if ltb max_backoff d then max_backoff else d

-- `time.Duration(1<<steps) * 250ms`, of 64 bits.
unfoldable pub shifted : ℕ → ℕ
shifted steps = 2 ^ steps * (250 * millisecond) % 2 ^ 64

unfoldable pub backoff_for : ℕ → ℕ
backoff_for failures = if ltb failures free_attempts then 0 else cap (shifted (steps_for failures))

-- The row that `Check` reads: that of the key, unless its last failure is forgotten.
abbrev pub recent : ℕ → Option Attempts → Option Attempts
recent db_now none = none
recent db_now (some a) = if ltb db_now (a.last_failed + forget_after) then some a else none

abbrev pub judge : ℕ → Option Attempts → Verdict
judge now none = wait 0
judge now (some a) =
    if leb lockout_after a.failures
    then (if ltb now (a.last_failed + lockout_for)
        then locked_out (a.last_failed + lockout_for - now)
        else wait (backoff_for a.failures))
    else wait (backoff_for a.failures)

unfoldable pub check : (reachable : Bool) (db_now now : ℕ) → String → Table → Verdict
check false db_now now key t = unreachable
check true db_now now key t = judge now (recent db_now (lookup key t))

-- The row after `INSERT … ON CONFLICT (key) DO UPDATE`.
abbrev pub count_failure : ℕ → Option Attempts → Attempts
count_failure db_now none = record { failures = 1; first_failed = db_now; last_failed = db_now }
count_failure db_now (some a) =
    if ltb (a.last_failed + forget_after) db_now
    then record { failures = 1; first_failed = db_now; last_failed = db_now }
    else record a { failures = a.failures + 1; last_failed = db_now }

unfoldable pub failed : (db_now : ℕ) → String → Table → Table
failed db_now key t = insert key (count_failure db_now (lookup key t)) t

unfoldable pub succeeded : String → Table → Table
succeeded key t = delete key t
