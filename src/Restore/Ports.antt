-- ===== src/Restore/Ports.antt =====
-- The ports of internal/restore/restore.go: what a restore asks of Kubernetes and of the database
-- server, and the actions that are made of such calls.
--
-- The ports are interfaces, so what stands behind them is a parameter: an `Answers` that may answer
-- every call as it likes, in view of all that was called before. An action keeps the trace of its
-- calls, newest first, each with whether it succeeded.
use matrixctrl.Common.{ℕ, String, Bool, true, false, Option, List, ◌∷◌}

pub record Workload : Type 0 where
  pub kind : String
  pub name : String
  pub selector : String

pub record Part : Type 0 where
  pub prefix : String
  pub database : String
  pub owner : String
  pub workload : Workload

-- A counter of the archive; `last_value` is a pointer that may be nil.
pub record Sequence : Type 0 where
  pub name : String
  pub last_value : Option ℕ

pub record Mismatch : Type 0 where
  pub table : String
  pub expected : ℕ
  pub found : ℕ

-- The methods of `Cluster`, `Postgres` and `Sink`. The reader that LoadCSV streams stands behind
-- the table's name.
pub data Call : Type 0 where
  replicas : Workload → Call
  scale : Workload → ℕ → Call
  wait_gone : String → Call
  wait_ready : Workload → Call
  exists : String → Call
  create : String → String → Call
  rename : String → String → Call
  drop : String → Call
  terminate : String → Call
  open_sink : String → Call
  defer_constraints : Call
  keep_target_only : Call
  truncate_all : Call
  merge_kept : Call
  schema_version : Call
  load_csv : String → Call
  set_sequences : List Sequence → Call
  verify : List (String × ℕ) → Call
  close : Call

pub record Event : Type 0 where
  pub call : Call
  pub done : Bool

abbrev pub Trace : Type 0
Trace = List Event

-- The text of an error that a port returns.
abbrev pub Fault : Type 0
Fault = String

-- The errors of the package, one constructor for each `fmt.Errorf`.
pub data Failure : Type 0 where
  port : Fault → Failure
  aside_taken : String → Failure
  replicas_unknown : Failure → Failure
  not_stopped : Failure → Failure
  not_disconnected : Failure → Failure
  schema_not_built : Failure → Failure
  not_what_was_written : List Mismatch → Failure
  stop_blocked : Failure → Failure → Failure
  drop_blocked : Failure → Failure → Failure
  rename_blocked : Failure → Failure → Failure
  not_restarted : Failure → Failure → Failure
  not_started : Failure → Failure

pub data Attempt (A : Type 0) : Type 0 where
  ok : A → Attempt A
  err : Failure → Attempt A

pub data Reply (A : Type 0) : Type 0 where
  gives : A → Reply A
  refuses : Fault → Reply A

-- What stands behind the ports: an answer for each call, in view of the trace so far.
pub record Answers : Type 0 where
  pub act : Trace → Call → Reply (Unit {0})
  pub test : Trace → Call → Reply Bool
  pub number : Trace → Call → Reply ℕ
  pub sequences : Trace → Call → Reply (ℕ × List String)
  pub mismatches : Trace → Call → Reply (List Mismatch)

-- `Result`. `previous` is `PreviousName`, with `none` for the empty string; counts are Go ints.
pub record Summary : Type 0 where
  pub database : String
  pub previous : Option String
  pub rows : List (String × ℕ)
  pub tables : ℕ
  pub total_rows : ℕ
  pub sequences : ℕ
  pub skipped_seqs : List String
  pub mismatches : List Mismatch

pub record State : Type 0 where
  pub result : Summary
  pub trace : Trace

abbrev pub Exec : Type 0 → Type 0
Exec A = State → Attempt A × State

-- The call `c` was answered by `r`.
abbrev pub settle : {A : Type 0} → Call → Reply A → State → Attempt A × State
settle c (gives a) s = (ok a, record s { trace = record { call = c; done = true } ∷ s.trace })
settle c (refuses f) s =
    (err (port f), record s { trace = record { call = c; done = false } ∷ s.trace })

unfoldable pub pure : {A : Type 0} → A → Exec A
pure a s = (ok a, s)

unfoldable pub raise : {A : Type 0} → Failure → Exec A
raise f s = (err f, s)

unfoldable pub modify : (Summary → Summary) → Exec (Unit {0})
modify f s = (ok tt, record s { result = f s.result })

unfoldable pub gets : {A : Type 0} → (Summary → A) → Exec A
gets f s = (ok (f s.result), s)

abbrev pub proceed : {A B : Type 0} → Attempt A → (A → Exec B) → Exec B
proceed (ok a) f s = f a s
proceed (err e) f s = (err e, s)

infixl 5 ◌>>=◌ ◌>>◌
unfoldable pub ◌>>=◌ : {A B : Type 0} → Exec A → (A → Exec B) → Exec B
◌>>=◌ m f s = let (r, s') = m s in proceed r f s'

abbrev pub ◌>>◌ : {A B : Type 0} → Exec A → Exec B → Exec B
m >> k = m >>= λ _. k

abbrev pub rewrap : {A : Type 0} → (Failure → Failure) → Attempt A → Attempt A
rewrap w (ok a) = ok a
rewrap w (err e) = err (w e)

-- `fmt.Errorf("…: %w", err)` around the error of `m`.
unfoldable pub wrap : {A : Type 0} → (Failure → Failure) → Exec A → Exec A
wrap w m s = let (r, s') = m s in (rewrap w r, s')

-- `_ = m()`
unfoldable pub ignore : {A : Type 0} → Exec A → Exec (Unit {0})
ignore m s = (ok tt, (m s).1)

-- `defer last()` after which `m` runs to the end of the function.
unfoldable pub finally : {A : Type 0} → Exec (Unit {0}) → Exec A → Exec A
finally last m s = let (r, s') = m s in (r, (last s').1)

abbrev pub recover : {A : Type 0} → (Failure → Exec A) → Attempt A → State → Attempt A × State
recover h (ok a) s = (ok a, s)
recover h (err e) s = h e s

-- `if err := m(); err != nil { return h(err) }`
unfoldable pub on_failure : {A : Type 0} → (Failure → Exec A) → Exec A → Exec A
on_failure h m s = let (r, s') = m s in recover h r s'
