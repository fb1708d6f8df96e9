-- ===== src/Restore/Verdict.antt =====
-- What the theorems about a restore say of the old data, of the replicas and of the connection:
-- conditions on the state of a run, over the server as it stood before it.
use matrixctrl.Common.{ℕ, String, ◌≡◌, ◌⊎◌, Bool, true, false, none, some, List, [], ◌∷◌, length}
use matrixctrl.Restore.Ports.{
  Call, merge_kept, truncate_all, load_csv, set_sequences, Trace, Failure, port, schema_not_built,
  not_what_was_written, stop_blocked, drop_blocked, rename_blocked, not_restarted, not_started,
  not_disconnected, not_stopped, replicas_unknown, aside_taken, State,
}
use matrixctrl.Restore.Server.{original, fresh, Server, after}

-- The calls that write rows or counters into a database.
abbrev pub writes : Call → Bool
writes truncate_all = true
writes (load_csv t) = true
writes (set_sequences qs) = true
writes merge_kept = true
writes _ = false

-- The server in a state of the run, from how it stood before.
abbrev pub now : Server → State → Server
now v₀ s = after v₀ s.trace

module _ (v₀ : Server) (database aside : String) where
  -- Where a write may happen: the service is scaled to 0, the connection is to the new database,
  -- and the old data is under the other name.
  pub record IsSafe (v : Server) : Type 0 where
    pub stopped : v.scaled ≡ 0
    pub connected : v.sink ≡ some database
    pub put_aside : v.holds aside ≡ some original

  abbrev pub SafeCall : Bool → Server → Type 0
  SafeCall true v = IsSafe v
  SafeCall false v = Unit

  -- Every write of the run, accepted or not, happened where it may.
  abbrev pub WritesSafely : Trace → Type 0
  WritesSafely [] = Unit
  WritesSafely (e ∷ t) = SafeCall (writes e.call) (after v₀ t) × WritesSafely t

  -- The old data has its name, and the result names no other place.
  pub record IsBack (s : State) : Type 0 where
    pub in_place : (now v₀ s).holds database ≡ some original
    pub unnamed : s.result.previous ≡ none
    pub safely : WritesSafely s.trace

  -- The old data is under the other name, and the result says so.
  pub record IsAside (s : State) : Type 0 where
    pub put_aside : (now v₀ s).holds aside ≡ some original
    pub named : s.result.previous ≡ some aside
    pub safely : WritesSafely s.trace

  -- The old data is kept in one of the two places, the one that the result names.
  abbrev pub IsKept : State → Type 0
  IsKept s = IsBack s ⊎ IsAside s

  -- The new database holds the rows of the tables `ts`, and the counts agree.
  pub record IsFilled (ts : List String) (s : State) : Type 0 where
    pub old : IsAside s
    pub new : (now v₀ s).holds database ≡ some (fresh ts)
    pub counted : s.result.tables ≡ length ts

  -- What each error of the part that can be rolled back says of the state; the errors of the
  -- preparation do not come from there.
  abbrev pub Verdict : ℕ → Failure → State → Type 0
  Verdict want (stop_blocked cause e) s = IsAside s
  Verdict want (drop_blocked cause e) s = IsAside s × ((now v₀ s).scaled ≡ 0)
  Verdict want (rename_blocked cause e) s = IsAside s × ((now v₀ s).scaled ≡ 0)
  Verdict want (not_restarted cause e) s =
      IsBack s × (((now v₀ s).scaled ≡ 0) ⊎ ((now v₀ s).scaled ≡ want))
  Verdict want (not_started e) s = IsAside s
  Verdict want (aside_taken n) s = ⊥
  Verdict want (replicas_unknown e) s = ⊥
  Verdict want (not_stopped e) s = ⊥
  Verdict want (not_disconnected e) s = ⊥
  Verdict want _ s = IsBack s × ((now v₀ s).scaled ≡ want)

-- The errors that lead to a rollback.
abbrev pub is_cause : Failure → Bool
is_cause (port f) = true
is_cause (schema_not_built e) = true
is_cause (not_what_was_written bad) = true
is_cause _ = false
