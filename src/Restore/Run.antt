-- ===== src/Restore/Run.antt =====
-- `Database` of internal/restore/restore.go: one database part of an archive is put back. Its
-- closures `stop`, `start` and `rollback` are functions here, over what they capture: the part, the
-- name under which the old database is set aside, and the replicas to come back to.
--
-- What is only said to the operator (`prog.say`) changes nothing that follows and is left out.
use Prim.Native.String.{◌++◌ as append}
use matrixctrl.Common.{
  ℕ, ◌+◌, ◌%◌, ◌^◌, String, Bool, true, false, Option, none, some, List, [], ◌∷◌, ◌==◌, ltb, ◌||◌,
  has_text, insert, str_eq, if◌then◌else◌,
}
use matrixctrl.Restore.Ports.{
  Part, Sequence, Mismatch, Call, replicas, scale, wait_gone, wait_ready, exists, create, rename,
  drop, terminate, open_sink, defer_constraints, keep_target_only, truncate_all, merge_kept,
  schema_version, load_csv, set_sequences, verify, close, Fault, Failure, port, aside_taken,
  replicas_unknown, not_stopped, not_disconnected, schema_not_built, not_what_was_written,
  stop_blocked, drop_blocked, rename_blocked, not_restarted, not_started, Answers, Summary, State,
  Exec, settle, pure, raise, modify, gets, ◌>>=◌, ◌>>◌, wrap, ignore, finally, on_failure,
}

-- `BelongsToTheTarget` of internal/backup/dbrestore.go.
abbrev pub belongs_to_the_target : List String
belongs_to_the_target =
    "applied_schema_deltas" ∷ "applied_module_schemas" ∷ "schema_version" ∷ "schema_compat_version"
    ∷ "_sqlx_migrations" ∷ "queue_workers" ∷ []

-- One table of the archive, as the walk over it comes past: its name, and what
-- `backup.SchemaVersionFromCSV` reads from its rows (`none` where it fails).
pub record ArchiveTable : Type 0 where
  pub table : String
  pub version : Option ℕ

-- What the walk (`Feed`) delivers: the tables in order, and the error with which it breaks off, if
-- it does. It hands the error of a load on, as `tableFeed` does.
pub record Archive : Type 0 where
  pub tables : List ArchiveTable
  pub broken : Option Fault
  pub sequences : List Sequence

unfoldable pub aside_name : String → String → String
aside_name database stamp = append database (append "_vor_" stamp)

-- `res.Rows[table] = n; res.Tables++; res.TotalRows += n`; the sum is kept modulo 2^64.
unfoldable pub add_rows : String → ℕ → Summary → Summary
add_rows table n r = record r {
  rows = insert table n r.rows;
  tables = r.tables + 1;
  total_rows = (r.total_rows + n) % 2 ^ 64;
}

abbrev or_else : Option ℕ → ℕ → ℕ
or_else none k = k
or_else (some v) k = v

-- `archiveSchema = v`, where the table is the one with the version and it could be read.
unfoldable pub note_version : ArchiveTable → ℕ → ℕ
note_version t archive_schema =
    if str_eq t.table "schema_version" then or_else t.version archive_schema else archive_schema

unfoldable pub break_off : Option Fault → Exec (Unit {0})
break_off none = pure tt
break_off (some f) = raise (port f)

unfoldable pub check_rows : List Mismatch → Exec (Unit {0})
check_rows [] = pure tt
check_rows (m ∷ bad) = raise (not_what_was_written (m ∷ bad))

-- `want = 1` where the service was down already.
unfoldable pub wanted : ℕ → ℕ
wanted n = if n == 0 then 1 else n

module _ (answers : Answers) where
  unfoldable pub perform : Call → Exec (Unit {0})
  perform c s = settle c (answers.act s.trace c) s

  unfoldable pub ask : Call → Exec Bool
  ask c s = settle c (answers.test s.trace c) s

  unfoldable pub count : Call → Exec ℕ
  count c s = settle c (answers.number s.trace c) s

  unfoldable pub ask_sequences : Call → Exec (ℕ × List String)
  ask_sequences c s = settle c (answers.sequences s.trace c) s

  unfoldable pub ask_mismatches : Call → Exec (List Mismatch)
  ask_mismatches c s = settle c (answers.mismatches s.trace c) s

  module _ (p : Part) where
    unfoldable pub stop : Exec (Unit {0})
    stop = do perform (scale p.workload 0); perform (wait_gone p.workload.selector)

    unfoldable pub start : ℕ → Exec (Unit {0})
    start n = do perform (scale p.workload n); perform (wait_ready p.workload)

    module _ (aside : String) where
      unfoldable pub put_back : Failure → Option String → Exec (Unit {0})
      put_back cause none = pure tt
      put_back cause (some _) = do
        wrap (rename_blocked cause) (perform (rename aside p.database))
        modify (λ r. record r { previous = none })

      unfoldable pub rollback : {A : Type 0} → ℕ → Failure → Exec A
      rollback want cause = do
        wrap (stop_blocked cause) stop
        ignore (perform (terminate p.database))
        wrap (drop_blocked cause) (perform (drop p.database))
        previous ← gets (λ r. r.previous)
        put_back cause previous
        wrap (not_restarted cause) (start want)
        raise cause

      -- The old database is renamed, if there is one; if that fails, nothing has changed yet.
      unfoldable pub set_aside : Bool → ℕ → Exec (Unit {0})
      set_aside false want = pure tt
      set_aside true want = do
        on_failure (λ cause. do ignore (start want); raise cause)
            (perform (rename p.database aside))
        modify (λ r. record r { previous = some aside })

      -- From the empty database to the connection that fills it.
      unfoldable pub build : ℕ → Exec (Unit {0})
      build want = do
        perform (create p.database p.owner)
        wrap schema_not_built (start want)
        stop
        perform (terminate p.database)
        perform (open_sink p.database)

    -- The function that the walk calls for each table, over `archiveSchema`.
    unfoldable pub load : ArchiveTable → ℕ → Exec ℕ
    load t archive_schema =
        if has_text t.table belongs_to_the_target
        then pure (note_version t archive_schema)
        else (do n ← count (load_csv t.table); modify (add_rows t.table n); pure archive_schema)

    unfoldable pub feed : List ArchiveTable → ℕ → Exec ℕ
    feed [] archive_schema = pure archive_schema
    feed (t ∷ ts) archive_schema = do v ← load t archive_schema; feed ts v

    -- The `switch` on the two schema versions.
    unfoldable pub keep_background_work : ℕ → ℕ → Exec (Unit {0})
    keep_background_work target_schema archive_schema =
        if target_schema == 0 || archive_schema == 0
        then pure tt
        else if ltb archive_schema target_schema
        then (do count merge_kept; pure tt)
        else pure tt

    -- From the connection to the last check: rows, counters, the count, the background work.
    unfoldable pub fill : Archive → Exec (Unit {0})
    fill archive = do
      perform defer_constraints
      perform keep_target_only
      count truncate_all
      archive_schema ← feed archive.tables 0
      break_off archive.broken
      (n, skipped) ← ask_sequences (set_sequences archive.sequences)
      modify (λ r. record r { sequences = n; skipped_seqs = skipped })
      rows ← gets (λ r. r.rows)
      bad ← ask_mismatches (verify rows)
      modify (λ r. record r { mismatches = bad })
      check_rows bad
      target_schema ← count schema_version
      keep_background_work target_schema archive_schema

    module _ (stamp : String) where
      -- All after the old database was set aside. A failure to build or to fill is rolled back; the
      -- connection is closed at the end of the function too (`defer`).
      unfoldable pub replace : Archive → ℕ → Exec (Unit {0})
      replace archive want =
          let aside = aside_name p.database stamp in
          do
            on_failure (rollback aside want) (build aside want)
            finally (ignore (perform close)) do
              on_failure (rollback aside want) (fill archive)
              ignore (perform close)
              wrap not_started (start want)

      unfoldable pub refuse_taken : Bool → Exec (Unit {0})
      refuse_taken false = pure tt
      refuse_taken true = raise (aside_taken (aside_name p.database stamp))

      unfoldable pub database : Archive → Exec (Unit {0})
      database archive = do
        taken ← ask (exists (aside_name p.database stamp))
        refuse_taken taken
        n ← wrap replicas_unknown (count (replicas p.workload))
        wrap not_stopped stop
        wrap not_disconnected (perform (terminate p.database))
        existed ← ask (exists p.database)
        set_aside (aside_name p.database stamp) existed (wanted n)
        replace archive (wanted n)

-- The state in which a restore begins: nothing has been called.
abbrev pub begin : String → State
begin database = record {
  result = record {
    database = database;
    previous = none;
    rows = [];
    tables = 0;
    total_rows = 0;
    sequences = 0;
    skipped_seqs = [];
    mismatches = [];
  };
  trace = [];
}
