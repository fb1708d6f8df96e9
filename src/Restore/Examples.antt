-- ===== src/Restore/Examples.antt =====
-- A restore of Synapse's database on a small server, with ports that answer as the server stands.
use matrixctrl.Common.{
  ℕ, ◌≡◌, refl, Bool, false, none, some, List, [], ◌∷◌, insert, str_eq, if◌then◌else◌, arith,
}
use matrixctrl.Restore.Ports.{
  Part, Mismatch, Call, exists, replicas, not_what_was_written, Reply, gives, Trace, Answers, ok,
  err, pure, raise, modify, gets, wrap, ignore, finally, on_failure, ◌>>=◌,
}
use matrixctrl.Restore.Run.{
  Archive, aside_name, wanted, rollback, database, begin, replace, build, fill, feed, load,
  note_version, add_rows, break_off, check_rows, keep_background_work, set_aside, put_back,
  refuse_taken, start, stop, perform, ask, count, ask_sequences, ask_mismatches,
}
use matrixctrl.Restore.Server.{original, Server, after, is_some}
use matrixctrl.Restore.Triple.{Outcome}
use matrixctrl.Restore.Outcome.{IsComplete}
use matrixctrl.Restore.Database.{IsTruthful, Failed, database-IsComplete_or_Failed}
use matrixctrl.Restore.Healthy.{IsHealthy, database-ok}

abbrev synapse : Part
synapse = record {
  prefix = "homeserver/";
  database = "synapse";
  owner = "synapse_user";
  workload = record { kind = "statefulset"; name = "ess-synapse-main"; selector = "app=synapse" };
}

abbrev archive : Archive
archive = record {
  tables =
      record { table = "events"; version = none }
      ∷ record { table = "schema_version"; version = some 88 }
      ∷ record { table = "rooms"; version = none }
      ∷ [];
  broken = none;
  sequences = [];
}

abbrev server : Server
server = record {
  holds = λ n. if str_eq n "synapse" then some original else none;
  scaled = 1;
  sink = none;
}

abbrev answer_test : Trace → Call → Reply Bool
answer_test t (exists n) = gives (is_some ((after server t).holds n))
answer_test t _ = gives false

abbrev answer_number : Trace → Call → Reply ℕ
answer_number t (replicas w) = gives (after server t).scaled
answer_number t _ = gives 5

-- The ports of the server; `bad` is what the count at the end finds.
abbrev ports : List Mismatch → Answers
ports bad = record {
  act = λ t c. gives tt;
  test = answer_test;
  number = answer_number;
  sequences = λ t c. gives (0, []);
  mismatches = λ t c. gives bad;
}

IsTruthful-ports : (bad : List Mismatch) → IsTruthful (ports bad) server
IsTruthful-ports bad = record {
  tells_exists = λ t n b e. ground arith;
  tells_replicas = λ t p n e. ground arith;
}

abbrev one_row_short : List Mismatch
one_row_short = record { table = "events"; expected = 5; found = 4 } ∷ []

-- The count fails, and the restore is undone.
undone :
    (database (ports one_row_short) synapse "2026_08_01_1200" archive (begin "synapse")).0
    ≡ err (not_what_was_written one_row_short)
unfolding database replace build fill feed load note_version add_rows break_off check_rows
    keep_background_work set_aside put_back rollback refuse_taken start stop perform ask count
    ask_sequences ask_mismatches wanted aside_name insert pure raise modify gets wrap ignore finally
    on_failure ◌>>=◌
undone = refl

database-IsComplete_or_Failed_example :
    Outcome
      (λ _ s.
        IsComplete (ports one_row_short) server synapse "2026_08_01_1200" archive (wanted 1) s)
      (Failed server synapse "2026_08_01_1200")
      (database (ports one_row_short) synapse "2026_08_01_1200" archive (begin "synapse")).0
      (database (ports one_row_short) synapse "2026_08_01_1200" archive (begin "synapse")).1
database-IsComplete_or_Failed_example =
    database-IsComplete_or_Failed (ports one_row_short) server synapse "2026_08_01_1200" archive
      (IsTruthful-ports one_row_short) refl

ports-IsHealthy : IsHealthy (ports []) (aside_name "synapse" "2026_08_01_1200")
unfolding aside_name
ports-IsHealthy = record {
  acts = λ t c. refl;
  free = refl;
  tests = λ t c. answers_test t c;
  numbers = λ t c. answers_number t c;
  counters = λ t c. ((0, []), refl);
  agreed = λ t c. refl;
}
  where
    answers_test : (t : Trace) (c : Call) → (b : Bool) × (answer_test t c ≡ gives b)
    answers_test t (exists n) = (is_some ((after server t).holds n), refl)
    answers_test t _ = (false, refl)

    answers_number : (t : Trace) (c : Call) → (n : ℕ) × (answer_number t c ≡ gives n)
    answers_number t (replicas w) = ((after server t).scaled, refl)
    answers_number t _ = (5, refl)

database-ok_example :
    (database (ports []) synapse "2026_08_01_1200" archive (begin "synapse")).0 ≡ ok tt
database-ok_example = database-ok (ports []) synapse "2026_08_01_1200" archive ports-IsHealthy refl
