-- ===== src/Lib.antt =====
-- MatrixCtrl, an admin layer for self-hosted Matrix deployments: the core logic of its Go packages.
--
-- The program's packages under internal/ are independent of one another where their logic is
-- concerned: each decides something from what it is given (the cluster's state, an archive, rows of
-- a table) and is wired to Kubernetes, Postgres and Helm by the handlers. The development follows
-- that division; a module has the name of the package or of the file that it models.
--
-- - Restore (internal/restore/restore.go, with internal/backup/dbrestore.go and the table feed of
--   internal/api/handlers/restore_full.go): `Database` and its closures as actions on the result and
--   the trace of calls. Ports has the interfaces Cluster, Postgres and Sink as calls, whose answers are
--   arbitrary functions of the trace; Run has the function; Server is what the calls do to a server
--   where they succeed; Triple, Verdict, Rollback, Filling, Outcome and Database reason about a run
--   in which any call may fail, Healthy about one in which none does.
-- - Auth.Throttle (internal/auth/throttle.go): `Check`, `Failed` and `Succeeded` over the table
--   login_attempts as a map. Auth.Tickets (internal/auth/wsticket.go): `Issue` and `Redeem` over a map; clock
--   and random source are arguments. Auth.Retry (internal/auth/oidcretry.go): `RetryOIDC` as a loop over the list of what
--   each round's calls answer.
-- - Rollout (internal/rollout/rollout.go): Pods has `Assess`, Text `Describe` and what it shortens
--   texts with, Progress `BuildProgress`. Texts are lists of bytes.
-- - HostPort (internal/k8s/hostport.go): Unblock has `hostPortVictims` and `UnblockHostPortRollouts`.
-- - Capacity (internal/capacity/capacity.go and `EffectiveRequest` of internal/k8s/schedulable.go):
--   Request, Manifest (`podSpecs`) and Check (`Check`, `Blocking`).
-- - Drift (internal/drift): Check has `Check` of drift.go, Differing and Reported the paths that it
--   reports; Chart has chartmatch.go, Lookup and PlainKeys are about its `valueAt`; Fields and Manual
--   have manual.go, Listed is about its report; Marking has `manualEdits` and `markChartMatches` of
--   internal/api/handlers/drift.go, Marked is about the marks; HookCover has hookcover.go, Covered and
--   Skipped are about what the engine of Hooks does with its answer.
-- - Hooks (internal/hooks/engine.go, types.go): Engine has `RunTrigger` and `runHook` over a state of
--   any type, Coverage what a patch sets (coverage.go).
-- - ImagePin (internal/imagepin/imagepin.go): Tags has `isOlder` and how it reads a tag, Report
--   `Compare`, `ExtractTags`, `Orphaned` and `Describe`; Order and Apart are about them.
-- - Helm (internal/helm): Probe has `probeNewestRelease` of release_read.go, Release `GetRelease` with the
--   memo of cache.go; Fresh is about readings over a cluster that changes between them, Newest about
--   the revision that is picked.
-- - Rtc (internal/rtc/callpath.go): CallPath has `TURNFromConfig` and the level of `AssessCallPaths`.
-- - NodeHist (internal/nodehist/nodehist.go): `DetectCapacityChanges`.
-- - Tasks (internal/tasks/tasks.go): Fields has the types and `Read`, Checks `validate`, Edits `Write`,
--   Catalogue `Cards`. Blocks, Placed, Single, Shown, ReadBack and Frame are about what `Read`
--   shows once a plan of `Write` is carried out on the settings as one map, which Config.Sections does.
-- - Config (internal/config): Merge has `MergeToMap` (merge.go), Nodes the edits of YAML documents
--   (yamledit.go), Comments `keepComments` (keepcomments.go), Store the section files (store.go and
--   `SetSectionValues` of sections.go), Migrate `BuildSectionFiles` (migrate.go). The map that a document
--   stands for is Nodes.Plain's `plain`.
-- - Common: lists, maps, bytes, dotted paths, Go's `any` as a tree with `get`, `set` and `del`, and the
--   stable sort that the others share.
--
-- One function has a bound on its calls: `valueAt` of chartmatch.go is called once for each run of the
-- path's segments, and the bound is their number. Otherwise every loop runs over a list that the
-- source ranges over, and the retry, which has no end of its own, over the rounds that happen. Integers are natural numbers where the source's
-- are never negative; where a difference may be below 0, a comment says what stands for it. Counts and
-- sums of requests are not bounded here; the source's int64 agree with them below 2^63.
-- Shifts of int64 are bounded by the caps of the source. A map that Go reads in no particular order is
-- read in the order of its entries.
--
-- Parameters stand for code outside the repository: what the YAML and JSON libraries
-- decode and encode, jsonpatch, Kubernetes quantities, the line comparison of diffmatchpatch, fmt.Sprint,
-- strings.TrimSpace, decimals, the sort.Slice of the hooks, the clock, random ids, the cluster, the database. Logging, contexts and
-- their cancellation other than as an answer, and most of the German texts that are only shown are
-- left out. The handlers, the SQL, the network probes and the web frontend are not
-- modelled: they are calls of libraries with little logic between. Of config, CommentOut,
-- ExtractComments and the steps around BuildSectionFiles are left, and of helm the history and the
-- calls of the library; the packages backup and synmetrics have logic that is not modelled here.
pub mod Common
pub mod Restore
pub mod Auth
pub mod Rollout
pub mod HostPort
pub mod Capacity
pub mod Hooks
pub mod Rtc
pub mod NodeHist
pub mod Config
pub mod Tasks
pub mod Drift
pub mod ImagePin
pub mod Helm
