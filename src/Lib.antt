-- ===== src/Lib.antt =====
-- Asika, a daemon that reviews, queues and merges pull requests on several platforms. Modelled are
-- its merge queue with the serial validation and the pending pull requests, its automatic merge, its
-- labels, its check for stale pull requests, the workflow mode, tokens and sessions, the cache and
-- the order of releases, with the parts of common that they rest on.
--
-- How the parts interact: the manager (daemon/queue/manager.go) keeps items in a bucket of the
-- database, under the key "group#id". `CheckQueue` scans the bucket, asks the checker
-- (daemon/queue/checker.go) about each item that is due, and merges by the client of the platform
-- what the checker lets through. The checker reads the pull request from the database, asks the
-- client for approvals, CI, diffs and alerts, and evaluates the merge condition of the group
-- (daemon/queue/expr.go). The pending queue (daemon/queue/pending.go) asks the checker too, and hands
-- a pull request that is ready to the manager. The serial worker (daemon/queue/serial_worker.go)
-- writes an item whose rebase and CI went through into the bucket of the manager. The automatic merge
-- and the check for stale pull requests go through the platforms of each group by themselves; the
-- labeler runs when a pull request is opened.
--
-- Files:
--   Prelude      library names, Boolean tests, lists, texts as lists of bytes, errors, integers.
--   Models       the records of common/models. A time is a number of nanoseconds.
--   Config       common/config/config.go: `GetRepoGroupByName`, `GetRepoGroups`,
--                `GetOwnerRepoFromGroup`, `GetPlatformForGroup`, and `GroupPlatforms` of
--                common/platforms/helpers.go.
--   Db           common/db/bbolt_core.go: a bucket is a list of entries; Db/Laws has its
--                laws, and Db/SyncLock is `AcquireSyncLock` and `ReleaseSyncLock`.
--   Queue/Expr   daemon/queue/expr.go: `Eval`, `evalExpr`, `findOperator`, `resolve`, `compare`.
--   Queue/World  the parameters of the daemon: clients, git, path.Match, regexp, the clock, the
--                errors of the database.
--   Queue/Check  the state and error monad of the checker, with its laws in Queue/Check/Keeps and
--                Queue/Check/Invert.
--   Queue/Checker  daemon/queue/checker.go: Ready is `IsReadyToMerge`, Merge is `ShouldMerge`, and
--                Approvals, Paths, Pattern, Checklist, Gates and Verdict are the checks they call.
--   Queue/Store  `PutPRWithIndex` and `GetPRByIndex` of common/db/bbolt_core.go, `getPRFromDB`,
--                `FindPRByID`, and the state of the queue; Store/Index has its laws, Store/Missing and
--                Store/Again what the lookups of the checker and of the merge find.
--   Queue/Manager  daemon/queue/manager.go: Admit has `AddToQueueScheduled`, `RemoveFromQueue` and
--                `ClearQueue`, Cycle is `CheckQueue`, Merge is `merge`, Method is
--                `selectMergeMethod`, Recover is `Recover`, Listing is `GetQueueItems`, Run
--                sequences of operations.
--   Queue/Serial  daemon/queue/serial_worker.go: one handler for each validation state. Moves is the
--                state machine, Machine and Tick relate the handlers and a tick to it.
--   Queue/Pending  daemon/queue/pending.go with the bucket of common/db/bbolt_notifications.go.
--   Queue/Samples  one small world, which the Tests modules run.
--   AutoMerge    daemon/automerge/evaluator.go: `EvaluateAll`, `EvaluatePR`, `matchesRule`, `mergePR`.
--   Labeler      daemon/labeler/labeler.go; Labeler/Patterns is the cache of compiled patterns.
--   Stale        daemon/stale/stale.go: the decision and the two actions; Stale/Check has the loops
--                and the dry run, Stale/Requests what they ask of the platforms.
--   Workflow     daemon/workflow: Expression and Context are evaluator.go, Settings is config.go,
--                Executor is executor.go and the order of the parts in workflow.go.
--   Auth         common/auth/auth.go, with `Logout` of daemon/handlers/auth.go and the check of
--                sessions in daemon/server/middleware.go.
--   Owners       daemon/reviewer/codeowners.go: ParseCodeOwners, Match, MatchFiles.
--   Cache        common/cache/cache.go.
--   Version      common/version/compare.go.
--
-- State is passed explicitly. A world holds the answers of the outside; the loops over items take a
-- world for each round, so that answers change between items. A Go error is a value, and a run-time
-- panic is a result of its own. The recursion of `evalExpr` and of `evaluateExpression` takes fuel,
-- the length of the text plus one; every recursive call is on a shorter text. The retry loop of
-- `fetchApprovals` has three rounds. Where Go lists a map or sorts without stability, the order is a
-- parameter. A read of the pull requests, a write or a delete fails where the world says
-- so; reads of the queue and of the pending entries do not fail.
--
-- Not modelled: logging, tickers, time-outs of contexts, the parsing of stored JSON (an entry that
-- does not parse is `none`), the clients of the platforms and of other services, the HTTP handlers but
-- for logout, the chat commands, the synchronisation of platforms, the consumer of events, the other
-- databases, the command line. float64 and its texts, golang-jwt, SHA-256, text/template, path.Match
-- and regexp are parameters. The lock of `CheckQueue` is a flag, and other operations do not run within
-- a pass.
pub mod Prelude
pub mod Models
pub mod Config
pub mod Db
pub mod Queue
pub mod AutoMerge
pub mod Labeler
pub mod Stale
pub mod Workflow
pub mod Auth
pub mod Owners
pub mod Cache
pub mod Version
