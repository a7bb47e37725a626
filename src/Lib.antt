-- ===== src/Lib.antt =====
-- The API server of the social-media fleet (apps/api, Go). Workers in containers run browser actions
-- for accounts; the server packs accounts into containers, keeps the containers as their rows want
-- them, claims due actions, hands them to the workers, and records the verdicts that come back.
--
-- How the parts interact. The scheduler claims a job and publishes it for the worker of its account.
-- The worker answers by callbacks, whose verdict goes to the log, to the job (finished, or back into
-- the queue) and to the health of the account, which may take the account out of the pool. The
-- packer puts accounts into containers and creates container rows; the reconciler makes the platform
-- follow the rows; the sweeper removes what has no row. Operators create, pause, resume and remove
-- accounts and containers, and queue actions; a container that boots claims a row; a second
-- scheduler runs the scrape jobs.
--
-- The files, and the code under apps/api/internal that each is about:
--   Domain, Domain/*: domain/account.go, action.go, worker.go, scrape.go, platform.go, role.go, and
--     domain/classify.go (ClassifyActionError); Domain/Location: domain/location.go (FindCity).
--   Truncate: truncateErr of service/scrape_scheduler.go.
--   Health: service/health_score.go (ApplyVerdict, ShouldQuarantine, IsTerminal, IsFlapping).
--   Store, Store/Jobs, Store/Accounts, Store/Workers: repository/action.go, account.go, worker.go and
--     convert.go with their queries and the constraints of the migrations.
--   Callback, Callback/AttemptId: service/job.go (RecordAttempt, applyVerdict, parseAttemptID) and
--     service/health_score_wire.go (applyHealth).
--   Scheduler, Scheduler/Dispatch: service/action_scheduler.go (Tick, claimAny, dispatchOne).
--   Novnc: service/novnc_allocator.go (Allocate, pick, UsedPorts).
--   Packer: service/packer.go (Pack, PackInto, Release, ReapEmpty).
--   Reconciler: service/reconciler.go (diff, reconcileOne, ReconcileAll).
--   Heartbeats: service/job.go (RecordHeartbeat, resolveWorker, heartbeatStatus).
--   Store/Users, Users, Users/Creation: repository/auth.go and service/user.go (Update, Remove; Create,
--     List).
--   Login, Login/Tokens: service/auth.go (the limiter; Login, Refresh, Logout).
--   Sweeper: service/orphan_sweeper.go (Sweep).
--   Accounts, Accounts/Lifecycle, Auth, Import, Exports, Regions: service/account.go (Create; Pause,
--     Resume, Remove; Login, SubmitInput, ImportSession; Import and its limiter; ExportSession and
--     DeliverExportedSession; AccountsByRegion). Store/Accounts/Creation: Create and List of
--     repository/account.go.
--   Containers: service/container.go (Create, Delete, OpenBrowser).
--   Store/Workers/Claiming, Heartbeats/Claims: Claim of repository/worker.go and of service/job.go.
--   Callback/Login: service/job.go (RecordAuthOutcome).
--   Queueing, Queueing/Rollup, Store/Queued: service/action.go (Enqueue, GetBatchStatus) with the
--     statements of repository/action.go and scrape.go that they use.
--   Domain/Template, Templates: domain/template.go and service/template.go (Validate, Render, Pick).
--   Generating: service/comment_generate.go (Generate). Alerts: service/alert_engine.go (Evaluate).
--   Scraping, Store/Scrapes: service/scrape_scheduler.go (tick, claimAny, runOne) and the statements
--     of repository/scrape.go that it uses.
--   Parsing, Ingesting, Store/Posts, Domain/Content, Domain/Datasets: service/scrape_ingestor.go
--     (parseItems; IngestRun) with the statements of repository/scrape.go on posts, comments, samples,
--     runs and payloads.
--   Searching, Store/Keywords, Domain/Searches: service/scrape_keyword.go (CreateBatch, processBatch) and
--     repository/keyword_batch.go.
--   Prelude, Prelude/*: shared helpers; Examples, Examples/*: the statements on sample rows.
--
-- State. The database is one value, Db, with the tables as lists; an operation is a function on it
-- that returns a result and the next Db. Db.faults says of each store call in turn whether it fails,
-- so a statement about every Db covers every pattern of failures. An id is a number, 0 for the empty
-- string; a time is a number of nanoseconds; a score is an integer. What lies outside the repository
-- or behind a port (the gates, the transport, the platform driver, the sealer, the scrape runner, random
-- names and draws, ids of the database, formatting, parsing of URLs and patterns) is a function that
-- the definitions take, on a state of its own.
--
-- Bounds. The loops run over lists or over a counter that the code itself bounds (the tick's budget,
-- the three tries of a name, the range of ports), so no fuel is added. A page limit of 0 or over 200
-- is 100. A failure is rescheduled only below the third attempt, so the shift of the backoff stays
-- far inside 64 bits.
--
-- Not modelled: cancellation by a context, logging and metrics, other sessions between the statements
-- of one operation, coordinates and ciphertexts, times before 1970 and durations below 0, a character
-- that the cut of an error text splits; the HTTP layer, the generated queries and types, the
-- drivers and adapters of third-party services, scraping on demand, analytics, reports,
-- and the web dashboard and the browser worker, which are not in Go.
pub mod Prelude
pub mod Domain
pub mod Truncate
pub mod Store
pub mod Health
pub mod Callback
pub mod Scheduler
pub mod Novnc
pub mod Packer
pub mod Reconciler
pub mod Sweeper
pub mod Users
pub mod Login
pub mod Heartbeats
pub mod Accounts
pub mod Templates
pub mod Scraping
pub mod Parsing
pub mod Ingesting
pub mod Searching
pub mod Containers
pub mod Queueing
pub mod Alerts
pub mod Generating
mod Examples
