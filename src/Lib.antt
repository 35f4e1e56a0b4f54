-- ===== src/Lib.antt =====
-- restoreguard rehearses recoveries: a drill takes a backup from the object storage, restores it in
-- an isolated Docker sandbox, validates the result, keeps evidence and records the measured RPO and
-- RTO. This library models its backend, in Go under backend/, and states what it promises.
--
-- Parts. Paths are below backend/internal unless they begin with backend. The child modules of a
-- part hold its proofs, and Examples its concrete runs.
-- * Domain, domain/: the states of a drill and its transitions (Domain/Status), the measurements, the
--   policy and the assessment (Domain/Recovery).
-- * Worker, drill/worker.go: what a run reads and writes (Worker/World), early return and defer
--   (Worker/Flow), transition, recordStep, setTerminal, fail, and the cancellation in
--   database/resources.go (Worker/Database), the test of the staged backup (Worker/Backup), the
--   stages (Worker/Stages) and the run of one drill (Worker/Run).
-- * Pool, drill/worker.go: the queue and the workers that take jobs from it.
-- * Docker, drill/docker.go: the names of the resources (Docker/Names) and the commands of the
--   executor (Docker/Executor); Docker/Admission says which specifications Create takes.
-- * Storage, storage/: the keys and their paths (Storage/Keys), the objects on the disk
--   (Storage/Local) and in a bucket (Storage/S3), and the interface of object.go as requests and
--   answers (Storage/Objects).
-- * Hub, drill/hub.go; Validation, drill/validation.go; Provider, drill/local_provider.go.
-- * Accounts, database/store.go: users, roles and sessions, and the demonstration data of an
--   installation (Accounts/Bootstrap).
-- * Records, database/resources.go: assets, sources and policies (Records/Assets), pages of rows
--   (Records/Pages) and the rows of drills (Records/Drills).
-- * Access, security/rbac.go (Access/Roles) and the guard of the handlers in httpapi/middleware.go
--   (Access/Guard).
-- * Api, httpapi/: what a handler sees and answers (Api/Site), the handlers of sessions and accounts
--   (Api/Sessions), of assets, sources and policies (Api/Tenant), of drills (Api/Runs) and of the
--   views (Api/Views), and the routes with their guards (Api/Routes).
-- * Security, security/secret.go (Security/Secrets) and security/password.go (Security/Passwords).
-- * Report, report/pdf.go; Notify, notify/notifier.go.
-- * Server, platform/config.go (Server/Config) and run of backend/cmd/server/main.go (Server/Life);
--   Migrations, database/migrate.go.
-- Common holds the shared names, tests and lemmas.
--
-- How they interact. A request goes through the route table and the guard, which asks Accounts who
-- the session is and Access what its roles allow, to a handler, which calls Records and Accounts and
-- submits drills to the pool. A worker of the pool runs a drill, and calls the executor, the storage
-- and the hub; in its own model they are answers of the environment, and their own models stand
-- apart. The run of the program starts them all in order and ends them.
--
-- Correspondence. A run of a drill is a function from a World to a World. An Env says what each call
-- answers: whether it fails, whether the context is done, what the clock reads, and whether a user's
-- cancellation commits just before the row is locked. A Point names each call, so that a statement
-- for every Env covers each failure and each interleaving with users. A Create or a Put that reports an
-- error may leave its sandbox or its object, as `create_left` and `put_left` say. The row of a drill
-- has a column more than its table, `given`, which the source does not have: the statuses that the
-- row was given, in their order, which each write of a status extends. An action goes on or stops,
-- as a Go statement sequence falls through or returns; a deferred call is `finally`. A transaction
-- that does not commit writes nothing. A table of the database is the list of its rows, a statement a
-- function on it, and the failures and the generated values are parameters of each call. A handler is
-- a function from a Site, which holds the tables, the pool and the hub, to a response and a Site. The
-- Docker executor is a function from a log of commands to a longer one, and its runner answers each
-- command. The local storage is a function from a Disk, its files and directories, to a Disk, and a Local says
-- which calls of the operating system fail; the client of S3 is a parameter. The hub and the pool are run on sequences
-- of operations, since each of these holds a lock or is one use of a channel. The run of the program
-- is a list of events.
--
-- Parameters. Argon2, AES-GCM, HMAC, SHA-256, base64, the parsers of URLs, numbers and durations, the
-- resolver of names, JSON, the client of S3, and the database that the migrations change are arguments
-- of the definitions that use them, and a theorem that relies on one has a hypothesis that states what
-- it is documented to do.
--
-- Bounds. A run calls each stage once, and the loops are recursions on lists. The loop that waits for
-- a sandbox recurs on the number of sleeps before its context is done, which is arbitrary. The
-- digits of a number n are written with n + 1 as fuel, which is enough for each of them.
-- A time is a number of nanoseconds, and the difference of two times saturates as in Go. The
-- conversion of a Duration to seconds goes through floating point; it is the parameter
-- SecondsConversion, whose fields state what the conversion guarantees. The byte limit plus one is
-- an int64, and a sum that overflows reads nothing, as in the source.
--
-- Not modelled: the PostgreSQL, S3 and Docker services themselves; the encoding of requests, replies
-- and evidence as JSON, the headers of a reply and the identifiers of requests; the ticks of
-- scheduler/scheduler.go, which are SQL under a lock; platform/clock.go, which reads the clock; and
-- the frontend. A commit that reports an error is taken to have written nothing, and a panic does not
-- occur.
pub mod Access
pub mod Common
pub mod Docker
pub mod Domain
pub mod Hub
pub mod Storage
pub mod Validation
pub mod Worker
pub mod Accounts
pub mod Records
pub mod Pool
pub mod Api
pub mod Report
pub mod Server
pub mod Security
pub mod Migrations
pub mod Notify
pub mod Provider
