-- ===== src/Lib.antt =====
-- AxiaOps: models of a service that finds idle cloud resources, and their theorems.
--
-- The program (Go, under services/) collects cost and usage records of cloud accounts, reports
-- the resources that cost money and are not used, and serves the reports to the members of an
-- organization. The parts modelled here and the files that model them:
--
-- - Common: texts, lists, options, maps as association lists (Common.Dict) and the interface of
--   `float64` (Common.Float), which is a parameter of every definition that computes with money.
-- - Breaker: services/shared/circuitbreaker/circuitbreaker.go. `State`, `Config`,
--   `CircuitBreaker` keep the code's fields; `admit` and `to_half_open` are the two critical
--   sections of canExecute, `record_result` the one of recordResult, `execute` the whole call. A
--   run is a list of events, one for each section that writes, so it covers every interleaving of
--   concurrent calls.
-- - ScanError: services/shared/errors/categorize.go. An error is its text and whether it is the
--   SDK's data-unavailable exception.
-- - Retry: services/shared/retry/retry.go. `retry` is Do, with the calls and waits in a log; its
--   loop is structural on the attempts left, so no fuel is needed. Whether the context ends
--   during a wait is a parameter.
-- - Authz: services/shared/authz/roles.go. `role_permissions` is the table that init builds,
--   `allows` and `permissions_of` are Allows and PermissionsOf.
-- - Membership: services/shared/storage/postgres/postgres.go (the operations on memberships, with
--   the constraints of migration 015), services/api/internal/api/memberships.go and
--   services/api/internal/middleware/authz.go. Each storage operation is a transaction from rows
--   to rows or an error; Membership.Handlers has the endpoints, `serve` their routes with the
--   permission check. What concurrent requests do is a sequence of these transactions.
-- - Cache: services/shared/cache/memory/memory.go, each operation one step under the cache's
--   lock.
-- - Session: services/shared/model/session.go and the sessions of
--   services/shared/storage/postgres/native_auth.go, with `create_session_enforcing_cap`; and
--   Session.Manager: services/api/internal/auth/session.go and session_cache.go, where validation
--   and revocation go through a cache whose operations may fail (`Faults`). SHA-256 is a
--   parameter.
-- - Jit: services/api/internal/sso/jit.go, the role that a login by SSO gives; Jit.Provision is
--   the membership that it makes or changes, on the table of Membership.
-- - RateLimit: services/api/internal/auth/ratelimit.go and services/api/internal/middleware/
--   ratelimit.go. A call of a limiter is a step on the cache of Cache; the times at which it
--   reads the clock, and the calls of the cache that fail, are fields of the request.
-- - Sso: services/api/internal/middleware/sso_enforcement.go, the refusal of password sessions.
-- - HttpAuth: services/shared/httpauth (httpauth.go, middleware.go), the signatures between
--   services. `Wire` has the parts of Go's library; the window of a timestamp is computed on an
--   int64.
-- - NativeAuth: services/shared/storage/postgres/native_auth.go, users with a password and the
--   tokens that reset it; NativeAuth.Resets has what the tokens promise, NativeAuth.Bootstrap the
--   set-up of the first owner, NativeAuth.Invitations the redemption of an invitation, on the
--   table of Membership.
-- - Login: the password login of services/api/internal/auth/handler.go, in Login.Orgs the choice
--   of an organization, the switch to another and the logout, with `LookupUserByEmail` and
--   `ListUserMemberships` of services/shared/storage/postgres. Whether each query works is a
--   field of the draw; the rows of a user are in the order of their creation, which the queries
--   sort by.
-- - Oidc: services/api/internal/sso. The state of a ceremony (state.go), Oidc.Token the
--   validation of a token (oidc.go), Oidc.Identity the claims that are read, Oidc.Initiate and
--   Oidc.Callback the two handlers (initiate.go, oidc_callback.go). The provider and Go's library
--   are parameters; the answer of the cache to the consumption of a state may get lost.
-- - Migrations: services/shared/storage/postgres/migration_history.go. Migrations.Loop applies
--   what is pending; its fuel is one round more than there are versions. Migrations.Down steps
--   down and checks the files that were applied, Migrations.Orphans recovers the rows of wrappers
--   that died. golang-migrate is a parameter.
-- - Accounts: services/shared/storage/postgres/postgres.go, the operations on cloud accounts.
-- - Queue: services/shared/queue/redis/redis.go and the check of an envelope in
--   services/ingestion/cmd/worker.go.
-- - Worker: services/ingestion/cmd/worker.go and `runScan` of services/ingestion/cmd/main.go.
--   Worker.Jobs has the rounds of its loop, `rounds` a sequence of them.
-- - Catalog: services/shared/model (services.go, cost.go, zombie.go): known services, cost
--   records and `validate`, zombies and `build_arn`.
-- - Analyzer: services/shared/analyzer. Analyzer.Rules holds the tables of rules.go, `detect` is
--   Detect, and Analyzer.Summary has Summarize and SummarizeByAccount.
--
-- The endpoints of Membership ask Authz whether the caller's role, read from the table, allows
-- the request. The session manager keeps copies of the table's rows in a cache of Cache. The
-- retry loop decides by ScanError which errors are tried again. Analyzer works on the records of
-- Catalog and sets an ARN by `build_arn`. The limiters count in a cache of Cache; the login goes
-- through RateLimit, the users of NativeAuth, the members of Membership and the sessions of
-- Session. The callback of a login by SSO works on the tables of NativeAuth.Invitations,
-- provisions by Jit and makes a session of Session.Manager. The worker checks a job by HttpAuth,
-- runs its scan under a breaker of Breaker, and writes the statuses of Accounts.
--
-- Numbers are natural numbers: counters never go below 0 in the code and stay far below 2 ^ 63;
-- times and durations are nanoseconds. A delay from 2 ^ 63 on is whatever the platform makes of
-- it, a parameter of the retry loop. The loop of the migrations has fuel; all others are
-- structural recursions.
--
-- Not modelled: the tables of the storage but those of memberships, sessions, accounts, users,
-- resets, invitations, SSO connections and the migrations' history, HTTP decoding, the AWS SDK
-- calls of discovery, the administration of SSO connections, the notifications, prices, logging
-- and metrics, the dashboard, and deployment. They are calls of external systems, or have no
-- effect on the results stated here.
pub mod Common
pub mod Breaker
pub mod ScanError
pub mod Retry
pub mod Authz
pub mod Catalog
pub mod Analyzer
pub mod Membership
pub mod Cache
pub mod Session
pub mod Jit
pub mod RateLimit
pub mod Sso
pub mod HttpAuth
pub mod Accounts
pub mod Queue
pub mod Worker
pub mod NativeAuth
pub mod Login
pub mod Oidc
pub mod Migrations
