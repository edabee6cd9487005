-- ===== src/Lib.antt =====
-- Omniport: a multi-tenant NestJS API (PostgreSQL through Prisma, pg-boss jobs, S3 storage) whose
-- product audits web sites for AI crawlers. Paths below are from the repository's root.
--
-- The parts. The process validates its environment (src/core/config), sets its application
-- up (src/main.ts, src/core/bootstrap) and starts its jobs (src/core/jobs). A request to a guarded route is authenticated by its bearer token
-- (src/modules/auth), bound to the tenant of its user (src/core/tenancy), limited in time and
-- wrapped (src/core/common/interceptors), and what is thrown becomes a response in the filter
-- (src/core/common/filters). Its controller calls a service, which reaches the tables of tenant
-- models through a Prisma client that adds the tenant to every query
-- (src/core/prisma/tenant-scope.extension.ts). Submitting an audit creates a row and a job
-- (src/modules/geo/audits.service.ts); the worker (src/modules/geo/geo-audit.worker.ts) claims the
-- row, fetches the page through the SSRF guard (page-fetcher.ts, url-guard.ts), runs the checks
-- (src/modules/geo/checks), writes the outcome and raises a notification; a reaper fails the audits
-- that are stuck, and a purge deletes old ones.
--
-- The files.
--   Base: shared helpers. Result (a thrown error is a value), Lists (queries on rows), Keys (unique
--     columns), Within (rows apart from the others of a table), Text (strings as lists of UTF-16
--     code units), Bits, and Prisma: the generated client as a parameter, a table being the list of
--     its rows, with the documented laws of its operations.
--   Core: Config (env.validation.ts), Bootstrap (main.ts and core/bootstrap), Telemetry (otel.ts,
--     sentry.ts, the logger), Validation (the decorators, with the DTO classes in Dto), Health (the
--     two probes), Tenancy and TenantScope (the extension, and in
--     Operations the names of Prisma's operations), TenantRows (what a query through it can
--     tell of a table), Interceptors, Errors (the filter), Pipeline (the order of app.module.ts),
--     ContentDisposition, Jobs (`enqueue`, and in Lifecycle the start, the registrations and the
--     health indicators), AuditLog (`record`), Pagination (`parseSort`, and the paging that the
--     three `list` methods share).
--   Auth: State (the tables), Passwords, Tokens (token.service.ts and the daily purge), Service
--     (auth.service.ts, its sign-in with Google in Service/Google), Access (who is behind a request,
--     and the way through a guarded route), Google (the strategy and its guard), Controller
--     (auth.controller.ts), Module (auth.module.ts and the options of the strategies; Lifetime
--     follows an access token). Accounts is the invariant of the tables of accounts, Conflict a
--     registration of an email that is taken; Accepted says whom a login lets in. Login, Lockout,
--     Registration and Deletion follow an account through them. Ledger is the specification of the
--     token service: the standing of every token hash, with no table; Steps, Refines, Refresh and Runs lead
--     from one operation to whole histories.
--   Users: users.service.ts, and Controller.
--   Geo: Numeral, Address and UrlGuard (url-guard.ts), PageFetcher, PlainText (text.ts), Checks (the
--     six checks, and Report for checks/index.ts and audit-runner.ts), Audits (audits.service.ts, and
--     Controller), Worker (geo-audit.worker.ts), where Interleaving has the steps of all actors on
--     the tables (Notices counts their notifications, Tracking follows one audit) and Answered follows a submission to its outcome.
--   Notifications and Files: the services of these modules and their Controller; Files and
--     Files/Storage have integrations/storage.
--   Tests: each part has its theorems at concrete inputs; Auth/Sample, Config/Sample and
--     Pagination/Sample are the server, the environment and the database of these tests.
--
-- State is passed explicitly; the clock, new ids and random values are arguments of the operations.
-- What other requests do between two database calls of an operation is an argument of it (`others`);
-- a route runs its service without others in between. Functions have the source's names in snake
-- case. The routes of a controller are the constructors of a type of calls, and one function handles
-- them.
--
-- Bounds. The redirect loop runs on the source's own bound, `MAX_REDIRECTS` and so four hops; a
-- decimal number is printed with one more unit of fuel than its value, which is enough, as it has
-- fewer digits. A walk through pages has one step more than there are rows.
--
-- Paging. A cursor is looked up by its id in the whole table, whatever the filter; the theorems on
-- what a list route tells of others have the hypothesis that it names none of their rows.
--
-- Parameters: Prisma, argon2, SHA-256, JWT and passport, DNS, the WHATWG URL parser and
-- URLSearchParams, undici, cheerio, JSON.parse, Number, zod's parsers of one value, class-validator
-- with Nest's ValidationPipe, AsyncLocalStorage, the timeout of rxjs, terminus, the S3 client and
-- pg-boss. Texts are compared and trimmed on UTF-16 code units, and lower case is that of ASCII.
-- Not modelled: the throttler, ParseUUIDPipe, the text of the API document, Nest's wiring of
-- modules, what the SDKs of OpenTelemetry and Sentry do once started, the SQL schema beyond the
-- rows' fields, and the seed.
pub mod Base
pub mod Core
pub mod Notifications
pub mod Files
pub mod Auth
pub mod Users
pub mod Geo
