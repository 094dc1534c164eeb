-- ===== src/Lib.antt =====
-- hookman, a service that accepts events over HTTP and delivers them as signed webhooks.
--
-- The program's parts: cmd/hookman starts an HTTP server (internal/api), a poller and a pool of
-- workers (internal/worker) over one PostgreSQL database (internal/store). A client posts an event;
-- the poller takes the pending events in batches, finds the endpoints subscribed to the event's
-- topic and sends a job for each to the workers; a worker signs and posts the payload
-- (internal/delivery), records the attempt and sets the event's status; the poller also sends a job
-- again for each failed attempt whose time has come. After the last attempt an event is dead, and
-- the API replays or purges dead events.
--
-- Config is internal/config/config.go: `load` is Load, `get_env_int` getEnvInt and so on. Id is
-- internal/id/id.go, Metrics internal/metrics/metrics.go.
--
-- Delivery: Sign is internal/delivery/sign.go (`sign`, `verify`), Retry is retry.go
-- (`next_retry_delay`, `next_retry_at`), Deliver is deliver.go (`deliver`, whose early returns are
-- `give_up` and whose end is `conclude`).
--
-- Store: Models are the rows of internal/store/queries/models.go and the tables `Db`; Queries has a
-- function for each statement of internal/store/queries/events.sql.go, endpoints.sql.go and
-- delivery_attempts.sql.go, with the keys and foreign keys of migrations/; Sql has the clauses that
-- they use; Postgres is internal/store/postgres.go, each method one `run` of a statement;
-- Interfaces is interfaces.go, the operations as records that `new_postgres_store` fills. Integrity
-- names the constraints and the lawful writes.
--
-- World is what an operation reads and changes: tables, clock, random draws, metrics, and `faults`,
-- which says of each coming call of the database whether it is served, lost or refused before its
-- statement runs (so is one with a text that the server does not store), or lost after it.
--
-- Worker: Pool is internal/worker/pool.go (`process_job`, `worker`, `new_pool`), Poller is
-- poller.go (`poll_pending_events`, `poll_retryable_attempts`, `start`). The jobs channel is the
-- list of jobs sent; `sends_left` is the number of sends before the context is cancelled.
-- Lifecycle, Attempts, Poller.Once and Poller.Lost are about rounds and jobs that follow each
-- other.
--
-- Api: Events, DeadLetter, Endpoints and Stats are the files of the same names in internal/api,
-- with health.go in Stats; a handler is a chain of steps (Flow) each of which may answer the
-- request. Middleware is middleware.go, RateLimit ratelimit.go, Server server.go (`serve`,
-- `serve_api`, `handler_of`).
--
-- Dashboard is internal/dashboard/dashboard.go: a handler gives a page, the name of its template
-- with the data; Routes is RegisterRoutes (`visit`).
--
-- Command is cmd/hookman/main.go: `main`, `run_serve` up to the line "hookman ready" (the poller's
-- time.NewTicker, which panics at an interval that is not positive, is in its own goroutine and a
-- move of Command.Serving), `run_migrate`, `setup_logger`. Command.Serving is the process after
-- that line: the main goroutine's phases, the server, the poller and the workers, as the step
-- relation `Move`. Worker.Pool.Goroutines is the part of it that pool.go starts and stops
-- (`start_workers`, `turn`, `close_jobs`).
--
-- System joins server, dashboard, poller and workers in whole steps: `Reachable` holds of every
-- state that they lead to from empty tables. Examples has runs on concrete inputs.
--
-- Conventions. A pgtype value with a Valid flag is an Option. Times and durations are natural
-- numbers of nanoseconds, durations of the configuration are signed. An int is an integer ℤ; the
-- conversions to int32 wrap around (`to_int32`). Bodies of answers are bytes. Texts are compared by
-- code points. Rows that an ORDER BY does not tell apart keep their order in the table. JSONB keeps
-- the text that was written. Loops run over lists, so no fuel is needed: `worker` runs over the
-- jobs received, `start` over the ticks. Itoa divides by ten on fuel, one more than the number:
-- each division makes a positive number smaller.
--
-- Parameters: HMAC-SHA256, the ulid library, crypto/rand, url.ParseRequestURI, which response
-- bodies the server stores as TEXT, what the driver makes of a slice passed for a text, net/http's
-- client, golang.org/x/time/rate, time.ParseDuration, whether pgxpool and golang-migrate succeed,
-- and for which channels the runtime has room.
--
-- Interleavings. Store.Interfaces.Lawful.Session is any order of single calls of the store, whoever
-- makes them; Writes is any sequence of successful statements; Reachable takes whole requests, runs
-- of the poller and runs of a worker as its steps. In Command.Serving one request and one delivery
-- is one step; of a round of the poller each read of a batch is one step, so are the calls for one
-- event and for one attempt, and each send is one; a worker's receive, its test of the context and
-- its delivery are three steps, and the scheduler chooses among all goroutines.
--
-- Not modelled: the templates of the dashboard, the matching of paths by chi, JSON encoding and
-- decoding, time formatting (a `Stamp` is symbolic), logging, Prometheus's registration, the timing
-- of ConstantTimeCompare.
pub mod Common
pub mod Config
pub mod Id
pub mod Metrics
pub mod Delivery
pub mod World
pub mod Store
pub mod Worker
pub mod Api
pub mod Dashboard
pub mod System
pub mod Command
pub mod Examples
