-- ===== src/Lib.antt =====
-- Verification of the event-driven notification system.
--
-- The program takes notifications from an HTTP API, stores them in Postgres, publishes them through
-- an outbox to RabbitMQ, and delivers them from workers to a provider over HTTP. The parts share the
-- database, and hand messages on through the broker:
--   API -> notifications + outbox (or schedule) -> dispatcher -> broker -> worker -> provider,
-- with wait queues for retries, a sweeper for rows that a worker left behind, and an admin replay.
--
-- Files, and the code they model:
--   Prelude        lists, tests and tables that the other files share
--   Domain         internal/notification/notification.go: channels, priorities, statuses
--   Topology       internal/queue/topology.go: DeclareTopology as the list of its declarations, and
--                  what a broker's routing makes of it; Topology/Routing
--   Store          internal/store/gen: the tables as lists of rows. Store/Notifications,
--                  Store/OutboxTable, Store/ScheduledTable and Store/Records have one function for
--                  each statement, with the constraints of internal/store/migrations that can
--                  refuse it; Store/Lookup says what a statement makes of one row, Store/Lifecycle
--                  has the graph of statuses and the relation between a database and a later one
--   RateLimit      internal/ratelimit/lua.go: the token-bucket script, AllowN and Allow, in whole
--                  thousandths of a token (a rate and a capacity are whole numbers, as the worker
--                  has them); theorems about single decisions ask for times and tokens at which
--                  the script's doubles are exact; RateLimit/Reservoir models internal/ratelimit/reservoir.go
--   Provider       internal/provider/httpclient.go: Send, from the outcome of the HTTP exchange on.
--                  Provider/Ssrf has denyZone and ssrfControl of internal/provider/ssrf.go
--   Worker         internal/worker/pipeline.go: Worker/Calls has the data and the outcomes of the
--                  external calls of one run, Worker/Gate the rate-limit gate of handle,
--                  Worker/Deliver its provider call and what follows, Worker/Handle the rest of
--                  handle and Handle, with the ack policy of internal/queue/consumer.go
--   Outbox         internal/outbox/dispatcher.go: tick, publishRow, markFailure
--   Producers      the shared envelope and transactions as chains of steps that may fail;
--                  Producers/Scheduler models internal/scheduler/dispatcher.go, Producers/Sweeper
--                  internal/sweeper/sending.go, Producers/Admin replay and purge of
--                  internal/api/admin.go
--   Api            internal/api/validate.go, and validateCreate and persist of
--                  internal/api/notifications.go
--   Idempotency    internal/idempotency/idempotency.go: BeginOrReplay, Finalize and Release, over Redis
--                  as a record of commands with laws
--   Ws             internal/ws/filter.go and internal/ws/hub.go: Matches, Register, Unregister, dispatch,
--                  with what the close function of a slow subscriber does as an argument; Ws/Tenants
--                  and Ws/Eviction
--   Http           internal/api/errors.go, internal/notification/errors.go: errors and problems
--   Auth           internal/api/auth.go: the key of a request, its scopes and its owner. Auth/Middleware
--                  has AuthMiddleware with internal/api/auth_cache.go, the statements on keys and
--                  revokeAPIKey of internal/api/admin.go
--   Handlers       internal/api/notifications_batch.go: get and cancel. Handlers/Batch has createBatch
--                  and getByBatch, Handlers/Create the handler create of
--                  internal/api/notifications.go, Handlers/Listing internal/api/notifications_list.go
--                  and Handlers/Templates internal/api/templates.go. Store/Batches and
--                  Store/Templates have the statements of batches.sql.go and templates.sql.go
--   System         the operations of all parts on one database, in any order; System/Journey follows
--                  one notification through persist, publishRow and Handle
--   Examples       tests
--
-- Conventions. A uuid is a number, a time a number of nanoseconds (milliseconds in the rate
-- limiter, as in the script), a text that the code cuts a list of bytes. What Postgres, Redis, the
-- broker, the provider, JSON, the clock and the regular libraries answer is an argument of the
-- definition that asks: a flag that ends in `_fails` says that the call returns an error, and a
-- failed statement or transaction changes nothing. Statements run one after another, as row locks
-- and the CAS statements make them. An int32 counter is a natural number: it starts at 0 and is
-- bounded far below its width by the caps on attempts and redeliveries; the hub's uint64 counter of
-- ids wraps around, as written. A handler gets its body
-- decoded, or the decoder's error.
--
-- Fuel. The loop of the rate-limit gate needs it. Each round that goes on costs at least 5 ms of
-- a budget of 5000 ms, so at most 1001 rounds go on, and the fuel is 1002. The client that follows the
-- cursors of a listing asks for as many pages as its fuel; more than the rows of the table is enough.
--
-- Not modelled: goroutines, connections and shutdown (internal/worker/manager.go,
-- internal/queue/consumer.go, internal/queue/publisher.go, cmd), configuration, metrics, logs and
-- traces; the HTTP layer around the handlers (router, OpenAPI, WebSocket, the size
-- limits of bodies); the parsing and rendering of templates (text/template), the hash of a request's
-- body and the audit chain.
pub mod Prelude
pub mod Domain
pub mod Topology
pub mod Store
pub mod RateLimit
pub mod Provider
pub mod Worker
pub mod Outbox
pub mod Producers
pub mod Api
pub mod Http
pub mod Auth
pub mod Handlers
pub mod System
pub mod Examples
pub mod Ws
pub mod Idempotency
