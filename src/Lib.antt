-- ===== src/Lib.antt =====
-- webhook_engine: a service that accepts events of tenants and delivers them to the endpoints that
-- subscribe to them, by HTTP requests that are retried.
--
-- An event is written together with one delivery per receiver and one outbox row per delivery
-- (src/events). The publisher of the outbox adds the rows that are due to a queue, and its
-- maintenance recovers what got stuck. A worker takes a job from the queue, asks the rate limiter,
-- claims the delivery, checks the URL, sends the signed request, and marks the outcome: success, a dead
-- letter, or a failure with an outbox row for the next attempt (src/dispatcher, src/security). Tenants
-- manage their endpoints, look at their deliveries and replay them (src/endpoints, src/deliveries); an
-- administrator manages the tenants (src/tenants). Both come through guards (src/security) and get
-- failures as the filter of src/common writes them. Everything meets in the database.
--
-- The files:
--   Base        tests, lists, texts as code units, the numbers of JavaScript, and the monad of effects
--               that may fail: a step takes a state to a result and the next state, which survives a
--               failure
--   Prisma      the database client as a parameter, with its documented laws
--   Schema      prisma/schema.prisma: the rows, and the database as the record of its tables;
--               Schema/Table: the client's calls on one table
--   World       database, clock, counters, requests sent, and the state of the services outside
--   Metrics     src/common/metrics.service.ts
--   Config      src/common/config.service.ts
--   Security    src/security: SafeUrl (safe-webhook-url.ts), Signing (webhook-signing.service.ts), ApiKey
--               (api-key.ts), Guards (admin-api-key.guard.ts, tenant-api-key.guard.ts), and Bytes, what
--               they use of strings and buffers
--   Dispatcher  src/dispatcher: Policy (event-status.policy.ts), Repository
--               (prisma-dispatch-deliveries.repository.ts), Executor, Retry and Redaction
--               (delivery-executor.service.ts), HttpChannel (http-delivery-channel.adapter.ts), Process
--               (process-delivery.use-case.ts), RateLimit (redis-rate-limiter.adapter.ts); Signed and
--               Exhaustion join them
--   Events      src/events: Ingest (createForTenant and ingest-event.use-case.ts), Publisher
--               (delivery-outbox-publisher.service.ts), Scheduler
--               (delivery-outbox-scheduler.service.ts), Maintenance (delivery-maintenance.service.ts),
--               Queue (the jobs)
--   Deliveries  src/deliveries: get-delivery.use-case.ts and replay-delivery.use-case.ts
--   Listing     `findAll` and `findById` of both repositories, list-events.use-case.ts,
--               list-deliveries.use-case.ts and get-event.use-case.ts
--   Endpoints   src/endpoints: prisma-endpoints.repository.ts, endpoint-ownership.ts and the use cases
--   Tenants     src/tenants: prisma-tenants.repository.ts, tenant.entity.ts and the use cases
--   Http        the controllers: Api (a tenant's routes), Admin (the administrator's), Filter
--               (src/common/api-exception.filter.ts), Health (src/health)
--   Invariant   the status of an event against its deliveries, the operations as steps, and the life of
--               a delivery as an abstract machine (Lifecycle)
--   Tests       a small deployment, and the theorems applied to it
--
-- A method of a class is a function of the same name; what the class is constructed with are its first
-- arguments. `await` is the sequence of effects, `$transaction` undoes the effects of a callback that
-- throws, and `try … catch` keeps what was done before the failure. A transaction is one step of the
-- database, and so is each call outside of one; the steps of different workers interleave in any order
-- (Invariant/Steps). Identifiers are numbers, and every new one is larger than those in use. Times are
-- in milliseconds. Texts that are cut or searched are lists of UTF-16 code units.
--
-- Parameters: the database client (Prisma), the queue (BullMQ), Redis, axios and the DNS, the URL parser,
-- the digests and random bytes of node's crypto, what the HTTP framework makes of a body or an exception,
-- and what the JavaScript runtime computes (random numbers, the reading of numbers and dates). All loops
-- run over lists, so no fuel is needed; the digits of a number are made in as many rounds as the number
-- and one more. The rate limiter and the backoff are in exact arithmetic, where the source has floating
-- point, whose errors of rounding are not modelled.
--
-- Not modelled: logging, module wiring, the validation of bodies and queries by decorators, the routes
-- that only answer (the root, metrics, health/live), the clients of Redis and of the database, and the
-- receiver for trying things out in src/dev.
pub mod Base
pub mod Prisma
pub mod Schema
pub mod Security
pub mod Metrics
pub mod World
pub mod Http
pub mod Tenants
pub mod Dispatcher
pub mod Config
pub mod Deliveries
pub mod Events
pub mod Listing
pub mod Endpoints
pub mod Invariant
pub mod Tests
