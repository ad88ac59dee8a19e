-- ===== src/Lib.antt =====
-- A verification library of the QuantumBilling event engine, the Go program under engine/.
--
-- The program takes usage events over HTTP, authenticates them by an API key that is cached in Redis,
-- deduplicates them, checks that their organization and end user exist, and hands them to Kafka; a
-- worker gathers them into batches for ClickHouse. Around this stand a service that issues keys, a
-- daemon that warms the caches, a store of encrypted provider keys, and an API for figures.
--
-- Common        bytes, lists, int32, float64, printing of numbers, searching in texts
-- Models        engine/internal/models/models.go: UsageEvent, Validate, EnrichFromKeyContext,
--               ParseIngestBatch (Models.Codec), newEventID (Models.EventId)
-- Platform      what the engine sees of Redis (an interface with its documented laws, and a server in
--               memory that meets them) and of Postgres: engine/internal/postgres/fallback.go
-- Http          requests, replies, and the state the handlers share: the Redis store and what was
--               published
-- Auth          engine/internal/auth/redis_provider.go: ValidateAPIKey, AuthMiddleware
-- Ingest        engine/internal/handler/ingest_handler.go: HandleSingleEvent, one function per stage,
--               verifyOrg and verifyEndUser (Ingest.Verify)
-- Batch         engine/internal/handler/batch_handler.go: HandleBatchEvent, processBatchEvents
--               (Batch.Process), the existence checks (Batch.Lookup), inProcessBloom (Batch.Bloom)
-- IngestApi     engine/cmd/ingest-api/main.go: the muxes, the middleware in front of the handlers,
--               the health checks; Kafka is engine/internal/kafka/producer.go, and Settings the
--               helpers on the environment
-- Consumer      engine/internal/consumer/consumer.go
-- Worker        engine/internal/orchestration/analytics_service.go (Worker.Service, and as a step
--               relation of threads Worker.System), engine/internal/clickhouse/writer.go
--               (Worker.Writer), engine/cmd/analytics-worker/main.go (Worker.Main)
-- Keys          engine/internal/keys/service.go, and Keys.Api and Keys.Server for
--               engine/cmd/keys-api/main.go
-- Tracing       engine/internal/tracing/tracing.go
-- Daemon        engine/internal/daemon/cache_daemon.go
-- Byok          engine/internal/byok/service.go
-- Security      engine/internal/security/audit_logger.go
-- Analytics     engine/cmd/analytics-api/main.go (Analytics.Path, Analytics.Routes) and
--               engine/internal/analytics/service.go: the pages (Analytics.Reports), the service
--               token, the query helpers (Analytics.Dates) and the semaphore
-- Fixture       engine/internal/fixture/generator.go
-- Samples, Tests   concrete data, and runs of the model on it
--
-- How the parts meet: the server of IngestApi runs Auth in front of Ingest and Batch, which share the
-- Redis store with Daemon and with Keys, whose created keys Auth looks up (IngestApi.Created). What
-- they publish goes to the topic that Consumer is configured for; its ConsumeBatch gives no messages
-- yet, so that nothing joins the two sides. Worker batches and retries. Ingest.Ledger is an abstract
-- machine of the idempotency keys that Ingest is compared with.
--
-- The handlers are functions from a request and a state to a reply and a state. Redis,
-- encoding/json, AES-GCM, HMAC and sha256, math/rand, net/http's path cleaning and the parsers of
-- strconv, time and net are parameters; the laws that a theorem needs of them are hypotheses with a
-- concrete instance in Platform.Redis.Memory, Platform.Redis.Filters, Samples and Tests. What a
-- call draws from crypto/rand and from the clock is an argument. No other client of Redis writes
-- and no key expires between the commands that a theorem speaks of. What the types and the
-- constraints of the tables in control-plane/prisma/schema.prisma do with the values of a statement
-- is a parameter of the tables: how a text is read as a uuid or an enumeration, and which rows an
-- INSERT may add. The environment variables that a handler reads are fields of its record. Loops
-- over slices are recursions on lists. Recursion on fuel prints numbers: n + 1 rounds are more than
-- the decimal or hexadecimal digits of n. Worker.Retry counts turns of the ticker; more turns than
-- the outage of the sink has failing inserts are enough.
--
-- Not modelled: logging, the start of the processes, their listeners and signals in the main
-- functions, the placeholders of the tracing exporter, and the parts of the repository in other
-- languages.
mod Common
pub mod Models
pub mod Platform
pub mod Http
pub mod Auth
pub mod Ingest
pub mod Batch
pub mod Worker
pub mod Keys
pub mod Tracing
pub mod Daemon
pub mod Settings
pub mod Kafka
pub mod Consumer
pub mod IngestApi
pub mod Security
pub mod Fixture
pub mod Byok
pub mod Analytics
mod Samples
mod Tests
