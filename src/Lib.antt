-- ===== src/Lib.antt =====
-- A model of the order service: a Go program with an order aggregate, command handlers that run in
-- database transactions, a transactional outbox, workers that publish and consume events, a projection
-- to a read model with its queries, and the HTTP handlers in front.
--
-- The parts, and how they interact. An HTTP request becomes a command; its handler loads or makes an
-- order, calls a method of the aggregate, and in one transaction saves the order and appends the
-- events that the aggregate raised to the outbox. A worker publishes the outbox; a projection reads
-- the events and keeps the read model, which the queries read.
--
-- Files. Domain/ models internal/domain: Values (value_objects.go, order_item.go), Events
-- (events.go, event.go), Order (aggregate.go: new_order is NewOrder, add_item is AddItem, confirm is
-- Confirm, total_amount is TotalAmount, take_events is Events). Error is errors.go. Ports is
-- internal/application/port. Persistence/ models internal/infrastructure/persistence: Models
-- (gorm_models.go, read_models.go), Mapper (mapper.go), Orders (order_repository.go: save is Save,
-- find_by_id is FindByID), Outbox (outbox_store.go), Transaction (unit_of_work.go), Database (the
-- tables together), ReadModels (read_model_store.go; its ORDER BY clause in Sorting), Keys
-- (idempotency_store.go, processed_event_store.go). Application/ models internal/application:
-- Command, Projection (order_projection.go: handle is Handle; its child Convergence holds what the
-- projection of a whole stream of events comes to) and Query (get_order is
-- GetOrderHandler.Handle, query_orders is ListOrdersHandler.Handle). Messaging models
-- internal/infrastructure/messaging: publish is InMemoryEventBus.Publish, kafka_publish and
-- handle_message are KafkaEventBus.Publish and HandleMessage. Its child Settings has the
-- configuration of Kafka. Worker/ models
-- internal/infrastructure/worker: OutboxWorker (process_batch is processBatch), ProjectionWorker
-- (setup is Setup), Consumer (step is one round of the loop); the loops are in OutboxWorker/Run and
-- Consumer/Run (run is Run). Http models internal/interfaces/http, its
-- child Errors error_mapper.go, its child Gin the handlers for gin (serve_gin and serve_chi are
-- RegisterGinRoutes and RegisterRoutes on the requests that reach a handler), its child Middleware middleware.go (Bodies: what is logged of a
-- request; Writers: the response writers; Stack: the functions of gin as app.go stacks them; Net: those for net/http).
-- Observability models internal/infrastructure/observability, with LogStore (log_store.go,
-- http_log.go) and MetricStore (metric_store.go) of internal/infrastructure/persistence: Values,
-- Bridge and Endpoint are logs.go and tracing.go, Levels logger.go, Hooks db_hook.go, GormLogger
-- gorm_logger.go, Metrics metrics.go. Config is internal/bootstrap/config.go. Bootstrap and System are app.go: Bootstrap
-- the life of the process (run is Run), System the parts that Run wires together, as steps on one
-- database (Step: a request, a batch of the worker with either bus, a message that the consumer
-- hands over, a requeue; Reach: any number of them in any order). The other children hold proofs;
-- those called Keeps show that a call preserves what its statements preserve. Examples holds tests,
-- and the theorems at concrete inputs. Prelude, Int64, Effect, Json, Uuid and Gorm carry the rest: shared lemmas, Go's integers, fallible calls over a state, JSON objects, and the two
-- libraries that the model takes as parameters.
--
-- Representation. An int or int64 is the number of its 64-bit pattern, and sums and products wrap
-- around. A fallible call that changes a state is a function from the state to its result and the
-- state after it, so what was written before an error stays written; a transaction undoes it. What
-- uuid.NewV7 draws and what the clock reads are arguments; a time is a number of microseconds, which is
-- what the columns of PostgreSQL keep of it. A response of HTTP is its status and its body, without headers.
--
-- Parameters. GORM over PostgreSQL is the record Gorm.Table, one for each table: each statement that
-- the code sends is a function whose result is known only by the documented meaning of a statement
-- that succeeds, up to the order of rows; any statement may fail, and what it answers depends on the
-- table alone. The text of a JSONB column is kept as Gorm.jsonb says. Transactions are a field of Persistence.Database.Gorm. google/uuid is Uuid.UuidCodec.
-- Examples/Memory instantiates both. kafka-go's reader is Worker.Consumer.Reader, on one partition,
-- the JSON of the envelope Messaging.EnvelopeCodec; the decoding and the validation of requests is
-- Http.Requests, the parsers of the standard library Config.Parsers. A UUID is a number of which only identity matters.
--
-- Bounds. Two functions take fuel, the endless loops of the workers: Worker.OutboxWorker.Run.run and
-- Worker.Consumer.Run.run, one unit for each round, and `none` where it runs out. It is enough if it
-- is above the number of rounds until the context is cancelled. Every other loop of the modelled
-- code runs over a list. What a select receives, and what a test of the context finds, are arguments,
-- by the number of the round.
--
-- Calls run one after another: the interleavings of goroutines are not modelled, nor are the locks of
-- the buses. What two requests do to one order is stated by the order of their calls.
--
-- A handler of HTTP, in Http.Middleware, is the sequence of calls that it makes of the response
-- writer, which may depend on what they return; a panic ends it. The fields of zap, its cores and the
-- exporters of OpenTelemetry are parameters of Observability. The table of logs and that of metrics
-- are states of their own there: no other part reads or writes them.
--
-- Not modelled: the registration of metrics with Prometheus, the tickers' channels, the routers, the
-- durations and trace identifiers in the lines of the log, the errors of json.Marshal on the events (a
-- year above 9999), the defaults that GORM gives a row with version 0 or an empty status, the panic of
-- net/http at a status outside 100 to 999, and the generated API documentation,
-- which only call libraries.
pub mod Prelude
pub mod Int64
pub mod Error
pub mod Effect
pub mod Uuid
pub mod Json
pub mod Gorm
pub mod Domain
pub mod Ports
pub mod Persistence
pub mod Application
pub mod Examples
pub mod Messaging
pub mod Observability
pub mod Worker
pub mod Http
pub mod Config
pub mod Bootstrap
pub mod System
