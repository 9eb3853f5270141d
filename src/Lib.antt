-- ===== src/Lib.antt =====
-- Verification of the notification service: an API that accepts notifications, a processor that
-- delivers them and a scheduler that holds back those with a delivery time.
--
-- The API (api/internal) turns a request body into a notification (Requests, Domain), stores it and
-- publishes it (Service, Batch): a notification with a delivery time is announced to the
-- scheduler, any other goes to the topic of its priority. The scheduler (deliveryscheduler/internal)
-- keeps a row for each notification that waits, and its dispatcher announces what is due. The
-- processor (processor/internal) takes the messages of the three priorities by weight
-- (Processor.Router), runs the delivery pipeline on each (Processor.Pipeline) and settles the message
-- by the result (Processor.Consumer); the API writes the published result into the status.
--
--   Base, Effect, Platform   shared helpers; calls that may fail, over an explicit state; the pure
--                            functions of the standard library and of packages, as a parameter
--   Errors                   shared/genericerrors/errors.go, shared/handler/validation.go
--   Public                   api/public, processor/public, deliveryscheduler/public
--   Domain                   api/internal/domain/notification: the setters `SetChannel` and so on, and
--                            `Transition` (`transition`) with its diagram `validTransitions`
--   Requests                 api/internal/transport/http/dtos.go: `ToNotification` (`to_notification`)
--   Store, Ports             api/internal/db: `From` (`from`), `ToDomain` (`to_domain`) and the
--                            repository; shared/messaging/publisher.go
--   Service, Batch, History  api/internal/service/notification.go: `Create`, `Cancel`, `UpdateStatus`,
--                            `CreateBatch`, and sequences of their calls
--   Api                      api/internal/transport/http/notification.go: the handlers;
--                            shared/handler/error_handler.go: `errHandler` (`err_handler`)
--   Reports                  api/internal/transport/messaging/delivery_result_consumer.go:
--                            `processOne` (`process_result`)
--   Due                      api/internal/transport/messaging/scheduled_due_consumer.go:
--                            `handleBatch` (`handle_batch`)
--   Processor.Retry          processor/internal/service/retry.go: `RetryDelay` (`retry_delay`)
--   Processor.Client, .Http  processor/internal/service/ntfndeliveryclient.go: `Send` (`send`);
--                            shared/httpclient/client.go: `Request` (`request`)
--   Processor.Limit          processor/internal/service/ratelimit.go: `IsAllowed` (`is_allowed`)
--   Processor.Pipeline       processor/internal/delivery/pipeline.go: `Run` (`run`)
--   Processor.Router         processor/internal/delivery/priorityrouter.go: `NewPriorityRouter`, `Next`
--   Processor.Consumer       processor/internal/transport/messaging/notification_ready_consumer.go:
--                            `processOne` (`process_one`), and the deliveries of one message
--   Processor.Workers        the same file: `StartMessageProcessing`, workers that take their steps in
--                            any order
--   Store.Postgres           api/internal/db/postgres/notification_repo.go: `List` (`list`) and the other
--                            operations as the statements that they build
--   Scheduler.Postgres       deliveryscheduler/internal/db/postgres/repository.go
--   Nats                     shared/messaging/nats: `Publish`, `PublishBatch`, `Subscribe`,
--                            `SubscribeBatch`, `decode`, `ForEach` and `ForEachBatch`
--   Startup                  processes that call the libraries: the connections (shared/redis, shared/bun,
--                            shared/messaging/nats/handle.go), shared/config and the three
--                            internal/config, shared/otel/setup.go, shared/logger, processor/internal/
--                            service/metrics.go, the three internal/app/app.go and cmd/main.go
--   Startup.Ledger           what such a process holds and runs, by the calls that it has made
--   Lock                     shared/lock/redis.go: `TryLock` and `Unlock`
--   Health                   shared/handler/health.go: `readinessCheck` (`readiness_check`)
--   Journey                  from a message of the processor to the row of the API service;
--                            Journey.Created from `Create` to there
--   Scheduler                deliveryscheduler/internal: `Tick` (`tick`), `handleScheduledEvents`,
--                            `handleCancelEvent`
--   Tests                    concrete runs, with implementations of the interfaces for them
--
-- State. The state of the dependencies (database, broker, Redis, clock) is a type S that the code
-- sees only through the records of its interfaces; a call is a function of the state that
-- returns the new state and a result or an error. What the program relies on in a dependency is
-- a record of laws (Service.Contract, Processor.Pipeline.Laws, Scheduler.Conservation), with an
-- implementation in Tests that has them. Of the implementations in the program, the repository of
-- notifications, the table of the scheduler with the publisher of NATS, and the lock are modelled
-- too, over records of what their own dependencies (bun and the database, JetStream, the client of
-- Redis) document: Store.Postgres.Contract, Scheduler.Deployed, Nats.Publisher.Acks,
-- Nats.Subscriber.Accounts, Lock.Exclusion.
--
-- Numbers. Times and durations are in nanoseconds. An int of the program that may be negative is a
-- ℤ; counters that only grow from 0 are natural numbers. The cursor of the router wraps at 64 bits.
--
-- Loops. The loop of `Tick` runs on fuel, and as many passes as the table has rows and one more are
-- enough, since each pass but the last removes a row. The deliveries of a message run on the
-- number of deliveries that are left.
--
-- A subscription runs for any number of passes, and what is shown of it holds after each. A client
-- that follows the pages of the list runs on fuel, and one page more than there are rows is enough. The
-- loops of `ForEach` and `ForEachBatch` run on fuel too, and one pass more than there are values in
-- the channel is enough.
--
-- Start and end. A process of Startup gives the calls of libraries that it makes, in order, and
-- how it ends: with a value, with an error, in a panic or in `os.Exit`. What a call answers is a
-- parameter, but only whether it fails. Deferred calls run at every end but `os.Exit`. The
-- goroutines of a service are one call each; their loops are modelled in the components.
--
-- Not modelled: contexts beyond their end where the code looks for it, traces, and logs outside the
-- start-up; the encoding of messages; the registration of routes and the logging of requests, which
-- are calls of the HTTP library; how viper reads the environment, of which only what it documents
-- is assumed.
pub mod Base
pub mod Platform
pub mod Errors
pub mod Public
pub mod Effect
pub mod Domain
pub mod Requests
pub mod Store
pub mod Ports
pub mod Nats
pub mod Service
pub mod Startup
pub mod Batch
pub mod History
mod Tests
pub mod Api
pub mod Reports
pub mod Due
pub mod Processor
pub mod Scheduler
pub mod Lock
pub mod Health
pub mod Journey
