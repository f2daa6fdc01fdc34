-- ===== src/Lib.antt =====
-- A model of the service broker proxy, which keeps the brokers and visibilities of a platform (such as
-- Cloud Foundry or Kubernetes) equal to those of the Service Manager, with theorems on its behaviour.
--
-- The parts and how they interact. The producer (pkg/sbproxy/notifications/producer.go) holds a
-- websocket to the Service Manager and puts messages on a channel: notifications, and requests for a
-- resync. The reconciler (pkg/sbproxy/reconcile/reconciler.go) takes them one by one. A notification
-- goes to the consumer (notifications/consumer.go), which picks the handler of its resource: that of
-- brokers or that of visibilities (notifications/handlers). A resync message drains the channel and runs
-- the resync job (reconcile/resyncer.go), which compares all brokers (reconcile_brokers.go) and then all
-- visibilities (reconcile_visibilities.go) of both sides. New in pkg/sbproxy/sbproxy.go connects them.
--
-- The files:
--   Prelude     shared names, tests, lists, integers (Int: Go's int and int64), maps (Dict)
--   Types       data of pkg/platform, and what the proxy reads of the Service Manager's types
--   Exec        actions: a log of the calls of clients, newest first, with values, errors and early
--               returns; Keeps has the rules for invariants, Threads has actions that take turns
--   Clients     the interfaces of pkg/platform and sm.Client; their answers are the parameter Env, any
--               functions of the calls made before. Credentials is pkg/util/credentials.go. Confirmed and
--               Sparing define invariants of the log; modules of these names below Handlers, Reconcile
--               and Sbproxy are about them, and those named Plain about all invariants of their kind
--   Utils       pkg/sbproxy/utils/helpers.go
--   Handlers    Payload and Broker are broker_handler.go, Visibility is visibilities_handler.go: on_create,
--               on_update, on_delete are OnCreate, OnUpdate, OnDelete, cut into the segments that the
--               theorems treat one by one
--   Reconcile   Settings, Urls, Job, Scheduler (task_scheduler.go), Brokers, Visibilities, Resyncer, and
--               Reconciler, the step relation of process and drain; Scheduler.Concurrent has the
--               scheduler's goroutines counted, Scheduler.Threads with their calls; Brokers.Threads has
--               the tasks of a resync for it, and Brokers.Platform what a platform does with its calls
--   Notifications  Consumer, and Producer with its settings and connect; under it, Loop has the loop of
--               run, Goroutines its interleaving with the reader, pinger and resync timer, and Dial the
--               URL and what the dialer gets
--   Sm          pkg/sm: settings, the client's methods (Client, Client.Calls), the transports
--   Authn       pkg/authn
--   Logging     pkg/logging/error_location_hook.go
--   Sbproxy     pkg/sbproxy/options.go, and the wiring of New; Composition has New with its errors,
--               Build, Security and installHealth, Environment the flags and DefaultEnv, Shutdown the end
--               of Run
--   Examples    a sample environment, and the theorems applied to it
--
-- Bounds and fuel. A Go int or int64 is a ℤ, with the wrap-around of 64 bits where the code computes with
-- one (ping period, read timeout); the scheduler's error count wraps at 32 bits. The loop over the chunks
-- of brokers runs on fuel, the number of brokers, which is enough for every positive chunk size. All
-- other loops are structural.
--
-- Choices. A Go map is an association list; iterating over one goes in the order of insertion, where Go
-- leaves the order open. An early return is an error value that ends the handler only. A nil
-- dereference is an error too. The deletions of a resync share their loop variable as in the source:
-- loop_lags of Env says how far the loop has gone when each task reads it.
--
-- The scheduler has three models. Where the whole proxy is run, the tasks of one resync run one after
-- the other; Scheduler.Threads lets them take turns between any two of their calls, in the resync of
-- brokers; Scheduler.Concurrent counts tasks and goroutines over every interleaving, with the steps in
-- which a goroutine gives back its slot. Scheduler.Threads.Counted, Brokers.Threads.Alone and
-- Scheduler.Concurrent.Sequential are about how they fit together. The producer has two models. Where the
-- contents of messages matter, Loop runs the connections one after the other; Goroutines has every
-- interleaving, for a messages channel with a buffer. None has clocks: a timer may fire at any time.
--
-- Brokers.Platform states what a platform does with its calls, as a hypothesis: it lists the brokers as
-- the calls made them, gives a new one a GUID that depends on its id only, and refuses no call. The basic
-- authorization of net/http is a parameter, Http of Sm.Transport.
--
-- Not modelled: contexts that are cancelled during a handler or a resync, but for the scheduler; HTTP,
-- TLS, JSON and the websocket; the web server, the health checks themselves, OIDC and flag sets, all of
-- them libraries; log messages; the generated fakes.
pub mod Prelude
pub mod Types
pub mod Exec
pub mod Clients
pub mod Utils
pub mod Handlers
pub mod Reconcile
pub mod Notifications
pub mod Sm
pub mod Authn
pub mod Logging
pub mod Sbproxy
pub mod Examples
