-- ===== src/Lib.antt =====
-- The gateway of OpenFaaS (gateway/): it forwards requests to functions, scales a function from
-- zero replicas before a request is passed on, and scales functions up and down on alerts of
-- Prometheus.
--
-- Base, Text, Effect and Http hold what Go and its library give: byte strings, maps, 64-bit words,
-- the string functions that are called, computations with a state that may panic, header maps and
-- response writers. Float64 holds the non-negative double-precision numbers of CalculateReplicas.
--
-- Middleware.ServiceName   gateway/pkg/middleware/service_name.go  GetNamespace
-- Middleware.Resolver      gateway/pkg/middleware/resolver.go      functionMatcher, GetServiceName,
--                          Resolve, BuildURL and Transform of the resolvers and transformers
-- Middleware.Injector      gateway/pkg/middleware/basic_auth_injector.go, gateway/types/proxy_client.go
-- Types.Retry              gateway/types/retry.go                  Retry
-- Types.Config             gateway/types/readconfig.go             ReadConfig.Read, GatewayConfig
-- Scaling.Response         gateway/scaling/service_query.go, scaling_config.go
-- Scaling.Cache, Cacher    gateway/scaling/function_cache.go, function_meta.go
-- Scaling.Scaler           gateway/scaling/function_scaler.go      FunctionScaler.Scale
-- Scaling.FunctionQuery    gateway/scaling/function_query.go       CachedFunctionQuery
-- Scaling.Ranges           gateway/scaling/ranges.go               MakeHorizontalScalingHandler
-- Scaling.Single           gateway/scaling/single.go               SingleFlight.Do, as steps in any
--                          order of its callers and runs
-- Plugin.External          gateway/plugin/external.go              GetReplicas, SetReplicas
-- Handlers.Scaling         gateway/handlers/scaling.go             MakeScalingHandler
-- Handlers.Alert           gateway/handlers/alerthandler.go, gateway/requests/prometheus.go
-- Handlers.CallId          gateway/handlers/callid_middleware.go   MakeCallIDMiddleware
-- Handlers.Forwarding      gateway/handlers/forwarding_proxy.go, with its event streams
-- Handlers.Notifiers       gateway/handlers/notifiers.go, notifier_handler.go; in Concurrent, calls
--                          that overlap, as steps in any order
-- Handlers.Queue           gateway/handlers/queue_proxy.go         MakeQueuedProxy
-- Handlers.Health          gateway/handlers/healthhandler.go, cors.go
-- Handlers.Info            gateway/handlers/infohandler.go, gateway/version/version.go
-- Handlers.Logs            gateway/handlers/logs.go                NewLogHandlerFunc
-- Metrics.Query            gateway/metrics/prometheus_query.go     PrometheusQuery.Fetch
-- Metrics.Added            gateway/metrics/add_metrics.go          AddMetricsHandler, mixIn
-- Metrics.Exporter         gateway/metrics/exporter.go             the watcher and Collect
-- Metrics.Options          gateway/metrics/metrics.go              the vectors and their registration
-- Requests                 gateway/requests/forward_request.go     ForwardRequest
-- Gateway.Start            gateway/main.go: how the gateway starts from its configuration
-- Gateway.Routes           gateway/main.go, gateway/types/handler_set.go: the handlers that ask for
--                          credentials, and the table of routes
-- Gateway.Calls, Functions gateway/main.go: the handlers of asynchronous calls and of functions
-- Gateway.Wiring           gateway/main.go: all handlers, put together over the state of Gateway.Store
-- Gateway.Steps            what a handler may do to that state, as a relation that each wrapper of
--                          handlers and the router respect; Gateway.Wiring.Reached has the runs of
--                          requests, the files beside it the relations that they keep, and Listed what
--                          the list of functions shows of the calls before
-- Gateway.Servers          gateway/main.go: the servers of the gateway and of the metrics
-- Gateway.Clients          gateway/types/proxy_client.go, gateway/plugin/external.go,
--                          gateway/metrics/exporter.go: the HTTP clients, by their addresses
--
-- A request for a function passes Handlers.Scaling, which takes the name of the function from the
-- URL (Middleware) and calls Scaling.Scaler; that asks the provider (Plugin.External) through a
-- single-flight group, keeps the answers in Scaling.Cache, and repeats a request for replicas with
-- Types.Retry. Handlers.Alert asks the provider, too, and sets the counts that CalculateReplicas
-- gives. A call that is passed on is tagged by Handlers.CallId and sent by Handlers.Forwarding,
-- which tells Handlers.Notifiers when it begins and ends; an asynchronous call is tagged and put on
-- a queue by Handlers.Queue. Routes puts basic auth around the handlers of the management and gives
-- each its path. Gateway.Wiring makes the handlers and the server from their parts, with the
-- constants of main.go. Beside the requests, Metrics.Exporter polls the provider for the replica
-- counts that Prometheus collects.
--
-- The clock, the provider and the group of golang.org/x/sync/singleflight are parameters: the first
-- two give answers that may depend on all that has happened, the history; the group runs a call or
-- joins one of the same key, which is the law of the record Group. So are the HTTP client and
-- reverse proxy, JSON, url.Parse and time.ParseDuration. A SetReplicas of the provider may panic, as
-- that of Plugin.External does for a client that gives no response, and a group, Scale and the
-- handlers pass such a panic on; a GetReplicas returns, as that of Plugin.External does for every
-- client that gives a response or an error.
--
-- Loops have the bounds of the code (MaxPollCount, SetScaleRetries and the attempts of Retry, each
-- read as an int of 64 bits), so no fuel is needed beyond them. Counts are numbers below 2 ^ 64, and
-- their sums and conversions wrap. Times are unbounded.
--
-- The router (gorilla/mux), basic auth (faas-provider), the queue (NATS) and the client of
-- Prometheus are parameters as well, and what a theorem relies on of them is a hypothesis of it.
--
-- A run of requests through the gateway is a sequence: one request is served after another, from
-- any store, and the answers of the provider may differ from request to request. Calls of the cache
-- and of the group of Scaling.Single may come in any order of their callers.
--
-- Not modelled: logging; what net/http does with a client's transport and a server's port; the
-- registry of the Prometheus client; timeouts and cancelling through Go's contexts; the redirect and
-- the files of the UI. gateway/metrics/metadata_query.go is a struct that nothing uses.
pub mod Base
pub mod Text
pub mod Effect
pub mod Types
pub mod Float64
pub mod Metrics
pub mod Gateway
pub mod Requests
pub mod Middleware
pub mod Scaling
pub mod Http
pub mod Plugin
pub mod Handlers
