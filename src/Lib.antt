-- ===== src/Lib.antt =====
-- The Sentinel plugin of go-lynx: flow control, circuit breaking and system protection for the
-- services of the framework, on top of github.com/alibaba/sentinel-golang.
--
-- The program has eight parts. The configuration is scanned, completed and validated. The rules are
-- translated from it and loaded into sentinel-golang, and can be changed one by one at run time.
-- The metrics collector counts the requests of each resource and keeps their response times. The
-- request path asks sentinel-golang for an entry, runs the caller's function, reports to the
-- collector and exits the entry; the HTTP and gRPC middleware wraps it around handlers. The
-- lifecycle initializes the plugin, loads the rules, starts the workers of the collector and of the
-- dashboard on a stop channel, and stops them. The dashboard serves pages on the collector, the
-- rules and its own health. The package-level functions look for the plugin, in the application's
-- plugin manager and then in the factory, and act on what they find.
--
-- Files and code:
--   Base          names of the libraries, lists, Go's maps (Dict), fixed-width integers (Words) and
--                 float64 (Float).
--   Config        types.go (SentinelConfig and its parts), lifecycle.go (validateConfiguration,
--                 validateAndSetDefaults). Children: Checks, Defaults.
--   Engine        sentinel-golang: a parameter, with what it documents of its rule managers.
--   Rules         rules.go, and reloadRules of lifecycle.go. Children: Errors, Loading, Updates,
--                 Merging, Table (an abstract view of the rules in force), Multisets (the same up to
--                 order), Additions.
--   Metrics       metrics.go: MetricsCollector and its methods. Children: History (what a sequence
--                 of calls means for a resource), Counters, Window, Stats, Summary, Orders (the
--                 loops over Go's maps), Listed, Collecting (Start and collectMetrics).
--   Plugin        types.go (PlugSentinel), api.go (Entry, Execute, CheckFlow and their variants).
--                 Children: Steps, Verdict, Recording, Balance, Flights (requests of several goroutines at
--                 a time), Traffic (sequences of requests).
--   Lifecycle     lifecycle.go, lifecycle_context.go, and OnConfigUpdate and IsHealthy of plug.go.
--                 Children: Tasks (the three long calls), Channels, Workers, Startup, Started,
--                 Cleanup, Initialization, Configuration, Hooks (NewSentinelPlugin of plugin_meta.go
--                 and sequences of calls), Keeping, Histories (what such sequences keep), Objects (the
--                 collector and the server that an initialization makes), Restarting, Departures
--                 (the goroutines as they return) and Interleavings (calls between which they do).
--   Middleware    middleware.go, and SentinelMiddleware of api.go: statusRecorder, the HTTP middleware
--                 and the interceptors. Children: Recorder, Reports, Responses, Delivery.
--   Dashboard     dashboard.go: DashboardServer. Children: Serving (Start as a step relation),
--                 Running, Listening and Leaking (who holds the port), Pages (the JSON handlers),
--                 Views, Routes (the endpoints).
--   Registry      plug.go: GetSentinel. Children: Requests, RuleCalls, Queries and Waiting (the
--                 package-level functions, with those of api.go), Handlers (the middleware that
--                 they return), Unregistered, Effects, Traffic, Registration (init, and the
--                 capabilities).
--   Samples       small instances of the parameters, and runs of the model on them.
--
-- Modelling. A method of the source is a function of the same name. The state is one record, World:
-- the plugin, the collectors and servers that it points to, the channels ever made with whether
-- each is closed, the state of sentinel-golang and of the host, and the outcome of
-- sentinelInitOnce. A method that holds the lock is one step. An int64 is a word below 2 ^ 64 with
-- its wrap-around; a float64 is its bit pattern, whose order is computed, while the rounded
-- operations are a parameter (Platform). Times are arguments. A context is its answers at the
-- places where the code asks it. Start of the dashboard is a relation, since its goroutines share
-- the running flag, the pointer to the http.Server and the port; a step is what one of them does
-- between two points where others may act. A call of the lifecycle returns, dereferences nil, or
-- waits for ever (Ending); a call of the request path returns or panics (Outcome). A map is an
-- association list with one entry for each key, and a loop over it takes one order. All loops are
-- over lists but that of WaitForReady, which is on fuel: the number of its polls, where any number
-- above that of the poll that ends the wait is enough.
--
-- Parameters: Engine (with EngineLaws for the rules and EntryLaws for the entries), Host for the
-- framework, Registry for its plugin manager and factory, Factory (with FactoryLaws) for the
-- registration, Mux (with MuxLaws) for the ServeMux, Platform for float64 and package time, and
-- functions for the texts of package fmt and time and for the JSON encoding.
--
-- Not modelled: logging, setLoggingLevel included; the text of the dashboard's index page, but for the
-- paths that it asks for; the inside of package net/http; IsContextAware, which returns a constant, and
-- RequestContext of types.go, which nothing uses; the two functions of lynx_compat.go, which only call
-- the framework; the generated code of conf/.
mod Base
pub mod Config
pub mod Engine
pub mod Rules
pub mod Metrics
pub mod Plugin
pub mod Lifecycle
pub mod Dashboard
pub mod Registry
pub mod Middleware
pub mod Samples
