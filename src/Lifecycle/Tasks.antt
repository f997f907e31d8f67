-- ===== src/Lifecycle/Tasks.antt =====
-- The lifecycle's three long calls: InitializeResources, StartupTasksContext and
-- CleanupTasksContext. What only logs is left out.
use lynx_sentinel.Base.{
  ℕ, String, Bool, true, not, ◌&&◌, ◌||◌, [], ◌∷◌, ◌++◌, Option, none, some, if◌then◌else◌, length,
  is_some,
}
use lynx_sentinel.Base.Float.{Platform}
use lynx_sentinel.Config.{SentinelConfig, validate_and_set_defaults}
use lynx_sentinel.Engine.{Engine}
use lynx_sentinel.Metrics.{new_metrics_collector}
use lynx_sentinel.Plugin.{World}
use lynx_sentinel.Dashboard.{new_dashboard_server}
use lynx_sentinel.Lifecycle.{
  Host, LifecycleError, base_failed, scan_failed, core_failed, invalid_configuration, canceled,
  plugin_not_initialized, cleanup_canceled, Ending, finished, crashed, hangs, Checkpoint,
  before_execution, before_background, before_attaching, before_publishing, default_interval,
  reset_stop_channel, signal_stop, wait_workers, launch_workers, load_all, initialize_sentinel_core,
  all_told,
}

module _ {S H : Type 0} where
  -- NewMetricsCollector, if the metrics are enabled; a nil or an old pointer stays otherwise. An
  -- interval that does not parse is the default one.
  unfoldable pub make_collector : Platform → SentinelConfig → World S H → World S H
  make_collector platform conf w =
      let interval : ℕ = elim (platform.parse_duration conf.metrics.interval) [
        | none ↦ default_interval
        | some d ↦ d
      ] in
      if conf.metrics.enabled
      then record w {
        plugin = record plugin { metrics_collector = some (length collectors) };
        collectors = collectors ++ new_metrics_collector interval ∷ [];
      }
      else w
    where
      open w use {plugin, collectors}

  -- NewDashboardServer, if the dashboard is enabled.
  unfoldable pub make_dashboard : SentinelConfig → World S H → World S H
  make_dashboard conf w =
      let server = new_dashboard_server conf.dashboard.port w.plugin.metrics_collector in
      if conf.dashboard.enabled
      then record w {
        plugin = record plugin { dashboard_server = some (length dashboards) };
        dashboards = dashboards ++ server ∷ [];
      }
      else w
    where
      open w use {plugin, dashboards}

  -- The assignment of `s.isInitialized`.
  unfoldable pub mark_initialized : World S H → World S H
  mark_initialized w = record w { plugin = record (w.plugin) { is_initialized = true } }

  -- The assignments of `s.rt` and `s.conf`.
  unfoldable pub store_conf : SentinelConfig → World S H → World S H
  store_conf c w = record w { plugin = record (w.plugin) { conf = some c; has_runtime = true } }

  -- The deferred rollback of a startup that has launched its workers and returns `e`.
  unfoldable pub roll_back : LifecycleError → World S H → Ending × World S H
  roll_back e w = wait_workers e (signal_stop w)

  -- The wait of CleanupTasksContext. `ctx_err` is the context's error, if it ever ends, and
  -- `in_time` says whether the workers are done by then. A wait that is abandoned leaves the list of
  -- workers as it is: those of them that have returned by then leave it by Departure steps, before
  -- or after the call.
  unfoldable pub wait_bounded : Option String → Bool → World S H → Ending × World S H
  wait_bounded ctx_err in_time w =
      if all_told w.closed w.plugin.workers && (in_time || not (is_some ctx_err))
      then (finished none, record w { plugin = record (w.plugin) { workers = [] } })
      else elim ctx_err [
        | some text ↦ (finished (some (cleanup_canceled text)), w)
        | none ↦ (hangs, w)
      ]

  module _ {O : Type 0} (core : Engine S O) where
    -- After validation; nothing fails behind the initialization of the core, so the deferred
    -- rollback never acts.
    unfoldable pub initialize_core :
        Platform → SentinelConfig → World S H → Option LifecycleError × World S H
    initialize_core platform conf w =
        let (e, w') = initialize_sentinel_core core conf w in
        elim e [
          | some text ↦ (some (core_failed text), w')
          | none ↦ (none, mark_initialized (make_dashboard conf (make_collector platform conf w')))
        ]

    -- The three calls of ClearRules.
    unfoldable pub clear_rules : World S H → World S H
    clear_rules w = record w {
      core = core.system.clear (core.circuit_breaker.clear (core.flow.clear s));
    }
      where
        s : S
        s = w.core

    unfoldable pub cleanup_waited : Ending × World S H → Ending × World S H
    cleanup_waited (finished e, w) = (finished e, clear_rules w)
    cleanup_waited (crashed, w) = (crashed, w)
    cleanup_waited (hangs, w) = (hangs, w)

    unfoldable pub cleanup_tasks_context : Option String → Bool → World S H → Ending × World S H
    cleanup_tasks_context ctx_err in_time w =
        cleanup_waited (wait_bounded ctx_err in_time (signal_stop w))

module _ {S H : Type 0} (host : Host H) where
  -- The server is given to the application, and the resources are published.
  unfoldable pub attach : World S H → World S H
  attach w = record w { host = host.set_rate_limiter w.host }

  unfoldable pub publish : World S H → World S H
  publish w = if w.plugin.has_runtime then record w { host = host.register_resources w.host } else w

  module _ {O : Type 0} (core : Engine S O) where
    unfoldable pub initialize_configured :
        Platform → SentinelConfig → World S H → Option LifecycleError × World S H
    initialize_configured platform scanned w =
        let (conf, e) = validate_and_set_defaults (host.name w.host) scanned in
        let w' = store_conf conf w in
        elim e [
          | some bad ↦ (some (invalid_configuration bad), w')
          | none ↦ initialize_core core platform conf w'
        ]

    unfoldable pub initialize_resources : Platform → World S H → Option LifecycleError × World S H
    initialize_resources platform w =
        let (e, h) = host.init_base w.host in
        let w' = record w { host = h } in
        elim e [
          | some text ↦ (some (base_failed text), w')
          | none ↦
              let (scanned, e') = host.scan h in
              elim e' [
                | some text ↦ (some (scan_failed text), store_conf scanned w')
                | none ↦ initialize_configured platform scanned w'
              ]
        ]

    -- From the launch of the workers on; `ctx` has what `ctx.Err()` returns at each checkpoint.
    unfoldable pub start_background : (Checkpoint → Option String) → World S H → Ending × World S H
    start_background ctx w =
        let launched = launch_workers w in
        let attached = attach launched in
        elim (ctx before_attaching) [
          | some text ↦ roll_back (canceled text) launched
          | none ↦ elim (ctx before_publishing) [
            | some text ↦ roll_back (canceled text) attached
            | none ↦ (finished none, publish attached)
          ]
        ]

    -- After the loading of the rules.
    unfoldable pub start_loaded :
        (Checkpoint → Option String) → Ending × World S H → Ending × World S H
    start_loaded ctx (finished none, w) = elim (ctx before_background) [
      | some text ↦ (finished (some (canceled text)), w)
      | none ↦ start_background ctx w
    ]
    start_loaded ctx (finished (some e), w) = (finished (some e), w)
    start_loaded ctx (crashed, w) = (crashed, w)
    start_loaded ctx (hangs, w) = (hangs, w)

    unfoldable pub startup_tasks_context :
        (Checkpoint → Option String) → World S H → Ending × World S H
    startup_tasks_context ctx w = elim (ctx before_execution) [
      | some text ↦ (finished (some (canceled text)), w)
      | none ↦
          if not w.plugin.is_initialized
          then (finished (some plugin_not_initialized), w)
          else start_loaded ctx (load_all core (reset_stop_channel w))
    ]
