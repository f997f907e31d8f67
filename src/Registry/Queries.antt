-- ===== src/Registry/Queries.antt =====
-- The package-level functions of plug.go that read or reset the plugin's objects: GetMetrics to
-- GetDashboardURL, ResetMetrics, IsHealthy, GetPluginInfo and Shutdown.
use mathlib.Core.Option
use lynx_sentinel.Base.{ℕ, String, Bool, false, Option, none, some, get_elem?}
use lynx_sentinel.Base.Dict.{Dict}
use lynx_sentinel.Base.Float.{Platform}
use lynx_sentinel.Engine.{Engine}
use lynx_sentinel.Metrics
use lynx_sentinel.Metrics.{MetricsCollector, MetricsSummary, ResourceStats}
use lynx_sentinel.Plugin.{World, DashboardServer, collector_at, on_collector}
use lynx_sentinel.Lifecycle
use lynx_sentinel.Lifecycle.{LifecycleError, Ending, finished, crashed, hangs}
use lynx_sentinel.Lifecycle.Hooks.{cleanup_tasks}
use lynx_sentinel.Dashboard.{get_url}
use lynx_sentinel.Registry.{
  Registry, RegistryError, Failure, no_sentinel, no_collector, no_dashboard, lifecycle_failed,
  with_sentinel,
}

-- A result, or an error.
abbrev pub Fetched : Type 0 → Type 0
Fetched A = Option A × Option Failure

-- How Shutdown ends: as the cleanup does.
pub data ShutDown : Type 0 where
  shut : Option Failure → ShutDown
  shut_crashed shut_hangs : ShutDown

unfoldable pub of_ending : Ending → ShutDown
of_ending (finished e) = shut (Option.map lifecycle_failed e)
of_ending crashed = shut_crashed
of_ending hangs = shut_hangs

-- The information of plugin_meta.go.
pub record PluginInfo : Type 0 where
  pub name : String
  pub version : String
  pub description : String
  pub weight : ℕ

abbrev pub get_plugin_info : PluginInfo
get_plugin_info = record {
  name = "sentinel.flow_control";
  version = "v1.6.3";
  description = "Sentinel flow control and circuit breaker plugin for lynx framework";
  weight = 200;
}

module _ {S H : Type 0} where
  unfoldable pub dashboard_at : Option ℕ → World S H → Option DashboardServer
  dashboard_at none w = none
  dashboard_at (some p) w = get_elem? w.dashboards p

  -- `if plugin.metricsCollector == nil { return nil, … }`, and what is read of the collector.
  unfoldable pub from_collector :
      {A : Type 0} → (MetricsCollector → A) → World S H → Fetched A × World S H
  from_collector read w = elim (collector_at w.plugin.metrics_collector w) [
    | none ↦ ((none, some no_collector), w)
    | some mc ↦ ((some (read mc), none), w)
  ]

  abbrev pub unfetched : {A : Type 0} → RegistryError → World S H → Fetched A × World S H
  unfetched e w = ((none, some (no_sentinel e)), w)

  module _ (registry : Registry H) where
    unfoldable pub get_metrics : Platform → World S H → Fetched MetricsSummary × World S H
    get_metrics platform =
        with_sentinel registry unfetched (from_collector (Metrics.get_metrics_summary platform))

    unfoldable pub get_resource_stats :
        Platform → ℕ → String → World S H → Fetched ResourceStats × World S H
    get_resource_stats platform now resource =
        with_sentinel registry unfetched
          (from_collector (λ mc. Metrics.get_resource_stats platform now mc resource))

    unfoldable pub get_all_resource_stats :
        Platform → (String → ℕ) → World S H → Fetched (Dict ResourceStats) × World S H
    get_all_resource_stats platform clock =
        with_sentinel registry unfetched
          (from_collector (Metrics.get_all_resource_stats platform clock))

    unfoldable pub url_of : (ℕ → String) → World S H → Fetched String × World S H
    url_of decimal w = elim (dashboard_at w.plugin.dashboard_server w) [
      | none ↦ ((none, some no_dashboard), w)
      | some ds ↦ ((some (get_url decimal ds), none), w)
    ]

    unfoldable pub get_dashboard_url : (ℕ → String) → World S H → Fetched String × World S H
    get_dashboard_url decimal = with_sentinel registry unfetched (url_of decimal)

    unfoldable pub reset_collector : World S H → Option Failure × World S H
    reset_collector w = elim w.plugin.metrics_collector [
      | none ↦ (some no_collector, w)
      | some p ↦ (none, on_collector (some p) Metrics.reset w)
    ]

    unfoldable pub reset_metrics : World S H → Option Failure × World S H
    reset_metrics = with_sentinel registry (λ e w. (some (no_sentinel e), w)) reset_collector

    unfoldable pub is_healthy : World S H → Fetched Bool × World S H
    is_healthy =
        with_sentinel registry (λ e w. ((some false, some (no_sentinel e)), w))
          (λ w. ((some (Lifecycle.is_healthy w), none), w))

    unfoldable pub shutdown : {O : Type 0} → Engine S O → World S H → ShutDown × World S H
    shutdown core =
        with_sentinel registry (λ e w. (shut (some (no_sentinel e)), w))
          (λ w. let (ended, w') = cleanup_tasks core w in (of_ending ended, w'))
