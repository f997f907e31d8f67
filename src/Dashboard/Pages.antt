-- ===== src/Dashboard/Pages.antt =====
-- The handlers of dashboard.go. What package json makes of a value is a parameter: a text, or an error,
-- as for a float64 that is not a number or infinite.
use lynx_sentinel.Base.{
  ℕ, String, List, [], ◌∷◌, Option, none, some, length, is_some, if◌then◌else◌,
}
use lynx_sentinel.Base.Dict.{Dict}
use lynx_sentinel.Base.Float.{Platform}
use lynx_sentinel.Engine.{CoreFlowRule, CoreCbRule, CoreSystemRule, Engine}
use lynx_sentinel.Rules.{get_flow_rules, get_circuit_breaker_rules, get_system_rules}
use lynx_sentinel.Metrics.{
  MetricsCollector, ResourceStats, MetricsSummary, get_metrics_summary, get_all_resource_stats,
}
use lynx_sentinel.Plugin.{World}
use lynx_sentinel.Registry.{Registry, RegistryError, with_sentinel}
use lynx_sentinel.Dashboard.{is_running}
use lynx_sentinel.Dashboard.Serving.{Board}

-- The response: a JSON text with status 200, or `http.Error` with a status and a text.
pub data Answer : Type 0 where
  json : String → Answer
  http_error : ℕ → String → Answer

-- The fields of an entry of /api/resources.
pub record ResourceView : Type 0 where
  pub resource : String
  pub total_qps : ℕ
  pub pass_qps : ℕ
  pub block_qps : ℕ
  pub avg_rt : ℕ
  pub min_rt : ℕ
  pub max_rt : ℕ
  pub timestamp : String

-- The value of /api/rules; the three counts are ints.
pub record RulesView : Type 0 where
  pub flow_rules : List CoreFlowRule
  pub circuit_breaker_rules : List CoreCbRule
  pub system_rules : List CoreSystemRule
  pub flow_count : ℕ
  pub cb_count : ℕ
  pub system_count : ℕ

-- The value of /api/health.
pub record HealthView : Type 0 where
  pub status : String
  pub timestamp : String
  pub uptime : String
  pub version : String
  pub dashboard : String
  pub metrics_collector : String
  pub sentinel_core : String

-- `json.NewEncoder(w).Encode(v)`: nothing is written when a value cannot be encoded.
unfoldable pub respond_json : {A : Type 0} → (A → Option String) → A → Answer
respond_json encode value = elim (encode value) [
  | none ↦ http_error 500 "Internal server error"
  | some text ↦ json text
]

unfoldable pub handle_metrics :
    Platform → (MetricsSummary → Option String) → Option MetricsCollector → Answer
handle_metrics platform encode none = http_error 503 "Metrics collector not available"
handle_metrics platform encode (some mc) = respond_json encode (get_metrics_summary platform mc)

-- `format_time` is the layout RFC3339 of package time.
unfoldable pub view_stats : (ℕ → String) → ResourceStats → ResourceView
view_stats format_time stat = record {
  resource = stat.resource;
  total_qps = stat.total_qps;
  pass_qps = stat.pass_qps;
  block_qps = stat.block_qps;
  avg_rt = stat.avg_rt;
  min_rt = stat.min_rt;
  max_rt = stat.max_rt;
  timestamp = format_time stat.timestamp;
}

-- The loop over the statistics; their keys differ, so the new map has them in the same order.
unfoldable pub view_all : (ℕ → String) → Dict ResourceStats → Dict ResourceView
view_all format_time [] = []
view_all format_time ((resource, stat) ∷ stats) =
    (resource, view_stats format_time stat) ∷ view_all format_time stats

unfoldable pub handle_resources :
    Platform
    → (String → ℕ)
    → (ℕ → String)
    → (Dict ResourceView → Option String)
    → Option MetricsCollector
    → Answer
handle_resources platform clock format_time encode none =
    http_error 503 "Metrics collector not available"
handle_resources platform clock format_time encode (some mc) =
    respond_json encode (view_all format_time (get_all_resource_stats platform clock mc))

unfoldable pub view_rules : {S O : Type 0} → Engine S O → S → RulesView
view_rules core s =
    let flow_rules = get_flow_rules core s in
    let cb_rules = get_circuit_breaker_rules core s in
    let system_rules = get_system_rules core s in
    record {
      flow_rules = flow_rules;
      circuit_breaker_rules = cb_rules;
      system_rules = system_rules;
      flow_count = length flow_rules;
      cb_count = length cb_rules;
      system_count = length system_rules;
    }

-- `unavailable` is the text of `fmt.Sprintf("Sentinel plugin not available: %v", err)`.
unfoldable pub handle_rules :
    {S H O : Type 0}
    → Registry H
    → Engine S O
    → (RegistryError → String)
    → (RulesView → Option String)
    → World S H
    → Answer × World S H
handle_rules registry core unavailable encode =
    with_sentinel registry (λ e w. (http_error 503 (unavailable e), w))
      (λ w. (respond_json encode (view_rules core w.core), w))

-- `now` is the time of the request; `elapsed` is `time.Since`.
unfoldable pub health_view : Platform → (ℕ → String) → (ℕ → ℕ → ℕ) → ℕ → Board → HealthView
health_view platform format_time elapsed now b = record {
  status = if is_running b.server then "ok" else "degraded";
  timestamp = format_time now;
  uptime = elim b.started [
    | none ↦ "unknown"
    | some since ↦ platform.duration_text (elapsed since now)
  ];
  version = "1.0.0";
  dashboard = if is_running b.server then "running" else "stopped";
  metrics_collector = if is_some b.server.metrics_collector then "running" else "stopped";
  sentinel_core = "running";
}

unfoldable pub handle_health :
    Platform → (ℕ → String) → (ℕ → ℕ → ℕ) → (HealthView → Option String) → ℕ → Board → Answer
handle_health platform format_time elapsed encode now b =
    respond_json encode (health_view platform format_time elapsed now b)
