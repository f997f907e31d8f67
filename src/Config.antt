-- ===== src/Config.antt =====
-- types.go and lifecycle.go: the configuration, its defaults and its validation.
-- Integers are their bit patterns; a threshold is the bit pattern of a float64.
pub mod Checks
pub mod Defaults
use lynx_sentinel.Base.{
  ℕ, suc, String, Bool, not, ◌&&◌, ◌||◌, List, [], ◌∷◌, Option, none, some, str_eq, ltb, ◌==◌,
  if◌then◌else◌, ◌or_else◌,
}
use lynx_sentinel.Base.Words.{lt32}
use lynx_sentinel.Base.Float.{lt_f, zero_f}

pub record FlowRule : Type 0 where
  pub resource : String
  pub token_calculate_strategy : ℕ
  pub control_behavior : ℕ
  pub threshold : ℕ
  pub relation_strategy : ℕ
  pub ref_resource : String
  pub max_queueing_time_ms : ℕ
  pub warm_up_period_sec : ℕ
  pub warm_up_cold_factor : ℕ
  pub stat_interval_in_ms : ℕ
  pub low_mem_usage_threshold : ℕ
  pub high_mem_usage_threshold : ℕ
  pub mem_low_water_mark_bytes : ℕ
  pub mem_high_water_mark_bytes : ℕ

pub record CircuitBreakerRule : Type 0 where
  pub resource : String
  pub strategy : ℕ
  pub retry_timeout_ms : ℕ
  pub min_request_amount : ℕ
  pub stat_interval_ms : ℕ
  pub stat_sliding_window_bucket_count : ℕ
  pub threshold : ℕ
  pub probe_num : ℕ

pub record SystemRule : Type 0 where
  pub metric_type : ℕ
  pub trigger_count : ℕ
  pub strategy : ℕ

pub record MetricsConfig : Type 0 where
  pub enabled : Bool
  pub interval : String

pub record DashboardConfig : Type 0 where
  pub enabled : Bool
  pub port : ℕ

pub record FileSource : Type 0 where
  pub flow_rules_path : String
  pub circuit_breaker_rules_path : String
  pub system_rules_path : String

-- `kind` is the source's field `Type`.
pub record DataSourceConfig : Type 0 where
  pub kind : String
  pub file : FileSource

pub record WarmUpConfig : Type 0 where
  pub enabled : Bool
  pub duration : String

pub record AdvancedConfig : Type 0 where
  pub stat_interval_ms : ℕ
  pub metric_log_flush_interval_sec : ℕ

pub record SentinelConfig : Type 0 where
  pub enabled : Bool
  pub app_name : String
  pub log_level : String
  pub log_dir : String
  pub flow_rules : List FlowRule
  pub cb_rules : List CircuitBreakerRule
  pub system_rules : List SystemRule
  pub metrics : MetricsConfig
  pub dashboard : DashboardConfig
  pub data_source : DataSourceConfig
  pub warm_up : WarmUpConfig
  pub advanced : AdvancedConfig

-- The errors of `validateConfiguration`; a number is the index of the rule.
pub data ConfigError : Type 0 where
  app_name_empty : ConfigError
  port_out_of_range : ConfigError
  flow_resource_empty : ℕ → ConfigError
  flow_threshold_negative : ℕ → ConfigError
  cb_resource_empty : ℕ → ConfigError
  cb_threshold_negative : ℕ → ConfigError
  cb_min_request_negative : ℕ → ConfigError

-- The body of the loop over the flow rules.
unfoldable pub check_flow_rule : ℕ → FlowRule → Option ConfigError
check_flow_rule i rule =
    if str_eq rule.resource ""
    then some (flow_resource_empty i)
    else if lt_f rule.threshold zero_f
    then some (flow_threshold_negative i)
    else none

-- The body of the loop over the circuit breaker rules; `MinRequestAmount` is a uint64.
unfoldable pub check_cb_rule : ℕ → CircuitBreakerRule → Option ConfigError
check_cb_rule i rule =
    if str_eq rule.resource ""
    then some (cb_resource_empty i)
    else if lt_f rule.threshold zero_f
    then some (cb_threshold_negative i)
    else if ltb rule.min_request_amount 0
    then some (cb_min_request_negative i)
    else none

-- `for i, rule := range rules` with an early return.
unfoldable pub check_all {ℓ} :
    {A : Type ℓ} → (ℕ → A → Option ConfigError) → ℕ → List A → Option ConfigError
check_all check i [] = none
check_all check i (rule ∷ rules) = check i rule or_else check_all check (suc i) rules

-- `conf.Dashboard.Port` is an int32.
unfoldable pub check_port : ℕ → Option ConfigError
check_port port =
    if not (port == 0) && (lt32 port 1024 || lt32 65535 port) then some port_out_of_range else none

unfoldable pub validate_configuration : SentinelConfig → Option ConfigError
validate_configuration conf =
    if str_eq conf.app_name ""
    then some app_name_empty
    else check_port conf.dashboard.port
      or_else check_all check_flow_rule 0 conf.flow_rules
      or_else check_all check_cb_rule 0 conf.cb_rules

-- `if text == "" { text = fallback }`.
unfoldable pub or_default : String → String → String
or_default text fallback = if str_eq text "" then fallback else text

-- The assignments of `validateAndSetDefaults`; `lynx_name` is what `lynx.GetName()` returns.
unfoldable pub set_defaults : String → SentinelConfig → SentinelConfig
unfolding or_default
set_defaults lynx_name conf = record conf {
  app_name = or_default conf.app_name (or_default lynx_name "lynx-app");
  log_dir = or_default conf.log_dir "./logs/sentinel";
  log_level = or_default conf.log_level "info";
  metrics = record metrics { interval = or_default metrics.interval "30s" };
  dashboard = record dashboard { port = if dashboard.port == 0 then 8719 else dashboard.port };
}
  where
    open conf use {metrics, dashboard}

-- The configuration as the call leaves it, and its error.
unfoldable pub validate_and_set_defaults :
    String → SentinelConfig → SentinelConfig × Option ConfigError
validate_and_set_defaults lynx_name conf =
    let conf' = set_defaults lynx_name conf in (conf', validate_configuration conf')
