-- ===== src/Samples/Histories.antt =====
-- Histories of a plugin, and the objects that it makes.
use lynx_sentinel.Base.{
  ℕ, ◌≡◌, refl, ◌≤◌, true, false, [], ◌∷◌, none, some, arith, get_elem?, str_eq, if◌then◌else◌,
}
use lynx_sentinel.Base.Float.{Platform, lt_f, is_nan, rank, magnitude}
use lynx_sentinel.Base.Words.{is_positive64}
use lynx_sentinel.Config.{
  SentinelConfig, validate_and_set_defaults, set_defaults, validate_configuration, check_port,
  check_all, check_flow_rule, check_cb_rule,
}
use lynx_sentinel.Metrics.{MetricsCollector}
use lynx_sentinel.Metrics.Collecting.{stop, panics, start}
use lynx_sentinel.Plugin.{DashboardServer, collector_at}
use lynx_sentinel.Lifecycle.{Host, init_core_once, initialize_sentinel_core}
use lynx_sentinel.Lifecycle.Tasks.{
  initialize_configured, initialize_core, store_conf, initialize_resources,
}
use lynx_sentinel.Lifecycle.Initialization.{completed}
use lynx_sentinel.Lifecycle.Objects.{initialize_resources-panics, initialize_resources-port}
use lynx_sentinel.Samples.{small_core, small_host, small_platform, two_rules, new_world}
use lynx_sentinel.Samples.Lifecycles.{initialization_fine}

-- A configuration with an interval of zero, and a platform that reads it.
abbrev zero_interval : SentinelConfig
zero_interval = record two_rules { metrics = record { enabled = true; interval = "0s" } }

abbrev zero_host : Host ℕ
zero_host = record small_host { scan = λ h. (zero_interval, none) }

abbrev reading_platform : Platform
reading_platform = record small_platform {
  parse_duration = λ text. if str_eq text "0s" then some 0 else none;
}

zero_interval_fine : (initialize_resources zero_host small_core reading_platform new_world).0 ≡ none
unfolding initialize_resources initialize_configured initialize_core initialize_sentinel_core
    init_core_once validate_and_set_defaults set_defaults validate_configuration check_port
    check_all check_flow_rule check_cb_rule lt_f is_nan rank magnitude store_conf
zero_interval_fine = refl

stays_on : (completed zero_host new_world).metrics.enabled ≡ true
unfolding set_defaults
stays_on = refl

reads_zero :
    reading_platform.parse_duration (completed zero_host new_world).metrics.interval ≡ some 0
unfolding set_defaults
reads_zero = refl

zero_not_positive : is_positive64 0 ≡ false
zero_not_positive = refl

initialize_resources-panics_example :
    let w' = (initialize_resources zero_host small_core reading_platform new_world).1 in
    (mc : MetricsCollector) × (collector_at w'.plugin.metrics_collector w' ≡ some mc)
    × (start reading_platform mc (stop ∷ []) ≡ panics)
initialize_resources-panics_example =
    initialize_resources-panics zero_host small_core reading_platform new_world 0 (stop ∷ [])
      zero_interval_fine stays_on reads_zero zero_not_positive

serves_pages : (completed small_host new_world).dashboard.enabled ≡ true
unfolding set_defaults
serves_pages = refl

initialize_resources-port_example :
    let w' = (initialize_resources small_host small_core small_platform new_world).1 in
    (p : ℕ) × (w'.plugin.dashboard_server ≡ some p)
    × ((ds : DashboardServer) × (get_elem? w'.dashboards p ≡ some ds)
        × (1024 ≤ ds.port)
        × (ds.port ≤ 65535))
initialize_resources-port_example =
    initialize_resources-port small_host small_core small_platform new_world initialization_fine
      (omega arith) serves_pages
