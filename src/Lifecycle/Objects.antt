-- ===== src/Lifecycle/Objects.antt =====
-- The collector and the server that a successful InitializeResources makes.
use lynx_sentinel.Base.{
  ℕ, ◌≤◌, ◌<◌, String, ◌≡◌, refl, ap, ◌∙◌, true, false, List, [], ◌∷◌, ◌++◌, Option, none, some,
  arith, length, get_elem?, inl, inr,
}
use lynx_sentinel.Base.Float.{Platform}
use lynx_sentinel.Base.Words.{two32, is_positive64}
use lynx_sentinel.Config.{
  SentinelConfig, validate_configuration, validate_and_set_defaults, set_defaults,
}
use lynx_sentinel.Config.Checks.{validate_configuration_iff}
use lynx_sentinel.Config.Defaults.{set_defaults-IsComplete}
use lynx_sentinel.Engine.{Engine}
use lynx_sentinel.Metrics.{MetricsCollector, new_metrics_collector}
use lynx_sentinel.Metrics.Collecting.{Signal, panics, start, start_panics}
use lynx_sentinel.Plugin.{World, DashboardServer, collector_at}
use lynx_sentinel.Lifecycle.{Host, initialize_sentinel_core}
use lynx_sentinel.Lifecycle.Tasks.{
  make_collector, make_dashboard, mark_initialized, store_conf, initialize_core,
  initialize_configured, initialize_resources,
}
use lynx_sentinel.Lifecycle.Initialization.{based, completed, initialize_resources-healthy}

get_elem?-last : {A : Type 0} (l : List A) (x : A) → get_elem? (l ++ x ∷ []) (length l) ≡ some x
get_elem?-last [] x = refl
get_elem?-last (y ∷ l) x = get_elem?-last l x

module _ {S H O : Type 0} (host : Host H) (core : Engine S O) (platform : Platform)
    (w : World S H) where
  -- The world in which the objects are made.
  abbrev with_core : World S H
  with_core =
      (initialize_sentinel_core core (completed host w)
        (store_conf (completed host w) (record w { host = based host w }))).1

  initialize_resources-makes :
      (initialize_resources host core platform w).0 ≡ none
      → (initialize_resources host core platform w).1
        ≡ mark_initialized (
            make_dashboard
              (completed host w)
              (make_collector platform (completed host w) with_core))
  unfolding initialize_resources initialize_configured initialize_core validate_and_set_defaults
  initialize_resources-makes ok = ground arith

module _ {S H : Type 0} where
  make_collector-collector_at :
      (platform : Platform) (c : SentinelConfig) (w : World S H) (d : ℕ)
      → c.metrics.enabled ≡ true
      → platform.parse_duration c.metrics.interval ≡ some d
      → let w' = make_collector platform c w in
        collector_at w'.plugin.metrics_collector w' ≡ some (new_metrics_collector d)
  unfolding make_collector collector_at
  make_collector-collector_at platform c w d on parsed =
      rw (on, parsed, make_collector) (get_elem?-last w.collectors (new_metrics_collector d))

  collector_at-table :
      (c : Option ℕ) (w w' : World S H)
      → w'.collectors ≡ w.collectors
      → collector_at c w' ≡ collector_at c w
  unfolding collector_at
  collector_at-table none w w' e = refl
  collector_at-table (some p) w w' e = ap (λ l. get_elem? l p) e

  make_dashboard-collectors :
      (c : SentinelConfig) (w : World S H)
      → let w' = mark_initialized (make_dashboard c w) in
        (w'.plugin.metrics_collector ≡ w.plugin.metrics_collector) × (w'.collectors ≡ w.collectors)
  unfolding mark_initialized make_dashboard
  make_dashboard-collectors c w = ground arith

  -- The later assignments leave the collectors alone.
  collector_at_kept :
      (c : SentinelConfig) (w : World S H) {mc : MetricsCollector}
      → collector_at w.plugin.metrics_collector w ≡ some mc
      → let w' = mark_initialized (make_dashboard c w) in
        collector_at w'.plugin.metrics_collector w' ≡ some mc
  collector_at_kept c w e =
      let w' = mark_initialized (make_dashboard c w) in
      let (pointer, table) = make_dashboard-collectors c w in
      collector_at-table w'.plugin.metrics_collector w w' table
      ∙ ap (λ p. collector_at p w) pointer
      ∙ e

  make_dashboard-port :
      (c : SentinelConfig) (w : World S H)
      → c.dashboard.enabled ≡ true
      → let w' = mark_initialized (make_dashboard c w) in
        (p : ℕ) × (w'.plugin.dashboard_server ≡ some p)
        × ((ds : DashboardServer) × (get_elem? w'.dashboards p ≡ some ds)
            × (ds.port ≡ c.dashboard.port))
  unfolding mark_initialized make_dashboard
  make_dashboard-port c w on =
      rw (on, make_dashboard) (length w.dashboards, refl, (_, get_elem?-last w.dashboards _, refl))

default_port-lt :
    (name : String) (c : SentinelConfig)
    → c.dashboard.port < two32
    → (set_defaults name c).dashboard.port < two32
unfolding set_defaults
default_port-lt name c h = ground arith

-- The port that a valid configuration has after the defaults.
valid_port :
    (name : String) (c : SentinelConfig)
    → c.dashboard.port < two32
    → validate_configuration (set_defaults name c) ≡ none
    → (1024 ≤ (set_defaults name c).dashboard.port) × ((set_defaults name c).dashboard.port ≤ 65535)
valid_port name c word ok =
    let v = (validate_configuration_iff (set_defaults name c) (default_port-lt name c word)).0 ok in
    elim v.port [
      | inl missing ↦ absurd ((set_defaults-IsComplete name c).port missing)
      | inr range ↦ range
    ]

module _ {S H O : Type 0} (host : Host H) (core : Engine S O) (platform : Platform)
    (w : World S H) where
  -- The collector of an initialization with the metrics enabled.
  pub initialize_resources-collector_at :
      (d : ℕ)
      → (initialize_resources host core platform w).0 ≡ none
      → (completed host w).metrics.enabled ≡ true
      → platform.parse_duration (completed host w).metrics.interval ≡ some d
      → let w' = (initialize_resources host core platform w).1 in
        collector_at w'.plugin.metrics_collector w' ≡ some (new_metrics_collector d)
  initialize_resources-collector_at d ok on parsed =
      let with_core = with_core host core platform w in
      rw (initialize_resources-makes host core platform w ok) (
        collector_at_kept (completed host w) (make_collector platform (completed host w) with_core)
          (make_collector-collector_at platform (completed host w) with_core d on parsed))

  -- When the completed configuration has the metrics enabled and an interval that parses as a
  -- duration that is not positive, an InitializeResources that returns nil has stored a collector
  -- whose Start panics.
  pub initialize_resources-panics :
      (d : ℕ) (signals : List Signal)
      → (initialize_resources host core platform w).0 ≡ none
      → (completed host w).metrics.enabled ≡ true
      → platform.parse_duration (completed host w).metrics.interval ≡ some d
      → is_positive64 d ≡ false
      → let w' = (initialize_resources host core platform w).1 in
        (mc : MetricsCollector) × (collector_at w'.plugin.metrics_collector w' ≡ some mc)
        × (start platform mc signals ≡ panics)
  unfolding new_metrics_collector
  initialize_resources-panics d signals ok on parsed bad = (
    new_metrics_collector d,
    initialize_resources-collector_at d ok on parsed,
    start_panics platform (new_metrics_collector d) signals refl bad,
  )

  -- When the scanned port is the bit pattern of an int32 and the dashboard is enabled, an
  -- InitializeResources that returns nil has stored a dashboard server with a port from 1024 to
  -- 65535.
  pub initialize_resources-port :
      (initialize_resources host core platform w).0 ≡ none
      → (host.scan (based host w)).0.dashboard.port < two32
      → (completed host w).dashboard.enabled ≡ true
      → let w' = (initialize_resources host core platform w).1 in
        (p : ℕ) × (w'.plugin.dashboard_server ≡ some p)
        × ((ds : DashboardServer) × (get_elem? w'.dashboards p ≡ some ds)
            × (1024 ≤ ds.port)
            × (ds.port ≤ 65535))
  initialize_resources-port ok word on =
      let (p, pointer, (ds, e, port)) =
        make_dashboard-port (completed host w)
          (make_collector platform (completed host w) (with_core host core platform w)) on in
      let (low, high) =
        valid_port (host.name (based host w)) (host.scan (based host w)).0 word
          (initialize_resources-healthy host core platform w ok).1 in
      rw (initialize_resources-makes host core platform w ok)
        (p, pointer, (ds, e, rw port low, rw port high))
