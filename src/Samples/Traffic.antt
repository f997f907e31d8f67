-- ===== src/Samples/Traffic.antt =====
-- Requests to a plugin, one after the other, and what its metrics say of them.
use lynx_sentinel.Base.{
  ◌+◌, ◌<◌, ◌%◌, String, ◌≡◌, refl, true, is_some, List, [], ◌∷◌, none, some, arith, ltb,
}
use lynx_sentinel.Base.Words.{two63, two64}
use lynx_sentinel.Config.{set_defaults}
use lynx_sentinel.Metrics.{MetricsSummary, new_metrics_collector}
use lynx_sentinel.Metrics.History.{run}
use lynx_sentinel.Plugin.{returned, panicked, collector_at}
use lynx_sentinel.Plugin.Traffic.{
  Use, enters, exits, checks, executes, requests_in, use_all, Counted, use_all-Counted,
}
use lynx_sentinel.Lifecycle.Tasks.{initialize_resources}
use lynx_sentinel.Lifecycle.Initialization.{completed}
use lynx_sentinel.Registry.{managed, get_sentinel}
use lynx_sentinel.Registry.Queries.{get_metrics}
use lynx_sentinel.Registry.Traffic.{get_metrics-initialize_resources}
use lynx_sentinel.Samples.{small_core, small_host, small_platform, new_world, ready_world}
use lynx_sentinel.Samples.Lifecycles.{initialization_fine}
use lynx_sentinel.Samples.Registered.{with_manager}

abbrev uses : List (Use String)
uses =
    enters "a" []
    ∷ checks "closed" 7
    ∷ executes "a" (returned (some "timeout")) 5 []
    ∷ exits 0
    ∷ executes "b" panicked 9 []
    ∷ []

ready-Counted : Counted 0 (new_metrics_collector 30000000000) ready_world
unfolding collector_at
ready-Counted = record { ready = refl; pointer = refl; collector = refl }

use_all-Counted_example :
    Counted 0
      (run small_platform
        (new_metrics_collector 30000000000)
        (use_all small_core small_platform uses ready_world).0)
      (use_all small_core small_platform uses ready_world).1
use_all-Counted_example =
    use_all-Counted small_core small_platform 0 uses (new_metrics_collector 30000000000) ready_world
      ready-Counted

collects : (completed small_host new_world).metrics.enabled ≡ true
unfolding set_defaults
collects = refl

reads_interval :
    small_platform.parse_duration (completed small_host new_world).metrics.interval
    ≡ some 30000000000
unfolding set_defaults
reads_interval = refl

four_requests : requests_in uses < two63
unfolding requests_in
four_requests = omega arith

finds_plugin :
    get_sentinel with_manager
      (use_all small_core small_platform uses
        (initialize_resources small_host small_core small_platform new_world).1).1.host
    ≡ managed
unfolding get_sentinel
finds_plugin = refl

get_metrics-initialize_resources_example :
    let w' =
      (use_all small_core small_platform uses
        (initialize_resources small_host small_core small_platform new_world).1).1 in
    (s : MetricsSummary) × ((get_metrics with_manager small_platform w').0 ≡ (some s, none))
    × (s.total_requests ≡ requests_in uses)
    × ((s.total_passed + s.total_blocked) % two64 ≡ requests_in uses)
    × (is_some s.pass_rate ≡ ltb 0 (requests_in uses))
get_metrics-initialize_resources_example =
    get_metrics-initialize_resources small_host with_manager small_core small_platform new_world
      uses 30000000000 initialization_fine collects reads_interval four_requests finds_plugin
