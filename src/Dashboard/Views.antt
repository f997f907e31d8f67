-- ===== src/Dashboard/Views.antt =====
-- What the pages show of the collector and of the server.
use mathlib.Core.Option
use lynx_sentinel.Base.{
  ℕ, ◌≤◌, String, ◌≡◌, refl, ap, ◌∙◌, [], ◌∷◌, Option, none, some, arith, if◌then◌else◌, length,
}
use lynx_sentinel.Base.Dict.{Dict, lookup, keys, has}
use lynx_sentinel.Base.Float.{Platform}
use lynx_sentinel.Metrics.{
  MetricsCollector, ResourceStats, get_resource_stats, get_all_resource_stats,
}
use lynx_sentinel.Metrics.Stats.{get_all_resource_stats_lem}
use lynx_sentinel.Dashboard.{new_dashboard_server}
use lynx_sentinel.Dashboard.Serving.{Board, Reach, any_serving}
use lynx_sentinel.Dashboard.Running.{is_running_alone}
use lynx_sentinel.Dashboard.Pages.{view_stats, view_all, health_view}

lookup-view_all :
    (format_time : ℕ → String) (wanted : String) (stats : Dict ResourceStats)
    → lookup wanted (view_all format_time stats)
      ≡ Option.map (view_stats format_time) (lookup wanted stats)
unfolding lookup view_all
lookup-view_all format_time wanted [] = refl
lookup-view_all format_time wanted ((resource, stat) ∷ stats) =
    ground (arith, lookup-view_all format_time wanted stats)

-- The resources page shows the statistics of the resources with a request counter, and of no
-- others.
pub view_all-get_all_resource_stats :
    (platform : Platform) (clock : String → ℕ) (format_time : ℕ → String) (mc : MetricsCollector)
    (resource : String)
    → lookup resource (view_all format_time (get_all_resource_stats platform clock mc)) ≡ (
        if has resource (keys mc.request_counter)
        then some
            (view_stats format_time (get_resource_stats platform (clock resource) mc resource))
        else none)
view_all-get_all_resource_stats platform clock format_time mc resource =
    lookup-view_all format_time resource (get_all_resource_stats platform clock mc)
    ∙ ap (Option.map (view_stats format_time))
        (get_all_resource_stats_lem platform clock mc resource)
    ∙ ground arith

-- As long as Start was launched at most once, the health page says ok and running exactly while
-- that goroutine has bound the port and not returned, and degraded and stopped otherwise.
pub health_view-any_serving :
    (platform : Platform) (format_time : ℕ → String) (elapsed : ℕ → ℕ → ℕ) (now port : ℕ)
    (collector : Option ℕ) (b : Board)
    → Reach (new_dashboard_server port collector) b
    → length b.runs ≤ 1
    → ((health_view platform format_time elapsed now b).status
        ≡ (if any_serving b.runs then "ok" else "degraded"))
      × ((health_view platform format_time elapsed now b).dashboard
          ≡ (if any_serving b.runs then "running" else "stopped"))
unfolding health_view
health_view-any_serving platform format_time elapsed now port collector b r short =
    let same = is_running_alone port collector b r short in
    (
      ap (λ on. if on then "ok" else "degraded") same,
      ap (λ on. if on then "running" else "stopped") same,
    )
