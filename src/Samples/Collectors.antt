-- ===== src/Samples/Collectors.antt =====
-- Histories of a collector, and the orders of its entries.
use mathlib.Core.List.Perm
use lynx_sentinel.Base.{
  if◌then◌else◌, ltb, some, none, ◌+◌, ◌%◌, ◌≤◌, ◌≡◌, refl, true, false, List, [], ◌∷◌, map,
  is_some, length, All, Perm,
}
use lynx_sentinel.Base.Dict.{get_or, keys, lookup}
use lynx_sentinel.Base.Words.{two64, is_positive64}
use lynx_sentinel.Base.Float.{is_nan, magnitude}
use lynx_sentinel.Metrics.{
  MetricsCollector, window_size, new_metrics_collector, rt_ms, calculate_resource_stats,
  get_metrics_summary, summary_in, stats_loop, get_all_resource_stats,
}
use lynx_sentinel.Metrics.History.{Call, passed, blocked, timed, resets, run, tally, tally_start}
use lynx_sentinel.Metrics.Counters.{Shows, run-new-Shows}
use lynx_sentinel.Metrics.Window.{last, run-new-Remembers}
use lynx_sentinel.Metrics.Stats.{Describes, calculate_resource_stats-Describes}
use lynx_sentinel.Metrics.Orders.{summary_in_any_order}
use lynx_sentinel.Metrics.Listed.{get_all_resource_stats-run}
use lynx_sentinel.Metrics.Summary.{total, total_start, get_metrics_summary-run}
use lynx_sentinel.Samples.{small_platform}

abbrev history : List Call
history =
    passed "a" ∷ resets ∷ passed "a" ∷ blocked "a" ∷ passed "b" ∷ timed "a" 4841369599423283200 ∷ []

-- Two response times, 1.0 and 2.0.
abbrev pub timed_collector : MetricsCollector
timed_collector = record {
  enabled = true;
  interval = 30000000000;
  request_counter = ("a", 2) ∷ [];
  blocked_counter = [];
  passed_counter = ("a", 2) ∷ [];
  rt_histogram = ("a", 0x3ff0000000000000 ∷ 0x4000000000000000 ∷ []) ∷ [];
}

window_of_a :
    get_or [] "a" timed_collector.rt_histogram ≡ 0x3ff0000000000000 ∷ 0x4000000000000000 ∷ []
unfolding get_or
window_of_a = refl

numbers : All (λ rt. is_nan rt ≡ false) (0x3ff0000000000000 ∷ 0x4000000000000000 ∷ [])
unfolding is_nan magnitude
numbers = (refl, (refl, tt))

run-new-Shows_example :
    Shows "a"
      (run small_platform (new_metrics_collector 30000000000) history)
      (tally "a" tally_start history)
run-new-Shows_example = run-new-Shows small_platform "a" 30000000000 history

run-new-Remembers_example :
    let window =
      get_or [] "a" (run small_platform (new_metrics_collector 30000000000) history).rt_histogram in
    (window ≡ last window_size (map (rt_ms small_platform) (tally "a" tally_start history).times))
    × (length window ≤ window_size)
run-new-Remembers_example = run-new-Remembers small_platform "a" 30000000000 history

calculate_resource_stats-Describes_example :
    Describes small_platform
      (0x3ff0000000000000 ∷ 0x4000000000000000 ∷ [])
      (calculate_resource_stats small_platform 7 timed_collector "a")
calculate_resource_stats-Describes_example =
    calculate_resource_stats-Describes small_platform 7 timed_collector "a" 0x3ff0000000000000
      (0x4000000000000000 ∷ []) window_of_a numbers

get_metrics_summary-run_example :
    let s =
      get_metrics_summary small_platform
        (run small_platform (new_metrics_collector 30000000000) history) in
    (s.total_requests ≡ (total total_start history).requests % two64)
    × (s.total_requests ≡ (s.total_passed + s.total_blocked) % two64)
    × (is_some s.pass_rate ≡ is_positive64 s.total_requests)
    × (is_some s.block_rate ≡ is_positive64 s.total_requests)
get_metrics_summary-run_example = get_metrics_summary-run small_platform 30000000000 history

-- Two resources, met in the other order.
abbrev busy_collector : MetricsCollector
busy_collector = record timed_collector {
  request_counter = ("a", 2) ∷ ("b", 1) ∷ [];
  passed_counter = ("a", 2) ∷ [];
  blocked_counter = ("b", 1) ∷ [];
}

other_order : Perm ("b" ∷ "a" ∷ []) (keys busy_collector.request_counter)
other_order = Perm.swap "a" "b" []

summary_in_any_order_example :
    (summary_in small_platform ("b" ∷ "a" ∷ []) busy_collector
      ≡ get_metrics_summary small_platform busy_collector)
    × (lookup "b" (stats_loop small_platform (λ resource. 7) busy_collector [] ("b" ∷ "a" ∷ []))
        ≡ lookup "b" (get_all_resource_stats small_platform (λ resource. 7) busy_collector))
summary_in_any_order_example =
    summary_in_any_order small_platform (λ resource. 7) busy_collector ("b" ∷ "a" ∷ []) "b"
      other_order

-- A resource that was blocked once, and one that has only a response time.
abbrev few_calls : List Call
few_calls = timed "b" 5 ∷ blocked "a" ∷ []

get_all_resource_stats-run_example :
    let mc = run small_platform (new_metrics_collector 30000000000) few_calls in
    lookup "b" (get_all_resource_stats small_platform (λ resource. 7) mc) ≡ (
      if ltb 0 ((tally "b" tally_start few_calls).passes + (tally "b" tally_start few_calls).blocks)
      then some (calculate_resource_stats small_platform 7 mc "b")
      else none)
get_all_resource_stats-run_example =
    get_all_resource_stats-run small_platform 30000000000 (λ resource. 7) few_calls "b"
