-- ===== src/Metrics.antt =====
-- metrics.go: the collector. A counter is an int64, held as a word; a response time is a float64; a
-- duration is an int64 of nanoseconds. The mutex makes each method one step. The fields `stopCh` and
-- `wg` of the collector are never used.
pub mod History
pub mod Counters
pub mod Window
pub mod Stats
pub mod Summary
pub mod Orders
pub mod Listed
pub mod Collecting
use lynx_sentinel.Base.{
  ℕ, suc, ◌+◌, String, Bool, true, List, [], ◌∷◌, ◌++◌, Option, none, some, ltb, if◌then◌else◌,
  length,
}
use lynx_sentinel.Base.Dict.{Dict, insert, get_or, keys}
use lynx_sentinel.Base.Words.{add64, is_positive64}
use lynx_sentinel.Base.Float.{Platform, lt_f, zero_f, million_f}

pub record MetricsCollector : Type 0 where
  pub enabled : Bool
  pub interval : ℕ
  pub request_counter : Dict ℕ
  pub blocked_counter : Dict ℕ
  pub passed_counter : Dict ℕ
  pub rt_histogram : Dict (List ℕ)

unfoldable pub new_metrics_collector : ℕ → MetricsCollector
new_metrics_collector interval = record {
  enabled = true;
  interval = interval;
  request_counter = [];
  blocked_counter = [];
  passed_counter = [];
  rt_histogram = [];
}

-- `m[k]++`.
unfoldable pub bump : String → Dict ℕ → Dict ℕ
bump k m = insert k (add64 (get_or 0 k m) 1) m

unfoldable pub record_passed : String → MetricsCollector → MetricsCollector
record_passed resource mc =
    if mc.enabled
    then record mc {
      request_counter = bump resource mc.request_counter;
      passed_counter = bump resource mc.passed_counter;
    }
    else mc

unfoldable pub record_blocked : String → MetricsCollector → MetricsCollector
record_blocked resource mc =
    if mc.enabled
    then record mc {
      request_counter = bump resource mc.request_counter;
      blocked_counter = bump resource mc.blocked_counter;
    }
    else mc

-- `s[1:]`.
unfoldable pub drop_first {ℓ} : {A : Type ℓ} → List A → List A
drop_first [] = []
drop_first (x ∷ xs) = xs

abbrev pub window_size : ℕ
window_size = 100

-- The append to the histogram and the cut of its oldest value.
unfoldable pub push_rt : String → ℕ → Dict (List ℕ) → Dict (List ℕ)
push_rt resource rt_ms histogram =
    let appended = insert resource (get_or [] resource histogram ++ rt_ms ∷ []) histogram in
    if ltb window_size (length (get_or [] resource appended))
    then insert resource (drop_first (get_or [] resource appended)) appended
    else appended

-- Only logs.
unfoldable pub record_error : String → MetricsCollector → MetricsCollector
record_error resource mc = mc

unfoldable pub reset : MetricsCollector → MetricsCollector
reset mc = record mc {
  request_counter = [];
  blocked_counter = [];
  passed_counter = [];
  rt_histogram = [];
}

unfoldable pub set_enabled : Bool → MetricsCollector → MetricsCollector
set_enabled enabled mc = record mc { enabled = enabled }

unfoldable pub set_interval : ℕ → MetricsCollector → MetricsCollector
set_interval interval mc = record mc { interval = interval }

pub record ResourceStats : Type 0 where
  pub resource : String
  pub pass_qps : ℕ
  pub block_qps : ℕ
  pub total_qps : ℕ
  pub avg_rt : ℕ
  pub min_rt : ℕ
  pub max_rt : ℕ
  pub exception_qps : ℕ
  pub timestamp : ℕ

-- The variables of the loop over the response times.
pub record Spread : Type 0 where
  pub sum : ℕ
  pub min : ℕ
  pub max : ℕ

-- The keys that the summary always has, and the two that it has when there were requests.
pub record MetricsSummary : Type 0 where
  pub total_requests : ℕ
  pub total_passed : ℕ
  pub total_blocked : ℕ
  pub resource_count : ℕ
  pub collection_interval : String
  pub enabled : Bool
  pub pass_rate : Option ℕ
  pub block_rate : Option ℕ

-- `total += m[resource]` for each of the resources.
unfoldable pub total_of : Dict ℕ → ℕ → List String → ℕ
total_of m total [] = total
total_of m total (k ∷ ks) = total_of m (add64 total (get_or 0 k m)) ks

module _ (platform : Platform) where
  open platform use {add, div, of_int64, seconds, duration_text}

  -- `float64(duration.Nanoseconds()) / 1e6`.
  unfoldable pub rt_ms : ℕ → ℕ
  rt_ms duration = div (of_int64 duration) million_f

  unfoldable pub record_rt : String → ℕ → MetricsCollector → MetricsCollector
  record_rt resource duration mc =
      if mc.enabled
      then record mc { rt_histogram = push_rt resource (rt_ms duration) mc.rt_histogram }
      else mc

  -- One round of the loop over the response times.
  unfoldable pub spread_step : Spread → ℕ → Spread
  spread_step v rt = record {
    sum = add v.sum rt;
    min = if lt_f rt v.min then rt else v.min;
    max = if lt_f v.max rt then rt else v.max;
  }

  unfoldable pub spread_loop : Spread → List ℕ → Spread
  spread_loop v [] = v
  spread_loop v (rt ∷ rts) = spread_loop (spread_step v rt) rts

  -- `AvgRT`, `MinRT` and `MaxRT`, if there are response times.
  unfoldable pub rt_stats : List ℕ → ResourceStats → ResourceStats
  rt_stats [] stats = stats
  rt_stats (rt ∷ rts) stats =
      let v = spread_loop (record { sum = zero_f; min = rt; max = rt }) (rt ∷ rts) in
      record stats {
        avg_rt = div v.sum (of_int64 (length (rt ∷ rts)));
        min_rt = v.min;
        max_rt = v.max;
      }

  -- `now` is the time that `time.Now()` returns.
  unfoldable pub calculate_resource_stats : ℕ → MetricsCollector → String → ResourceStats
  calculate_resource_stats now mc resource = rt_stats (get_or [] resource mc.rt_histogram) (record {
    resource = resource;
    pass_qps = rate mc.passed_counter;
    block_qps = rate mc.blocked_counter;
    total_qps = rate mc.request_counter;
    avg_rt = zero_f;
    min_rt = zero_f;
    max_rt = zero_f;
    exception_qps = zero_f;
    timestamp = now;
  })
    where
      rate : Dict ℕ → ℕ
      rate counter = div (of_int64 (get_or 0 resource counter)) (seconds mc.interval)

  unfoldable pub get_resource_stats : ℕ → MetricsCollector → String → ResourceStats
  get_resource_stats = calculate_resource_stats

  -- The loop of `GetAllResourceStats`, over the resources in any order; `clock` has the time at which each resource is read.
  unfoldable pub stats_loop :
      (String → ℕ) → MetricsCollector → Dict ResourceStats → List String → Dict ResourceStats
  stats_loop clock mc stats [] = stats
  stats_loop clock mc stats (k ∷ ks) =
      stats_loop clock mc (insert k (calculate_resource_stats (clock k) mc k) stats) ks

  unfoldable pub get_all_resource_stats : (String → ℕ) → MetricsCollector → Dict ResourceStats
  get_all_resource_stats clock mc = stats_loop clock mc [] (keys mc.request_counter)

  -- The loop may meet the resources in any order.
  unfoldable pub summary_in : List String → MetricsCollector → MetricsSummary
  summary_in resources mc =
      let total_requests = total_of mc.request_counter 0 resources in
      let total_passed = total_of mc.passed_counter 0 resources in
      let total_blocked = total_of mc.blocked_counter 0 resources in
      record {
        total_requests = total_requests;
        total_passed = total_passed;
        total_blocked = total_blocked;
        resource_count = length resources;
        collection_interval = duration_text mc.interval;
        enabled = mc.enabled;
        pass_rate =
            if is_positive64 total_requests
            then some (div (of_int64 total_passed) (of_int64 total_requests))
            else none;
        block_rate =
            if is_positive64 total_requests
            then some (div (of_int64 total_blocked) (of_int64 total_requests))
            else none;
      }

  unfoldable pub get_metrics_summary : MetricsCollector → MetricsSummary
  unfolding summary_in
  get_metrics_summary mc = summary_in (keys mc.request_counter) mc
