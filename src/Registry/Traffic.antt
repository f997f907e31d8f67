-- ===== src/Registry/Traffic.antt =====
-- GetMetrics after requests to the plugin of the manager.
use lynx_sentinel.Base.{
  ℕ, ◌+◌, ◌<◌, ◌%◌, String, ◌≡◌, refl, sym, ap, ◌∙◌, Bool, true, false, is_some, List, [], ◌∷◌,
  ◌++◌, Option, none, some, arith, if◌then◌else◌, ltb,
}
use lynx_sentinel.Base.Float.{Platform}
use lynx_sentinel.Base.Words.{two63, two64, is_positive64}
use lynx_sentinel.Engine.{Engine}
use lynx_sentinel.Metrics.{
  MetricsCollector, MetricsSummary, new_metrics_collector, get_metrics_summary,
}
use lynx_sentinel.Metrics.History.{Call, run}
use lynx_sentinel.Metrics.Summary.{Total, total_start, total_step, total, get_metrics_summary-run}
use lynx_sentinel.Plugin.{World, Ran, returned, panicked, collector_at}
use lynx_sentinel.Plugin.Traffic.{
  Use, enters, exits, checks, executes, verdict, settled, requests_of, requests_in, use_plugin,
  use_all, Counted, use_all-Counted,
}
use lynx_sentinel.Lifecycle.{Host, is_healthy}
use lynx_sentinel.Lifecycle.Tasks.{initialize_resources}
use lynx_sentinel.Lifecycle.Initialization.{completed, initialize_resources-healthy}
use lynx_sentinel.Lifecycle.Objects.{initialize_resources-collector_at}
use lynx_sentinel.Registry.{Registry, managed, get_sentinel, with_sentinel-managed}
use lynx_sentinel.Registry.Queries.{get_metrics, from_collector}

-- An enabled collector that has counted `n` requests.
record Sees (n : ℕ) (t : Total) : Type 0 where
  enabled : t.enabled ≡ true
  requests : t.requests ≡ n

verdict-Sees :
    (n : ℕ) (resource : String) (granted : Bool) (t : Total)
    → Sees n t
    → Sees (n + 1) (total_step t (verdict resource granted))
unfolding total_step
verdict-Sees n resource true t s = ground (arith, s.enabled, s.requests)
verdict-Sees n resource false t s = ground (arith, s.enabled, s.requests)

settled-Sees :
    (n : ℕ) (resource : String) (elapsed : ℕ) (ran : Ran) (granted : Bool) (t : Total)
    → Sees n t
    → Sees n (total t (if granted then settled resource elapsed ran else []))
unfolding total total_step
settled-Sees n resource elapsed ran false t s = s
settled-Sees n resource elapsed panicked true t s = s
settled-Sees n resource elapsed (returned none) true t s = s
settled-Sees n resource elapsed (returned (some text)) true t s = s

total-append : (t : Total) (xs ys : List Call) → total t (xs ++ ys) ≡ total (total t xs) ys
unfolding total
total-append t [] ys = refl
total-append t (x ∷ xs) ys = total-append (total_step t x) xs ys

module _ {S H O : Type 0} (core : Engine S O) (platform : Platform) where
  use_plugin-Sees :
      (n : ℕ) (u : Use O) (w : World S H) (t : Total)
      → Sees n t
      → Sees (n + requests_of u) (total t (use_plugin core platform u w).0)
  unfolding use_plugin total
  use_plugin-Sees n (enters resource opts) w t s = verdict-Sees n resource _ t s
  use_plugin-Sees n (exits handle) w t s = record {
    enabled = s.enabled;
    requests = omega (arith, s.requests);
  }
  use_plugin-Sees n (checks resource now) w t s = verdict-Sees n resource _ t s
  use_plugin-Sees n (executes resource ran elapsed opts) w t s =
      settled-Sees (n + 1) resource elapsed ran _ _ (verdict-Sees n resource _ t s)

  use_all-Sees :
      (n : ℕ) (us : List (Use O)) (w : World S H) (t : Total)
      → Sees n t
      → Sees (n + requests_in us) (total t (use_all core platform us w).0)
  unfolding use_all total requests_in
  use_all-Sees n [] w t s = record { enabled = s.enabled; requests = omega (arith, s.requests) }
  use_all-Sees n (u ∷ us) w t s =
      let (calls, w') = use_plugin core platform u w in
      let rest =
        use_all-Sees (n + requests_of u) us w' (total t calls) (use_plugin-Sees n u w t s) in
      rw (total-append t calls (use_all core platform us w').0)
        record { enabled = rest.enabled; requests = omega (arith, rest.requests) }

from_collector_lem :
    {S H A : Type 0} (read : MetricsCollector → A) (w : World S H) {c : ℕ} {mc : MetricsCollector}
    → Counted c mc w
    → (from_collector read w).0 ≡ (some (read mc), none)
unfolding from_collector
from_collector_lem read w {c} {mc} k =
    let e : collector_at w.plugin.metrics_collector w ≡ some mc =
      ap (λ p. collector_at p w) k.pointer ∙ k.collector in
    rw (e, from_collector) refl

-- A word below 2 ^ 63 is positive as an int64 unless it is zero.
small_positive : (n : ℕ) → n < two63 → is_positive64 n ≡ ltb 0 n
small_positive n h = ground arith

module _ {S H O : Type 0} (registry : Registry H) (core : Engine S O) (platform : Platform) where
  -- From a new collector on, the metrics count the requests.
  get_metrics-use_all :
      (us : List (Use O)) (c interval : ℕ) (w : World S H)
      → Counted c (new_metrics_collector interval) w
      → requests_in us < two63
      → let w' = (use_all core platform us w).1 in
        get_sentinel registry w'.host ≡ managed
        → (s : MetricsSummary) × ((get_metrics registry platform w').0 ≡ (some s, none))
          × (s.total_requests ≡ requests_in us)
          × ((s.total_passed + s.total_blocked) % two64 ≡ requests_in us)
          × (is_some s.pass_rate ≡ ltb 0 (requests_in us))
  unfolding get_metrics total_start
  get_metrics-use_all us c interval w k small found =
      let (calls, w') = use_all core platform us w in
      let mc = run platform (new_metrics_collector interval) calls in
      let after = use_all-Counted core platform c us (new_metrics_collector interval) w k in
      let sees =
        use_all-Sees core platform 0 us w total_start record { enabled = refl; requests = refl } in
      let (all, parts, rate, _) = get_metrics_summary-run platform interval calls in
      let exact : (get_metrics_summary platform mc).total_requests ≡ requests_in us =
        omega (arith, all, sees.requests) in
      (
        get_metrics_summary platform mc,
        ap (λ r. r.0) (with_sentinel-managed registry _ _ w' found)
            ∙ from_collector_lem (get_metrics_summary platform) w' after,
        exact,
        sym parts ∙ exact,
        rate ∙ ap is_positive64 exact ∙ small_positive (requests_in us) small,
      )

-- A pointer to a collector is not nil.
pointed :
    {S H : Type 0} (p : Option ℕ) (w : World S H) {mc : MetricsCollector}
    → collector_at p w ≡ some mc
    → (c : ℕ) × (p ≡ some c) × (collector_at (some c) w ≡ some mc)
unfolding collector_at
pointed none w e = cc
pointed (some c) w e = (c, refl, e)

module _ {S H O : Type 0} (host : Host H) (registry : Registry H) (core : Engine S O)
    (platform : Platform) (w : World S H) where
  healthy_ready : (w' : World S H) → is_healthy w' ≡ true → w'.plugin.sentinel_initialized ≡ true
  unfolding is_healthy
  healthy_ready w' up = ground arith

  initialize_resources-Counted :
      (d : ℕ)
      → (initialize_resources host core platform w).0 ≡ none
      → (completed host w).metrics.enabled ≡ true
      → platform.parse_duration (completed host w).metrics.interval ≡ some d
      → (c : ℕ) × Counted c (new_metrics_collector d) (initialize_resources host core platform w).1
  initialize_resources-Counted d ok on parsed =
      let w' = (initialize_resources host core platform w).1 in
      let (c, pointer, e) =
        pointed w'.plugin.metrics_collector w'
          (initialize_resources-collector_at host core platform w d ok on parsed) in
      (
        c,
        record {
          ready = healthy_ready w' (initialize_resources-healthy host core platform w ok).2;
          pointer = pointer;
          collector = e;
        },
      )

  -- After an InitializeResources that returns nil with the metrics enabled and a readable interval,
  -- and fewer than 2 ^ 63 requests by Entry, CheckFlow and Execute, with functions that only return
  -- or panic, GetMetrics of a plugin that the manager holds reports exactly the number of requests
  -- as the total, which is also the sum of those passed and blocked modulo 2 ^ 64, and the pass
  -- rate exactly if there was a request.
  pub get_metrics-initialize_resources :
      (us : List (Use O)) (d : ℕ)
      → (initialize_resources host core platform w).0 ≡ none
      → (completed host w).metrics.enabled ≡ true
      → platform.parse_duration (completed host w).metrics.interval ≡ some d
      → requests_in us < two63
      → let w' = (use_all core platform us (initialize_resources host core platform w).1).1 in
        get_sentinel registry w'.host ≡ managed
        → (s : MetricsSummary) × ((get_metrics registry platform w').0 ≡ (some s, none))
          × (s.total_requests ≡ requests_in us)
          × ((s.total_passed + s.total_blocked) % two64 ≡ requests_in us)
          × (is_some s.pass_rate ≡ ltb 0 (requests_in us))
  get_metrics-initialize_resources us d ok on parsed small found =
      let (c, k) = initialize_resources-Counted d ok on parsed in
      get_metrics-use_all registry core platform us c d
        (initialize_resources host core platform w).1 k small found
