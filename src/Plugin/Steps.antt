-- ===== src/Plugin/Steps.antt =====
-- Entry, on each of its branches, and calls of the collector.
use lynx_sentinel.Base.{String, ◌≡◌, true, false, List, Option, none, some, ℕ, refl, arith}
use lynx_sentinel.Metrics.{MetricsCollector}
use lynx_sentinel.Engine.{Engine}
use lynx_sentinel.Plugin.{
  World, on_collector, runtime_state, admit, entry, nil_value, not_initialized,
}

pub on_collector-core :
    {S H : Type 0} (c : Option ℕ) (f : MetricsCollector → MetricsCollector) (w : World S H)
    → (on_collector c f w).core ≡ w.core
unfolding on_collector
on_collector-core none f w = refl
on_collector-core (some p) f w = ground arith

pub on_collector-host :
    {S H : Type 0} (c : Option ℕ) (f : MetricsCollector → MetricsCollector) (w : World S H)
    → (on_collector c f w).host ≡ w.host
unfolding on_collector
on_collector-host none f w = refl
on_collector-host (some p) f w = ground arith

module _ {S H O : Type 0} (core : Engine S O) (resource : String) (opts : List O)
    (w : World S H) where
  pub entry_ready :
      w.plugin.sentinel_initialized ≡ true
      → entry core resource opts w
        ≡ admit core w.plugin.metrics_collector resource (core.enter resource opts w.core) w
  unfolding entry runtime_state
  entry_ready h = ground arith

  pub entry_unready :
      w.plugin.sentinel_initialized ≡ false
      → entry core resource opts w ≡ ((nil_value, some not_initialized), w)
  unfolding entry runtime_state
  entry_unready h = ground arith
