-- ===== src/Plugin/Recording.antt =====
-- What the metrics record of a request.
use lynx_sentinel.Base.{
  ℕ, ◌<◌, String, ◌≡◌, ap, ◌∙◌, Bool, true, false, List, some, arith, get_elem?, length,
  get_elem?-set_self, is_some, if◌then◌else◌, zero, suc, [], ◌∷◌, not,
}
use lynx_sentinel.Base.Dict.{get_or, get_or-insert_self}
use lynx_sentinel.Base.Words.{add64}
use lynx_sentinel.Engine.{Engine, Admission, admitted, blocked}
use lynx_sentinel.Metrics.{MetricsCollector, bump, record_passed, record_blocked}
use lynx_sentinel.Plugin.Steps.{entry_ready}
use lynx_sentinel.Plugin.{World, on_collector, admit, entry, collector_at}

get_elem?-lt-length {ℓ} :
    {A : Type ℓ} (l : List A) (i : ℕ) (a : A) → get_elem? l i ≡ some a → i < length l
get_elem?-lt-length [] i a e = cc
get_elem?-lt-length (x ∷ l) zero a e = omega arith
get_elem?-lt-length (x ∷ l) (suc i) a e = omega (arith, get_elem?-lt-length l i a e)

-- A call through a pointer changes what it points to.
pub collector_at-on_collector :
    {S H : Type 0} (c : ℕ) (f : MetricsCollector → MetricsCollector) (w : World S H)
    (mc : MetricsCollector)
    → collector_at (some c) w ≡ some mc
    → collector_at (some c) (on_collector (some c) f w) ≡ some (f mc)
unfolding collector_at on_collector
collector_at-on_collector c f w mc e =
    rw (e, on_collector)
      (get_elem?-set_self w.collectors c (f mc) (get_elem?-lt-length w.collectors c mc e))

collector_at_core :
    {S H : Type 0} (c : ℕ) (w : World S H) (mc : MetricsCollector) (s : S)
    → collector_at (some c) w ≡ some mc
    → collector_at (some c) (record w { core = s }) ≡ some mc
unfolding collector_at
collector_at_core c w mc s e = e

-- One request: the request counter of the resource goes up by one, and so does the counter of passed
-- or of blocked requests, the other one staying.
pub record Counts (resource : String) (granted : Bool) (before after : MetricsCollector)
    : Type 0 where
  pub requests :
      get_or 0 resource after.request_counter ≡ add64 (get_or 0 resource before.request_counter) 1
  pub passes : get_or 0 resource after.passed_counter ≡ (
      if granted
      then add64 (get_or 0 resource before.passed_counter) 1
      else get_or 0 resource before.passed_counter)
  pub blocks : get_or 0 resource after.blocked_counter ≡ (
      if granted
      then get_or 0 resource before.blocked_counter
      else add64 (get_or 0 resource before.blocked_counter) 1)

-- The bump of the counters that an enabled collector makes.
unfoldable pub after_verdict : String → Bool → MetricsCollector → MetricsCollector
after_verdict resource true mc = record_passed resource mc
after_verdict resource false mc = record_blocked resource mc

after_verdict-Counts :
    (resource : String) (granted : Bool) (mc : MetricsCollector)
    → mc.enabled ≡ true
    → Counts resource granted mc (after_verdict resource granted mc)
unfolding after_verdict record_passed record_blocked bump
after_verdict-Counts resource true mc on = record {
  requests = ground (
    arith,
    get_or-insert_self 0 resource (add64 (get_or 0 resource mc.request_counter) 1)
        mc.request_counter,
  );
  passes = ground (
    arith,
    get_or-insert_self 0 resource (add64 (get_or 0 resource mc.passed_counter) 1) mc.passed_counter,
  );
  blocks = ground arith;
}
after_verdict-Counts resource false mc on = record {
  requests = ground (
    arith,
    get_or-insert_self 0 resource (add64 (get_or 0 resource mc.request_counter) 1)
        mc.request_counter,
  );
  passes = ground arith;
  blocks = ground (
    arith,
    get_or-insert_self 0 resource (add64 (get_or 0 resource mc.blocked_counter) 1)
        mc.blocked_counter,
  );
}

module _ {S H O : Type 0} (core : Engine S O) where
  pub admit-collector :
      (c : ℕ) (resource : String) (a : Admission) (s : S) (w : World S H) (mc : MetricsCollector)
      → collector_at (some c) w ≡ some mc
      → let r = admit core (some c) resource (a, s) w in
        collector_at (some c) r.1 ≡ some (after_verdict resource (not (is_some r.0.1)) mc)
  unfolding admit after_verdict
  admit-collector c resource (admitted handle) s w mc e =
      collector_at-on_collector c _ (record w { core = s }) mc (collector_at_core c w mc s e)
  admit-collector c resource (blocked text) s w mc e =
      collector_at-on_collector c _ (record w { core = s }) mc (collector_at_core c w mc s e)

  -- A call of Entry on an initialized plugin with an enabled collector counts one request, as
  -- passed if it returns an entry and as blocked if it returns an error.
  pub entry-Counts :
      (c : ℕ) (resource : String) (opts : List O) (w : World S H) (mc : MetricsCollector)
      → w.plugin.sentinel_initialized ≡ true
      → w.plugin.metrics_collector ≡ some c
      → collector_at (some c) w ≡ some mc
      → mc.enabled ≡ true
      → let r = entry core resource opts w in
        (mc' : MetricsCollector) × (collector_at (some c) r.1 ≡ some mc')
        × Counts resource (not (is_some r.0.1)) mc mc'
  entry-Counts c resource opts w mc ready pointer e on =
      let a = core.enter resource opts w.core in
      let same : entry core resource opts w ≡ admit core (some c) resource a w =
        entry_ready core resource opts w ready ∙ ap (λ p. admit core p resource a w) pointer in
      rw same (_, admit-collector c resource a.0 a.1 w mc e, after_verdict-Counts resource _ mc on)
