-- ===== src/Plugin/Traffic.antt =====
-- Requests one after the other, and what the collector makes of them.
use lynx_sentinel.Base.{
  ℕ, ◌+◌, String, ◌≡◌, refl, ap, ◌∙◌, Bool, true, false, List, [], ◌∷◌, ◌++◌, Option, none, some,
  arith, if◌then◌else◌,
}
use lynx_sentinel.Base.Float.{Platform}
use lynx_sentinel.Engine.{Engine, Admission, admitted, blocked}
use lynx_sentinel.Metrics.{MetricsCollector}
use lynx_sentinel.Metrics.History.{Call, passed, blocked as refused, timed, failed, step, run}
use lynx_sentinel.Plugin.{
  World, Ran, returned, panicked, on_collector, collector_at, admit, entry, exit_entry, trace,
  account, finish, protect, execute, as_entry, runtime_state, flow_result, check_flow,
}
use lynx_sentinel.Plugin.Steps.{entry_ready}
use lynx_sentinel.Plugin.Recording.{collector_at-on_collector}

-- The calls that a service makes of the plugin; a function that it protects only computes `ran`.
pub data Use (O : Type 0) : Type 0 where
  enters : String → List O → Use O
  exits : ℕ → Use O
  checks : String → ℕ → Use O
  executes : String → Ran → ℕ → List O → Use O

abbrev pub verdict : String → Bool → Call
verdict resource true = passed resource
verdict resource false = refused resource

-- What is recorded of a protected function.
abbrev pub settled : String → ℕ → Ran → List Call
settled resource elapsed (returned none) = timed resource elapsed ∷ []
settled resource elapsed (returned (some text)) = timed resource elapsed ∷ failed resource ∷ []
settled resource elapsed panicked = []

-- Does the call make a request?
abbrev pub requests_of : {O : Type 0} → Use O → ℕ
requests_of (enters resource opts) = 1
requests_of (exits handle) = 0
requests_of (checks resource now) = 1
requests_of (executes resource ran elapsed opts) = 1

unfoldable pub requests_in : {O : Type 0} → List (Use O) → ℕ
requests_in [] = 0
requests_in (u ∷ us) = requests_of u + requests_in us

abbrev pub allows : Admission → Bool
allows (admitted handle) = true
allows (blocked text) = false

module _ {S H O : Type 0} (core : Engine S O) (platform : Platform) where
  abbrev pub granted : String → List O → World S H → Bool
  granted resource opts w = allows (core.enter resource opts w.core).0

  -- The calls that the collector ought to see, by the answers of sentinel-golang, and the world after.
  unfoldable pub use_plugin : Use O → World S H → List Call × World S H
  use_plugin (enters resource opts) w =
      (verdict resource (granted resource opts w) ∷ [], (entry core resource opts w).1)
  use_plugin (exits handle) w = ([], exit_entry core handle w)
  use_plugin (checks resource now) w =
      (verdict resource (granted resource [] w) ∷ [], (check_flow core resource now w).1)
  use_plugin (executes resource ran elapsed opts) w = (
    verdict resource (granted resource opts w)
        ∷ (if granted resource opts w then settled resource elapsed ran else []),
    (execute core platform resource (λ w'. (ran, w')) elapsed opts w).1,
  )

  unfoldable pub use_all : List (Use O) → World S H → List Call × World S H
  use_all [] w = ([], w)
  use_all (u ∷ us) w =
      let (calls, w') = use_plugin u w in let (rest, w'') = use_all us w' in (calls ++ rest, w'')

-- An initialized plugin whose collector is `mc`.
pub record Counted {S H : Type 0} (c : ℕ) (mc : MetricsCollector) (w : World S H) : Type 0 where
  pub ready : w.plugin.sentinel_initialized ≡ true
  pub pointer : w.plugin.metrics_collector ≡ some c
  pub collector : collector_at (some c) w ≡ some mc

module _ {S H : Type 0} (c : ℕ) where
  core-Counted :
      {mc : MetricsCollector} (w : World S H) (s : S)
      → Counted c mc w
      → Counted c mc (record w { core = s })
  unfolding collector_at
  core-Counted w s k = record { ready = k.ready; pointer = k.pointer; collector = k.collector }

  on_collector-plugin :
      (f : MetricsCollector → MetricsCollector) (w : World S H)
      → (on_collector (some c) f w).plugin ≡ w.plugin
  unfolding on_collector
  on_collector-plugin f w = ground arith

  on_collector-Counted :
      {mc : MetricsCollector} (f : MetricsCollector → MetricsCollector) (w : World S H)
      → Counted c mc w
      → Counted c (f mc) (on_collector (some c) f w)
  on_collector-Counted {mc} f w k =
      let same = on_collector-plugin f w in
      record {
        ready = ap (λ p. p.sentinel_initialized) same ∙ k.ready;
        pointer = ap (λ p. p.metrics_collector) same ∙ k.pointer;
        collector = collector_at-on_collector c f w mc k.collector;
      }

run-append :
    (platform : Platform) (mc : MetricsCollector) (xs ys : List Call)
    → run platform mc (xs ++ ys) ≡ run platform (run platform mc xs) ys
unfolding run
run-append platform mc [] ys = refl
run-append platform mc (x ∷ xs) ys = run-append platform (step platform mc x) xs ys

module _ {S H O : Type 0} (core : Engine S O) (platform : Platform) (c : ℕ) where
  exit_entry-Counted :
      {mc : MetricsCollector} (handle : ℕ) (w : World S H)
      → Counted c mc w
      → Counted c mc (exit_entry core handle w)
  unfolding exit_entry
  exit_entry-Counted handle w k = core-Counted c w _ k

  admit-Counted :
      (resource : String) (a : Admission) (s : S) (mc : MetricsCollector) (w : World S H)
      → Counted c mc w
      → Counted c
          (step platform mc (verdict resource (allows a)))
          (admit core (some c) resource (a, s) w).1
  unfolding admit step
  admit-Counted resource (admitted handle) s mc w k =
      on_collector-Counted c _ (record w { core = s }) (core-Counted c w s k)
  admit-Counted resource (blocked text) s mc w k =
      on_collector-Counted c _ (record w { core = s }) (core-Counted c w s k)

  flow_result-Counted :
      (resource : String) (now : ℕ) (a : Admission) (s : S) (mc : MetricsCollector) (w : World S H)
      → Counted c mc w
      → Counted c
          (step platform mc (verdict resource (allows a)))
          (flow_result core resource now (admit core (some c) resource (a, s) w)).1
  unfolding flow_result admit as_entry
  flow_result-Counted resource now (admitted handle) s mc w k =
      exit_entry-Counted handle _ (admit-Counted resource (admitted handle) s mc w k)
  flow_result-Counted resource now (blocked text) s mc w k =
      admit-Counted resource (blocked text) s mc w k

  finish-Counted :
      {p : Option ℕ} (handle : ℕ) (resource : String) (elapsed : ℕ) (ran : Ran)
      (mc : MetricsCollector) (w : World S H)
      → p ≡ some c
      → Counted c mc w
      → Counted c
          (run platform mc (settled resource elapsed ran))
          (finish core platform p handle resource elapsed (ran, w)).1
  unfolding finish account trace run step
  finish-Counted handle resource elapsed panicked mc w e k = exit_entry-Counted handle w k
  finish-Counted handle resource elapsed (returned none) mc w e k =
      rw e (exit_entry-Counted handle _ (on_collector-Counted c _ w k))
  finish-Counted handle resource elapsed (returned (some text)) mc w e k = rw e (
      exit_entry-Counted handle _
        (core-Counted c _ _ (on_collector-Counted c _ _ (on_collector-Counted c _ w k))))

  protect-Counted :
      (resource : String) (ran : Ran) (elapsed : ℕ) (a : Admission) (s : S) (mc : MetricsCollector)
      (w : World S H)
      → Counted c mc w
      → Counted c
          (run platform
            (step platform mc (verdict resource (allows a)))
            (if allows a then settled resource elapsed ran else []))
          (protect core platform resource
            (λ w'. (ran, w'))
            elapsed
            (admit core (some c) resource (a, s) w)).1
  unfolding protect admit as_entry run runtime_state
  protect-Counted resource ran elapsed (admitted handle) s mc w k =
      let k' = admit-Counted resource (admitted handle) s mc w k in
      finish-Counted handle resource elapsed ran _ _ k'.pointer k'
  protect-Counted resource ran elapsed (blocked text) s mc w k =
      admit-Counted resource (blocked text) s mc w k

  entry-admit :
      (resource : String) (opts : List O) {mc : MetricsCollector} (w : World S H)
      → Counted c mc w
      → entry core resource opts w
        ≡ admit core (some c) resource (core.enter resource opts w.core) w
  entry-admit resource opts w k =
      entry_ready core resource opts w k.ready
      ∙ ap (λ p. admit core p resource (core.enter resource opts w.core) w) k.pointer

  use_plugin-Counted :
      (u : Use O) (mc : MetricsCollector) (w : World S H)
      → Counted c mc w
      → Counted c
          (run platform mc (use_plugin core platform u w).0)
          (use_plugin core platform u w).1
  unfolding use_plugin run check_flow execute
  use_plugin-Counted (enters resource opts) mc w k =
      let a = core.enter resource opts w.core in
      rw (entry-admit resource opts w k) (admit-Counted resource a.0 a.1 mc w k)
  use_plugin-Counted (exits handle) mc w k = exit_entry-Counted handle w k
  use_plugin-Counted (checks resource now) mc w k =
      let a = core.enter resource [] w.core in
      rw (entry-admit resource [] w k) (flow_result-Counted resource now a.0 a.1 mc w k)
  use_plugin-Counted (executes resource ran elapsed opts) mc w k =
      let a = core.enter resource opts w.core in
      rw (entry-admit resource opts w k) (protect-Counted resource ran elapsed a.0 a.1 mc w k)

  -- After any sequence of calls of Entry, Exit, CheckFlow and Execute on an initialized plugin,
  -- with functions that only return or panic, its collector is as after the history of passed and
  -- blocked requests, response times and errors that the answers of sentinel-golang make.
  pub use_all-Counted :
      (us : List (Use O)) (mc : MetricsCollector) (w : World S H)
      → Counted c mc w
      → Counted c (run platform mc (use_all core platform us w).0) (use_all core platform us w).1
  unfolding use_all run
  use_all-Counted [] mc w k = k
  use_all-Counted (u ∷ us) mc w k =
      let (calls, w') = use_plugin core platform u w in
      rw (run-append platform mc calls (use_all core platform us w').0)
        (use_all-Counted us (run platform mc calls) w' (use_plugin-Counted u mc w k))
