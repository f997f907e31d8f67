-- ===== src/Metrics/Counters.antt =====
-- The counters of the collector against a history of its calls.
use lynx_sentinel.Base.{
  ℕ, ◌+◌, ◌%◌, String, ◌≡◌, List, [], ◌∷◌, arith, str_eq, eq_iff, if◌then◌else◌,
}
use lynx_sentinel.Base.Dict.{Dict, get_or, get_or-insert}
use lynx_sentinel.Base.Words.{add64, two64}
use lynx_sentinel.Base.Float.{Platform}
use lynx_sentinel.Metrics.History.{
  Call, passed, blocked, failed, timed, resets, enables, paces, step, run, Tally, tally_start,
  tally_step, tally,
}
use lynx_sentinel.Metrics.{
  MetricsCollector, new_metrics_collector, bump, record_passed, record_blocked, record_rt,
  record_error, reset, set_enabled, set_interval,
}

get_or-bump :
    (k j : String) (m : Dict ℕ)
    → get_or 0 j (bump k m) ≡ (if str_eq k j then add64 (get_or 0 j m) 1 else get_or 0 j m)
unfolding bump
get_or-bump k j m = ground (arith, get_or-insert 0 k j (add64 (get_or 0 k m) 1) m, eq_iff k j)

-- The collector shows the tally, in words of 64 bits.
pub record Shows (mine : String) (mc : MetricsCollector) (t : Tally) : Type 0 where
  pub enabled : mc.enabled ≡ t.enabled
  pub passes : get_or 0 mine mc.passed_counter ≡ t.passes % two64
  pub blocks : get_or 0 mine mc.blocked_counter ≡ t.blocks % two64
  pub requests : get_or 0 mine mc.request_counter ≡ (t.passes + t.blocks) % two64

start-Shows :
    (mine : String) (interval : ℕ) → Shows mine (new_metrics_collector interval) tally_start
unfolding new_metrics_collector tally_start get_or
start-Shows mine interval = ground arith

module _ (platform : Platform) where
  step-Shows :
      (mine : String) (mc : MetricsCollector) (t : Tally) (call : Call)
      → Shows mine mc t
      → Shows mine (step platform mc call) (tally_step mine t call)
  unfolding step tally_step record_passed record_blocked record_error record_rt reset set_enabled
      set_interval get_or
  step-Shows mine mc t (passed resource) s = ground (
    arith,
    get_or-bump resource mine mc.request_counter,
    get_or-bump resource mine mc.passed_counter,
  )
  step-Shows mine mc t (blocked resource) s = ground (
    arith,
    get_or-bump resource mine mc.request_counter,
    get_or-bump resource mine mc.blocked_counter,
  )
  step-Shows mine mc t (failed resource) s = s
  step-Shows mine mc t (timed resource duration) s = ground arith
  step-Shows mine mc t resets s = ground arith
  step-Shows mine mc t (enables enabled) s = ground arith
  step-Shows mine mc t (paces interval) s = ground arith

  run-Shows :
      (mine : String) (mc : MetricsCollector) (t : Tally) (calls : List Call)
      → Shows mine mc t
      → Shows mine (run platform mc calls) (tally mine t calls)
  unfolding run tally
  run-Shows mine mc t [] s = s
  run-Shows mine mc t (call ∷ calls) s =
      run-Shows mine (step platform mc call) (tally_step mine t call) calls
        (step-Shows mine mc t call s)

  -- After any history of calls of a new collector, the three counters of a resource are the numbers
  -- of its requests recorded since the last reset, modulo 2 ^ 64, and the request counter is the
  -- sum of the other two.
  pub run-new-Shows :
      (mine : String) (interval : ℕ) (calls : List Call)
      → Shows mine
          (run platform (new_metrics_collector interval) calls)
          (tally mine tally_start calls)
  run-new-Shows mine interval calls = run-Shows mine _ tally_start calls (start-Shows mine interval)
