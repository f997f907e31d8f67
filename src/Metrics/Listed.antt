-- ===== src/Metrics/Listed.antt =====
-- The resources that GetAllResourceStats lists.
use lynx_sentinel.Base.{
  subst, ℕ, ◌+◌, String, ◌≡◌, refl, ap, ◌∙◌, true, List, [], ◌∷◌, ◌++◌, none, some, arith, str_eq,
  eq_iff, if◌then◌else◌, ltb, Bool-cases, inl, inr,
}
use lynx_sentinel.Base.Dict.{Dict, keys, has, lookup, keys-insert}
use lynx_sentinel.Base.Float.{Platform}
use lynx_sentinel.Metrics.{
  MetricsCollector, new_metrics_collector, bump, record_passed, record_blocked, record_rt,
  record_error, reset, set_enabled, set_interval, calculate_resource_stats, get_all_resource_stats,
}
use lynx_sentinel.Metrics.History.{
  Call, passed, blocked, failed, timed, resets, enables, paces, step, run, Tally, tally_start,
  tally_step, tally,
}
use lynx_sentinel.Metrics.Stats.{stats_loop-lookup}

has-append :
    (k j : String) (ks : List String)
    → has k (ks ++ j ∷ []) ≡ (if str_eq j k then true else has k ks)
unfolding has
has-append k j [] = ground arith
has-append k j (i ∷ ks) = ground (arith, has-append k j ks)

has-bump :
    (k j : String) (m : Dict ℕ)
    → has k (keys (bump j m)) ≡ (if str_eq j k then true else has k (keys m))
unfolding bump
has-bump k j m = elim (Bool-cases (has j (keys m))) [
  | inl old ↦
      rw (keys-insert j _ m, old)
        (elim (Bool-cases (str_eq j k)) [
          | inl e ↦ rw e (subst (λ x. has x (keys m) ≡ true) ((eq_iff j k).0 e) old)
          | inr e ↦ rw e refl
        ])
  | inr new ↦ rw (keys-insert j _ m, new) (has-append k j (keys m))
]

-- A resource has a counter of requests just if it has a request since the last reset.
record Lists (mine : String) (mc : MetricsCollector) (t : Tally) : Type 0 where
  enabled : mc.enabled ≡ t.enabled
  listed : has mine (keys mc.request_counter) ≡ ltb 0 (t.passes + t.blocks)

module _ (platform : Platform) where
  step-Lists :
      (mine : String) (mc : MetricsCollector) (t : Tally) (call : Call)
      → Lists mine mc t
      → Lists mine (step platform mc call) (tally_step mine t call)
  unfolding step tally_step record_passed record_blocked record_rt record_error reset set_enabled
      set_interval has
  step-Lists mine mc t (passed resource) s =
      ground (arith, s.enabled, s.listed, has-bump mine resource mc.request_counter)
  step-Lists mine mc t (blocked resource) s =
      ground (arith, s.enabled, s.listed, has-bump mine resource mc.request_counter)
  step-Lists mine mc t (failed resource) s = s
  step-Lists mine mc t (timed resource duration) s = ground (arith, s.enabled, s.listed)
  step-Lists mine mc t resets s = record { enabled = s.enabled; listed = refl }
  step-Lists mine mc t (enables enabled) s = record { enabled = refl; listed = s.listed }
  step-Lists mine mc t (paces interval) s = record { enabled = s.enabled; listed = s.listed }

  run-Lists :
      (mine : String) (mc : MetricsCollector) (t : Tally) (calls : List Call)
      → Lists mine mc t
      → Lists mine (run platform mc calls) (tally mine t calls)
  unfolding run tally
  run-Lists mine mc t [] s = s
  run-Lists mine mc t (call ∷ calls) s =
      run-Lists mine (step platform mc call) (tally_step mine t call) calls
        (step-Lists mine mc t call s)

  start-Lists :
      (mine : String) (interval : ℕ) → Lists mine (new_metrics_collector interval) tally_start
  unfolding new_metrics_collector tally_start has
  start-Lists mine interval = record { enabled = refl; listed = refl }

  -- After any history of calls of a new collector, GetAllResourceStats has an entry for a resource
  -- exactly if a request was recorded for it as passed or blocked since the last reset, and the
  -- entry is what calculateResourceStats makes of the resource.
  pub get_all_resource_stats-run :
      (interval : ℕ) (clock : String → ℕ) (calls : List Call) (resource : String)
      → let mc = run platform (new_metrics_collector interval) calls in
        let t = tally resource tally_start calls in
        lookup resource (get_all_resource_stats platform clock mc) ≡ (
          if ltb 0 (t.passes + t.blocks)
          then some (calculate_resource_stats platform (clock resource) mc resource)
          else none)
  unfolding get_all_resource_stats lookup
  get_all_resource_stats-run interval clock calls resource =
      let mc = run platform (new_metrics_collector interval) calls in
      let s =
        run-Lists resource (new_metrics_collector interval) tally_start calls
          (start-Lists resource interval) in
      stats_loop-lookup platform clock mc [] (keys mc.request_counter) resource
      ∙ ap
          (λ b.
            if b
            then some (calculate_resource_stats platform (clock resource) mc resource)
            else none)
          s.listed
