-- ===== src/Metrics/Summary.antt =====
-- GetMetricsSummary: the totals over all resources.
use lynx_sentinel.Base.{
  ℕ, suc, ◌+◌, ◌%◌, ◌<◌, String, ◌≡◌, refl, ap, subst, Bool, true, false, inl, inr, List, [], ◌∷◌,
  ◌++◌, none, some, arith, str_eq, eq_iff, if◌then◌else◌, Bool-cases, is_some,
}
use lynx_sentinel.Base.Dict.{
  Dict, insert, get_or, keys, has, has-IsUnused, get_or-insert, get_or-insert_self, keys-insert,
  get_or_missing, HasDistinctKeys, IsUnused, insert-HasDistinctKeys,
}
use lynx_sentinel.Base.Words.{add64, two64, is_positive64}
use lynx_sentinel.Base.Float.{Platform}
use lynx_sentinel.Metrics.History.{
  Call, passed, blocked, failed, timed, resets, enables, paces, step, run,
}
use lynx_sentinel.Metrics.Counters.{run-new-Shows}
use lynx_sentinel.Metrics.{
  MetricsCollector, new_metrics_collector, bump, total_of, get_metrics_summary, record_passed,
  record_blocked, record_rt, record_error, reset, set_enabled, set_interval,
}

-- The sum over the keys, without wrapping.
unfoldable pub sum_of : Dict ℕ → List String → ℕ
sum_of m [] = 0
sum_of m (k ∷ ks) = get_or 0 k m + sum_of m ks

pub total_of-sum :
    (m : Dict ℕ) (t : ℕ) (ks : List String)
    → t < two64
    → total_of m t ks ≡ (t + sum_of m ks) % two64
unfolding total_of sum_of
total_of-sum m t [] h = omega arith
total_of-sum m t (k ∷ ks) h =
    omega (arith, total_of-sum m (add64 t (get_or 0 k m)) ks (omega arith))

sum_of-insert_unused :
    (k : String) (v : ℕ) (m : Dict ℕ) (ks : List String)
    → IsUnused k ks
    → sum_of (insert k v m) ks ≡ sum_of m ks
unfolding sum_of
sum_of-insert_unused k v m [] _ = refl
sum_of-insert_unused k v m (j ∷ ks) (h, hs) =
    ground (arith, get_or-insert 0 k j v m, eq_iff k j, sum_of-insert_unused k v m ks hs)

sum_of-insert :
    (k : String) (v : ℕ) (m : Dict ℕ) (ks : List String)
    → HasDistinctKeys ks
    → has k ks ≡ true
    → sum_of (insert k v m) ks + get_or 0 k m ≡ sum_of m ks + v
unfolding sum_of has
sum_of-insert k v m [] d h = cc
sum_of-insert k v m (j ∷ ks) (u, d) h = elim (Bool-cases (str_eq j k)) [
  | inl same ↦
      let e : j ≡ k = (eq_iff j k).0 same in
      let others = sum_of-insert_unused k v m ks (subst (λ x. IsUnused x ks) e u) in
      ground (arith, get_or-insert 0 k j v m, eq_iff k j, ap (λ x. get_or 0 x m) e, others)
  | inr other ↦
      ground (arith, get_or-insert 0 k j v m, eq_iff k j, eq_iff j k, sum_of-insert k v m ks d)
]

sum_of-append :
    (m : Dict ℕ) (ks : List String) (k : String)
    → sum_of m (ks ++ k ∷ []) ≡ sum_of m ks + get_or 0 k m
unfolding sum_of
sum_of-append m [] k = omega arith
sum_of-append m (j ∷ ks) k = omega (arith, sum_of-append m ks k)

-- One more request, for an old resource or a new one.
sum_of-bump :
    (k : String) (m : Dict ℕ)
    → HasDistinctKeys (keys m)
    → sum_of (bump k m) (keys (bump k m)) % two64 ≡ (sum_of m (keys m) + 1) % two64
unfolding bump
sum_of-bump k m d =
    let v = add64 (get_or 0 k m) 1 in
    elim (Bool-cases (has k (keys m))) [
      | inl old ↦ rw (keys-insert k v m, old) (omega (arith, sum_of-insert k v m (keys m) d old))
      | inr new ↦
          let unused = has-IsUnused k (keys m) new in
          rw (keys-insert k v m, new)
            (omega (
              arith,
              sum_of-append (insert k v m) (keys m) k,
              sum_of-insert_unused k v m (keys m) unused,
              get_or-insert_self 0 k v m,
              get_or_missing 0 k m new,
            ))
    ]

-- What a history means for all resources together: the requests recorded since the last reset.
pub record Total : Type 0 where
  pub enabled : Bool
  pub requests : ℕ

unfoldable pub total_start : Total
total_start = record { enabled = true; requests = 0 }

unfoldable pub total_step : Total → Call → Total
total_step t (passed resource) = if t.enabled then record t { requests = suc t.requests } else t
total_step t (blocked resource) = if t.enabled then record t { requests = suc t.requests } else t
total_step t (failed resource) = t
total_step t (timed resource duration) = t
total_step t resets = record t { requests = 0 }
total_step t (enables enabled) = record t { enabled = enabled }
total_step t (paces interval) = t

unfoldable pub total : Total → List Call → Total
total t [] = t
total t (call ∷ calls) = total (total_step t call) calls

record Sums (mc : MetricsCollector) (t : Total) : Type 0 where
  enabled : mc.enabled ≡ t.enabled
  distinct : HasDistinctKeys (keys mc.request_counter)
  requests : sum_of mc.request_counter (keys mc.request_counter) % two64 ≡ t.requests % two64

bump-HasDistinctKeys :
    (k : String) (m : Dict ℕ) → HasDistinctKeys (keys m) → HasDistinctKeys (keys (bump k m))
unfolding bump
bump-HasDistinctKeys k m d = insert-HasDistinctKeys k _ m d

module _ (platform : Platform) where
  step-Sums :
      (mc : MetricsCollector) (t : Total) (call : Call)
      → Sums mc t
      → Sums (step platform mc call) (total_step t call)
  unfolding step total_step record_passed record_blocked record_error record_rt reset set_enabled
      set_interval sum_of
  step-Sums mc t (passed resource) s = ground (
    arith,
    bump-HasDistinctKeys resource mc.request_counter s.distinct,
    sum_of-bump resource mc.request_counter s.distinct,
  )
  step-Sums mc t (blocked resource) s = ground (
    arith,
    bump-HasDistinctKeys resource mc.request_counter s.distinct,
    sum_of-bump resource mc.request_counter s.distinct,
  )
  step-Sums mc t (failed resource) s = s
  step-Sums mc t (timed resource duration) s = ground arith
  step-Sums mc t resets s = record { enabled = s.enabled; distinct = tt; requests = refl }
  step-Sums mc t (enables enabled) s = record {
    enabled = refl;
    distinct = s.distinct;
    requests = s.requests;
  }
  step-Sums mc t (paces interval) s = record {
    enabled = s.enabled;
    distinct = s.distinct;
    requests = s.requests;
  }

  run-Sums :
      (mc : MetricsCollector) (t : Total) (calls : List Call)
      → Sums mc t
      → Sums (run platform mc calls) (total t calls)
  unfolding run total
  run-Sums mc t [] s = s
  run-Sums mc t (call ∷ calls) s =
      run-Sums (step platform mc call) (total_step t call) calls (step-Sums mc t call s)

  start-Sums : (interval : ℕ) → Sums (new_metrics_collector interval) total_start
  unfolding new_metrics_collector total_start sum_of
  start-Sums interval = record { enabled = refl; distinct = tt; requests = refl }

-- The request counter of each resource is the sum of the other two.
abbrev IsBalanced : MetricsCollector → Type 0
IsBalanced mc =
    (k : String)
    → get_or 0 k mc.request_counter
      ≡ (get_or 0 k mc.passed_counter + get_or 0 k mc.blocked_counter) % two64

total_of-balanced :
    (mc : MetricsCollector) (t p b : ℕ) (ks : List String)
    → IsBalanced mc
    → t ≡ (p + b) % two64
    → total_of mc.request_counter t ks
      ≡ (total_of mc.passed_counter p ks + total_of mc.blocked_counter b ks) % two64
unfolding total_of
total_of-balanced mc t p b [] h e = e
total_of-balanced mc t p b (k ∷ ks) h e =
    total_of-balanced mc (add64 t (get_or 0 k mc.request_counter))
      (add64 p (get_or 0 k mc.passed_counter)) (add64 b (get_or 0 k mc.blocked_counter)) ks h
      (omega (arith, h k))

run-IsBalanced :
    (platform : Platform) (interval : ℕ) (calls : List Call)
    → IsBalanced (run platform (new_metrics_collector interval) calls)
run-IsBalanced platform interval calls k =
    let s = run-new-Shows platform k interval calls in omega (arith, s.passes, s.blocks, s.requests)

rate_shown : (b : Bool) (x : ℕ) → is_some (if b then some x else none) ≡ b
rate_shown true x = refl
rate_shown false x = refl

-- In the summary after any history of calls of a new collector, the total of the requests is the
-- number of those recorded for all resources since the last reset, modulo 2 ^ 64, and the sum of
-- the totals of passed and blocked requests; the two rates are there exactly when the total is
-- positive as an int64.
pub get_metrics_summary-run :
    (platform : Platform) (interval : ℕ) (calls : List Call)
    → let s = get_metrics_summary platform (run platform (new_metrics_collector interval) calls) in
      (s.total_requests ≡ (total total_start calls).requests % two64)
      × (s.total_requests ≡ (s.total_passed + s.total_blocked) % two64)
      × (is_some s.pass_rate ≡ is_positive64 s.total_requests)
      × (is_some s.block_rate ≡ is_positive64 s.total_requests)
unfolding get_metrics_summary
get_metrics_summary-run platform interval calls =
    let mc = run platform (new_metrics_collector interval) calls in
    let sums = run-Sums platform _ total_start calls (start-Sums platform interval) in
    (
      omega (
        arith,
        total_of-sum mc.request_counter 0 (keys mc.request_counter) (omega arith),
        sums.requests,
      ),
      total_of-balanced mc 0 0 0 (keys mc.request_counter) (run-IsBalanced platform interval calls)
          (omega arith),
      rate_shown _ _,
      rate_shown _ _,
    )
