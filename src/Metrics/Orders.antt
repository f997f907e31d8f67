-- ===== src/Metrics/Orders.antt =====
-- The loops over the resources, in the orders that Go may take for the entries of a map.
use mathlib.Core.Logic.{∥∥₁_elim}
use mathlib.Core.Bool.{Bool-set}
use mathlib.Core.List.{Permᴰ}
use native.Mathlib.Nat.{ℕ_set}
use lynx_sentinel.Base.{
  ℕ, suc, String, ◌≡◌, refl, ap, ◌∙◌, sym, List, [], Perm, some, arith, length, str_eq,
  if◌then◌else◌,
}
use lynx_sentinel.Base.Dict.{Dict, keys, has, lookup, get_or}
use lynx_sentinel.Base.Float.{Platform}
use lynx_sentinel.Metrics.{
  MetricsCollector, total_of, summary_in, get_metrics_summary, stats_loop, get_all_resource_stats,
  calculate_resource_stats,
}
use lynx_sentinel.Metrics.Summary.{sum_of, total_of-sum}
use lynx_sentinel.Metrics.Stats.{stats_loop-lookup}

sum_of-Permᴰ : (m : Dict ℕ) {xs ys : List String} → Permᴰ xs ys → sum_of m xs ≡ sum_of m ys
unfolding sum_of
sum_of-Permᴰ m Permᴰ.nil = refl
sum_of-Permᴰ m (Permᴰ.cons e d) = omega (arith, ap (λ k. get_or 0 k m) e, sum_of-Permᴰ m d)
sum_of-Permᴰ m (Permᴰ.swap e e') =
    omega (arith, ap (λ k. get_or 0 k m) e, ap (λ k. get_or 0 k m) e')
sum_of-Permᴰ m (Permᴰ.trans d d') = sum_of-Permᴰ m d ∙ sum_of-Permᴰ m d'

length-Permᴰ : {xs ys : List String} → Permᴰ xs ys → length xs ≡ length ys
length-Permᴰ Permᴰ.nil = refl
length-Permᴰ (Permᴰ.cons e d) = ap suc (length-Permᴰ d)
length-Permᴰ (Permᴰ.swap e e') = refl
length-Permᴰ (Permᴰ.trans d d') = length-Permᴰ d ∙ length-Permᴰ d'

has-Permᴰ : (k : String) {xs ys : List String} → Permᴰ xs ys → has k xs ≡ has k ys
unfolding has
has-Permᴰ k Permᴰ.nil = refl
has-Permᴰ k (Permᴰ.cons e d) = ground (arith, ap (λ j. str_eq j k) e, has-Permᴰ k d)
has-Permᴰ k (Permᴰ.swap e e') = ground (arith, ap (λ j. str_eq j k) e, ap (λ j. str_eq j k) e')
has-Permᴰ k (Permᴰ.trans d d') = has-Permᴰ k d ∙ has-Permᴰ k d'

total_of-Perm : (m : Dict ℕ) {xs ys : List String} → Perm xs ys → total_of m 0 xs ≡ total_of m 0 ys
total_of-Perm m {xs} {ys} h = omega (
  arith,
  total_of-sum m 0 xs (omega arith),
  total_of-sum m 0 ys (omega arith),
  ∥∥₁_elim h (ℕ_set _ _) (sum_of-Permᴰ m),
)

-- The summary and the statistics of a resource do not depend on the order in which the loops meet
-- the entries of the map of requests.
pub summary_in_any_order :
    (platform : Platform) (clock : String → ℕ) (mc : MetricsCollector) (order : List String)
    (resource : String)
    → Perm order (keys mc.request_counter)
    → (summary_in platform order mc ≡ get_metrics_summary platform mc)
      × (lookup resource (stats_loop platform clock mc [] order)
          ≡ lookup resource (get_all_resource_stats platform clock mc))
unfolding get_metrics_summary summary_in get_all_resource_stats
summary_in_any_order platform clock mc order resource h = (
  rw
      (
        total_of-Perm mc.request_counter h,
        total_of-Perm mc.passed_counter h,
        total_of-Perm mc.blocked_counter h,
        ∥∥₁_elim h (ℕ_set _ _) length-Permᴰ,
      )
      refl,
  stats_loop-lookup platform clock mc [] order resource
      ∙ ap
          (λ found.
            if found
            then some (calculate_resource_stats platform (clock resource) mc resource)
            else lookup resource [])
          (∥∥₁_elim h (Bool-set _ _) (has-Permᴰ resource))
      ∙ sym (stats_loop-lookup platform clock mc [] (keys mc.request_counter) resource),
)
