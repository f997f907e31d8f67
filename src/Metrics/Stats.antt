-- ===== src/Metrics/Stats.antt =====
-- calculateResourceStats: the least, the greatest and the mean response time.
use mathlib.Core.List.{foldl}
use lynx_sentinel.Base.{
  ℕ, ◌≤◌, ◌<◌, String, ◌≡◌, refl, ap, true, false, inl, inr, List, [], ◌∷◌, arith, if◌then◌else◌,
  length, Bool-cases, All, ◌⊎◌, ◌∙◌, some, none, str_eq, eq_iff,
}
use lynx_sentinel.Base.Dict.{Dict, get_or, lookup, insert, lookup-insert, keys, has}
use lynx_sentinel.Base.Float.{Platform, is_nan, rank, lt_f, zero_f}
use lynx_sentinel.Metrics.{
  MetricsCollector, ResourceStats, Spread, spread_step, spread_loop, rt_stats,
  calculate_resource_stats, stats_loop, get_all_resource_stats, get_resource_stats,
}

abbrev pub IsNumber : ℕ → Type 0
IsNumber x = is_nan x ≡ false

lt_f-rank : (x y : ℕ) → IsNumber x → IsNumber y → lt_f x y ≡ true → rank x < rank y
unfolding lt_f
lt_f-rank x y p q h = ground arith

rank-lt_f : (x y : ℕ) → IsNumber x → IsNumber y → lt_f x y ≡ false → rank y ≤ rank x
unfolding lt_f
rank-lt_f x y p q h = ground arith

not-lt_f : (x y : ℕ) → rank y ≤ rank x → lt_f x y ≡ false
unfolding lt_f
not-lt_f x y h = ground arith

abbrev pub IsOneOf : ℕ → List ℕ → Type 0
IsOneOf x [] = ⊥
IsOneOf x (y ∷ l) = (x ≡ y) ⊎ IsOneOf x l

-- What the loop makes of its variables `min` and `max`.
abbrev LeastOf : ℕ → List ℕ → ℕ → Type 0
LeastOf start l r =
    IsNumber r × (rank r ≤ rank start) × All (λ rt. rank r ≤ rank rt) l × IsOneOf r (start ∷ l)

abbrev GreatestOf : ℕ → List ℕ → ℕ → Type 0
GreatestOf start l r =
    IsNumber r × (rank start ≤ rank r) × All (λ rt. rank rt ≤ rank r) l × IsOneOf r (start ∷ l)

-- One round.
pick_min :
    (start rt : ℕ)
    → IsNumber start
    → IsNumber rt
    → let m = (if lt_f rt start then rt else start) in
      IsNumber m × (rank m ≤ rank start) × (rank m ≤ rank rt) × ((m ≡ start) ⊎ (m ≡ rt))
pick_min start rt p q = ground (arith, lt_f-rank rt start, rank-lt_f rt start)

pick_max :
    (start rt : ℕ)
    → IsNumber start
    → IsNumber rt
    → let m = (if lt_f start rt then rt else start) in
      IsNumber m × (rank start ≤ rank m) × (rank rt ≤ rank m) × ((m ≡ start) ⊎ (m ≡ rt))
pick_max start rt p q = ground (arith, lt_f-rank start rt, rank-lt_f start rt)

IsOneOf-cons :
    (start rt m r : ℕ) (l : List ℕ)
    → (m ≡ start) ⊎ (m ≡ rt)
    → IsOneOf r (m ∷ l)
    → IsOneOf r (start ∷ rt ∷ l)
IsOneOf-cons start rt m r l (inl e) (inl i) = inl (i ∙ e)
IsOneOf-cons start rt m r l (inr e) (inl i) = inr (inl (i ∙ e))
IsOneOf-cons start rt m r l _ (inr i) = inr (inr i)

module _ (platform : Platform) where
  spread_loop-min :
      (v : Spread) (l : List ℕ)
      → IsNumber v.min
      → All IsNumber l
      → LeastOf v.min l (spread_loop platform v l).min
  unfolding spread_loop spread_step
  spread_loop-min v [] p _ = (p, omega arith, tt, inl refl)
  spread_loop-min v (rt ∷ l) p (q, qs) =
      let (number, below, below_rt, one) = pick_min v.min rt p q in
      let (n, le, les, mem) = spread_loop-min (spread_step platform v rt) l number qs in
      (n, omega arith, (omega arith, les), IsOneOf-cons v.min rt _ _ l one mem)

  spread_loop-max :
      (v : Spread) (l : List ℕ)
      → IsNumber v.max
      → All IsNumber l
      → GreatestOf v.max l (spread_loop platform v l).max
  unfolding spread_loop spread_step
  spread_loop-max v [] p _ = (p, omega arith, tt, inl refl)
  spread_loop-max v (rt ∷ l) p (q, qs) =
      let (number, above, above_rt, one) = pick_max v.max rt p q in
      let (n, le, les, mem) = spread_loop-max (spread_step platform v rt) l number qs in
      (n, omega arith, (omega arith, les), IsOneOf-cons v.max rt _ _ l one mem)

  spread_loop-sum :
      (v : Spread) (l : List ℕ) → (spread_loop platform v l).sum ≡ foldl platform.add v.sum l
  unfolding spread_loop spread_step
  spread_loop-sum v [] = refl
  spread_loop-sum v (rt ∷ l) = spread_loop-sum (spread_step platform v rt) l

-- `min` is the least response time of the window, `max` the greatest, and `avg` the sum of all,
-- added up from the oldest, divided by their number.
pub record Describes (platform : Platform) (window : List ℕ) (stats : ResourceStats) : Type 0 where
  pub min_bound : All (λ rt. lt_f rt stats.min_rt ≡ false) window
  pub min_attained : IsOneOf stats.min_rt window
  pub max_bound : All (λ rt. lt_f stats.max_rt rt ≡ false) window
  pub max_attained : IsOneOf stats.max_rt window
  pub avg :
      stats.avg_rt
      ≡ platform.div (foldl platform.add zero_f window) (platform.of_int64 (length window))

All-map : {P Q : ℕ → Type 0} (f : (x : ℕ) → P x → Q x) (l : List ℕ) → All P l → All Q l
All-map f [] _ = tt
All-map f (x ∷ l) (p, ps) = (f x p, All-map f l ps)

IsOneOf-first : (r rt : ℕ) (l : List ℕ) → IsOneOf r (rt ∷ rt ∷ l) → IsOneOf r (rt ∷ l)
IsOneOf-first r rt l (inl e) = inl e
IsOneOf-first r rt l (inr i) = i

rt_stats-Describes :
    (platform : Platform) (rt : ℕ) (l : List ℕ) (stats : ResourceStats)
    → All IsNumber (rt ∷ l)
    → Describes platform (rt ∷ l) (rt_stats platform (rt ∷ l) stats)
unfolding rt_stats
rt_stats-Describes platform rt l stats (p, ps) =
    let v : Spread = record { sum = zero_f; min = rt; max = rt } in
    let (n, le, les, least) = spread_loop-min platform v (rt ∷ l) p (p, ps) in
    let (m, ge, ges, greatest) = spread_loop-max platform v (rt ∷ l) p (p, ps) in
    record {
      min_bound = All-map (λ x. not-lt_f x _) (rt ∷ l) les;
      min_attained = IsOneOf-first _ rt l least;
      max_bound = All-map (λ x. not-lt_f _ x) (rt ∷ l) ges;
      max_attained = IsOneOf-first _ rt l greatest;
      avg =
          ap (λ s. platform.div s (platform.of_int64 (length (rt ∷ l))))
            (spread_loop-sum platform v (rt ∷ l));
    }

-- The statistics of a resource whose window is not empty and holds numbers have the least response
-- time of the window, the greatest, and the sum from the oldest on divided by their number.
pub calculate_resource_stats-Describes :
    (platform : Platform) (now : ℕ) (mc : MetricsCollector) (resource : String) (rt : ℕ)
    (l : List ℕ)
    → get_or [] resource mc.rt_histogram ≡ rt ∷ l
    → All IsNumber (rt ∷ l)
    → Describes platform (rt ∷ l) (calculate_resource_stats platform now mc resource)
unfolding calculate_resource_stats
calculate_resource_stats-Describes platform now mc resource rt l window numbers =
    rw window (rt_stats-Describes platform rt l _ numbers)

-- Without response times the three statistics of the response time are zero.
no_times :
    (platform : Platform) (now : ℕ) (mc : MetricsCollector) (resource : String)
    → get_or [] resource mc.rt_histogram ≡ []
    → let stats = calculate_resource_stats platform now mc resource in
      (stats.avg_rt ≡ zero_f) × (stats.min_rt ≡ zero_f) × (stats.max_rt ≡ zero_f)
unfolding calculate_resource_stats rt_stats
no_times platform now mc resource e = rw e (refl, refl, refl)

module _ (platform : Platform) (clock : String → ℕ) (mc : MetricsCollector) where
  abbrev stats_of : String → ResourceStats
  stats_of k = calculate_resource_stats platform (clock k) mc k

  pub stats_loop-lookup :
      (stats : Dict ResourceStats) (ks : List String) (k : String)
      → lookup k (stats_loop platform clock mc stats ks) ≡ (
          if has k ks
          then some (calculate_resource_stats platform (clock k) mc k)
          else lookup k stats)
  unfolding stats_loop has
  stats_loop-lookup stats [] k = refl
  stats_loop-lookup stats (j ∷ ks) k =
      let e =
        stats_loop-lookup (insert j (calculate_resource_stats platform (clock j) mc j) stats) ks
          k in
      let w = lookup-insert j k (calculate_resource_stats platform (clock j) mc j) stats in
      elim (Bool-cases (str_eq j k)) [
        | inl same ↦ ground (arith, e, w, ap stats_of ((eq_iff j k).0 same))
        | inr other ↦ ground (arith, e, w)
      ]

-- GetAllResourceStats has the statistics of the resources with a request counter and of no others.
pub get_all_resource_stats_lem :
    (platform : Platform) (clock : String → ℕ) (mc : MetricsCollector) (k : String)
    → lookup k (get_all_resource_stats platform clock mc) ≡ (
        if has k (keys mc.request_counter)
        then some (get_resource_stats platform (clock k) mc k)
        else none)
unfolding get_all_resource_stats get_resource_stats lookup
get_all_resource_stats_lem platform clock mc k =
    stats_loop-lookup platform clock mc [] (keys mc.request_counter) k
