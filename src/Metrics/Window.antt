-- ===== src/Metrics/Window.antt =====
-- The histogram keeps the last response times of a resource.
use lynx_sentinel.Base.{
  ℕ, zero, suc, ◌-◌, ◌≤◌, String, ◌≡◌, refl, inl, inr, List, [], ◌∷◌, ◌++◌, map, arith, str_eq,
  eq_iff, if◌then◌else◌, drop, length, length-append, length-drop, drop-append, ltb, Bool-cases,
}
use mathlib.Core.List.{map-append}
use lynx_sentinel.Base.Dict.{Dict, insert, get_or, get_or-insert, get_or-insert_self}
use lynx_sentinel.Base.Float.{Platform}
use lynx_sentinel.Metrics.{
  MetricsCollector, new_metrics_collector, record_passed, record_blocked, record_rt, rt_ms,
  record_error, reset, set_enabled, set_interval, push_rt, drop_first, window_size,
}
use lynx_sentinel.Metrics.History.{
  Call, passed, blocked, failed, timed, resets, enables, paces, step, run, Tally, tally_start,
  tally_step, tally,
}

-- The last `n` items.
pub last : ℕ → List ℕ → List ℕ
last n xs = drop (length xs - n) xs

pub length-last : (n : ℕ) (xs : List ℕ) → length (last n xs) ≤ n
unfolding last
length-last n xs = omega (arith, length-drop (length xs - n) xs)

-- Appending, and dropping the oldest item of a list that has grown beyond the window.
cut : List ℕ → List ℕ
cut w = if ltb window_size (length w) then drop_first w else w

get_or-push_rt :
    (k j : String) (v : ℕ) (h : Dict (List ℕ))
    → get_or [] j (push_rt k v h)
      ≡ (if str_eq k j then cut (get_or [] j h ++ v ∷ []) else get_or [] j h)
unfolding push_rt cut
get_or-push_rt k j v h =
    let w = get_or [] k h ++ v ∷ [] in
    let a = insert k w h in
    ground (
      arith,
      get_or-insert_self [] k w h,
      get_or-insert [] k j w h,
      get_or-insert [] k j (drop_first w) a,
      eq_iff k j,
    )

drop_first-drop : (n : ℕ) (xs : List ℕ) → drop_first (drop n xs) ≡ drop (suc n) xs
unfolding drop_first
drop_first-drop zero [] = refl
drop_first-drop zero (x ∷ xs) = refl
drop_first-drop (suc n) [] = refl
drop_first-drop (suc n) (x ∷ xs) = drop_first-drop n xs

cut-last :
    (xs : List ℕ) (v : ℕ) → cut (last window_size xs ++ v ∷ []) ≡ last window_size (xs ++ v ∷ [])
unfolding cut last
cut-last xs v = elim (Bool-cases (ltb (length xs) window_size)) [
  | inl short ↦
      let whole : length xs - window_size ≡ 0 = ground arith in
      let still : length (xs ++ v ∷ []) - window_size ≡ 0 =
        ground (arith, length-append xs (v ∷ [])) in
      rw (whole, still) (ground (arith, length-append xs (v ∷ [])))
  | inr long ↦
      let n = length xs - window_size in
      let next : length (xs ++ v ∷ []) - window_size ≡ suc n =
        ground (arith, length-append xs (v ∷ [])) in
      rw next (
        ground (
          arith,
          length-append (drop n xs) (v ∷ []),
          length-drop n xs,
          drop-append n xs (v ∷ []),
          drop_first-drop n (xs ++ v ∷ []),
        ))
]

last-nil : (mine : String) → get_or [] mine [] ≡ last window_size []
unfolding get_or last
last-nil mine = refl

module _ (platform : Platform) where
  -- The histogram of a resource holds the last 100 of the response times recorded for it.
  abbrev pub Remembers : String → MetricsCollector → Tally → Type 0
  Remembers mine mc t =
      (mc.enabled ≡ t.enabled)
      × (get_or [] mine mc.rt_histogram ≡ last window_size (map (rt_ms platform) t.times))

  start-Remembers :
      (mine : String) (interval : ℕ) → Remembers mine (new_metrics_collector interval) tally_start
  unfolding new_metrics_collector tally_start
  start-Remembers mine interval = (refl, last-nil mine)

  record_rt-last :
      (mine : String) (mc : MetricsCollector) (t : Tally) (duration : ℕ)
      → get_or [] mine mc.rt_histogram ≡ last window_size (map (rt_ms platform) t.times)
      → cut (get_or [] mine mc.rt_histogram ++ rt_ms platform duration ∷ [])
        ≡ last window_size (map (rt_ms platform) (t.times ++ duration ∷ []))
  record_rt-last mine mc t duration h =
      rw (h, map-append) (cut-last (map (rt_ms platform) t.times) (rt_ms platform duration))

  step-Remembers :
      (mine : String) (mc : MetricsCollector) (t : Tally) (call : Call)
      → Remembers mine mc t
      → Remembers mine (step platform mc call) (tally_step mine t call)
  unfolding step tally_step record_passed record_blocked record_error record_rt reset set_enabled
      set_interval
  step-Remembers mine mc t (passed resource) s = ground arith
  step-Remembers mine mc t (blocked resource) s = ground arith
  step-Remembers mine mc t (failed resource) s = s
  step-Remembers mine mc t (timed resource duration) s = ground (
    arith,
    get_or-push_rt resource mine (rt_ms platform duration) mc.rt_histogram,
    record_rt-last mine mc t duration s.1,
  )
  step-Remembers mine mc t resets s = (s.0, last-nil mine)
  step-Remembers mine mc t (enables enabled) s = ground arith
  step-Remembers mine mc t (paces interval) s = s

  run-Remembers :
      (mine : String) (mc : MetricsCollector) (t : Tally) (calls : List Call)
      → Remembers mine mc t
      → Remembers mine (run platform mc calls) (tally mine t calls)
  unfolding run tally
  run-Remembers mine mc t [] s = s
  run-Remembers mine mc t (call ∷ calls) s =
      run-Remembers mine (step platform mc call) (tally_step mine t call) calls
        (step-Remembers mine mc t call s)

  -- After any history of calls of a new collector, the histogram of a resource holds the last 100
  -- response times recorded for it since the last reset, in order, and so never more than 100.
  pub run-new-Remembers :
      (mine : String) (interval : ℕ) (calls : List Call)
      → let window =
          get_or [] mine (run platform (new_metrics_collector interval) calls).rt_histogram in
        (window ≡ last window_size (map (rt_ms platform) (tally mine tally_start calls).times))
        × (length window ≤ window_size)
  run-new-Remembers mine interval calls =
      let same =
        (run-Remembers mine (new_metrics_collector interval) tally_start calls
          (start-Remembers mine interval)).1 in
      (same, rw same (length-last window_size _))
