-- ===== src/Metrics/History.antt =====
-- Histories of calls of a collector, and what they mean for one resource.
use lynx_sentinel.Base.{
  ℕ, suc, String, Bool, true, false, List, [], ◌∷◌, ◌++◌, str_eq, if◌then◌else◌,
}
use lynx_sentinel.Base.Float.{Platform}
use lynx_sentinel.Metrics.{
  MetricsCollector, record_passed, record_blocked, record_rt, record_error, reset, set_enabled,
  set_interval,
}

-- The calls that may change a collector.
pub data Call : Type 0 where
  passed blocked failed : String → Call
  timed : String → ℕ → Call
  resets : Call
  enables : Bool → Call
  paces : ℕ → Call

module _ (platform : Platform) where
  unfoldable pub step : MetricsCollector → Call → MetricsCollector
  step mc (passed resource) = record_passed resource mc
  step mc (blocked resource) = record_blocked resource mc
  step mc (failed resource) = record_error resource mc
  step mc (timed resource duration) = record_rt platform resource duration mc
  step mc resets = reset mc
  step mc (enables enabled) = set_enabled enabled mc
  step mc (paces interval) = set_interval interval mc

  unfoldable pub run : MetricsCollector → List Call → MetricsCollector
  run mc [] = mc
  run mc (call ∷ calls) = run (step mc call) calls

-- What a history means for one resource: the events since the last reset that were recorded, that is
-- while the collector was enabled. The numbers are unbounded and the times are all kept.
pub record Tally : Type 0 where
  pub enabled : Bool
  pub passes : ℕ
  pub blocks : ℕ
  pub times : List ℕ

unfoldable pub tally_start : Tally
tally_start = record { enabled = true; passes = 0; blocks = 0; times = [] }

abbrev pub counts : Tally → String → String → Bool
counts t mine resource = if t.enabled then str_eq resource mine else false

unfoldable pub tally_step : String → Tally → Call → Tally
tally_step mine t (passed resource) =
    if counts t mine resource then record t { passes = suc t.passes } else t
tally_step mine t (blocked resource) =
    if counts t mine resource then record t { blocks = suc t.blocks } else t
tally_step mine t (failed resource) = t
tally_step mine t (timed resource duration) =
    if counts t mine resource then record t { times = t.times ++ duration ∷ [] } else t
tally_step mine t resets = record t { passes = 0; blocks = 0; times = [] }
tally_step mine t (enables enabled) = record t { enabled = enabled }
tally_step mine t (paces interval) = t

unfoldable pub tally : String → Tally → List Call → Tally
tally mine t [] = t
tally mine t (call ∷ calls) = tally mine (tally_step mine t call) calls
