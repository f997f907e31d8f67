-- ===== src/Metrics/Collecting.antt =====
-- Start and collectMetrics of metrics.go: the collector's goroutine. A round of its `select` is what
-- ends it, the ticker or the stop channel; others may change the collector between two rounds, so a
-- tick has the collector that it finds.
use lynx_sentinel.Base.{
  ℕ, String, ◌≡◌, ap, sym, ◌∙◌, true, false, not, List, [], ◌∷◌, ◌++◌, map, append_assoc,
  append-nil, arith, if◌then◌else◌,
}
use lynx_sentinel.Base.Dict.{keys}
use lynx_sentinel.Base.Float.{Platform}
use lynx_sentinel.Base.Words.{is_positive64}
use lynx_sentinel.Metrics.{MetricsCollector, calculate_resource_stats}

-- What is logged of a resource at a tick.
pub record LogLine : Type 0 where
  pub resource : String
  pub pass_qps : ℕ
  pub block_qps : ℕ
  pub avg_rt : ℕ

pub data Signal : Type 0 where
  tick : MetricsCollector → Signal
  stop : Signal

-- How the goroutine stands after some rounds, and what each tick has logged. `time.NewTicker` panics
-- for an interval that is not positive.
pub data Collecting : Type 0 where
  disabled panics : Collecting
  running stopped : List (List LogLine) → Collecting

module _ (platform : Platform) where
  -- The loop over the request counters.
  unfoldable pub log_lines : MetricsCollector → List String → List LogLine
  log_lines mc [] = []
  log_lines mc (resource ∷ resources) =
      let stats = calculate_resource_stats platform 0 mc resource in
      record {
        resource = resource;
        pass_qps = stats.pass_qps;
        block_qps = stats.block_qps;
        avg_rt = stats.avg_rt;
      }
      ∷ log_lines mc resources

  unfoldable pub collect_metrics : MetricsCollector → List LogLine
  collect_metrics mc = log_lines mc (keys mc.request_counter)

  unfoldable pub collect_rounds : List (List LogLine) → List Signal → Collecting
  collect_rounds logged [] = running logged
  collect_rounds logged (tick mc ∷ signals) =
      collect_rounds (logged ++ collect_metrics mc ∷ []) signals
  collect_rounds logged (stop ∷ signals) = stopped logged

  unfoldable pub start : MetricsCollector → List Signal → Collecting
  start mc signals =
      if not mc.enabled
      then disabled
      else if is_positive64 mc.interval
      then collect_rounds [] signals
      else panics

  collect_rounds-stop :
      (logged : List (List LogLine)) (seen : List MetricsCollector) (later : List Signal)
      → collect_rounds logged (map tick seen ++ stop ∷ later)
        ≡ stopped (logged ++ map collect_metrics seen)
  unfolding collect_rounds
  collect_rounds-stop logged [] later = ap stopped (sym (append-nil logged))
  collect_rounds-stop logged (mc ∷ seen) later =
      collect_rounds-stop (logged ++ collect_metrics mc ∷ []) seen later
      ∙ ap stopped (append_assoc logged (collect_metrics mc ∷ []) (map collect_metrics seen))

  -- The goroutine of an enabled collector with a positive interval logs the statistics at each tick
  -- before the stop signal, in order, and returns at that signal.
  pub start-stop :
      (mc : MetricsCollector) (seen : List MetricsCollector) (later : List Signal)
      → mc.enabled ≡ true
      → is_positive64 mc.interval ≡ true
      → start mc (map tick seen ++ stop ∷ later) ≡ stopped (map collect_metrics seen)
  unfolding start
  start-stop mc seen later on positive = rw (on, positive) (collect_rounds-stop [] seen later)

  pub start_panics :
      (mc : MetricsCollector) (signals : List Signal)
      → mc.enabled ≡ true
      → is_positive64 mc.interval ≡ false
      → start mc signals ≡ panics
  unfolding start
  start_panics mc signals on bad = ground arith
