-- ===== src/Plugin.antt =====
-- types.go and api.go: the plugin's state, and the operations on the path of a request.
-- Pointers are addresses in the tables of the world, and a channel is its place in a table that says
-- whether it is closed. A method that takes the lock is one step. An error from outside the
-- repository, or from a caller's function, is known by its text.
pub mod Steps
pub mod Verdict
pub mod Recording
pub mod Traffic
pub mod Balance
pub mod Flights
use Prim.Native.String.{◌++◌ as append}
use mathlib.Core.Option
use lynx_sentinel.Base.{
  ℕ, String, Bool, true, false, not, List, [], Option, none, some, if◌then◌else◌, get_elem?, set,
}
use lynx_sentinel.Base.Float.{Platform}
use lynx_sentinel.Config.{SentinelConfig}
use lynx_sentinel.Engine.{Engine, Admission, admitted, blocked}
use lynx_sentinel.Metrics.{
  MetricsCollector, ResourceStats, record_passed, record_blocked, record_rt, record_error,
  get_resource_stats, get_all_resource_stats,
}
use lynx_sentinel.Base.Dict.{Dict}

-- The fields `enabled` and `stopCh` of the server are never read.
pub record DashboardServer : Type 0 where
  pub port : ℕ
  pub metrics_collector : Option ℕ
  pub running : Bool

-- A goroutine that the wait group counts, and the channel that it listens to.
pub data Task : Type 0 where
  collects serves : ℕ → Task

pub record Worker : Type 0 where
  pub task : Task
  pub channel : Option ℕ

pub record PlugSentinel : Type 0 where
  pub conf : Option SentinelConfig
  pub has_runtime : Bool
  pub sentinel_initialized : Bool
  pub metrics_collector : Option ℕ
  pub dashboard_server : Option ℕ
  pub is_initialized : Bool
  pub stop_ch : Option ℕ
  pub workers : List Worker

-- The plugin, the objects that it points to, and the global state: sentinel-golang's, the host's,
-- and what `sentinelInitOnce` has left in `sentinelInitErr`, if it ran.
pub record World (S H : Type 0) : Type 0 where
  pub plugin : PlugSentinel
  pub collectors : List MetricsCollector
  pub dashboards : List DashboardServer
  pub closed : List Bool
  pub core : S
  pub host : H
  pub init_once : Option (Option String)

-- The errors of api.go.
pub data PluginError : Type 0 where
  not_initialized : PluginError
  context_canceled : String → PluginError
  blocked_by : String → PluginError
  invalid_entry : PluginError
  failed : String → PluginError

-- `err.Error()`.
unfoldable pub message : PluginError → String
message not_initialized = "sentinel plugin not initialized"
message (context_canceled text) = append "context canceled: " text
message (blocked_by text) = text
message invalid_entry = "invalid entry type"
message (failed text) = text

-- A value of type `any`, as far as the plugin looks into it.
pub data AnyValue : Type 0 where
  nil_value other_value : AnyValue
  sentinel_entry : ℕ → AnyValue

-- `entry.(*base.SentinelEntry)`.
unfoldable pub as_entry : AnyValue → Option ℕ
as_entry nil_value = none
as_entry other_value = none
as_entry (sentinel_entry handle) = some handle

-- How the caller's function ends.
pub data Ran : Type 0 where
  returned : Option String → Ran
  panicked : Ran

-- How a call of the plugin ends.
pub data Outcome : Type 0 where
  done : Option PluginError → Outcome
  panics : Outcome

pub record FlowControlResult : Type 0 where
  pub allowed : Bool
  pub resource : String
  pub rule : String
  pub reason : String
  pub timestamp : ℕ
  pub duration : ℕ

-- The caller's function: it may do anything to the world.
abbrev pub Body : Type 0 → Type 0 → Type 0
Body S H = World S H → Ran × World S H

module _ {S H : Type 0} where
  -- A method call on the collector behind a pointer, if the pointer is not nil.
  unfoldable pub on_collector :
      Option ℕ → (MetricsCollector → MetricsCollector) → World S H → World S H
  on_collector none f w = w
  on_collector (some p) f w = elim (get_elem? w.collectors p) [
    | none ↦ w
    | some mc ↦ record w { collectors = set w.collectors p (f mc) }
  ]

  unfoldable pub runtime_state : World S H → Bool × Option ℕ
  runtime_state w = (w.plugin.sentinel_initialized, w.plugin.metrics_collector)

  -- `GetResourceStats` and `GetAllResourceStats`: nil without a collector. A pointer that is not nil
  -- points to a collector.
  unfoldable pub collector_at : Option ℕ → World S H → Option MetricsCollector
  collector_at none w = none
  collector_at (some p) w = get_elem? w.collectors p

  unfoldable pub resource_stats : Platform → ℕ → String → World S H → Option ResourceStats
  resource_stats platform now resource w =
      Option.map (λ mc. get_resource_stats platform now mc resource)
        (collector_at w.plugin.metrics_collector w)

  unfoldable pub all_resource_stats :
      Platform → (String → ℕ) → World S H → Option (Dict ResourceStats)
  all_resource_stats platform clock w =
      Option.map (get_all_resource_stats platform clock) (collector_at w.plugin.metrics_collector w)

  module _ {O : Type 0} (core : Engine S O) where
    -- What `Entry` does with the answer of `api.Entry`.
    unfoldable pub admit :
        Option ℕ → String → Admission × S → World S H → (AnyValue × Option PluginError) × World S H
    admit collector resource (blocked text, s) w = (
      (nil_value, some (blocked_by text)),
      on_collector collector (record_blocked resource) (record w { core = s }),
    )
    admit collector resource (admitted handle, s) w = (
      (sentinel_entry handle, none),
      on_collector collector (record_passed resource) (record w { core = s }),
    )

    unfoldable pub entry : String → List O → World S H → (AnyValue × Option PluginError) × World S H
    entry resource opts w =
        let (initialized, collector) = runtime_state w in
        if not initialized
        then ((nil_value, some not_initialized), w)
        else admit collector resource (core.enter resource opts w.core) w

    -- `ctx_err` is what `ctx.Err()` returns.
    unfoldable pub entry_with_context :
        Option String → String → List O → World S H → (AnyValue × Option PluginError) × World S H
    entry_with_context ctx_err resource opts w = elim ctx_err [
      | some text ↦ ((nil_value, some (context_canceled text)), w)
      | none ↦ entry resource opts w
    ]

    -- The deferred `sentinelEntry.Exit()`.
    unfoldable pub exit_entry : ℕ → World S H → World S H
    exit_entry handle w = record w { core = core.exit handle w.core }

    -- `api.TraceError(sentinelEntry, err)`.
    unfoldable pub trace : ℕ → String → World S H → World S H
    trace handle text w = record w { core = core.trace_error handle text w.core }

    module _ (platform : Platform) where
      -- `Execute` after the caller's function has returned, before the deferred call; `elapsed` is
      -- `time.Since(startTime)`.
      unfoldable pub account : Option ℕ → ℕ → String → ℕ → Option String → World S H → World S H
      account collector handle resource elapsed none w =
          on_collector collector (record_rt platform resource elapsed) w
      account collector handle resource elapsed (some text) w = trace handle text (
          on_collector collector (record_error resource)
            (on_collector collector (record_rt platform resource elapsed) w))

      unfoldable pub finish : Option ℕ → ℕ → String → ℕ → Ran × World S H → Outcome × World S H
      finish collector handle resource elapsed (panicked, w) = (panics, exit_entry handle w)
      finish collector handle resource elapsed (returned none, w) =
          (done none, exit_entry handle (account collector handle resource elapsed none w))
      finish collector handle resource elapsed (returned (some text), w) = (
        done (some (failed text)),
        exit_entry handle (account collector handle resource elapsed (some text) w),
      )

      -- `Execute` from the check of the entry's error on.
      unfoldable pub protect :
          String → Body S H → ℕ → (AnyValue × Option PluginError) × World S H → Outcome × World S H
      protect resource body elapsed ((value, some e), w) = (done (some e), w)
      protect resource body elapsed ((value, none), w) = elim (as_entry value) [
        | none ↦ (done (some invalid_entry), w)
        | some handle ↦ finish (runtime_state w).1 handle resource elapsed (body w)
      ]

      unfoldable pub execute : String → Body S H → ℕ → List O → World S H → Outcome × World S H
      execute resource body elapsed opts w = protect resource body elapsed (entry resource opts w)

      unfoldable pub execute_with_context :
          Option String → String → Body S H → ℕ → List O → World S H → Outcome × World S H
      execute_with_context ctx_err resource body elapsed opts w =
          protect resource body elapsed (entry_with_context ctx_err resource opts w)

    -- `CheckFlow` after its call of `Entry`; `now` is the time of the call.
    unfoldable pub flow_result :
        String → ℕ → (AnyValue × Option PluginError) × World S H → FlowControlResult × World S H
    flow_result resource now ((value, some e), w) = (
      record {
        allowed = false;
        resource = resource;
        rule = "";
        reason = message e;
        timestamp = now;
        duration = 0;
      },
      w,
    )
    flow_result resource now ((value, none), w) = (
      record {
        allowed = true;
        resource = resource;
        rule = "";
        reason = "";
        timestamp = now;
        duration = 0;
      },
      elim (as_entry value) [ none ↦ w | some handle ↦ exit_entry handle w ],
    )

    unfoldable pub check_flow : String → ℕ → World S H → FlowControlResult × World S H
    check_flow resource now w = flow_result resource now (entry resource [] w)
