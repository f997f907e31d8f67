-- ===== src/Lifecycle.antt =====
-- lifecycle.go, lifecycle_context.go and the methods OnConfigUpdate and IsHealthy of plug.go.
-- A method holds the lock throughout, so it is one step. The host framework is a parameter.
pub mod Tasks
pub mod Channels
pub mod Workers
pub mod Startup
pub mod Started
pub mod Cleanup
pub mod Initialization
pub mod Configuration
pub mod Hooks
pub mod Keeping
pub mod Histories
pub mod Restarting
pub mod Departures
pub mod Interleavings
pub mod Objects
use mathlib.Core.Option
use lynx_sentinel.Base.{
  ℕ, String, Bool, true, false, not, ◌&&◌, ◌||◌, List, [], ◌∷◌, ◌++◌, Option, none, some,
  if◌then◌else◌, get_elem?, set, length, is_some,
}
use lynx_sentinel.Base.Float.{Platform}
use lynx_sentinel.Config.{
  SentinelConfig, ConfigError, validate_configuration, validate_and_set_defaults,
}
use lynx_sentinel.Engine.{Engine, Admission, admitted, blocked}
use lynx_sentinel.Rules.{RuleError, reload_rules}
use lynx_sentinel.Metrics.{MetricsCollector, new_metrics_collector}
use lynx_sentinel.Plugin.{
  DashboardServer, Task, collects, serves, Worker, PlugSentinel, World, exit_entry,
}

-- The host: `lynx.GetName`, `BasePlugin.InitializeResources`, the scan of the configuration into a
-- zero one (which an error may leave partly filled), `SetRateLimiter` on the current application,
-- and the registration of the plugin's resources. The errors of the last two are only logged.
pub record Host (H : Type 0) : Type 0 where
  pub name : H → String
  pub init_base : H → Option String × H
  pub scan : H → SentinelConfig × Option String
  pub set_rate_limiter : H → H
  pub register_resources : H → H

pub data LifecycleError : Type 0 where
  base_failed scan_failed core_failed : String → LifecycleError
  invalid_configuration : ConfigError → LifecycleError
  canceled : String → LifecycleError
  plugin_not_initialized core_not_initialized invalid_type : LifecycleError
  rules_failed : RuleError → LifecycleError
  health_failed : String → LifecycleError
  cleanup_canceled : String → LifecycleError

-- A call returns, dereferences a nil pointer, or waits for ever.
pub data Ending : Type 0 where
  finished : Option LifecycleError → Ending
  crashed hangs : Ending

-- The places where StartupTasksContext reads `ctx.Err()`.
pub data Checkpoint : Type 0 where
  before_execution before_background before_attaching before_publishing : Checkpoint

-- What a call of Configure is given: nil, a value of another type, or a pointer to a configuration,
-- which may be nil itself.
pub data Given : Type 0 where
  nothing other_type : Given
  config : Option SentinelConfig → Given

-- `30 * time.Second`.
abbrev pub default_interval : ℕ
default_interval = 30000000000

-- A receive from a closed channel succeeds at once.
unfoldable pub is_closed : List Bool → ℕ → Bool
is_closed closed c = elim (get_elem? closed c) [ none ↦ false | some b ↦ b ]

unfoldable pub is_stop_channel_closed : List Bool → Option ℕ → Bool
is_stop_channel_closed closed none = true
is_stop_channel_closed closed (some c) = is_closed closed c

-- `close(s.stopCh)`, unless the channel is nil or closed.
unfoldable pub close_once : List Bool → Option ℕ → List Bool
close_once closed none = closed
close_once closed (some c) = if is_closed closed c then closed else set closed c true

-- Nothing is ever received from a nil channel.
unfoldable pub is_told : List Bool → Option ℕ → Bool
is_told closed none = false
is_told closed (some c) = is_closed closed c

-- Has every worker been told to stop?
unfoldable pub all_told : List Bool → List Worker → Bool
all_told closed [] = true
all_told closed (worker ∷ workers) = is_told closed worker.channel && all_told closed workers

module _ {S H : Type 0} where
  -- `make(chan struct{})` on a channel that is nil or closed.
  unfoldable pub reset_stop_channel : World S H → World S H
  reset_stop_channel w =
      if is_stop_channel_closed w.closed w.plugin.stop_ch
      then record w {
        plugin = record plugin { stop_ch = some (length w.closed) };
        closed = w.closed ++ false ∷ [];
      }
      else w
    where
      open w use {plugin}

  unfoldable pub signal_stop : World S H → World S H
  signal_stop w = record w { closed = close_once w.closed w.plugin.stop_ch }

  -- `s.wg.Wait()`: workers end when they are told to stop, and all have to. (They may end before.)
  unfoldable pub wait_workers : LifecycleError → World S H → Ending × World S H
  wait_workers e w =
      if all_told w.closed w.plugin.workers
      then (finished (some e), record w { plugin = record plugin { workers = [] } })
      else (hangs, w)
    where
      open w use {plugin}

  -- `s.wg.Add(1)` and `go`: one worker for the collector, if there is one, and one for the server.
  unfoldable pub launch : (ℕ → Task) → Option ℕ → World S H → World S H
  launch task none w = w
  launch task (some p) w = record w {
    plugin = record plugin {
      workers = record { task = task p; channel = plugin.stop_ch } ∷ plugin.workers;
    };
  }
    where
      open w use {plugin}

  unfoldable pub launch_workers : World S H → World S H
  launch_workers w =
      let w' = launch collects w.plugin.metrics_collector w in
      launch serves w'.plugin.dashboard_server w'

  unfoldable pub is_healthy : World S H → Bool
  is_healthy w = w.plugin.is_initialized && w.plugin.sentinel_initialized

  module _ {O : Type 0} (core : Engine S O) where
    -- `reloadRules` with `s.conf`, and the same three loads at start-up.
    unfoldable pub load_all : World S H → Ending × World S H
    load_all w = elim w.plugin.conf [
      | none ↦ (crashed, w)
      | some conf ↦
          let (e, s) = reload_rules core conf w.core in
          (finished (Option.map rules_failed e), record w { core = s })
    ]

    -- `initializeSentinelCore`, with `sentinelInitOnce`. (That the logger is set is left out.)
    unfoldable pub init_core_once : SentinelConfig → World S H → Option String × World S H
    init_core_once conf w = elim w.init_once [
      | some e ↦ (e, w)
      | none ↦
          let (e, s) = core.init_with_config conf.app_name conf.log_dir w.core in
          (e, record w { core = s; init_once = some e })
    ]

    unfoldable pub initialize_sentinel_core : SentinelConfig → World S H → Option String × World S H
    initialize_sentinel_core conf w =
        let (e, w') = init_core_once conf w in
        elim e [
          | some text ↦ (some text, w')
          | none ↦ (none, record w' { plugin = record (w'.plugin) { sentinel_initialized = true } })
        ]

    -- The call of `api.Entry("health_check")`.
    unfoldable pub probe : Admission × S → World S H → Option LifecycleError × World S H
    probe (blocked text, s) w = (some (health_failed text), record w { core = s })
    probe (admitted handle, s) w = (none, exit_entry core handle (record w { core = s }))

    unfoldable pub check_health : World S H → Option LifecycleError × World S H
    check_health w =
        if not w.plugin.is_initialized
        then (some plugin_not_initialized, w)
        else if not w.plugin.sentinel_initialized
        then (some core_not_initialized, w)
        else probe (core.enter "health_check" [] w.core) w

    -- `Configure` once the configuration is valid.
    unfoldable pub apply_configuration : SentinelConfig → World S H → Ending × World S H
    apply_configuration conf w =
        let w' = record w { plugin = record (w.plugin) { conf = some conf } } in
        if w.plugin.is_initialized then load_all w' else (finished none, w')

    unfoldable pub configure : Given → World S H → Ending × World S H
    configure nothing w = (finished none, w)
    configure other_type w = (finished (some invalid_type), w)
    configure (config none) w = (crashed, w)
    configure (config (some conf)) w = elim (validate_configuration conf) [
      | some e ↦ (finished (some (invalid_configuration e)), w)
      | none ↦ apply_configuration conf w
    ]

    unfoldable pub on_config_update : Given → World S H → Ending × World S H
    on_config_update nothing w = (finished (some invalid_type), w)
    on_config_update other_type w = (finished (some invalid_type), w)
    on_config_update (config c) w = configure (config c) w
