-- ===== src/Lifecycle/Hooks.antt =====
-- What the framework calls: NewSentinelPlugin of plugin_meta.go, the hooks of lifecycle.go and
-- lifecycle_context.go, and sequences of such calls.
use lynx_sentinel.Base.{String, Bool, true, false, List, [], ◌∷◌, ◌++◌, Option, none, some, length}
use lynx_sentinel.Base.Float.{Platform}
use lynx_sentinel.Engine.{Engine}
use lynx_sentinel.Plugin.{World, PlugSentinel}
use lynx_sentinel.Plugin.Traffic.{Use, use_plugin}
use lynx_sentinel.Lifecycle.{
  Host, Ending, Checkpoint, Given, check_health, configure, on_config_update,
}
use lynx_sentinel.Lifecycle.Tasks.{
  cleanup_tasks_context, initialize_resources, startup_tasks_context,
}

-- `&PlugSentinel{…, stopCh: make(chan struct{})}`, given the channels made so far.
unfoldable pub new_sentinel_plugin : List Bool → PlugSentinel × List Bool
new_sentinel_plugin closed = (
  record {
    conf = none;
    has_runtime = false;
    sentinel_initialized = false;
    metrics_collector = none;
    dashboard_server = none;
    is_initialized = false;
    stop_ch = some (length closed);
    workers = [];
  },
  closed ++ false ∷ [],
)

-- `context.Background()`, which is never cancelled.
abbrev pub background : Checkpoint → Option String
background c = none

-- The calls that the framework and the users of a plugin make.
pub data PluginCall (O : Type 0) : Type 0 where
  initializes : PluginCall O
  starts : (Checkpoint → Option String) → PluginCall O
  cleans : Option String → Bool → PluginCall O
  configures : Given → PluginCall O
  updates : Given → PluginCall O
  checks_health : PluginCall O
  uses : Use O → PluginCall O

module _ {S H : Type 0} where
  -- A world whose plugin is a new one.
  unfoldable pub with_new_plugin : World S H → World S H
  with_new_plugin w =
      let (plugin, closed) = new_sentinel_plugin w.closed in
      record w { plugin = plugin; closed = closed }

  module _ {O : Type 0} (core : Engine S O) where
    -- The two exported hooks of lifecycle_context.go are the unexported ones.
    unfoldable pub cleanup_tasks : World S H → Ending × World S H
    cleanup_tasks = cleanup_tasks_context core none true

  module _ {O : Type 0} (host : Host H) (core : Engine S O) where
    unfoldable pub startup_tasks : World S H → Ending × World S H
    startup_tasks = startup_tasks_context host core background

    module _ (platform : Platform) where
      unfoldable pub perform : World S H → PluginCall O → World S H
      perform w initializes = (initialize_resources host core platform w).1
      perform w (starts ctx) = (startup_tasks_context host core ctx w).1
      perform w (cleans ctx_err in_time) = (cleanup_tasks_context core ctx_err in_time w).1
      perform w (configures given) = (configure core given w).1
      perform w (updates given) = (on_config_update core given w).1
      perform w checks_health = (check_health core w).1
      perform w (uses u) = (use_plugin core platform u w).1

      unfoldable pub perform_all : World S H → List (PluginCall O) → World S H
      perform_all w [] = w
      perform_all w (call ∷ calls) = perform_all (perform w call) calls
