-- ===== src/Samples/Departing.antt =====
-- Calls of a plugin, and its goroutines as they return.
use lynx_sentinel.Base.{ℕ, String, ◌≡◌, refl, false, [], none, some, get_elem?}
use lynx_sentinel.Base.Float.{lt_f, is_nan, rank, magnitude}
use lynx_sentinel.Config.{
  validate_and_set_defaults, set_defaults, validate_configuration, check_port, check_all,
  check_flow_rule, check_cb_rule,
}
use lynx_sentinel.Rules.{reload_rules}
use lynx_sentinel.Plugin.Traffic.{enters, executes}
use lynx_sentinel.Plugin.{panicked, World, Task}
use lynx_sentinel.Lifecycle.{
  finished, config, init_core_once, initialize_sentinel_core, signal_stop, all_told, is_told,
  is_closed,
}
use lynx_sentinel.Lifecycle.Tasks.{
  initialize_configured, initialize_core, store_conf, initialize_resources, startup_tasks_context,
}
use lynx_sentinel.Lifecycle.Workers.{IsTidy}
use lynx_sentinel.Lifecycle.Hooks.{
  background, PluginCall, initializes, starts, cleans, configures, uses, with_new_plugin,
  cleanup_tasks, perform,
}
use lynx_sentinel.Lifecycle.Histories.{HasNoRules}
use lynx_sentinel.Lifecycle.Departures.{leave, early}
use lynx_sentinel.Lifecycle.Interleavings.{
  Reach, made, next, calls, departs, Reach-IsTidy, cleanup_tasks-Reach,
}
use lynx_sentinel.Samples.{
  small_core, small_core_laws, small_host, small_platform, two_rules, new_world, Loaded,
}
use lynx_sentinel.Samples.Lifecycles.{late}
use lynx_sentinel.Lifecycle.Tasks.{
  attach, make_collector, make_dashboard, mark_initialized, publish, roll_back, start_background,
  start_loaded,
}
use lynx_sentinel.Lifecycle.{
  close_once, is_stop_channel_closed, launch, launch_workers, load_all, reset_stop_channel,
  wait_workers,
}
use lynx_sentinel.Lifecycle.Hooks.{new_sentinel_plugin}
use lynx_sentinel.Rules.{
  cb_rule, flow_rule, load_circuit_breaker_rules, load_flow_rules, load_system_rules,
}

-- A start-up that fails late, a second one, whose server cannot bind its port, requests, and a
-- cleanup that is cut short.
abbrev calling : World Loaded ℕ → PluginCall String → World Loaded ℕ
calling = perform small_host small_core small_platform

abbrev failed_late : World Loaded ℕ
failed_late = calling (calling (with_new_plugin new_world) initializes) (starts late)

abbrev started : World Loaded ℕ
started = calling failed_late (starts background)

started_server :
    get_elem? started.plugin.workers 0 ≡ some (record { task = Task.serves 0; channel = some 2 })
unfolding perform startup_tasks_context initialize_resources initialize_configured initialize_core
    initialize_sentinel_core init_core_once validate_and_set_defaults set_defaults
    validate_configuration check_port check_all check_flow_rule check_cb_rule lt_f is_nan rank
    magnitude store_conf with_new_plugin mark_initialized start_loaded load_all reset_stop_channel
    is_stop_channel_closed make_dashboard make_collector new_sentinel_plugin is_closed reload_rules
    load_flow_rules load_circuit_breaker_rules load_system_rules start_background roll_back
    wait_workers attach publish all_told close_once is_told launch launch_workers signal_stop
    cb_rule flow_rule
started_server = refl

abbrev interleaved : World Loaded ℕ
interleaved =
    calling
      (calling
        (calling (calling (leave 0 started) (uses (enters "a" [])))
          (uses (executes "closed" panicked 5 [])))
        (configures (config (some two_rules))))
      (cleans (some "deadline exceeded") false)

interleaved-Reach : Reach small_host small_core small_platform new_world interleaved
interleaved-Reach =
    next
      (next
        (next
          (next
            (next
              (next (next (next made (calls initializes _)) (calls (starts late) _))
                (calls (starts background) _))
              (departs (early 0 started started_server)))
            (calls (uses (enters "a" [])) _))
          (calls (uses (executes "closed" panicked 5 [])) _))
        (calls (configures (config (some two_rules))) _))
      (calls (cleans (some "deadline exceeded") false) _)

Reach-IsTidy_example : IsTidy interleaved
Reach-IsTidy_example =
    Reach-IsTidy small_host small_core small_core_laws small_platform new_world interleaved
      interleaved-Reach

cleanup_tasks-Reach_example :
    let r = cleanup_tasks small_core interleaved in
    (r.0 ≡ finished none) × (r.1.plugin.workers ≡ []) × HasNoRules small_core r.1.core
cleanup_tasks-Reach_example =
    cleanup_tasks-Reach small_host small_core small_core_laws small_platform new_world interleaved
      interleaved-Reach
