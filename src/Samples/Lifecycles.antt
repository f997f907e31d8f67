-- ===== src/Samples/Lifecycles.antt =====
-- The lifecycle on a plugin with a collector and a dashboard server.
use lynx_sentinel.Plugin.{World, Task}
use lynx_sentinel.Base.{
  false, ℕ, String, ◌≡◌, refl, inr, true, [], Option, none, some, arith, get_elem?,
}
use lynx_sentinel.Base.Float.{lt_f, is_nan, rank, magnitude}
use lynx_sentinel.Config.{
  validate_and_set_defaults, set_defaults, validate_configuration, check_port, check_all,
  check_flow_rule, check_cb_rule,
}
use lynx_sentinel.Rules.{
  reload_rules, load_flow_rules, load_circuit_breaker_rules, load_system_rules, flow_rule, cb_rule,
}
use lynx_sentinel.Lifecycle.{
  apply_configuration, signal_stop, close_once, all_told, is_told, init_core_once,
  initialize_sentinel_core, is_healthy, finished, Checkpoint, before_execution, before_background,
  before_attaching, before_publishing, config, is_stop_channel_closed, reset_stop_channel,
  launch_workers, launch, load_all, is_closed, configure,
}
use lynx_sentinel.Lifecycle.Tasks.{
  initialize_configured, initialize_core, store_conf, cleanup_tasks_context, initialize_resources,
  startup_tasks_context, start_loaded, start_background, attach, publish, cleanup_waited,
  wait_bounded, clear_rules,
}
use lynx_sentinel.Lifecycle.Workers.{IsTidy}
use lynx_sentinel.Lifecycle.Startup.{Safe, startup_tasks_context-Safe}
use lynx_sentinel.Lifecycle.Started.{Started, startup_tasks_context-Started}
use lynx_sentinel.Lifecycle.Restarting.{Generations, startup_tasks_context-Generations}
use lynx_sentinel.Lifecycle.Cleanup.{Cleaned, cleanup_tasks_context-Cleaned}
use lynx_sentinel.Lifecycle.Initialization.{completed, initialize_resources-healthy}
use lynx_sentinel.Lifecycle.Configuration.{configure-change}
use lynx_sentinel.Lifecycle.Departures.{leave, early, more, stay}
use lynx_sentinel.Config.Checks.{IsValid}
use lynx_sentinel.Rules.Table.{reloads}
use lynx_sentinel.Rules.Multisets.{rules_in_force, change}
use lynx_sentinel.Samples.{
  new_world, small_core, small_core_laws, small_host, small_platform, two_rules, ready_world,
  running_world, Loaded,
}

abbrev never : Checkpoint → Option String
never c = none

-- The context is cancelled while the workers are launched.
abbrev pub late : Checkpoint → Option String
late before_execution = none
late before_background = none
late before_attaching = some "canceled"
late before_publishing = some "canceled"

pub ready-IsTidy : IsTidy ready_world
ready-IsTidy = record { known = λ c e. ground arith; listening = tt }

pub running-IsTidy : IsTidy running_world
running-IsTidy = record {
  known = λ c e. ground arith;
  listening = ((0, refl, inr refl), ((0, refl, inr refl), tt));
}

startup_fine : (startup_tasks_context small_host small_core never ready_world).0 ≡ finished none
unfolding startup_tasks_context start_loaded start_background load_all reload_rules load_flow_rules
    load_circuit_breaker_rules load_system_rules flow_rule cb_rule reset_stop_channel
    is_stop_channel_closed is_closed launch_workers launch attach publish
startup_fine = refl

startup_tasks_context-Safe_example :
    Safe [] (startup_tasks_context small_host small_core late ready_world)
startup_tasks_context-Safe_example =
    startup_tasks_context-Safe small_host small_core late ready_world ready-IsTidy

startup_tasks_context-Started_example :
    Started small_core never ready_world
      (startup_tasks_context small_host small_core never ready_world).1
startup_tasks_context-Started_example =
    startup_tasks_context-Started small_host small_core never ready_world ready-IsTidy startup_fine

abbrev started : World Loaded ℕ
started = (startup_tasks_context small_host small_core never ready_world).1

abbrev abandoned : World Loaded ℕ
abandoned = (cleanup_tasks_context small_core (some "deadline exceeded") false started).1

started-IsTidy : IsTidy started
started-IsTidy =
    (startup_tasks_context-Safe small_host small_core never ready_world ready-IsTidy).tidy

-- One worker returns after the cleanup.
first_left :
    get_elem? abandoned.plugin.workers 0 ≡ some (record { task = Task.serves 0; channel = some 0 })
unfolding startup_tasks_context start_loaded start_background load_all reload_rules load_flow_rules
    load_circuit_breaker_rules load_system_rules flow_rule cb_rule reset_stop_channel
    is_stop_channel_closed is_closed launch_workers launch attach publish cleanup_tasks_context
    cleanup_waited wait_bounded clear_rules signal_stop close_once all_told is_told
first_left = refl

startup_fine_again :
    (startup_tasks_context small_host small_core never (leave 0 abandoned)).0 ≡ finished none
unfolding startup_tasks_context start_loaded start_background load_all reload_rules load_flow_rules
    load_circuit_breaker_rules load_system_rules flow_rule cb_rule reset_stop_channel
    is_stop_channel_closed is_closed launch_workers launch attach publish cleanup_tasks_context
    cleanup_waited wait_bounded clear_rules signal_stop close_once all_told is_told leave
startup_fine_again = refl

startup_tasks_context-Generations_example :
    Generations
      (leave 0 abandoned)
      (startup_tasks_context small_host small_core never (leave 0 abandoned)).1
startup_tasks_context-Generations_example =
    startup_tasks_context-Generations small_host small_core small_core_laws never
      (some "deadline exceeded") false started (leave 0 abandoned) started-IsTidy
      (more stay (early 0 abandoned first_left)) startup_fine_again

cleanup_tasks_context-Cleaned_example :
    Cleaned small_core
      (some "deadline exceeded")
      true
      (cleanup_tasks_context small_core (some "deadline exceeded") true running_world)
cleanup_tasks_context-Cleaned_example =
    cleanup_tasks_context-Cleaned small_core small_core_laws (some "deadline exceeded") true
      running_world running-IsTidy

pub initialization_fine :
    (initialize_resources small_host small_core small_platform new_world).0 ≡ none
unfolding initialize_resources initialize_configured initialize_core initialize_sentinel_core
    init_core_once validate_and_set_defaults set_defaults validate_configuration check_port
    check_all check_flow_rule check_cb_rule lt_f is_nan rank magnitude store_conf
initialization_fine = refl

initialize_resources-healthy_example :
    ((initialize_resources small_host small_core small_platform new_world).1.plugin.conf
      ≡ some (completed small_host new_world))
    × (validate_configuration (completed small_host new_world) ≡ none)
    × (is_healthy (initialize_resources small_host small_core small_platform new_world).1 ≡ true)
    × ((initialize_resources small_host small_core small_platform new_world).1.init_once
        ≡ some none)
initialize_resources-healthy_example =
    initialize_resources-healthy small_host small_core small_platform new_world initialization_fine

configure_fine : (configure small_core (config (some two_rules)) ready_world).0 ≡ finished none
unfolding configure apply_configuration load_all reload_rules load_flow_rules
    load_circuit_breaker_rules load_system_rules flow_rule cb_rule validate_configuration check_port
    check_all check_flow_rule check_cb_rule lt_f is_nan rank magnitude
configure_fine = refl

configure-change_example :
    let w' = (configure small_core (config (some two_rules)) ready_world).1 in
    IsValid two_rules
    × (w'.plugin.conf ≡ some two_rules)
    × (rules_in_force small_core w'.core
        ≡ change small_core small_core_laws
            (reloads two_rules)
            (rules_in_force small_core ready_world.core))
configure-change_example =
    configure-change small_core small_core_laws two_rules ready_world (omega arith) refl
      configure_fine
