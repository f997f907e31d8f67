-- ===== src/Samples/Registered.antt =====
-- The package-level functions, with a plugin in the manager and with one that the factory makes.
use lynx_sentinel.Base.{ℕ, zero, suc, ◌≤◌, ◌<◌, ◌≡◌, refl, ◌≢◌, inl, [], none, some, arith}
use lynx_sentinel.Plugin.{World, not_initialized}
use lynx_sentinel.Lifecycle.{is_healthy}
use lynx_sentinel.Lifecycle.Histories.{HasNoRules}
use lynx_sentinel.Registry.{
  Held, Made, creation_failed, nothing_held, sentinel_held, registered_made, Registry, managed,
  created, get_sentinel, create_sentinel,
}
use lynx_sentinel.Registry.Requests.{protect_function}
use lynx_sentinel.Registry.Queries.{shut, shutdown}
use lynx_sentinel.Registry.Waiting.{
  ticks, wait_for_ready, verdict, Idle, Decisive, wait_for_ready_ends, wait_for_ready-created,
}
use lynx_sentinel.Registry.Unregistered.{protection}
use lynx_sentinel.Registry.Registration.{
  Factory, FactoryLaws, init, registry_of, located_by, protect_function-init,
}
use lynx_sentinel.Base.Dict.{Dict, insert, get_or, get_or-insert_self}
use lynx_sentinel.Registry.Effects.{shutdown-HasNoRules}
use lynx_sentinel.Plugin.{PlugSentinel, message, done, Body, returned}
use lynx_sentinel.Middleware.{too_many_requests}
use lynx_sentinel.Registry.Handlers.{
  own_plugin, create_http_middleware, create_grpc_interceptor, serve_http, serve_stream,
  created_middleware_refuses,
}
use lynx_sentinel.Samples.Web.{text_of, fails_late}
use lynx_sentinel.Samples.{
  Loaded, small_core, small_core_laws, small_platform, new_world, ready_world, running_world,
}
use lynx_sentinel.Samples.Requests.{fails}
use lynx_sentinel.Samples.Lifecycles.{running-IsTidy}

-- The manager has the plugin.
abbrev pub with_manager : Registry ℕ
with_manager = record { held = λ h. sentinel_held; made = λ h. registered_made }

-- Only the factory can make one.
abbrev without_manager : Registry ℕ
without_manager = record { held = λ h. nothing_held; made = λ h. registered_made }

is_managed : get_sentinel with_manager 0 ≡ managed
unfolding get_sentinel
is_managed = refl

is_created : get_sentinel without_manager 0 ≡ created
unfolding get_sentinel create_sentinel
is_created = refl

-- The plugin becomes ready before the third poll.
abbrev worlds : ℕ → World Loaded ℕ
worlds zero = new_world
worlds (suc zero) = new_world
worlds (suc (suc n)) = ready_world

third_poll : Decisive worlds (λ n. ticks) 2
unfolding is_healthy
third_poll = inl refl

wait_for_ready_ends_example :
    (i : ℕ) × (i ≤ 2)
    × ((j : ℕ) → j < i → Idle worlds (λ n. ticks) j)
    × Decisive worlds (λ n. ticks) i
    × (wait_for_ready with_manager new_world worlds (λ n. ticks) 3
        ≡ some (verdict (is_healthy (worlds i)) ticks))
wait_for_ready_ends_example =
    wait_for_ready_ends with_manager new_world worlds (λ n. ticks) 2 3 is_managed third_poll
      (omega arith)

wait_for_ready-created_example :
    wait_for_ready without_manager ready_world worlds (λ n. ticks) 50 ≢ some none
wait_for_ready-created_example =
    wait_for_ready-created without_manager ready_world worlds (λ n. ticks) 50 is_created

-- A factory that keeps what was registered, and no plugin manager yet.
abbrev small_factory : Factory (Dict Made)
small_factory = record {
  register_plugin = λ name prefix made h. insert name made h;
  create_plugin = λ name h. get_or (creation_failed "not registered") name h;
}

abbrev no_manager : Dict Made → Held
no_manager h = nothing_held

small_factory_laws : FactoryLaws small_factory no_manager
small_factory_laws = record {
  create-register =
      λ name prefix made h. get_or-insert_self (creation_failed "not registered") name made h;
  held-register = λ name prefix made h. refl;
}

abbrev first_world : World Loaded (Dict Made)
first_world = record {
  plugin = new_world.plugin;
  collectors = [];
  dashboards = [];
  closed = [];
  core = new_world.core;
  host = [];
  init_once = none;
}

abbrev succeeds : Body Loaded (Dict Made)
succeeds w = (returned none, w)

protect_function-init_example :
    let started = record first_world { host = init small_factory first_world.host } in
    protect_function
      (registry_of small_factory no_manager)
      small_core
      small_platform
      "a"
      succeeds
      5
      started
    ≡ protection
        (registry_of small_factory no_manager)
        small_core
        small_platform
        "a"
        succeeds
        5
        started
        (located_by nothing_held)
protect_function-init_example =
    protect_function-init small_factory no_manager small_factory_laws small_core small_platform "a"
      succeeds 5 first_world

shutdown-HasNoRules_example :
    ((shutdown with_manager small_core running_world).0 ≡ shut none)
    × HasNoRules small_core (shutdown with_manager small_core running_world).1.core
shutdown-HasNoRules_example =
    shutdown-HasNoRules with_manager small_core small_core_laws running_world running-IsTidy
      is_managed tt

created_middleware_refuses_example :
    (p : PlugSentinel) × ((create_http_middleware without_manager new_world).0
      ≡ (some (own_plugin p), none))
    × ((create_grpc_interceptor without_manager new_world).0 ≡ (some (own_plugin p), none))
    × (serve_http small_core text_of (own_plugin p) "" "a" fails_late ready_world
        ≡ (too_many_requests (message not_initialized), ready_world))
    × (serve_stream small_core small_platform (own_plugin p) none (some fails) 5 ready_world
        ≡ (done (some not_initialized), ready_world))
created_middleware_refuses_example =
    created_middleware_refuses small_core without_manager small_platform text_of "" "a" fails_late
      none (some fails) 5 new_world ready_world is_created
