-- ===== src/Lifecycle/Histories.antt =====
-- Sequences of calls, and what they keep of the workers.
use mathlib.Core.Option
use lynx_sentinel.Base.{◌≡◌, refl, ap, ◌∙◌, inl, inr, true, List, [], ◌∷◌, Option, none, some}
use lynx_sentinel.Base.Float.{Platform}
use lynx_sentinel.Config.{SentinelConfig}
use lynx_sentinel.Engine.{Engine, EngineLaws}
use lynx_sentinel.Rules.{reload_rules}
use lynx_sentinel.Plugin.{World}
use lynx_sentinel.Lifecycle.{
  Host, LifecycleError, finished, rules_failed, load_all, reset_stop_channel,
}
use lynx_sentinel.Lifecycle.Tasks.{start_loaded, start_background}
use lynx_sentinel.Lifecycle.Workers.{IsTidy, reset_stop_channel-IsOpen}
use lynx_sentinel.Lifecycle.Startup.{startup_tasks_context-Safe, startup_ready}
use lynx_sentinel.Lifecycle.Cleanup.{cleanup_tasks_context-Cleaned}
use lynx_sentinel.Lifecycle.Keeping.{
  IsTidy-kept, with_new_plugin-IsTidy, check_health-KeepsWorkers, configure-KeepsWorkers,
  on_config_update-KeepsWorkers, initialize_resources-KeepsWorkers, use_plugin-KeepsWorkers,
}
use lynx_sentinel.Lifecycle.Hooks.{
  background, PluginCall, initializes, starts, cleans, configures, updates, checks_health, uses,
  with_new_plugin, startup_tasks, cleanup_tasks, perform, perform_all,
}

-- The rules in force, of all three kinds.
abbrev pub HasNoRules : {S O : Type 0} → Engine S O → S → Type 0
HasNoRules core s =
    (core.flow.get s ≡ []) × (core.circuit_breaker.get s ≡ []) × (core.system.get s ≡ [])

-- CleanupTasks of a tidy plugin.
pub cleanup_tasks_lem :
    {S H O : Type 0} (core : Engine S O) (laws : EngineLaws core) (w : World S H)
    → IsTidy w
    → let r = cleanup_tasks core w in
      (r.0 ≡ finished none) × (r.1.plugin.workers ≡ []) × HasNoRules core r.1.core
unfolding cleanup_tasks
cleanup_tasks_lem core laws w t =
    let c = cleanup_tasks_context-Cleaned core laws none true w t in
    elim c.outcome [
      | inl (ended, idle, _) ↦ (ended, idle, (c.no_flow_rules, c.no_cb_rules, c.no_system_rules))
      | inr (text, late, ended, _) ↦ cc
    ]

module _ {S H O : Type 0} (host : Host H) (core : Engine S O) (laws : EngineLaws core) where
  pub perform-IsTidy :
      (platform : Platform) (w : World S H) (call : PluginCall O)
      → IsTidy w
      → IsTidy (perform host core platform w call)
  unfolding perform
  perform-IsTidy platform w initializes t =
      IsTidy-kept w _ (initialize_resources-KeepsWorkers core host platform w) t
  perform-IsTidy platform w (starts ctx) t = (startup_tasks_context-Safe host core ctx w t).tidy
  perform-IsTidy platform w (cleans ctx_err in_time) t =
      (cleanup_tasks_context-Cleaned core laws ctx_err in_time w t).tidy
  perform-IsTidy platform w (configures given) t =
      IsTidy-kept w _ (configure-KeepsWorkers core given w) t
  perform-IsTidy platform w (updates given) t =
      IsTidy-kept w _ (on_config_update-KeepsWorkers core given w) t
  perform-IsTidy platform w checks_health t = IsTidy-kept w _ (check_health-KeepsWorkers core w) t
  perform-IsTidy platform w (uses u) t =
      IsTidy-kept w _ (use_plugin-KeepsWorkers core platform u w) t

  perform_all-IsTidy_from :
      (platform : Platform) (w : World S H) (calls : List (PluginCall O))
      → IsTidy w
      → IsTidy (perform_all host core platform w calls)
  unfolding perform_all
  perform_all-IsTidy_from platform w [] t = t
  perform_all-IsTidy_from platform w (call ∷ calls) t =
      perform_all-IsTidy_from platform (perform host core platform w call) calls
        (perform-IsTidy platform w call t)

  -- Whatever sequence of initializations, start-ups, cleanups, reconfigurations, health checks and
  -- requests by Entry, Exit, CheckFlow and Execute, of functions that only return or panic, a new
  -- plugin goes through, cancelled or not, its stop channel is one that was made, and every worker
  -- that may still run listens to that channel or has been told to stop.
  pub perform_all-IsTidy :
      (platform : Platform) (w : World S H) (calls : List (PluginCall O))
      → IsTidy (perform_all host core platform (with_new_plugin w) calls)
  perform_all-IsTidy platform w calls =
      perform_all-IsTidy_from platform (with_new_plugin w) calls (with_new_plugin-IsTidy w)

  -- After any sequence of initializations, start-ups, cleanups, reconfigurations, health checks and
  -- requests by Entry, Exit, CheckFlow and Execute, of functions that only return or panic, on a
  -- new plugin, cancelled or not, CleanupTasks returns nil, with no worker left and with the rules
  -- of all three kinds cleared.
  pub cleanup_tasks-perform_all :
      (platform : Platform) (w : World S H) (calls : List (PluginCall O))
      → let r = cleanup_tasks core (perform_all host core platform (with_new_plugin w) calls) in
        (r.0 ≡ finished none) × (r.1.plugin.workers ≡ []) × HasNoRules core r.1.core
  cleanup_tasks-perform_all platform w calls =
      cleanup_tasks_lem core laws (perform_all host core platform (with_new_plugin w) calls)
        (perform_all-IsTidy platform w calls)

module _ {S H O : Type 0} (host : Host H) (core : Engine S O) where
  start_background_lem :
      (w : World S H) → (start_background host core background w).0 ≡ finished none
  unfolding start_background
  start_background_lem w = refl

  start_loaded_lem :
      (w : World S H) (e : Option LifecycleError)
      → (start_loaded host core background (finished e, w)).0 ≡ finished e
  unfolding start_loaded
  start_loaded_lem w none = start_background_lem w
  start_loaded_lem w (some e) = refl

  load_all_lem :
      (w : World S H) (conf : SentinelConfig)
      → w.plugin.conf ≡ some conf
      → (load_all core w).0 ≡ finished (Option.map rules_failed (reload_rules core conf w.core).0)
  unfolding load_all
  load_all_lem w conf e = rw (e, load_all) refl

  -- StartupTasks on a tidy, initialized plugin with a configuration always returns, and its error
  -- is that of loading the configured rules.
  pub startup_tasks_lem :
      (w : World S H) (conf : SentinelConfig)
      → IsTidy w
      → w.plugin.is_initialized ≡ true
      → w.plugin.conf ≡ some conf
      → (startup_tasks host core w).0
        ≡ finished (Option.map rules_failed (reload_rules core conf w.core).0)
  unfolding startup_tasks
  startup_tasks_lem w conf t ready e =
      let o = reset_stop_channel-IsOpen w t in
      let loaded = load_all core (reset_stop_channel w) in
      let ended : loaded.0 ≡ finished (Option.map rules_failed (reload_rules core conf w.core).0) =
        load_all_lem (reset_stop_channel w) conf (o.conf ∙ e)
        ∙ ap (λ s. finished (Option.map rules_failed (reload_rules core conf s).0)) o.core in
      ap (λ r. r.0) (startup_ready host core background w refl ready)
      ∙ ap (λ n. (start_loaded host core background (n, loaded.1)).0) ended
      ∙ start_loaded_lem loaded.1 (Option.map rules_failed (reload_rules core conf w.core).0)
