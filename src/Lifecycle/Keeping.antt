-- ===== src/Lifecycle/Keeping.antt =====
-- The calls that leave the stop channel and the workers alone.
use lynx_sentinel.Base.{
  ℕ, String, ◌≡◌, refl, sym, ◌∙◌, subst, inl, inr, false, List, [], ◌∷◌, Option, none, some, arith,
  length-append, Bool-cases,
}
use lynx_sentinel.Base.Float.{Platform}
use lynx_sentinel.Engine.{Engine, Admission, admitted, blocked}
use lynx_sentinel.Metrics.{MetricsCollector}
use lynx_sentinel.Plugin.Traffic.{Use, enters, exits, checks, executes, use_plugin}
use lynx_sentinel.Plugin.{
  nil_value, other_value, sentinel_entry, as_entry, AnyValue, PluginError, Ran, returned, panicked,
  runtime_state, flow_result, check_flow, account, trace, finish, protect, execute, World,
  on_collector, admit, entry, exit_entry,
}
use lynx_sentinel.Plugin.Steps.{entry_ready, entry_unready}
use lynx_sentinel.Lifecycle.{
  Host, Given, nothing, other_type, config, load_all, probe, check_health, apply_configuration,
  configure, on_config_update, initialize_sentinel_core, init_core_once,
}
use lynx_sentinel.Lifecycle.Tasks.{
  make_collector, make_dashboard, mark_initialized, store_conf, initialize_core,
  initialize_configured, initialize_resources,
}
use lynx_sentinel.Lifecycle.Workers.{IsTidy}
use lynx_sentinel.Lifecycle.Hooks.{new_sentinel_plugin, with_new_plugin}

-- A step that leaves the channels, the stop channel and the workers alone.
pub record KeepsWorkers {S H : Type 0} (w w' : World S H) : Type 0 where
  pub stop_ch : w'.plugin.stop_ch ≡ w.plugin.stop_ch
  pub workers : w'.plugin.workers ≡ w.plugin.workers
  pub closed : w'.closed ≡ w.closed

module _ {S H : Type 0} where
  KeepsWorkers-same : (w : World S H) → KeepsWorkers w w
  KeepsWorkers-same w = record { stop_ch = refl; workers = refl; closed = refl }

  KeepsWorkers-trans :
      {w w' w'' : World S H} → KeepsWorkers w w' → KeepsWorkers w' w'' → KeepsWorkers w w''
  KeepsWorkers-trans k k' = record {
    stop_ch = k'.stop_ch ∙ k.stop_ch;
    workers = k'.workers ∙ k.workers;
    closed = k'.closed ∙ k.closed;
  }

  pub IsTidy-kept : (w w' : World S H) → KeepsWorkers w w' → IsTidy w → IsTidy w'
  IsTidy-kept w w' k t = rw (k.stop_ch, k.workers, k.closed) t

  on_collector-KeepsWorkers :
      (c : Option ℕ) (f : MetricsCollector → MetricsCollector) (w : World S H)
      → KeepsWorkers w (on_collector c f w)
  unfolding on_collector
  on_collector-KeepsWorkers none f w = record { stop_ch = refl; workers = refl; closed = refl }
  on_collector-KeepsWorkers (some p) f w = ground arith

  from_core :
      (w : World S H) (s : S) {w' : World S H}
      → KeepsWorkers (record w { core = s }) w'
      → KeepsWorkers w w'
  from_core w s k = record { stop_ch = k.stop_ch; workers = k.workers; closed = k.closed }

  to_core : {w w' : World S H} (s : S) → KeepsWorkers w w' → KeepsWorkers w (record w' { core = s })
  to_core s k = record { stop_ch = k.stop_ch; workers = k.workers; closed = k.closed }

  pub with_new_plugin-IsTidy : (w : World S H) → IsTidy (with_new_plugin w)
  unfolding with_new_plugin new_sentinel_plugin
  with_new_plugin-IsTidy w = record {
    known = λ c e. ground (arith, length-append w.closed (false ∷ []));
    listening = tt;
  }

  module _ {O : Type 0} (core : Engine S O) where
    admit-KeepsWorkers :
        (c : Option ℕ) (resource : String) (a : Admission) (s : S) (w : World S H)
        → KeepsWorkers w (admit core c resource (a, s) w).1
    unfolding admit
    admit-KeepsWorkers c resource (blocked text) s w =
        from_core w s (on_collector-KeepsWorkers c _ (record w { core = s }))
    admit-KeepsWorkers c resource (admitted handle) s w =
        from_core w s (on_collector-KeepsWorkers c _ (record w { core = s }))

    entry-KeepsWorkers :
        (resource : String) (opts : List O) (w : World S H)
        → KeepsWorkers w (entry core resource opts w).1
    entry-KeepsWorkers resource opts w = elim (Bool-cases w.plugin.sentinel_initialized) [
      | inl ready ↦
          subst (λ r. KeepsWorkers w r.1) (sym (entry_ready core resource opts w ready))
            (admit-KeepsWorkers w.plugin.metrics_collector resource
              (core.enter resource opts w.core).0 (core.enter resource opts w.core).1 w)
      | inr unready ↦
          subst (λ r. KeepsWorkers w r.1) (sym (entry_unready core resource opts w unready))
            (KeepsWorkers-same w)
    ]

    flow_result-KeepsWorkers :
        (resource : String) (now : ℕ) (value : AnyValue) (e : Option PluginError) (w : World S H)
        → KeepsWorkers w (flow_result core resource now ((value, e), w)).1
    unfolding flow_result exit_entry
    flow_result-KeepsWorkers resource now value (some e) w = KeepsWorkers-same w
    flow_result-KeepsWorkers resource now value none w = ground arith

    account-KeepsWorkers :
        (platform : Platform) (c : Option ℕ) (handle : ℕ) (resource : String) (elapsed : ℕ)
        (err : Option String) (w : World S H)
        → KeepsWorkers w (account core platform c handle resource elapsed err w)
    unfolding account trace
    account-KeepsWorkers platform c handle resource elapsed none w = on_collector-KeepsWorkers c _ w
    account-KeepsWorkers platform c handle resource elapsed (some text) w =
        to_core _
          (KeepsWorkers-trans (on_collector-KeepsWorkers c _ w) (on_collector-KeepsWorkers c _ _))

    finish-KeepsWorkers :
        (platform : Platform) (c : Option ℕ) (handle : ℕ) (resource : String) (elapsed : ℕ)
        (ran : Ran) (w : World S H)
        → KeepsWorkers w (finish core platform c handle resource elapsed (ran, w)).1
    unfolding finish exit_entry
    finish-KeepsWorkers platform c handle resource elapsed panicked w =
        to_core _ (KeepsWorkers-same w)
    finish-KeepsWorkers platform c handle resource elapsed (returned none) w =
        to_core _ (account-KeepsWorkers platform c handle resource elapsed none w)
    finish-KeepsWorkers platform c handle resource elapsed (returned (some text)) w =
        to_core _ (account-KeepsWorkers platform c handle resource elapsed (some text) w)

    protect-KeepsWorkers :
        (platform : Platform) (resource : String) (ran : Ran) (elapsed : ℕ) (value : AnyValue)
        (e : Option PluginError) (w : World S H)
        → KeepsWorkers w
            (protect core platform resource (λ w'. (ran, w')) elapsed ((value, e), w)).1
    unfolding protect as_entry
    protect-KeepsWorkers platform resource ran elapsed value (some e) w = KeepsWorkers-same w
    protect-KeepsWorkers platform resource ran elapsed nil_value none w = KeepsWorkers-same w
    protect-KeepsWorkers platform resource ran elapsed other_value none w = KeepsWorkers-same w
    protect-KeepsWorkers platform resource ran elapsed (sentinel_entry handle) none w =
        finish-KeepsWorkers platform (runtime_state w).1 handle resource elapsed ran w

    pub use_plugin-KeepsWorkers :
        (platform : Platform) (u : Use O) (w : World S H)
        → KeepsWorkers w (use_plugin core platform u w).1
    unfolding use_plugin exit_entry check_flow execute
    use_plugin-KeepsWorkers platform (enters resource opts) w = entry-KeepsWorkers resource opts w
    use_plugin-KeepsWorkers platform (exits handle) w = to_core _ (KeepsWorkers-same w)
    use_plugin-KeepsWorkers platform (checks resource now) w =
        KeepsWorkers-trans (entry-KeepsWorkers resource [] w)
          (flow_result-KeepsWorkers resource now _ _ _)
    use_plugin-KeepsWorkers platform (executes resource ran elapsed opts) w =
        KeepsWorkers-trans (entry-KeepsWorkers resource opts w)
          (protect-KeepsWorkers platform resource ran elapsed _ _ _)

    pub check_health-KeepsWorkers : (w : World S H) → KeepsWorkers w (check_health core w).1
    unfolding check_health probe exit_entry
    check_health-KeepsWorkers w = ground arith

    pub configure-KeepsWorkers :
        (given : Given) (w : World S H) → KeepsWorkers w (configure core given w).1
    unfolding configure apply_configuration load_all
    configure-KeepsWorkers nothing w = ground arith
    configure-KeepsWorkers other_type w = ground arith
    configure-KeepsWorkers (config none) w = ground arith
    configure-KeepsWorkers (config (some conf)) w = ground arith

    pub on_config_update-KeepsWorkers :
        (given : Given) (w : World S H) → KeepsWorkers w (on_config_update core given w).1
    unfolding on_config_update
    on_config_update-KeepsWorkers nothing w = record {
      stop_ch = refl;
      workers = refl;
      closed = refl;
    }
    on_config_update-KeepsWorkers other_type w = record {
      stop_ch = refl;
      workers = refl;
      closed = refl;
    }
    on_config_update-KeepsWorkers (config c) w = configure-KeepsWorkers (config c) w

    pub initialize_resources-KeepsWorkers :
        (host : Host H) (platform : Platform) (w : World S H)
        → KeepsWorkers w (initialize_resources host core platform w).1
    unfolding initialize_resources initialize_configured initialize_core initialize_sentinel_core
        init_core_once store_conf mark_initialized make_dashboard make_collector
    initialize_resources-KeepsWorkers host platform w = ground arith
