-- ===== src/Lifecycle/Started.antt =====
-- What holds after a StartupTasksContext that returns nil.
use mathlib.Core.Option
use lynx_sentinel.Base.{
  ℕ, String, ◌≡◌, refl, sym, ap, ◌∙◌, ◌≢◌, inl, inr, true, false, List, [], ◌∷◌, ◌++◌, Option, none,
  some, arith, Option-cases,
}
use lynx_sentinel.Config.{SentinelConfig}
use lynx_sentinel.Engine.{Engine}
use lynx_sentinel.Rules.{RuleError, reload_rules}
use lynx_sentinel.Plugin.{World, Worker, Task}
use lynx_sentinel.Lifecycle.{
  Host, LifecycleError, rules_failed, Ending, finished, crashed, hangs, Checkpoint,
  before_execution, before_background, before_attaching, before_publishing, reset_stop_channel,
  wait_workers, launch_workers, launch, load_all, is_closed,
}
use lynx_sentinel.Lifecycle.Tasks.{
  attach, publish, roll_back, start_background, start_loaded, startup_tasks_context,
}
use lynx_sentinel.Lifecycle.Workers.{IsTidy, reset_stop_channel-IsOpen}
use lynx_sentinel.Lifecycle.Startup.{startup_ready, load_all-plugin}

-- A worker for a pointer that is not nil.
abbrev pub worker_for : (ℕ → Task) → Option ℕ → Option ℕ → List Worker
worker_for task stop none = []
worker_for task stop (some p) = record { task = task p; channel = stop } ∷ []

pub error-ne-none : {e : LifecycleError} → finished (some e) ≢ finished none
error-ne-none h = cc

crashed-ne-finished : {e : Option LifecycleError} → crashed ≢ finished e
crashed-ne-finished h = cc

pub map-rules_failed :
    (e : Option RuleError) → finished (Option.map rules_failed e) ≡ finished none → e ≡ none
map-rules_failed none h = refl
map-rules_failed (some e) h = cc

all_checkpoints :
    (ctx : Checkpoint → Option String)
    → ctx before_execution ≡ none
    → ctx before_background ≡ none
    → ctx before_attaching ≡ none
    → ctx before_publishing ≡ none
    → (c : Checkpoint) → ctx c ≡ none
all_checkpoints ctx p q r s before_execution = p
all_checkpoints ctx p q r s before_background = q
all_checkpoints ctx p q r s before_attaching = r
all_checkpoints ctx p q r s before_publishing = s

module _ {S H : Type 0} where
  launch-workers :
      (task : ℕ → Task) (p : Option ℕ) (w : World S H)
      → ((launch task p w).plugin.workers ≡ worker_for task w.plugin.stop_ch p ++ w.plugin.workers)
        × ((launch task p w).plugin.stop_ch ≡ w.plugin.stop_ch)
        × ((launch task p w).plugin.dashboard_server ≡ w.plugin.dashboard_server)
        × ((launch task p w).closed ≡ w.closed)
        × ((launch task p w).core ≡ w.core)
  unfolding launch
  launch-workers task none w = (refl, refl, refl, refl, refl)
  launch-workers task (some p) w = (refl, refl, refl, refl, refl)

  -- The state that a start-up goes on from when all rules are loaded.
  pub record Runs (w w' : World S H) : Type 0 where
    pub workers :
        w'.plugin.workers
        ≡ worker_for Task.serves w.plugin.stop_ch w.plugin.dashboard_server
          ++ (worker_for Task.collects w.plugin.stop_ch w.plugin.metrics_collector
              ++ w.plugin.workers)
    pub stop_ch : w'.plugin.stop_ch ≡ w.plugin.stop_ch
    pub closed : w'.closed ≡ w.closed
    pub core : w'.core ≡ w.core
    pub server : w'.plugin.dashboard_server ≡ w.plugin.dashboard_server

  launch_workers-Runs : (w : World S H) → Runs w (launch_workers w)
  unfolding launch_workers
  launch_workers-Runs w =
      let a = launch-workers Task.collects w.plugin.metrics_collector w in
      let w' = launch Task.collects w.plugin.metrics_collector w in
      let b = launch-workers Task.serves w'.plugin.dashboard_server w' in
      record {
        workers = cc (a.0, a.1, a.2, b.0);
        stop_ch = b.1 ∙ a.1;
        closed = b.3 ∙ a.3;
        core = b.4 ∙ a.4;
        server = b.2 ∙ a.2;
      }

  roll_back-error : (e : LifecycleError) (w : World S H) → (roll_back e w).0 ≢ finished none
  unfolding roll_back wait_workers
  roll_back-error e w = ground arith

  module _ (host : Host H) where
    publish-Runs : (w w' : World S H) → Runs w w' → Runs w (publish host (attach host w'))
    unfolding publish attach
    publish-Runs w w' r = ground arith

    start_background-none :
        {O : Type 0} (core : Engine S O) (ctx : Checkpoint → Option String) (w : World S H)
        → (start_background host core ctx w).0 ≡ finished none
        → (ctx before_attaching ≡ none)
          × (ctx before_publishing ≡ none)
          × Runs w (start_background host core ctx w).1
    unfolding start_background
    start_background-none core ctx w ok = elim (Option-cases (ctx before_attaching)) [
      | inr (text, stop) ↦ absurd (roll_back-error _ _ (rw (stop, start_background) at ok))
      | inl go ↦ elim (Option-cases (ctx before_publishing)) [
        | inr (text, stop) ↦ absurd (roll_back-error _ _ (rw (go, stop, start_background) at ok))
        | inl on ↦
            (go, on, rw (go, on, start_background) (publish-Runs w _ (launch_workers-Runs w)))
      ]
    ]

    start_loaded-none :
        {O : Type 0} (core : Engine S O) (ctx : Checkpoint → Option String) (ended : Ending)
        (w : World S H)
        → (start_loaded host core ctx (ended, w)).0 ≡ finished none
        → (ended ≡ finished none)
          × (ctx before_background ≡ none)
          × (ctx before_attaching ≡ none)
          × (ctx before_publishing ≡ none)
          × Runs w (start_loaded host core ctx (ended, w)).1
    unfolding start_loaded
    start_loaded-none core ctx (finished none) w ok = elim (Option-cases (ctx before_background)) [
      | inr (text, stop) ↦ absurd (error-ne-none (rw (stop, start_loaded) at ok))
      | inl go ↦
          let (c, d, r) = start_background-none core ctx w (rw (go, start_loaded) at ok) in
          (refl, go, c, d, rw (go, start_loaded) r)
    ]
    start_loaded-none core ctx (finished (some e)) w ok = cc
    start_loaded-none core ctx crashed w ok = cc
    start_loaded-none core ctx hangs w ok = cc

  load_all-none :
      {O : Type 0} (core : Engine S O) (w : World S H)
      → (load_all core w).0 ≡ finished none
      → (conf : SentinelConfig) × (w.plugin.conf ≡ some conf)
        × ((reload_rules core conf w.core).0 ≡ none)
        × ((load_all core w).1.core ≡ (reload_rules core conf w.core).1)
  unfolding load_all
  load_all-none core w ok = elim (Option-cases w.plugin.conf) [
    | inl missing ↦ absurd (crashed-ne-finished (rw (missing, load_all) at ok))
    | inr (conf, e) ↦ (conf, e, map-rules_failed _ (rw (e, load_all) at ok), rw (e, load_all) refl)
  ]

  -- What a start-up that returns nil has done: the context was not cancelled at any checkpoint, the
  -- rules of the configuration were loaded, and one worker for the collector and one for the server,
  -- as far as there are such, run beside the old ones on a stop channel that is open.
  pub record Started {O : Type 0} (core : Engine S O) (ctx : Checkpoint → Option String)
      (w w' : World S H) : Type 0 where
    pub uncanceled : (c : Checkpoint) → ctx c ≡ none
    pub initialized : w.plugin.is_initialized ≡ true
    pub conf : SentinelConfig
    pub configured : w.plugin.conf ≡ some conf
    pub loaded : (reload_rules core conf w.core).0 ≡ none
    pub core_after : w'.core ≡ (reload_rules core conf w.core).1
    pub channel : ℕ
    pub current : w'.plugin.stop_ch ≡ some channel
    pub unshut : is_closed w'.closed channel ≡ false
    pub workers :
        w'.plugin.workers
        ≡ worker_for Task.serves (some channel) w.plugin.dashboard_server
          ++ (worker_for Task.collects (some channel) w.plugin.metrics_collector
              ++ w.plugin.workers)
    pub server : w'.plugin.dashboard_server ≡ w.plugin.dashboard_server

  startup_ok :
      {O : Type 0} (host : Host H) (core : Engine S O) (ctx : Checkpoint → Option String)
      (w : World S H)
      → (startup_tasks_context host core ctx w).0 ≡ finished none
      → (ctx before_execution ≡ none) × (w.plugin.is_initialized ≡ true)
  unfolding startup_tasks_context
  startup_ok host core ctx w ok = ground arith

  -- A start-up of a tidy plugin that returns nil has found the plugin initialized and its context
  -- not cancelled at any checkpoint, has loaded the rules of the configuration, and has started one
  -- worker for the collector and one for the server, as far as there are such, on a stop channel
  -- that is open.
  pub startup_tasks_context-Started :
      {O : Type 0} (host : Host H) (core : Engine S O) (ctx : Checkpoint → Option String)
      (w : World S H)
      → IsTidy w
      → (startup_tasks_context host core ctx w).0 ≡ finished none
      → Started core ctx w (startup_tasks_context host core ctx w).1
  startup_tasks_context-Started host core ctx w t ok =
      let (go, ready) = startup_ok host core ctx w ok in
      let same = startup_ready host core ctx w go ready in
      let o = reset_stop_channel-IsOpen w t in
      let loaded = load_all core (reset_stop_channel w) in
      let (fine, on, at', out, runs) =
        start_loaded-none host core ctx loaded.0 loaded.1 (ap (λ r. r.0) (sym same) ∙ ok) in
      let (conf, e, done, after) = load_all-none core (reset_stop_channel w) fine in
      let (plugin, closed, _) = load_all-plugin core (reset_stop_channel w) in
      rw same (record {
        uncanceled = all_checkpoints ctx go on at' out;
        initialized = ready;
        conf = conf;
        configured = sym o.conf ∙ e;
        loaded = sym (ap (λ s. (reload_rules core conf s).0) o.core) ∙ done;
        core_after = runs.core ∙ after ∙ ap (λ s. (reload_rules core conf s).1) o.core;
        channel = o.channel;
        current = runs.stop_ch ∙ ap (λ p. p.stop_ch) plugin ∙ o.current;
        unshut = ap (λ l. is_closed l o.channel) (runs.closed ∙ closed) ∙ o.unshut;
        workers = cc (
          runs.workers,
          ap (λ p. p.stop_ch) plugin ∙ o.current,
          ap (λ p. p.dashboard_server) plugin ∙ o.server,
          ap (λ p. p.metrics_collector) plugin ∙ o.collector,
          ap (λ p. p.workers) plugin ∙ o.workers,
        );
        server = runs.server ∙ ap (λ p. p.dashboard_server) plugin ∙ o.server;
      })

  -- The channels after such a start-up.
  pub startup-closed :
      {O : Type 0} (host : Host H) (core : Engine S O) (ctx : Checkpoint → Option String)
      (w : World S H)
      → (startup_tasks_context host core ctx w).0 ≡ finished none
      → (startup_tasks_context host core ctx w).1.closed ≡ (reset_stop_channel w).closed
  startup-closed host core ctx w ok =
      let (go, ready) = startup_ok host core ctx w ok in
      let same = startup_ready host core ctx w go ready in
      let loaded = load_all core (reset_stop_channel w) in
      let (_, _, _, _, runs) =
        start_loaded-none host core ctx loaded.0 loaded.1 (ap (λ r. r.0) (sym same) ∙ ok) in
      let (_, closed, _) = load_all-plugin core (reset_stop_channel w) in
      rw same (runs.closed ∙ closed)
