-- ===== src/Lifecycle/Startup.antt =====
-- StartupTasksContext: what it leaves running, on every path and for every way of cancelling it.
use lynx_sentinel.Base.{
  ℕ, String, ◌≡◌, refl, sym, ap, ◌∙◌, subst, ◌≢◌, ◌⊎◌, inl, inr, true, false, List, [], Option,
  none, some, arith, Bool-cases, Option-cases,
}
use lynx_sentinel.Engine.{Engine}
use lynx_sentinel.Plugin.{World, Worker}
use lynx_sentinel.Lifecycle.{
  Host, LifecycleError, canceled, plugin_not_initialized, Ending, finished, crashed, hangs,
  Checkpoint, before_execution, before_background, before_attaching, before_publishing,
  is_stop_channel_closed, reset_stop_channel, signal_stop, wait_workers, launch_workers, load_all,
  all_told,
}
use lynx_sentinel.Lifecycle.Tasks.{
  attach, publish, roll_back, start_background, start_loaded, startup_tasks_context,
}
use lynx_sentinel.Lifecycle.Workers.{
  IsTidy, signal_stop-told, reset_stop_channel-IsOpen, launch_workers-IsTidy,
}

module _ {S H : Type 0} where
  -- How a start-up may end: it does not wait for ever; the plugin is tidy; and after an error either
  -- no worker is left, the stop channel being closed, or the workers are those from before.
  pub record Safe (before : List Worker) (r : Ending × World S H) : Type 0 where
    pub returns : r.0 ≢ hangs
    pub tidy : IsTidy r.1
    pub rolled_back :
        (e : LifecycleError)
        → r.0 ≡ finished (some e)
        → (r.1.plugin.workers ≡ before)
          ⊎ ((r.1.plugin.workers ≡ [])
              × (is_stop_channel_closed r.1.closed r.1.plugin.stop_ch ≡ true))

  wait_workers-told :
      (e : LifecycleError) (w : World S H)
      → all_told w.closed w.plugin.workers ≡ true
      → wait_workers e w
        ≡ (finished (some e), record w { plugin = record (w.plugin) { workers = [] } })
  unfolding wait_workers
  wait_workers-told e w told = ground arith

  IsTidy-idle :
      (w : World S H) → IsTidy w → IsTidy (record w { plugin = record (w.plugin) { workers = [] } })
  IsTidy-idle w t = record { known = t.known; listening = tt }

  module _ (before : List Worker) where
    roll_back-Safe : (e : LifecycleError) (w : World S H) → IsTidy w → Safe before (roll_back e w)
    unfolding roll_back
    roll_back-Safe e w t =
        let (told, shut, tidy) = signal_stop-told w t in
        subst (Safe before) (sym (wait_workers-told e (signal_stop w) told)) (record {
          returns = λ h. cc;
          tidy = IsTidy-idle (signal_stop w) tidy;
          rolled_back = λ e' h. inr (refl, shut);
        })

  module _ {O : Type 0} (host : Host H) (core : Engine S O) (before : List Worker) where
    attach-IsTidy : (w : World S H) → IsTidy w → IsTidy (attach host w)
    unfolding attach
    attach-IsTidy w t = record { known = t.known; listening = t.listening }

    publish-plugin :
        (w : World S H)
        → ((publish host w).plugin ≡ w.plugin) × ((publish host w).closed ≡ w.closed)
    unfolding publish
    publish-plugin w = ground arith

    publish-IsTidy : (w : World S H) → IsTidy w → IsTidy (publish host w)
    publish-IsTidy w t = rw ((publish-plugin w).0, (publish-plugin w).1) t

    start_background-Safe :
        (ctx : Checkpoint → Option String) (w : World S H) {c : ℕ}
        → w.plugin.stop_ch ≡ some c
        → IsTidy w
        → Safe before (start_background host core ctx w)
    unfolding start_background
    start_background-Safe ctx w e t = elim (Option-cases (ctx before_attaching)) [
      | inr (text, stop) ↦
          rw (stop, start_background)
            (roll_back-Safe before (canceled text) (launch_workers w) (launch_workers-IsTidy w e t))
      | inl go ↦ elim (Option-cases (ctx before_publishing)) [
        | inr (text, stop) ↦
            rw (go, stop, start_background)
              (roll_back-Safe before (canceled text) (attach host (launch_workers w))
                (attach-IsTidy (launch_workers w) (launch_workers-IsTidy w e t)))
        | inl on ↦
            rw (go, on, start_background)
              (record {
                returns = λ h. cc;
                tidy =
                    publish-IsTidy (attach host (launch_workers w))
                      (attach-IsTidy (launch_workers w) (launch_workers-IsTidy w e t));
                rolled_back = λ e' h. cc;
              })
      ]
    ]

    start_loaded-Safe :
        (ctx : Checkpoint → Option String) (ended : Ending) (w : World S H) {c : ℕ}
        → ended ≢ hangs
        → w.plugin.stop_ch ≡ some c
        → w.plugin.workers ≡ before
        → IsTidy w
        → Safe before (start_loaded host core ctx (ended, w))
    unfolding start_loaded
    start_loaded-Safe ctx (finished none) w fine e same t =
        elim (Option-cases (ctx before_background)) [
          | inr (text, stop) ↦
              rw (stop, start_loaded)
                (record { returns = λ h. cc; tidy = t; rolled_back = λ e' h. inl same })
          | inl go ↦ rw (go, start_loaded) (start_background-Safe ctx w e t)
        ]
    start_loaded-Safe ctx (finished (some bad)) w fine e same t = record {
      returns = λ h. cc;
      tidy = t;
      rolled_back = λ e' h. inl same;
    }
    start_loaded-Safe ctx crashed w fine e same t = record {
      returns = λ h. cc;
      tidy = t;
      rolled_back = λ e' h. cc;
    }
    start_loaded-Safe ctx hangs w fine e same t = absurd (fine refl)

  pub load_all-plugin :
      {O : Type 0} (core : Engine S O) (w : World S H)
      → ((load_all core w).1.plugin ≡ w.plugin)
        × ((load_all core w).1.closed ≡ w.closed)
        × ((load_all core w).0 ≢ hangs)
  unfolding load_all
  load_all-plugin core w = ground arith

  pub startup_unready :
      {O : Type 0} (host : Host H) (core : Engine S O) (ctx : Checkpoint → Option String)
      (w : World S H)
      → ctx before_execution ≡ none
      → w.plugin.is_initialized ≡ false
      → startup_tasks_context host core ctx w ≡ (finished (some plugin_not_initialized), w)
  unfolding startup_tasks_context
  startup_unready host core ctx w go unready = ground arith

  pub startup_ready :
      {O : Type 0} (host : Host H) (core : Engine S O) (ctx : Checkpoint → Option String)
      (w : World S H)
      → ctx before_execution ≡ none
      → w.plugin.is_initialized ≡ true
      → startup_tasks_context host core ctx w
        ≡ start_loaded host core ctx (load_all core (reset_stop_channel w))
  unfolding startup_tasks_context
  startup_ready host core ctx w go ready = ground arith

  started-Safe :
      {O : Type 0} (host : Host H) (core : Engine S O) (ctx : Checkpoint → Option String)
      (w : World S H)
      → IsTidy w
      → Safe w.plugin.workers (start_loaded host core ctx (load_all core (reset_stop_channel w)))
  started-Safe host core ctx w t =
      let o = reset_stop_channel-IsOpen w t in
      let loaded = load_all core (reset_stop_channel w) in
      let (plugin, closed, returns) = load_all-plugin core (reset_stop_channel w) in
      start_loaded-Safe host core w.plugin.workers ctx loaded.0 loaded.1 returns
        (ap (λ p. p.stop_ch) plugin ∙ o.current) (ap (λ p. p.workers) plugin ∙ o.workers)
        (rw (plugin, closed) o.tidy)

  -- From a tidy plugin a start-up does not wait for ever, for any sequence of answers of the
  -- context; it leaves the plugin tidy, and after an error the workers are those from before, or
  -- none and the stop channel is closed.
  pub startup_tasks_context-Safe :
      {O : Type 0} (host : Host H) (core : Engine S O) (ctx : Checkpoint → Option String)
      (w : World S H)
      → IsTidy w
      → Safe w.plugin.workers (startup_tasks_context host core ctx w)
  unfolding startup_tasks_context
  startup_tasks_context-Safe host core ctx w t = elim (Option-cases (ctx before_execution)) [
    | inr (text, stop) ↦
        rw (stop, startup_tasks_context)
          (record { returns = λ h. cc; tidy = t; rolled_back = λ e' h. inl refl })
    | inl go ↦ elim (Bool-cases w.plugin.is_initialized) [
      | inr unready ↦
          subst (Safe w.plugin.workers) (sym (startup_unready host core ctx w go unready))
            (record { returns = λ h. cc; tidy = t; rolled_back = λ e' h. inl refl })
      | inl ready ↦
          subst (Safe w.plugin.workers) (sym (startup_ready host core ctx w go ready))
            (started-Safe host core ctx w t)
    ]
  ]
