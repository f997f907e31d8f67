-- ===== src/Lifecycle/Restarting.antt =====
-- A start-up after a cleanup that may have been abandoned, so that goroutines from before still run.
use lynx_sentinel.Base.{ℕ, String, ◌≡◌, sym, subst, true, false, Bool, ◌++◌, Option, none, some}
use lynx_sentinel.Engine.{Engine, EngineLaws}
use lynx_sentinel.Plugin.{World, Task}
use lynx_sentinel.Lifecycle.{Host, finished, Checkpoint, is_closed, all_told}
use lynx_sentinel.Lifecycle.Tasks.{startup_tasks_context, cleanup_tasks_context}
use lynx_sentinel.Lifecycle.Workers.{IsTidy, reset_stop_channel-told}
use lynx_sentinel.Lifecycle.Started.{worker_for, startup_tasks_context-Started, startup-closed}
use lynx_sentinel.Lifecycle.Cleanup.{cleanup_tasks_context-Cleaned}
use lynx_sentinel.Lifecycle.Departures.{Departures, Departures-IsTidy, Departures-AllTold}

-- The workers from before the start-up, in `w`, and those that it has launched.
pub record Generations {S H : Type 0} (w w' : World S H) : Type 0 where
  channel : ℕ
  unshut : is_closed w'.closed channel ≡ false
  told : all_told w'.closed w.plugin.workers ≡ true
  workers :
      w'.plugin.workers
      ≡ worker_for Task.serves (some channel) w.plugin.dashboard_server
        ++ (worker_for Task.collects (some channel) w.plugin.metrics_collector ++ w.plugin.workers)

module _ {S H O : Type 0} (host : Host H) (core : Engine S O) (laws : EngineLaws core) where
  -- When a cleanup of a tidy plugin has ended, also by abandoning its wait, any of the workers that
  -- it left have returned since, in any order, and a start-up then returns nil, the workers are the
  -- new ones for the server and the collector, as far as there are such, on one stop channel that
  -- is open, and those that had not returned, which have all been told to stop.
  pub startup_tasks_context-Generations :
      (ctx : Checkpoint → Option String) (ctx_err : Option String) (in_time : Bool)
      (w w' : World S H)
      → IsTidy w
      → Departures (cleanup_tasks_context core ctx_err in_time w).1 w'
      → (startup_tasks_context host core ctx w').0 ≡ finished none
      → Generations w' (startup_tasks_context host core ctx w').1
  startup_tasks_context-Generations ctx ctx_err in_time w w' t left ok =
      let c = cleanup_tasks_context-Cleaned core laws ctx_err in_time w t in
      let s = startup_tasks_context-Started host core ctx w' (Departures-IsTidy left c.tidy) ok in
      record {
        channel = s.channel;
        unshut = s.unshut;
        told =
            subst (λ closed. all_told closed w'.plugin.workers ≡ true)
              (sym (startup-closed host core ctx w' ok))
              (reset_stop_channel-told w' w'.plugin.workers (Departures-AllTold left c.told));
        workers = s.workers;
      }
