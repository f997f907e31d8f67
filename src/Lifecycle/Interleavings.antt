-- ===== src/Lifecycle/Interleavings.antt =====
-- Calls of a plugin's methods, between which its goroutines return at any time.
use lynx_sentinel.Base.{◌≡◌, [], none}
use lynx_sentinel.Base.Float.{Platform}
use lynx_sentinel.Engine.{Engine, EngineLaws}
use lynx_sentinel.Plugin.{World}
use lynx_sentinel.Lifecycle.{Host, finished}
use lynx_sentinel.Lifecycle.Workers.{IsTidy}
use lynx_sentinel.Lifecycle.Keeping.{with_new_plugin-IsTidy}
use lynx_sentinel.Lifecycle.Hooks.{PluginCall, with_new_plugin, cleanup_tasks, perform}
use lynx_sentinel.Lifecycle.Histories.{HasNoRules, cleanup_tasks_lem, perform-IsTidy}
use lynx_sentinel.Lifecycle.Departures.{Departure, Departure-IsTidy}

module _ {S H O : Type 0} (host : Host H) (core : Engine S O) (platform : Platform) where
  pub data Step : World S H → World S H → Type 0 where
    calls : (call : PluginCall O) (w : World S H) → Step w (perform host core platform w call)
    departs : {w w' : World S H} → Departure w w' → Step w w'

  -- From a world whose plugin is a new one.
  pub data Reach (w : World S H) : World S H → Type 0 where
    made : Reach w (with_new_plugin w)
    next : {w' w'' : World S H} → Reach w w' → Step w' w'' → Reach w w''

module _ {S H O : Type 0} (host : Host H) (core : Engine S O) (laws : EngineLaws core)
    (platform : Platform) where
  Step-IsTidy : {w w' : World S H} → Step host core platform w w' → IsTidy w → IsTidy w'
  Step-IsTidy (calls call w) t = perform-IsTidy host core laws platform w call t
  Step-IsTidy (departs d) t = Departure-IsTidy d t

  -- Whatever sequence of initializations, start-ups, cleanups, reconfigurations, health checks and
  -- requests by Entry, Exit, CheckFlow and Execute, of functions that only return or panic, a new
  -- plugin goes through, cancelled or not, while the goroutines of its collector and its server
  -- return at any time, its stop channel is one that was made, and every worker that may still run
  -- listens to that channel or has been told to stop.
  pub Reach-IsTidy : (w w' : World S H) → Reach host core platform w w' → IsTidy w'
  Reach-IsTidy w w' made = with_new_plugin-IsTidy w
  Reach-IsTidy w w'' (next {w' = w'} r s) = Step-IsTidy s (Reach-IsTidy w w' r)

  -- After any sequence of initializations, start-ups, cleanups, reconfigurations, health checks and
  -- requests by Entry, Exit, CheckFlow and Execute, of functions that only return or panic, on a
  -- new plugin, cancelled or not, between which the goroutines of its collector and its server
  -- return at any time, CleanupTasks returns nil, with no worker left and with the rules of all
  -- three kinds cleared.
  pub cleanup_tasks-Reach :
      (w w' : World S H)
      → Reach host core platform w w'
      → let r = cleanup_tasks core w' in
        (r.0 ≡ finished none) × (r.1.plugin.workers ≡ []) × HasNoRules core r.1.core
  cleanup_tasks-Reach w w' r = cleanup_tasks_lem core laws w' (Reach-IsTidy w w' r)
