-- ===== src/Lifecycle/Cleanup.antt =====
-- CleanupTasksContext.
use lynx_sentinel.Base.{
  String, ◌≡◌, refl, sym, ◌∙◌, subst, ◌⊎◌, inl, inr, Bool, true, false, not, ◌||◌, List, [], Option,
  none, some, arith, is_some,
}
use lynx_sentinel.Engine.{Engine, EngineLaws}
use lynx_sentinel.Plugin.{World}
use lynx_sentinel.Lifecycle.{
  cleanup_canceled, Ending, finished, signal_stop, all_told, is_stop_channel_closed,
}
use lynx_sentinel.Lifecycle.Tasks.{wait_bounded, cleanup_waited, cleanup_tasks_context, clear_rules}
use lynx_sentinel.Lifecycle.Workers.{IsTidy, signal_stop-told}

-- How a cleanup ends: it returns, every worker has been told to stop, the stop channel is closed, no
-- rule of any kind is left, and the error says whether the wait was abandoned: if not, no worker is
-- left.
pub record Cleaned {S H O : Type 0} (core : Engine S O) (ctx_err : Option String) (in_time : Bool)
    (r : Ending × World S H) : Type 0 where
  pub told : all_told r.1.closed r.1.plugin.workers ≡ true
  pub shut : is_stop_channel_closed r.1.closed r.1.plugin.stop_ch ≡ true
  pub tidy : IsTidy r.1
  pub no_flow_rules : core.flow.get r.1.core ≡ []
  pub no_cb_rules : core.circuit_breaker.get r.1.core ≡ []
  pub no_system_rules : core.system.get r.1.core ≡ []
  pub outcome :
      ((r.0 ≡ finished none)
        × (r.1.plugin.workers ≡ [])
        × ((in_time || not (is_some ctx_err)) ≡ true))
      ⊎ ((text : String) × (in_time ≡ false)
          × (ctx_err ≡ some text)
          × (r.0 ≡ finished (some (cleanup_canceled text))))

all_told-nil : (closed : List Bool) → all_told closed [] ≡ true
unfolding all_told
all_told-nil closed = refl

module _ {S H O : Type 0} (core : Engine S O) (laws : EngineLaws core) where
  clear_rules-get :
      (w : World S H)
      → (core.flow.get (clear_rules core w).core ≡ [])
        × (core.circuit_breaker.get (clear_rules core w).core ≡ [])
        × (core.system.get (clear_rules core w).core ≡ [])
  unfolding clear_rules
  clear_rules-get w = (
    laws.system_clear-flow _ ∙ laws.cb_clear-flow _ ∙ laws.flow_laws.get-clear _,
    laws.system_clear-cb _ ∙ laws.cb_laws.get-clear _,
    laws.system_laws.get-clear _,
  )

  wait_done :
      (ctx_err : Option String) (in_time : Bool) (w : World S H)
      → all_told w.closed w.plugin.workers ≡ true
      → (in_time || not (is_some ctx_err)) ≡ true
      → wait_bounded ctx_err in_time w
        ≡ (finished none, record w { plugin = record (w.plugin) { workers = [] } })
  unfolding wait_bounded
  wait_done ctx_err in_time w told soon = ground arith

  wait_abandoned :
      (text : String) (w : World S H)
      → wait_bounded (some text) false w ≡ (finished (some (cleanup_canceled text)), w)
  unfolding wait_bounded
  wait_abandoned text w = ground arith

  done-Cleaned :
      (ctx_err : Option String) (in_time : Bool) (w : World S H)
      → IsTidy w
      → all_told w.closed w.plugin.workers ≡ true
      → is_stop_channel_closed w.closed w.plugin.stop_ch ≡ true
      → (in_time || not (is_some ctx_err)) ≡ true
      → Cleaned core ctx_err in_time (cleanup_waited core (wait_bounded ctx_err in_time w))
  unfolding cleanup_waited clear_rules
  done-Cleaned ctx_err in_time w t told shut soon =
      let w' = record w { plugin = record (w.plugin) { workers = [] } } in
      let (flow, cb, system) = clear_rules-get w' in
      subst (λ r. Cleaned core ctx_err in_time (cleanup_waited core r))
        (sym (wait_done ctx_err in_time w told soon))
        (record {
          told = all_told-nil w.closed;
          shut = shut;
          tidy = record { known = t.known; listening = tt };
          no_flow_rules = flow;
          no_cb_rules = cb;
          no_system_rules = system;
          outcome = inl (refl, refl, soon);
        })

  abandoned-Cleaned :
      (text : String) (w : World S H)
      → IsTidy w
      → all_told w.closed w.plugin.workers ≡ true
      → is_stop_channel_closed w.closed w.plugin.stop_ch ≡ true
      → Cleaned core (some text) false (cleanup_waited core (wait_bounded (some text) false w))
  unfolding cleanup_waited clear_rules
  abandoned-Cleaned text w t told shut =
      let (flow, cb, system) = clear_rules-get w in
      subst (λ r. Cleaned core (some text) false (cleanup_waited core r))
        (sym (wait_abandoned text w))
        (record {
          told = told;
          shut = shut;
          tidy = record { known = t.known; listening = t.listening };
          no_flow_rules = flow;
          no_cb_rules = cb;
          no_system_rules = system;
          outcome = inr (text, refl, refl, refl);
        })

  waited-Cleaned :
      (ctx_err : Option String) (in_time : Bool) (w : World S H)
      → IsTidy w
      → all_told w.closed w.plugin.workers ≡ true
      → is_stop_channel_closed w.closed w.plugin.stop_ch ≡ true
      → Cleaned core ctx_err in_time (cleanup_waited core (wait_bounded ctx_err in_time w))
  waited-Cleaned ctx_err true w t told shut = done-Cleaned ctx_err true w t told shut refl
  waited-Cleaned none false w t told shut = done-Cleaned none false w t told shut refl
  waited-Cleaned (some text) false w t told shut = abandoned-Cleaned text w t told shut

  -- A cleanup of a tidy plugin always returns, has told every worker to stop, has closed the stop
  -- channel and cleared the rules of all three kinds; it returns nil, with no worker left, unless
  -- the context ends before the workers do, and then it returns an error that says so.
  pub cleanup_tasks_context-Cleaned :
      (ctx_err : Option String) (in_time : Bool) (w : World S H)
      → IsTidy w
      → Cleaned core ctx_err in_time (cleanup_tasks_context core ctx_err in_time w)
  unfolding cleanup_tasks_context
  cleanup_tasks_context-Cleaned ctx_err in_time w t =
      let (told, shut, tidy) = signal_stop-told w t in
      waited-Cleaned ctx_err in_time (signal_stop w) tidy told shut
