-- ===== src/Registry/Effects.antt =====
-- What the package-level calls on the rules, and Shutdown, do to sentinel-golang.
use mathlib.Core.Option
use lynx_sentinel.Base.{ℕ, String, ◌≡◌, refl, ap, ◌∙◌, Option, none, some}
use lynx_sentinel.Engine.{Engine, EngineLaws}
use lynx_sentinel.Rules
use lynx_sentinel.Rules.{RuleError}
use lynx_sentinel.Plugin.{World}
use lynx_sentinel.Lifecycle.Workers.{IsTidy}
use lynx_sentinel.Lifecycle.Hooks.{with_new_plugin, new_sentinel_plugin, cleanup_tasks}
use lynx_sentinel.Lifecycle.Histories.{HasNoRules, cleanup_tasks_lem}
use lynx_sentinel.Lifecycle.Keeping.{with_new_plugin-IsTidy}
use lynx_sentinel.Registry.{
  Registry, Located, managed, created, missing, Failure, no_sentinel, rule_failed, get_sentinel,
  with_sentinel, with_sentinel-managed, with_sentinel-created,
}
use lynx_sentinel.Registry.RuleCalls.{
  crashes, on_core, refuse, add_flow_rule, remove_flow_rule, add_circuit_breaker_rule,
  remove_circuit_breaker_rule, reload_configured, reload_rules,
}
use lynx_sentinel.Registry.Queries.{ShutDown, shut, of_ending, shutdown}
use lynx_sentinel.Registry.Unregistered.{going_on, with_sentinel_lem}

module _ {S H O : Type 0} (registry : Registry H) (core : Engine S O) where
  -- What a call on the rules does to sentinel-golang, for each answer of GetSentinel.
  abbrev pub rule_call : Located → (S → Option RuleError × S) → S → Option Failure × S
  rule_call (missing e) method s = (some (no_sentinel e), s)
  rule_call managed method s = (Option.map rule_failed (method s).0, (method s).1)
  rule_call created method s = (Option.map rule_failed (method s).0, (method s).1)

  acts :
      (method : S → Option RuleError × S) (w : World S H)
      → let r = with_sentinel registry refuse (on_core method) w in
        (r.0, r.1.core) ≡ rule_call (get_sentinel registry w.host) method w.core
  unfolding with_new_plugin new_sentinel_plugin
  acts method w =
      ap (λ r. (r.0, r.1.core)) (with_sentinel_lem registry refuse (on_core method) w)
      ∙ cases (get_sentinel registry w.host)
    where
      cases :
          (l : Located)
          → (
            (going_on registry refuse (on_core method) w l).0,
            (going_on registry refuse (on_core method) w l).1.core,
          )
            ≡ rule_call l method w.core
      cases (missing e) = refl
      cases managed = refl
      cases created = refl

  -- The four package-level functions that add or remove a rule do to sentinel-golang, and return,
  -- the same as the methods, no matter whether the plugin is that of the manager or one that the
  -- factory has just made; without a plugin they change nothing.
  pub rule_calls_act :
      (resource behavior : String) (qps_limit strategy threshold min_request_amount : ℕ)
      (w : World S H)
      → let l = get_sentinel registry w.host in
        let a = add_flow_rule registry core resource qps_limit behavior w in
        let b = remove_flow_rule registry core resource w in
        let c =
          add_circuit_breaker_rule registry core resource strategy threshold min_request_amount w in
        let d = remove_circuit_breaker_rule registry core resource w in
        ((a.0, a.1.core)
          ≡ rule_call l (Rules.add_flow_rule core resource qps_limit behavior) w.core)
        × ((b.0, b.1.core) ≡ rule_call l (Rules.remove_flow_rule core resource) w.core)
        × ((c.0, c.1.core)
            ≡ rule_call l
                (Rules.add_circuit_breaker_rule core resource strategy threshold min_request_amount)
                w.core)
        × ((d.0, d.1.core) ≡ rule_call l (Rules.remove_circuit_breaker_rule core resource) w.core)
  unfolding add_flow_rule remove_flow_rule add_circuit_breaker_rule remove_circuit_breaker_rule
  rule_calls_act resource behavior qps_limit strategy threshold min_request_amount w = (
    acts (Rules.add_flow_rule core resource qps_limit behavior) w,
    acts (Rules.remove_flow_rule core resource) w,
    acts (Rules.add_circuit_breaker_rule core resource strategy threshold min_request_amount) w,
    acts (Rules.remove_circuit_breaker_rule core resource) w,
  )

  -- On a plugin that the factory has just made, ReloadRules dereferences the nil configuration.
  pub reload_rules-created :
      (w : World S H)
      → get_sentinel registry w.host ≡ created
      → (reload_rules registry core w).0 ≡ crashes
  unfolding reload_rules reload_configured with_new_plugin new_sentinel_plugin
  reload_rules-created w h = ap (λ r. r.0) (with_sentinel-created registry _ _ w h)

-- Does GetSentinel return a plugin?
abbrev pub IsLocated : Located → Type 0
IsLocated managed = Unit
IsLocated created = Unit
IsLocated (missing e) = ⊥

module _ {S H O : Type 0} (registry : Registry H) (core : Engine S O) (laws : EngineLaws core)
    (w : World S H) where
  closing : World S H → ShutDown × World S H
  closing w' = let (ended, w'') = cleanup_tasks core w' in (of_ending ended, w'')

  closing_lem :
      (w' : World S H)
      → IsTidy w'
      → ((closing w').0 ≡ shut none) × HasNoRules core (closing w').1.core
  unfolding closing of_ending
  closing_lem w' t =
      let (ended, _, clear) = cleanup_tasks_lem core laws w' t in (ap of_ending ended, clear)

  -- When GetSentinel returns a plugin, that of the manager being tidy or one that the factory has
  -- just made, Shutdown returns nil and leaves no rule of any kind in force.
  pub shutdown-HasNoRules :
      {l : Located}
      → IsTidy w
      → get_sentinel registry w.host ≡ l
      → IsLocated l
      → ((shutdown registry core w).0 ≡ shut none)
        × HasNoRules core (shutdown registry core w).1.core
  unfolding shutdown closing
  shutdown-HasNoRules {l = missing e} t h found = elim found [ ]
  shutdown-HasNoRules {l = managed} t h found =
      rw (with_sentinel-managed registry _ _ w h) (closing_lem w t)
  shutdown-HasNoRules {l = created} t h found =
      rw (with_sentinel-created registry _ _ w h)
        (closing_lem (with_new_plugin w) (with_new_plugin-IsTidy w))
