-- ===== src/Rules/Loading.antt =====
-- Loading the configured rules, at start-up and at a reload.
use lynx_sentinel.Base.{
  ◌≡◌, sym, subst, ◌⊎◌, inl, inr, Bool-cases, true, false, List, map, none, arith, keep, Perm, ◌∙◌,
  ap,
}
use lynx_sentinel.Config.{FlowRule, SentinelConfig}
use lynx_sentinel.Engine.{CoreSystemRule, Engine, EngineLaws}
use lynx_sentinel.Rules.Errors.{wrap-none, wrap-state, >>-none}
use lynx_sentinel.Rules.{
  RuleError, wrap, ◌>>◌, is_empty, flow_rule, cb_rule, system_rule, load_flow_rules,
  load_circuit_breaker_rules, load_system_rules, reload_rules,
}

-- The flow rule that is loaded copies seven fields of the configured one, also the two that the
-- code assigns only if they are positive.
pub flow_rule_fields :
    (c : FlowRule)
    → flow_rule c ≡ record {
      resource = c.resource;
      token_calculate_strategy = c.token_calculate_strategy;
      control_behavior = c.control_behavior;
      threshold = c.threshold;
      stat_interval_in_ms = c.stat_interval_in_ms;
      warm_up_period_sec = c.warm_up_period_sec;
      max_queueing_time_ms = c.max_queueing_time_ms;
    }
unfolding flow_rule
flow_rule_fields c = ground arith

module _ {S O : Type 0} (core : Engine S O) where
  load_flow_rules-state :
      (conf : SentinelConfig) (s : S)
      → (load_flow_rules core conf s).1 ≡ (core.flow.load (map flow_rule conf.flow_rules) s).1
  unfolding load_flow_rules
  load_flow_rules-state conf s = ground arith

  load_flow_rules-none :
      (conf : SentinelConfig) (s : S)
      → (load_flow_rules core conf s).0 ≡ none
      → (core.flow.load (map flow_rule conf.flow_rules) s).0 ≡ none
  unfolding load_flow_rules
  load_flow_rules-none conf s h = ground arith

  load_cb_rules-state :
      (conf : SentinelConfig) (s : S)
      → (load_circuit_breaker_rules core conf s).1
        ≡ (core.circuit_breaker.load (map cb_rule conf.cb_rules) s).1
  unfolding load_circuit_breaker_rules
  load_cb_rules-state conf s = ground arith

  load_cb_rules-none :
      (conf : SentinelConfig) (s : S)
      → (load_circuit_breaker_rules core conf s).0 ≡ none
      → (core.circuit_breaker.load (map cb_rule conf.cb_rules) s).0 ≡ none
  unfolding load_circuit_breaker_rules
  load_cb_rules-none conf s h = ground arith

  -- With no rules configured, nothing is loaded and nothing is cleared.
  load_system_rules-nil :
      (conf : SentinelConfig) (s : S)
      → is_empty conf.system_rules ≡ true
      → load_system_rules core conf s ≡ (none, s)
  unfolding load_system_rules
  load_system_rules-nil conf s e = ground arith

  load_system_rules-cons :
      (conf : SentinelConfig) (s : S)
      → is_empty conf.system_rules ≡ false
      → load_system_rules core conf s
        ≡ wrap RuleError.load_system (core.system.load (map system_rule conf.system_rules) s)
  unfolding load_system_rules
  load_system_rules-cons conf s e = ground arith

module _ {S O : Type 0} (core : Engine S O) (laws : EngineLaws core) where
  open laws use {
    flow_laws, cb_laws, system_laws, cb_load-flow, system_load-flow, flow_load-cb, system_load-cb,
    flow_load-system, cb_load-system,
  }

  -- The system rules in force after a load that succeeds.
  abbrev pub SystemLoaded : SentinelConfig → S → S → Type 0
  SystemLoaded conf s s' =
      ((is_empty conf.system_rules ≡ true) × (core.system.get s' ≡ core.system.get s))
      ⊎ ((is_empty conf.system_rules ≡ false)
          × Perm (core.system.get s') (keep system_laws.valid (map system_rule conf.system_rules)))

  load_system_rules-SystemLoaded :
      (conf : SentinelConfig) (s : S)
      → (load_system_rules core conf s).0 ≡ none
      → SystemLoaded conf s (load_system_rules core conf s).1
  load_system_rules-SystemLoaded conf s done = elim (Bool-cases (is_empty conf.system_rules)) [
    | inl e ↦ inl (e, ap (λ r. core.system.get r.1) (load_system_rules-nil core conf s e))
    | inr e ↦
        let loaded = core.system.load (map system_rule conf.system_rules) s in
        let e' = load_system_rules-cons core conf s e in
        inr (
          e,
          rw (e', wrap-state RuleError.load_system loaded)
              (system_laws.get-load _ s (wrap-none _ loaded (rw e' at done))),
        )
  ]

  -- A view of the state that a loader leaves alone.
  load_system_rules-keeps :
      {X : Type 0} (view : S → X)
      → ((rules : List CoreSystemRule) (s : S) → view (core.system.load rules s).1 ≡ view s)
      → (conf : SentinelConfig) (s : S) → view (load_system_rules core conf s).1 ≡ view s
  unfolding load_system_rules
  load_system_rules-keeps view law conf s =
      ground (arith, law (map system_rule conf.system_rules) s)

  abbrev Reloaded : SentinelConfig → S → S → Type 0
  Reloaded conf s s' =
      Perm (core.flow.get s') (keep flow_laws.valid (map flow_rule conf.flow_rules))
      × Perm (core.circuit_breaker.get s') (keep cb_laws.valid (map cb_rule conf.cb_rules))
      × SystemLoaded conf s s'

  SystemLoaded-from :
      (conf : SentinelConfig) {s t u : S}
      → core.system.get t ≡ core.system.get s
      → SystemLoaded conf t u
      → SystemLoaded conf s u
  SystemLoaded-from conf e (inl (none_given, same)) = inl (none_given, same ∙ e)
  SystemLoaded-from conf e (inr loaded) = inr loaded

  -- The flow rules after the first two loads.
  load_cb_rules-loaded :
      (conf : SentinelConfig) (s : S)
      → (load_flow_rules core conf s).0 ≡ none
      → Perm
          (core.flow.get (load_circuit_breaker_rules core conf (load_flow_rules core conf s).1).1)
          (keep flow_laws.valid (map flow_rule conf.flow_rules))
  load_cb_rules-loaded conf s done =
      rw
        (
          load_cb_rules-state core conf (load_flow_rules core conf s).1,
          cb_load-flow,
          load_flow_rules-state core conf s,
        )
        (flow_laws.get-load _ s (load_flow_rules-none core conf s done))

  cb_loaded :
      (conf : SentinelConfig) (s : S)
      → (load_circuit_breaker_rules core conf s).0 ≡ none
      → Perm
          (core.circuit_breaker.get (load_circuit_breaker_rules core conf s).1)
          (keep cb_laws.valid (map cb_rule conf.cb_rules))
  cb_loaded conf s done =
      rw (load_cb_rules-state core conf s)
        (cb_laws.get-load _ s (load_cb_rules-none core conf s done))

  system_kept :
      (conf : SentinelConfig) (s : S)
      → core.system.get (load_circuit_breaker_rules core conf (load_flow_rules core conf s).1).1
        ≡ core.system.get s
  system_kept conf s = rw (
    load_cb_rules-state core conf (load_flow_rules core conf s).1,
    cb_load-system,
    load_flow_rules-state core conf s,
    flow_load-system,
  )

  -- reloadRules, when it returns nil, has put the valid flow and circuit breaker rules of the
  -- configuration in force and no others; the system rules only if the configuration has some, and
  -- otherwise those from before stay.
  pub reload_rules_lem :
      (conf : SentinelConfig) (s : S)
      → (reload_rules core conf s).0 ≡ none
      → let s' = (reload_rules core conf s).1 in
        Perm (core.flow.get s') (keep flow_laws.valid (map flow_rule conf.flow_rules))
        × Perm (core.circuit_breaker.get s') (keep cb_laws.valid (map cb_rule conf.cb_rules))
        × SystemLoaded conf s s'
  unfolding reload_rules
  reload_rules_lem conf s done =
      let m = load_flow_rules core conf in
      let n = load_circuit_breaker_rules core conf in
      let o = load_system_rules core conf in
      let (flow_done, rest, e) = >>-none m (n >> o) s done in
      let (cb_done, system_done, e') = >>-none n o (m s).1 rest in
      subst (Reloaded conf s) (sym (e ∙ e')) (
        rw (load_system_rules-keeps core.flow.get system_load-flow conf (n (m s).1).1)
            (load_cb_rules-loaded conf s flow_done),
        rw (load_system_rules-keeps core.circuit_breaker.get system_load-cb conf (n (m s).1).1)
            (cb_loaded conf (m s).1 cb_done),
        SystemLoaded-from conf (system_kept conf s)
            (load_system_rules-SystemLoaded conf (n (m s).1).1 system_done),
      )
