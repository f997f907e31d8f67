-- ===== src/Rules/Table.antt =====
-- The changes of the rules as changes of an abstract table: one list of rules in force for each kind,
-- of which only the contents count.
use lynx_sentinel.Base.{
  ℕ, String, ◌≡◌, sym, subst, List, [], ◌∷◌, ◌++◌, map, Option, none, keep, Perm, if◌then◌else◌,
  inl, inr,
}
use lynx_sentinel.Config.{SentinelConfig}
use lynx_sentinel.Engine.{CoreFlowRule, CoreCbRule, CoreSystemRule, Engine, EngineLaws}
use lynx_sentinel.Rules.Merging.{load_added-table, load_kept-table, same_table}
use lynx_sentinel.Rules.Errors.{wrap-none, wrap-state, >>-none}
use lynx_sentinel.Rules.Loading.{SystemLoaded, reload_rules_lem}
use lynx_sentinel.Rules.Updates.{others}
use lynx_sentinel.Rules.{
  RuleError, ◌>>◌, is_empty, flow_rule, cb_rule, system_rule, reload_rules, get_flow_rules,
  get_circuit_breaker_rules, new_flow_rule, add_flow_rule, remove_flow_rule, new_cb_rule,
  add_circuit_breaker_rule, remove_circuit_breaker_rule,
}

-- The calls that change the rules.
pub data Update : Type 0 where
  adds_flow : String → ℕ → String → Update
  removes_flow : String → Update
  adds_cb : String → ℕ → ℕ → ℕ → Update
  removes_cb : String → Update
  reloads : SentinelConfig → Update

-- The abstract table.
pub record Table : Type 0 where
  pub flow : List CoreFlowRule
  pub cb : List CoreCbRule
  pub system : List CoreSystemRule

module _ {S O : Type 0} (core : Engine S O) where
  unfoldable pub update : Update → S → Option RuleError × S
  update (adds_flow resource qps_limit behavior) = add_flow_rule core resource qps_limit behavior
  update (removes_flow resource) = remove_flow_rule core resource
  update (adds_cb resource strategy threshold min_request_amount) =
      add_circuit_breaker_rule core resource strategy threshold min_request_amount
  update (removes_cb resource) = remove_circuit_breaker_rule core resource
  update (reloads conf) = reload_rules core conf

  -- Calls one after the other, up to the first error.
  unfoldable pub update_all : List Update → S → Option RuleError × S
  update_all [] s = (none, s)
  update_all (u ∷ us) s = (update u >> update_all us) s

  -- The abstract updates: a rule that Sentinel does not accept is ignored, and a reload replaces the
  -- table, except for the system rules when the configuration has none.
  module _ (laws : EngineLaws core) where
    open laws use {flow_laws, cb_laws, system_laws}

    unfoldable pub apply : Update → Table → Table
    apply (adds_flow resource qps_limit behavior) t = record t {
      flow = keep flow_laws.valid (new_flow_rule core resource qps_limit behavior ∷ []) ++ t.flow;
    }
    apply (removes_flow resource) t = record t {
      flow = keep (others (λ rule. rule.resource) resource) t.flow;
    }
    apply (adds_cb resource strategy threshold min_request_amount) t = record t {
      cb =
          keep cb_laws.valid (new_cb_rule core resource strategy threshold min_request_amount ∷ [])
          ++ t.cb;
    }
    apply (removes_cb resource) t = record t {
      cb = keep (others (λ rule. rule.resource) resource) t.cb;
    }
    apply (reloads conf) t = record {
      flow = keep flow_laws.valid (map flow_rule conf.flow_rules);
      cb = keep cb_laws.valid (map cb_rule conf.cb_rules);
      system =
          if is_empty conf.system_rules
          then t.system
          else keep system_laws.valid (map system_rule conf.system_rules);
    }

    unfoldable pub apply_all : List Update → Table → Table
    apply_all [] t = t
    apply_all (u ∷ us) t = apply_all us (apply u t)

  -- The rules in force are those of the table, in some order.
  pub record Represents (s : S) (t : Table) : Type 0 where
    pub flow : Perm (core.flow.get s) t.flow
    pub cb : Perm (core.circuit_breaker.get s) t.cb
    pub system : Perm (core.system.get s) t.system

module _ {S O : Type 0} (core : Engine S O) (laws : EngineLaws core) where
  open laws use {
    flow_laws, cb_laws, system_laws, flow_load-cb, flow_load-system, cb_load-flow, cb_load-system,
  }

  add_flow_rule-Represents :
      (resource : String) (qps_limit : ℕ) (behavior : String) (s : S) (t : Table)
      → (add_flow_rule core resource qps_limit behavior s).0 ≡ none
      → Represents core s t
      → Represents core
          (add_flow_rule core resource qps_limit behavior s).1
          (apply core laws (adds_flow resource qps_limit behavior) t)
  unfolding add_flow_rule get_flow_rules apply
  add_flow_rule-Represents resource qps_limit behavior s t done r =
      let rule = new_flow_rule core resource qps_limit behavior in
      let loaded = core.flow.load (core.flow.get s ++ rule ∷ []) s in
      rw (wrap-state RuleError.add_flow loaded) record {
        flow = load_added-table flow_laws rule s (wrap-none _ loaded done) r.flow;
        cb = same_table (flow_load-cb _ s) r.cb;
        system = same_table (flow_load-system _ s) r.system;
      }

  remove_flow_rule-Represents :
      (resource : String) (s : S) (t : Table)
      → (remove_flow_rule core resource s).0 ≡ none
      → Represents core s t
      → Represents core
          (remove_flow_rule core resource s).1
          (apply core laws (removes_flow resource) t)
  unfolding remove_flow_rule get_flow_rules apply
  remove_flow_rule-Represents resource s t done r =
      let mine = others (λ rule. rule.resource) resource in
      let loaded = core.flow.load (keep mine (core.flow.get s)) s in
      rw (wrap-state RuleError.remove_flow loaded) record {
        flow = load_kept-table flow_laws mine s (wrap-none _ loaded done) r.flow;
        cb = same_table (flow_load-cb _ s) r.cb;
        system = same_table (flow_load-system _ s) r.system;
      }

  add_circuit_breaker_rule-Represents :
      (resource : String) (strategy threshold min_request_amount : ℕ) (s : S) (t : Table)
      → (add_circuit_breaker_rule core resource strategy threshold min_request_amount s).0 ≡ none
      → Represents core s t
      → Represents core
          (add_circuit_breaker_rule core resource strategy threshold min_request_amount s).1
          (apply core laws (adds_cb resource strategy threshold min_request_amount) t)
  unfolding add_circuit_breaker_rule get_circuit_breaker_rules apply
  add_circuit_breaker_rule-Represents resource strategy threshold min_request_amount s t done r =
      let rule = new_cb_rule core resource strategy threshold min_request_amount in
      let loaded = core.circuit_breaker.load (core.circuit_breaker.get s ++ rule ∷ []) s in
      rw (wrap-state RuleError.add_cb loaded) record {
        flow = same_table (cb_load-flow _ s) r.flow;
        cb = load_added-table cb_laws rule s (wrap-none _ loaded done) r.cb;
        system = same_table (cb_load-system _ s) r.system;
      }

  remove_circuit_breaker_rule-Represents :
      (resource : String) (s : S) (t : Table)
      → (remove_circuit_breaker_rule core resource s).0 ≡ none
      → Represents core s t
      → Represents core
          (remove_circuit_breaker_rule core resource s).1
          (apply core laws (removes_cb resource) t)
  unfolding remove_circuit_breaker_rule get_circuit_breaker_rules apply
  remove_circuit_breaker_rule-Represents resource s t done r =
      let mine = others (λ rule. rule.resource) resource in
      let loaded = core.circuit_breaker.load (keep mine (core.circuit_breaker.get s)) s in
      rw (wrap-state RuleError.remove_cb loaded) record {
        flow = same_table (cb_load-flow _ s) r.flow;
        cb = load_kept-table cb_laws mine s (wrap-none _ loaded done) r.cb;
        system = same_table (cb_load-system _ s) r.system;
      }

  reloaded_system :
      (conf : SentinelConfig) (s s' : S) (rules : List CoreSystemRule)
      → SystemLoaded core laws conf s s'
      → Perm (core.system.get s) rules
      → Perm (core.system.get s') (
          if is_empty conf.system_rules
          then rules
          else keep system_laws.valid (map system_rule conf.system_rules))
  reloaded_system conf s s' rules (inl (e, same)) h = rw e (same_table same h)
  reloaded_system conf s s' rules (inr (e, loaded)) h = rw e loaded

  pub reload_rules-Represents :
      (conf : SentinelConfig) (s : S) (t : Table)
      → (reload_rules core conf s).0 ≡ none
      → Represents core s t
      → Represents core (reload_rules core conf s).1 (apply core laws (reloads conf) t)
  unfolding apply
  reload_rules-Represents conf s t done r =
      let (flows, cbs, systems) = reload_rules_lem core laws conf s done in
      record { flow = flows; cb = cbs; system = reloaded_system conf s _ t.system systems r.system }

  update-Represents :
      (u : Update) (s : S) (t : Table)
      → (update core u s).0 ≡ none
      → Represents core s t
      → Represents core (update core u s).1 (apply core laws u t)
  unfolding update
  update-Represents (adds_flow resource qps_limit behavior) =
      add_flow_rule-Represents resource qps_limit behavior
  update-Represents (removes_flow resource) = remove_flow_rule-Represents resource
  update-Represents (adds_cb resource strategy threshold min_request_amount) =
      add_circuit_breaker_rule-Represents resource strategy threshold min_request_amount
  update-Represents (removes_cb resource) = remove_circuit_breaker_rule-Represents resource
  update-Represents (reloads conf) = reload_rules-Represents conf

  -- Any sequence of additions, removals and reloads of rules that returns nil changes the rules in
  -- force as it changes an abstract table, in which an addition of an unacceptable rule is ignored,
  -- a removal drops the rules of a resource, and a reload replaces all but the system rules of a
  -- configuration that has none.
  pub update_all-Represents :
      (us : List Update) (s : S) (t : Table)
      → (update_all core us s).0 ≡ none
      → Represents core s t
      → Represents core (update_all core us s).1 (apply_all core laws us t)
  unfolding update_all apply_all
  update_all-Represents [] s t done r = r
  update_all-Represents (u ∷ us) s t done r =
      let (first, rest, e) = >>-none (update core u) (update_all core us) s done in
      subst (λ s'. Represents core s' (apply_all core laws us (apply core laws u t))) (sym e)
        (update_all-Represents us (update core u s).1 (apply core laws u t) rest
          (update-Represents u s t first r))
