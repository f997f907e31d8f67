-- ===== src/Rules/Updates.antt =====
-- Adding and removing single rules at run time.
use mathlib.Core.List.{mem-filter, perm_append_singleton}
use mathlib.Core.List.Perm
use mathlib.Core.Bool.{Bool-discrete}
use lynx_sentinel.Base.{
  ℕ, String, ◌≡◌, refl, subst, ◌≢◌, ◌↔◌, Bool, true, not, List, [], ◌∷◌, ◌++◌, none, arith, str_eq,
  eq_iff, keep, keep-keep, keep_all, All-append, keep-filter, keep-Perm, All, Mem, Perm, ◌∙◌, ap,
  str_eq-false,
}
use lynx_sentinel.Engine.{
  CoreFlowRule, CoreCbRule, RuleManager, RuleManagerLaws, Engine, EngineLaws,
}
use lynx_sentinel.Rules.Errors.{wrap-none, wrap-state}
use lynx_sentinel.Rules.{
  RuleError, get_flow_rules, new_flow_rule, add_flow_rule, remove_flow_rule,
  get_circuit_breaker_rules, new_cb_rule, add_circuit_breaker_rule, remove_circuit_breaker_rule,
}

module _ {S R : Type 0} {manager : RuleManager S R} (laws : RuleManagerLaws manager) where
  open laws use {valid, get_valid, get-load}

  pub keep-valid : (s : S) → keep valid (manager.get s) ≡ manager.get s
  keep-valid s = keep_all valid (manager.get s) (get_valid s)

  -- Loading the rules in force and one more.
  pub load-added :
      (rule : R) (s : S)
      → (manager.load (manager.get s ++ rule ∷ []) s).0 ≡ none
      → valid rule ≡ true
      → Perm (manager.get (manager.load (manager.get s ++ rule ∷ []) s).1) (rule ∷ manager.get s)
  load-added rule s done good =
      Perm.trans
        (subst (Perm _)
          (keep_all valid _ (All-append _ (manager.get s) (rule ∷ []) (get_valid s) (good, tt)))
          (get-load _ s done))
        (perm_append_singleton rule (manager.get s))

  -- Loading a selection of the rules in force.
  pub load-kept :
      (p : R → Bool) (s : S)
      → (manager.load (keep p (manager.get s)) s).0 ≡ none
      → Perm (manager.get (manager.load (keep p (manager.get s)) s).1) (keep p (manager.get s))
  load-kept p s done =
      subst (Perm _) (keep-keep valid p (manager.get s) ∙ ap (keep p) (keep-valid s))
        (get-load _ s done)

-- Selecting the rules of other resources.
module _ {R : Type 0} (resource_of : R → String) (resource : String) where
  abbrev pub others : R → Bool
  others rule = not (str_eq (resource_of rule) resource)

  others_ne : (rule : R) → others rule ≡ true → resource_of rule ≢ resource
  others_ne rule h = ground (arith, eq_iff (resource_of rule) resource)

  keep-others-mem :
      (rules : List R) (rule : R)
      → Mem rule (keep others rules) ↔ (Mem rule rules × (resource_of rule ≢ resource))
  keep-others-mem rules rule =
      let (to, from) = mem-filter (λ x. Bool-discrete (others x) true) {l = rules} {x = rule} in
      rw (keep-filter others rules) (
        λ m. ((to m).0, others_ne rule (to m).1),
        λ (m, h). from (m, ground (arith, str_eq-false (resource_of rule) resource h)),
      )

  keep_fresh :
      (rules : List R) → All (λ rule. resource_of rule ≢ resource) rules → keep others rules ≡ rules
  keep_fresh [] _ = refl
  keep_fresh (rule ∷ rules) (h, hs) =
      ground (arith, keep_fresh rules hs, eq_iff (resource_of rule) resource)

mem_via :
    {R : Type 0} {P : Type 0} {xs ys : List R} → Perm xs ys → (x : R) → Mem x ys ↔ P → Mem x xs ↔ P
mem_via h x (to, from) = (λ m. to ((Perm.mem_iff h).0 m), λ p. (Perm.mem_iff h).1 (from p))

module _ {S O : Type 0} (core : Engine S O) (laws : EngineLaws core) where
  open laws use {flow_laws, cb_laws, flow_load-cb, flow_load-system, cb_load-flow, cb_load-system}

  -- AddFlowRule, when it returns nil and the rule is one that Sentinel accepts, puts exactly that
  -- rule among those in force and changes no rule of the other kinds.
  pub add_flow_rule_lem :
      (resource : String) (qps_limit : ℕ) (behavior : String) (s : S)
      → (add_flow_rule core resource qps_limit behavior s).0 ≡ none
      → flow_laws.valid (new_flow_rule core resource qps_limit behavior) ≡ true
      → let s' = (add_flow_rule core resource qps_limit behavior s).1 in
        Perm (core.flow.get s') (new_flow_rule core resource qps_limit behavior ∷ core.flow.get s)
        × (core.circuit_breaker.get s' ≡ core.circuit_breaker.get s)
        × (core.system.get s' ≡ core.system.get s)
  unfolding add_flow_rule get_flow_rules
  add_flow_rule_lem resource qps_limit behavior s done good =
      let rules = core.flow.get s ++ new_flow_rule core resource qps_limit behavior ∷ [] in
      rw (wrap-state RuleError.add_flow (core.flow.load rules s)) (
        load-added flow_laws _ s (wrap-none _ (core.flow.load rules s) done) good,
        flow_load-cb rules s,
        flow_load-system rules s,
      )

  abbrev pub other_flow : String → CoreFlowRule → Bool
  other_flow = others (λ rule. rule.resource)

  keep_new :
      (resource : String) (rule : CoreFlowRule) (rules : List CoreFlowRule)
      → rule.resource ≡ resource
      → keep (other_flow resource) (rule ∷ rules) ≡ keep (other_flow resource) rules
  keep_new resource rule rules e = ground (arith, eq_iff rule.resource resource)

  pub remove_flow_rule-Perm :
      (resource : String) (s : S)
      → (remove_flow_rule core resource s).0 ≡ none
      → Perm
          (core.flow.get (remove_flow_rule core resource s).1)
          (keep (other_flow resource) (core.flow.get s))
  unfolding remove_flow_rule get_flow_rules
  remove_flow_rule-Perm resource s done =
      let rules = keep (other_flow resource) (core.flow.get s) in
      rw (wrap-state RuleError.remove_flow (core.flow.load rules s))
        (load-kept flow_laws (other_flow resource) s (wrap-none _ (core.flow.load rules s) done))

  -- RemoveFlowRule, when it returns nil, leaves in force the rules of the other resources and none
  -- else, and changes no rule of the other kinds.
  pub remove_flow_rule_lem :
      (resource : String) (s : S)
      → (remove_flow_rule core resource s).0 ≡ none
      → let s' = (remove_flow_rule core resource s).1 in
        ((rule : CoreFlowRule)
          → Mem rule (core.flow.get s') ↔ (Mem rule (core.flow.get s) × (rule.resource ≢ resource)))
        × (core.circuit_breaker.get s' ≡ core.circuit_breaker.get s)
        × (core.system.get s' ≡ core.system.get s)
  unfolding remove_flow_rule get_flow_rules
  remove_flow_rule_lem resource s done =
      let rules = keep (other_flow resource) (core.flow.get s) in
      (
        λ rule.
            mem_via (remove_flow_rule-Perm resource s done) rule
              (keep-others-mem (λ rule. rule.resource) resource (core.flow.get s) rule),
        rw (wrap-state RuleError.remove_flow (core.flow.load rules s)) (flow_load-cb rules s),
        rw (wrap-state RuleError.remove_flow (core.flow.load rules s)) (flow_load-system rules s),
      )

  -- Removing a resource right after adding the first rule for it restores the flow rules in force,
  -- when both calls return nil and Sentinel accepts the rule.
  pub remove_flow_rule-add_flow_rule :
      (resource : String) (qps_limit : ℕ) (behavior : String) (s : S)
      → (add_flow_rule core resource qps_limit behavior s).0 ≡ none
      → flow_laws.valid (new_flow_rule core resource qps_limit behavior) ≡ true
      → All (λ rule. rule.resource ≢ resource) (core.flow.get s)
      → (remove_flow_rule core resource (add_flow_rule core resource qps_limit behavior s).1).0
        ≡ none
      → Perm
          (core.flow.get
            (remove_flow_rule core resource (add_flow_rule core resource qps_limit behavior s).1).1)
          (core.flow.get s)
  unfolding new_flow_rule
  remove_flow_rule-add_flow_rule resource qps_limit behavior s added good fresh removed =
      Perm.trans
        (Perm.trans (remove_flow_rule-Perm resource _ removed) (
          keep-Perm (other_flow resource)
            (add_flow_rule_lem resource qps_limit behavior s added good).0))
        (rw
          (
            keep_new resource (new_flow_rule core resource qps_limit behavior) (core.flow.get s)
                refl,
            keep_fresh (λ rule. rule.resource) resource (core.flow.get s) fresh,
          )
          Perm.rfl)

  -- AddCircuitBreakerRule, when it returns nil and the rule is one that Sentinel accepts, puts
  -- exactly that rule among those in force and changes no rule of the other kinds.
  pub add_circuit_breaker_rule_lem :
      (resource : String) (strategy threshold min_request_amount : ℕ) (s : S)
      → (add_circuit_breaker_rule core resource strategy threshold min_request_amount s).0 ≡ none
      → cb_laws.valid (new_cb_rule core resource strategy threshold min_request_amount) ≡ true
      → let s' =
          (add_circuit_breaker_rule core resource strategy threshold min_request_amount s).1 in
        Perm (core.circuit_breaker.get s') (
          new_cb_rule core resource strategy threshold min_request_amount
          ∷ core.circuit_breaker.get s)
        × (core.flow.get s' ≡ core.flow.get s)
        × (core.system.get s' ≡ core.system.get s)
  unfolding add_circuit_breaker_rule get_circuit_breaker_rules
  add_circuit_breaker_rule_lem resource strategy threshold min_request_amount s done good =
      let rule = new_cb_rule core resource strategy threshold min_request_amount in
      let rules = core.circuit_breaker.get s ++ rule ∷ [] in
      rw (wrap-state RuleError.add_cb (core.circuit_breaker.load rules s)) (
        load-added cb_laws rule s (wrap-none _ (core.circuit_breaker.load rules s) done) good,
        cb_load-flow rules s,
        cb_load-system rules s,
      )

  abbrev other_cb : String → CoreCbRule → Bool
  other_cb = others (λ rule. rule.resource)

  -- RemoveCircuitBreakerRule, when it returns nil, leaves in force the rules of the other resources
  -- and none else, and changes no rule of the other kinds.
  pub remove_circuit_breaker_rule_lem :
      (resource : String) (s : S)
      → (remove_circuit_breaker_rule core resource s).0 ≡ none
      → let s' = (remove_circuit_breaker_rule core resource s).1 in
        ((rule : CoreCbRule)
          → Mem rule (core.circuit_breaker.get s')
            ↔ (Mem rule (core.circuit_breaker.get s) × (rule.resource ≢ resource)))
        × (core.flow.get s' ≡ core.flow.get s)
        × (core.system.get s' ≡ core.system.get s)
  unfolding remove_circuit_breaker_rule get_circuit_breaker_rules
  remove_circuit_breaker_rule_lem resource s done =
      let rules = keep (other_cb resource) (core.circuit_breaker.get s) in
      rw (wrap-state RuleError.remove_cb (core.circuit_breaker.load rules s)) (
        λ rule.
            mem_via
              (load-kept cb_laws (other_cb resource) s
                (wrap-none _ (core.circuit_breaker.load rules s) done))
              rule
              (keep-others-mem (λ rule. rule.resource) resource (core.circuit_breaker.get s) rule),
        cb_load-flow rules s,
        cb_load-system rules s,
      )
