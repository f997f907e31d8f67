-- ===== src/Rules.antt =====
-- rules.go, and `reloadRules` of lifecycle.go: translating the configured rules, loading them, and
-- changing the loaded rules one by one. Loops over `GetRules()` take the address of their variable,
-- which is a new one in each round (Go 1.22 and later), so they copy the rules.
pub mod Errors
pub mod Loading
pub mod Updates
pub mod Merging
pub mod Table
pub mod Multisets
pub mod Additions
use lynx_sentinel.Base.{
  ℕ, String, Bool, not, List, [], ◌∷◌, ◌++◌, map, Option, none, some, str_eq, ltb, if◌then◌else◌,
  keep,
}
use lynx_sentinel.Config.{FlowRule, CircuitBreakerRule, SystemRule, SentinelConfig}
use lynx_sentinel.Engine.{CoreFlowRule, CoreCbRule, CoreSystemRule, RuleManager, Engine}

-- The errors of this file; the text is that of the library's error.
pub data RuleError : Type 0 where
  clear_flow load_flow clear_cb load_cb load_system : String → RuleError
  add_flow remove_flow add_cb remove_cb : String → RuleError

-- The body of the loop of `loadFlowRules`.
unfoldable pub flow_rule : FlowRule → CoreFlowRule
flow_rule c =
    let rule : CoreFlowRule = record {
      resource = c.resource;
      token_calculate_strategy = c.token_calculate_strategy;
      control_behavior = c.control_behavior;
      threshold = c.threshold;
      stat_interval_in_ms = c.stat_interval_in_ms;
      warm_up_period_sec = 0;
      max_queueing_time_ms = 0;
    } in
    let warmed =
      (if ltb 0 c.warm_up_period_sec
        then record rule { warm_up_period_sec = c.warm_up_period_sec }
        else rule) in
    if ltb 0 c.max_queueing_time_ms
    then record warmed { max_queueing_time_ms = c.max_queueing_time_ms }
    else warmed

-- The body of the loop of `loadCircuitBreakerRules`.
unfoldable pub cb_rule : CircuitBreakerRule → CoreCbRule
cb_rule c = record {
  resource = c.resource;
  strategy = c.strategy;
  retry_timeout_ms = c.retry_timeout_ms;
  min_request_amount = c.min_request_amount;
  stat_interval_ms = c.stat_interval_ms;
  threshold = c.threshold;
}

-- The body of the loop of `loadSystemRules`.
unfoldable pub system_rule : SystemRule → CoreSystemRule
system_rule c = record { metric_type = c.metric_type; trigger_count = c.trigger_count }

-- `if err != nil { return fmt.Errorf(…, err) }`.
abbrev pub wrap {ℓ} : {S : Type ℓ} → (String → RuleError) → Option String × S → Option RuleError × S
wrap error (none, s) = (none, s)
wrap error (some text, s) = (some (error text), s)

-- A call that may fail, followed by another one if it does not.
infixl 5 ◌>>◌
abbrev pub ◌>>◌ :
    {S : Type 0}
    → (S → Option RuleError × S)
    → (S → Option RuleError × S)
    → S
    → Option RuleError × S
◌>>◌ m n s = let (e, s') = m s in elim e [ none ↦ n s' | some failed ↦ (some failed, s') ]

-- The tail of a loader: an empty list clears what is loaded, unless the loader skips it.
abbrev pub is_empty {ℓ} : {A : Type ℓ} → List A → Bool
is_empty [] = Bool.true
is_empty (x ∷ xs) = Bool.false

module _ {S O : Type 0} (core : Engine S O) where
  open core use {flow, circuit_breaker, system}

  unfoldable pub load_flow_rules : SentinelConfig → S → Option RuleError × S
  load_flow_rules conf s =
      let rules = map flow_rule conf.flow_rules in
      if is_empty rules
      then wrap clear_flow (flow.load rules s)
      else wrap load_flow (flow.load rules s)

  unfoldable pub load_circuit_breaker_rules : SentinelConfig → S → Option RuleError × S
  load_circuit_breaker_rules conf s =
      let rules = map cb_rule conf.cb_rules in
      if is_empty rules
      then wrap clear_cb (circuit_breaker.load rules s)
      else wrap load_cb (circuit_breaker.load rules s)

  unfoldable pub load_system_rules : SentinelConfig → S → Option RuleError × S
  load_system_rules conf s =
      let rules = map system_rule conf.system_rules in
      if is_empty rules then (none, s) else wrap load_system (system.load rules s)

  unfoldable pub reload_rules : SentinelConfig → S → Option RuleError × S
  reload_rules conf = do
    load_flow_rules conf
    load_circuit_breaker_rules conf
    load_system_rules conf

  unfoldable pub parse_control_behavior : String → ℕ
  parse_control_behavior behavior =
      if str_eq behavior "reject"
      then core.reject
      else if str_eq behavior "throttling"
      then core.throttling
      else core.reject

  unfoldable pub parse_circuit_breaker_strategy : String → ℕ
  parse_circuit_breaker_strategy strategy =
      if str_eq strategy "slow_request_ratio"
      then core.slow_request_ratio
      else if str_eq strategy "error_ratio"
      then core.error_ratio
      else if str_eq strategy "error_count"
      then core.error_count
      else core.error_ratio

  unfoldable pub parse_system_metric_type : String → ℕ
  parse_system_metric_type metric_type =
      if str_eq metric_type "load"
      then core.system_load
      else if str_eq metric_type "cpu_usage"
      then core.cpu_usage
      else if str_eq metric_type "inbound_qps"
      then core.inbound_qps
      else if str_eq metric_type "concurrency"
      then core.concurrency
      else core.system_load

  unfoldable pub get_flow_rules : S → List CoreFlowRule
  get_flow_rules s = flow.get s

  unfoldable pub get_circuit_breaker_rules : S → List CoreCbRule
  get_circuit_breaker_rules s = circuit_breaker.get s

  unfoldable pub get_system_rules : S → List CoreSystemRule
  get_system_rules s = system.get s

  -- The rule that `AddFlowRule` builds.
  unfoldable pub new_flow_rule : String → ℕ → String → CoreFlowRule
  new_flow_rule resource qps_limit behavior = record {
    resource = resource;
    token_calculate_strategy = core.direct;
    control_behavior = parse_control_behavior behavior;
    threshold = qps_limit;
    stat_interval_in_ms = 1000;
    warm_up_period_sec = 0;
    max_queueing_time_ms = 0;
  }

  unfoldable pub add_flow_rule : String → ℕ → String → S → Option RuleError × S
  add_flow_rule resource qps_limit behavior s =
      wrap add_flow
        (flow.load (get_flow_rules s ++ new_flow_rule resource qps_limit behavior ∷ []) s)

  unfoldable pub remove_flow_rule : String → S → Option RuleError × S
  remove_flow_rule resource s =
      wrap remove_flow
        (flow.load (keep (λ rule. not (str_eq rule.resource resource)) (get_flow_rules s)) s)

  -- The rule that `AddCircuitBreakerRule` builds.
  unfoldable pub new_cb_rule : String → ℕ → ℕ → ℕ → CoreCbRule
  new_cb_rule resource strategy threshold min_request_amount = record {
    resource = resource;
    strategy = strategy;
    retry_timeout_ms = 5000;
    min_request_amount = min_request_amount;
    stat_interval_ms = 1000;
    threshold = threshold;
  }

  unfoldable pub add_circuit_breaker_rule : String → ℕ → ℕ → ℕ → S → Option RuleError × S
  add_circuit_breaker_rule resource strategy threshold min_request_amount s = wrap add_cb (
      circuit_breaker.load
        (get_circuit_breaker_rules s
          ++ new_cb_rule resource strategy threshold min_request_amount ∷ [])
        s)

  unfoldable pub remove_circuit_breaker_rule : String → S → Option RuleError × S
  remove_circuit_breaker_rule resource s = wrap remove_cb (
      circuit_breaker.load
        (keep (λ rule. not (str_eq rule.resource resource)) (get_circuit_breaker_rules s)) s)
