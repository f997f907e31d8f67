-- ===== src/Config/Checks.antt =====
-- validateConfiguration against an independent description of a valid configuration.
use lynx_sentinel.Base.{
  ℕ, suc, ◌+◌, ◌≤◌, ◌<◌, ◌≡◌, refl, ◌≢◌, ◌↔◌, ◌⊎◌, false, List, [], ◌∷◌, Option, none, some, arith,
  eq_iff, All, get_elem?, ◌or_else◌,
}
use lynx_sentinel.Base.Words.{two32}
use lynx_sentinel.Base.Float.{lt_f, zero_f}
use lynx_sentinel.Config.{
  FlowRule, CircuitBreakerRule, SentinelConfig, ConfigError, check_flow_rule, check_cb_rule,
  check_all, check_port, validate_configuration, app_name_empty, port_out_of_range,
}

abbrev pub IsValidFlowRule : FlowRule → Type 0
IsValidFlowRule rule = (rule.resource ≢ "") × (lt_f rule.threshold zero_f ≡ false)

abbrev pub IsValidCbRule : CircuitBreakerRule → Type 0
IsValidCbRule rule = (rule.resource ≢ "") × (lt_f rule.threshold zero_f ≡ false)

-- A port that is left out, or an unprivileged one.
abbrev pub IsValidPort : ℕ → Type 0
IsValidPort port = (port ≡ 0) ⊎ ((1024 ≤ port) × (port ≤ 65535))

pub record IsValid (conf : SentinelConfig) : Type 0 where
  pub named : conf.app_name ≢ ""
  pub port : IsValidPort conf.dashboard.port
  pub flow : All IsValidFlowRule conf.flow_rules
  pub cb : All IsValidCbRule conf.cb_rules

check_port_iff : (port : ℕ) → port < two32 → (check_port port ≡ none) ↔ IsValidPort port
unfolding check_port
check_port_iff port h = (λ e. ground arith, λ v. ground arith)

check_flow_rule_iff :
    (i : ℕ) (rule : FlowRule) → (check_flow_rule i rule ≡ none) ↔ IsValidFlowRule rule
unfolding check_flow_rule
check_flow_rule_iff i rule = ground (arith, eq_iff rule.resource "")

check_cb_rule_iff :
    (i : ℕ) (rule : CircuitBreakerRule) → (check_cb_rule i rule ≡ none) ↔ IsValidCbRule rule
unfolding check_cb_rule
check_cb_rule_iff i rule = ground (arith, eq_iff rule.resource "")

or_else-none {ℓ} :
    {A : Type ℓ} (a b : Option A) → ((a or_else b) ≡ none) ↔ ((a ≡ none) × (b ≡ none))
or_else-none none b = (λ e. (refl, e), λ e. e.1)
or_else-none (some a) b = (λ e. cc, λ e. cc)

module _ {ℓ κ} {A : Type ℓ} (check : ℕ → A → Option ConfigError) (P : A → Type κ)
    (check_iff : (i : ℕ) (a : A) → (check i a ≡ none) ↔ P a) where
  check_all_iff : (i : ℕ) (l : List A) → (check_all check i l ≡ none) ↔ All P l
  unfolding check_all
  check_all_iff i [] = (λ _. tt, λ _. refl)
  check_all_iff i (a ∷ l) =
      let (to, from) = or_else-none (check i a) (check_all check (suc i) l) in
      let (good, bad) = check_iff i a in
      let (goods, bads) = check_all_iff (suc i) l in
      (λ e. (good (to e).0, goods (to e).1), λ h. from (bad h.0, bads h.1))

-- The checks that an accepted configuration has passed.
validate_configuration-parts :
    (conf : SentinelConfig)
    → (validate_configuration conf ≡ none) ↔ (
        (conf.app_name ≢ "")
        × (check_port conf.dashboard.port ≡ none)
        × (check_all check_flow_rule 0 conf.flow_rules ≡ none)
        × (check_all check_cb_rule 0 conf.cb_rules ≡ none))
unfolding validate_configuration
validate_configuration-parts conf = ground (arith, eq_iff conf.app_name "")

-- validateConfiguration accepts exactly the valid configurations, for a port that is the bit
-- pattern of an int32.
pub validate_configuration_iff :
    (conf : SentinelConfig)
    → conf.dashboard.port < two32
    → (validate_configuration conf ≡ none) ↔ IsValid conf
validate_configuration_iff conf h =
    let (to, from) = validate_configuration-parts conf in
    let (port_to, port_from) = check_port_iff conf.dashboard.port h in
    let (flow_to, flow_from) =
      check_all_iff check_flow_rule IsValidFlowRule check_flow_rule_iff 0 conf.flow_rules in
    let (cb_to, cb_from) =
      check_all_iff check_cb_rule IsValidCbRule check_cb_rule_iff 0 conf.cb_rules in
    (
      λ e. record {
        named = (to e).0;
        port = port_to (to e).1;
        flow = flow_to (to e).2;
        cb = cb_to (to e).3;
      },
      λ v. from (v.named, port_from v.port, flow_from v.flow, cb_from v.cb),
    )

-- Where the loop over the rules, begun at index `i`, stops, and with whose error.
module _ {ℓ} {A : Type ℓ} (check : ℕ → A → Option ConfigError) (e : ConfigError) where
  pub record StopsAt (i : ℕ) (l : List A) : Type ℓ where
    pub steps : ℕ
    pub rule : A
    pub found : get_elem? l steps ≡ some rule
    pub refused : check (i + steps) rule ≡ some e
    pub passed : (k : ℕ) (a : A) → k < steps → get_elem? l k ≡ some a → check (i + k) a ≡ none

-- What each error of `validateConfiguration` says: the first check that fails, in the order of the
-- source, with the index of the first bad rule.
abbrev pub Explains : SentinelConfig → ConfigError → Type 0
Explains conf e =
    ((conf.app_name ≡ "") × (e ≡ app_name_empty))
    ⊎ ((conf.app_name ≢ "") × (¬ IsValidPort conf.dashboard.port) × (e ≡ port_out_of_range))
    ⊎ ((conf.app_name ≢ "")
        × IsValidPort conf.dashboard.port
        × StopsAt check_flow_rule e 0 conf.flow_rules)
    ⊎ ((conf.app_name ≢ "")
        × IsValidPort conf.dashboard.port
        × All IsValidFlowRule conf.flow_rules
        × StopsAt check_cb_rule e 0 conf.cb_rules)

abbrev rules : SentinelConfig → Option ConfigError
rules conf =
    check_all check_flow_rule 0 conf.flow_rules or_else check_all check_cb_rule 0 conf.cb_rules
