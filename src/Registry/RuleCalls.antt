-- ===== src/Registry/RuleCalls.antt =====
-- The package-level functions on rules: AddFlowRule to RemoveCircuitBreakerRule, and ReloadRules, of
-- plug.go.
use mathlib.Core.Option
use lynx_sentinel.Base.{ℕ, String, Option, none, some}
use lynx_sentinel.Engine.{Engine}
use lynx_sentinel.Rules
use lynx_sentinel.Rules.{RuleError}
use lynx_sentinel.Plugin.{World}
use lynx_sentinel.Registry.{
  Registry, RegistryError, Failure, no_sentinel, rule_failed, with_sentinel,
}

-- A call that returns an error or nil, or dereferences a nil pointer.
pub data RuleCall : Type 0 where
  answers : Option Failure → RuleCall
  crashes : RuleCall

-- A method that acts on sentinel-golang only.
abbrev pub on_core :
    {S H : Type 0} → (S → Option RuleError × S) → World S H → Option Failure × World S H
on_core method w = let (e, s) = method w.core in (Option.map rule_failed e, record w { core = s })

-- `return err`.
abbrev pub refuse : {S H : Type 0} → RegistryError → World S H → Option Failure × World S H
refuse e w = (some (no_sentinel e), w)

module _ {S H O : Type 0} (registry : Registry H) (core : Engine S O) where
  unfoldable pub add_flow_rule : String → ℕ → String → World S H → Option Failure × World S H
  add_flow_rule resource qps_limit behavior =
      with_sentinel registry refuse (on_core (Rules.add_flow_rule core resource qps_limit behavior))

  unfoldable pub remove_flow_rule : String → World S H → Option Failure × World S H
  remove_flow_rule resource =
      with_sentinel registry refuse (on_core (Rules.remove_flow_rule core resource))

  unfoldable pub add_circuit_breaker_rule :
      String → ℕ → ℕ → ℕ → World S H → Option Failure × World S H
  add_circuit_breaker_rule resource strategy threshold min_request_amount =
      with_sentinel registry refuse (
        on_core
          (Rules.add_circuit_breaker_rule core resource strategy threshold min_request_amount))

  unfoldable pub remove_circuit_breaker_rule : String → World S H → Option Failure × World S H
  remove_circuit_breaker_rule resource =
      with_sentinel registry refuse (on_core (Rules.remove_circuit_breaker_rule core resource))

  -- `reloadRules` with the plugin's configuration, which it does not test for nil.
  unfoldable pub reload_configured : World S H → RuleCall × World S H
  reload_configured w = elim w.plugin.conf [
    | none ↦ (crashes, w)
    | some conf ↦ let (e, w') = on_core (Rules.reload_rules core conf) w in (answers e, w')
  ]

  unfoldable pub reload_rules : World S H → RuleCall × World S H
  reload_rules =
      with_sentinel registry (λ e w. (answers (some (no_sentinel e)), w)) reload_configured
