-- ===== src/Engine.antt =====
-- github.com/alibaba/sentinel-golang, which the plugin wraps: its operations are a parameter, over
-- a type `S` of the library's global state and a type `O` of entry options.
use lynx_sentinel.Base.{ℕ, String, ◌≡◌, Bool, List, [], Option, none, keep, All, Perm, true}

-- The fields of flow.Rule that the plugin sets; the others are zero.
pub record CoreFlowRule : Type 0 where
  pub resource : String
  pub token_calculate_strategy : ℕ
  pub control_behavior : ℕ
  pub threshold : ℕ
  pub stat_interval_in_ms : ℕ
  pub warm_up_period_sec : ℕ
  pub max_queueing_time_ms : ℕ

-- The fields of circuitbreaker.Rule that the plugin sets; the others are zero.
pub record CoreCbRule : Type 0 where
  pub resource : String
  pub strategy : ℕ
  pub retry_timeout_ms : ℕ
  pub min_request_amount : ℕ
  pub stat_interval_ms : ℕ
  pub threshold : ℕ

-- The fields of system.Rule that the plugin sets; the others are zero.
pub record CoreSystemRule : Type 0 where
  pub metric_type : ℕ
  pub trigger_count : ℕ

-- LoadRules, GetRules and ClearRules of one of the packages flow, circuitbreaker and system. An
-- error made outside the repository is known by its text.
pub record RuleManager (S R : Type 0) : Type 0 where
  pub load : List R → S → Option String × S
  pub get : S → List R
  pub clear : S → S

-- What the packages document: a load replaces all rules by those given, of which the invalid ones
-- are ignored, and GetRules returns a copy of the rules in force, in no fixed order.
pub record RuleManagerLaws {S R : Type 0} (manager : RuleManager S R) : Type 0 where
  pub valid : R → Bool
  pub get_valid : (s : S) → All (λ r. valid r ≡ true) (manager.get s)
  pub get-load :
      (rules : List R) (s : S)
      → (manager.load rules s).0 ≡ none
      → Perm (manager.get (manager.load rules s).1) (keep valid rules)
  pub get-clear : (s : S) → manager.get (manager.clear s) ≡ []

-- api.Entry returns an entry, here its handle, or a block error.
pub data Admission : Type 0 where
  admitted : ℕ → Admission
  blocked : String → Admission

pub record Engine (S O : Type 0) : Type 0 where
  pub init_with_config : String → String → S → Option String × S
  pub enter : String → List O → S → Admission × S
  pub exit : ℕ → S → S
  pub trace_error : ℕ → String → S → S
  pub flow : RuleManager S CoreFlowRule
  pub circuit_breaker : RuleManager S CoreCbRule
  pub system : RuleManager S CoreSystemRule
  pub direct : ℕ
  pub reject : ℕ
  pub throttling : ℕ
  pub slow_request_ratio : ℕ
  pub error_ratio : ℕ
  pub error_count : ℕ
  pub system_load : ℕ
  pub cpu_usage : ℕ
  pub inbound_qps : ℕ
  pub concurrency : ℕ

-- The three rule managers keep separate tables.
pub record EngineLaws {S O : Type 0} (core : Engine S O) : Type 0 where
  pub flow_laws : RuleManagerLaws core.flow
  pub cb_laws : RuleManagerLaws core.circuit_breaker
  pub system_laws : RuleManagerLaws core.system
  pub cb_load-flow :
      (rules : List CoreCbRule) (s : S)
      → core.flow.get (core.circuit_breaker.load rules s).1 ≡ core.flow.get s
  pub system_load-flow :
      (rules : List CoreSystemRule) (s : S)
      → core.flow.get (core.system.load rules s).1 ≡ core.flow.get s
  pub flow_load-cb :
      (rules : List CoreFlowRule) (s : S)
      → core.circuit_breaker.get (core.flow.load rules s).1 ≡ core.circuit_breaker.get s
  pub system_load-cb :
      (rules : List CoreSystemRule) (s : S)
      → core.circuit_breaker.get (core.system.load rules s).1 ≡ core.circuit_breaker.get s
  pub flow_load-system :
      (rules : List CoreFlowRule) (s : S)
      → core.system.get (core.flow.load rules s).1 ≡ core.system.get s
  pub cb_load-system :
      (rules : List CoreCbRule) (s : S)
      → core.system.get (core.circuit_breaker.load rules s).1 ≡ core.system.get s
  pub cb_clear-flow : (s : S) → core.flow.get (core.circuit_breaker.clear s) ≡ core.flow.get s
  pub system_clear-flow : (s : S) → core.flow.get (core.system.clear s) ≡ core.flow.get s
  pub system_clear-cb :
      (s : S) → core.circuit_breaker.get (core.system.clear s) ≡ core.circuit_breaker.get s
