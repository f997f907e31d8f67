-- ===== src/Registry/Requests.antt =====
-- The package-level functions of the request path: Entry to GetCircuitBreakerState of plug.go, and
-- the utility functions of api.go.
use mathlib.Core.Option
use lynx_sentinel.Base.{ℕ, String, Bool, true, false, List, [], Option, none, some}
use lynx_sentinel.Base.Float.{Platform}
use lynx_sentinel.Engine.{CoreCbRule, Engine}
use lynx_sentinel.Plugin
use lynx_sentinel.Plugin.{
  World, Body, Ran, returned, panicked, Outcome, done, panics, AnyValue, nil_value, PluginError,
  FlowControlResult,
}
use lynx_sentinel.Registry.{
  Registry, RegistryError, Failure, no_sentinel, plugin_failed, with_sentinel,
}

-- The end of a call: a return, or the panic of the caller's function.
pub data Protected : Type 0 where
  returns : Option Failure → Protected
  breaks : Protected

pub record CircuitBreakerState : Type 0 where
  pub resource : String
  pub state : ℕ
  pub rule : Option CoreCbRule
  pub last_change : ℕ
  pub error_count : ℕ
  pub request_count : ℕ

-- The method of the plugin, which looks at nothing but the clock: `now` is the time of the call, and
-- the fields that it does not set are zero.
unfoldable pub circuit_breaker_state : String → ℕ → CircuitBreakerState
circuit_breaker_state resource now = record {
  resource = resource;
  state = 0;
  rule = none;
  last_change = now;
  error_count = 0;
  request_count = 0;
}

-- The error of the plugin, passed on.
unfoldable pub of_outcome : Outcome → Protected
of_outcome (done e) = returns (Option.map plugin_failed e)
of_outcome panics = breaks

unfoldable pub of_ran : Ran → Protected
of_ran (returned err) = returns (Option.map (λ text. plugin_failed (PluginError.failed text)) err)
of_ran panicked = breaks

-- A method whose result `f` passes on.
abbrev pub passing :
    {S H A B : Type 0} → (A → B) → (World S H → A × World S H) → World S H → B × World S H
passing f method w = let (a, w') = method w in (f a, w')

module _ {S H O : Type 0} (registry : Registry H) (core : Engine S O) where
  unfoldable pub entry : String → List O → World S H → (AnyValue × Option Failure) × World S H
  entry resource opts =
      with_sentinel registry (λ e w. ((nil_value, some (no_sentinel e)), w))
        (passing (λ r. (r.0, Option.map plugin_failed r.1)) (Plugin.entry core resource opts))

  unfoldable pub entry_with_context :
      Option String → String → List O → World S H → (AnyValue × Option Failure) × World S H
  entry_with_context ctx_err resource opts =
      with_sentinel registry (λ e w. ((nil_value, some (no_sentinel e)), w))
        (passing (λ r. (r.0, Option.map plugin_failed r.1))
          (Plugin.entry_with_context core ctx_err resource opts))

  -- `reason` is the text of `fmt.Sprintf("plugin error: %v", err)`.
  unfoldable pub check_flow :
      (RegistryError → String) → String → ℕ → World S H → FlowControlResult × World S H
  check_flow reason resource now =
      with_sentinel registry
        (λ e w. (
          record {
            allowed = false;
            resource = resource;
            rule = "";
            reason = reason e;
            timestamp = 0;
            duration = 0;
          },
          w,
        ))
        (Plugin.check_flow core resource now)

  unfoldable pub get_circuit_breaker_state :
      String → ℕ → World S H → (Option CircuitBreakerState × Option Failure) × World S H
  get_circuit_breaker_state resource now =
      with_sentinel registry (λ e w. ((none, some (no_sentinel e)), w))
        (λ w. ((some (circuit_breaker_state resource now), none), w))

  unfoldable pub check_resource_available : String → ℕ → World S H → Bool × World S H
  check_resource_available resource now =
      with_sentinel registry (λ e w. (true, w))
        (passing (λ result. result.allowed) (Plugin.check_flow core resource now))

  module _ (platform : Platform) where
    unfoldable pub execute : String → Body S H → ℕ → List O → World S H → Protected × World S H
    execute resource body elapsed opts =
        with_sentinel registry (λ e w. (returns (some (no_sentinel e)), w))
          (passing of_outcome (Plugin.execute core platform resource body elapsed opts))

    unfoldable pub execute_with_context :
        Option String → String → Body S H → ℕ → List O → World S H → Protected × World S H
    execute_with_context ctx_err resource body elapsed opts =
        with_sentinel registry (λ e w. (returns (some (no_sentinel e)), w))
          (passing of_outcome
            (Plugin.execute_with_context core platform ctx_err resource body elapsed opts))

    -- `return fn()` if there is no plugin.
    unfoldable pub protect_function : String → Body S H → ℕ → World S H → Protected × World S H
    protect_function resource body elapsed =
        with_sentinel registry (λ e. passing of_ran body)
          (passing of_outcome (Plugin.execute core platform resource body elapsed []))

    unfoldable pub protect_function_with_context :
        Option String → String → Body S H → ℕ → World S H → Protected × World S H
    protect_function_with_context ctx_err resource body elapsed =
        with_sentinel registry (λ e. passing of_ran body)
          (passing of_outcome
            (Plugin.execute_with_context core platform ctx_err resource body elapsed []))
