-- ===== src/Middleware/Responses.antt =====
-- The middleware that passes a response on: rateLimitMiddleware of middleware.go, with HTTPRateLimit
-- and GRPCRateLimit, and GRPCUnaryInterceptor of api.go. The variable `resp` that the protected
-- function assigns lives beside the host's state during the call.
use lynx_sentinel.Base.{ℕ, String, [], Option, none, some}
use lynx_sentinel.Base.Float.{Platform}
use lynx_sentinel.Engine.{Engine}
use lynx_sentinel.Plugin.{World, Body, Ran, returned, panicked, Outcome, execute_with_context}
use lynx_sentinel.Middleware.{resource_or}

-- How a handler ends; a response is nil or a value.
pub data Handled (R : Type 0) : Type 0 where
  replied : Option R → Option String → Handled R
  handler_panics : Handled R

abbrev pub Handler : Type 0 → Type 0 → Type 0 → Type 0
Handler S H R = World S H → Handled R × World S H

-- The resource of a request: the operation of the transport, if the context has one with a name.
unfoldable pub operation_or : String → Option String → String
operation_or default_resource none = default_resource
operation_or default_resource (some name) = resource_or name default_resource

module _ {S H V : Type 0} where
  unfoldable pub with_local : V → World S H → World S (V × H)
  with_local v w = record {
    plugin = w.plugin;
    collectors = w.collectors;
    dashboards = w.dashboards;
    closed = w.closed;
    core = w.core;
    host = (v, w.host);
    init_once = w.init_once;
  }

  unfoldable pub without_local : World S (V × H) → World S H
  without_local w = record {
    plugin = w.plugin;
    collectors = w.collectors;
    dashboards = w.dashboards;
    closed = w.closed;
    core = w.core;
    host = w.host.1;
    init_once = w.init_once;
  }

module _ {S H R : Type 0} where
  -- What the assignment to `resp` makes of the end of a handler.
  unfoldable pub assign : Option R → Handled R × World S H → Ran × World S (Option R × H)
  assign resp (replied resp' err, w) = (returned err, with_local resp' w)
  assign resp (handler_panics, w) = (panicked, with_local resp w)

  -- The protected function.
  unfoldable pub assigning : Handler S H R → Body S (Option R × H)
  assigning next w = assign w.host.0 (next (without_local w))

  -- A value that is no handler is not called.
  unfoldable pub or_nothing : Option (Handler S H R) → Handler S H R
  or_nothing none w = (replied none none, w)
  or_nothing (some handler) w = handler w

  module _ {O : Type 0} (core : Engine S O) (platform : Platform) (ctx_err : Option String) where
    -- `var resp any`, the call of ExecuteWithContext, and the two results.
    unfoldable pub respond :
        String → Handler S H R → ℕ → World S H → (Option R × Outcome) × World S H
    respond resource next elapsed w =
        let (outcome, w') =
          execute_with_context core platform ctx_err resource (assigning next) elapsed []
            (with_local none w) in
        ((w'.host.0, outcome), without_local w')

    unfoldable pub rate_limit_middleware :
        String → Option String → Handler S H R → ℕ → World S H → (Option R × Outcome) × World S H
    rate_limit_middleware default_resource operation next elapsed w =
        respond (operation_or default_resource operation) next elapsed w

    unfoldable pub http_rate_limit :
        Option String → Handler S H R → ℕ → World S H → (Option R × Outcome) × World S H
    http_rate_limit = rate_limit_middleware "http.request"

    unfoldable pub grpc_rate_limit :
        Option String → Handler S H R → ℕ → World S H → (Option R × Outcome) × World S H
    grpc_rate_limit = rate_limit_middleware "grpc.request"

    unfoldable pub grpc_unary_interceptor :
        Option String → Option (Handler S H R) → ℕ → World S H → (Option R × Outcome) × World S H
    grpc_unary_interceptor method handler elapsed w =
        let resource : String = elim method [ none ↦ "grpc_unary" | some name ↦ name ] in
        respond resource (or_nothing handler) elapsed w
