-- ===== src/Registry/Handlers.antt =====
-- CreateHTTPMiddleware and CreateGRPCInterceptor of plug.go: a middleware keeps the plugin that it was
-- made with, and serves later requests by it.
use lynx_sentinel.Base.{ℕ, String, ◌≡◌, refl, ap, false, Option, none, some, []}
use lynx_sentinel.Engine.{Engine}
use lynx_sentinel.Base.Float.{Platform}
use lynx_sentinel.Plugin.{
  World, PlugSentinel, Body, Outcome, done, not_initialized, message, protect, execute,
}
use lynx_sentinel.Plugin.Steps.{entry_unready}
use lynx_sentinel.Lifecycle.Hooks.{new_sentinel_plugin}
use lynx_sentinel.Middleware
use lynx_sentinel.Middleware.{Served, Reply, too_many_requests, resource_or, serve, call_handler}
use lynx_sentinel.Registry.{
  Registry, managed, created, missing, Failure, no_sentinel, get_sentinel, forget,
}

-- The plugin of the manager, or one that the factory has made and nobody else has.
pub data Keeper : Type 0 where
  managed_plugin : Keeper
  own_plugin : PlugSentinel → Keeper

-- A method of the plugin that a middleware keeps. A plugin that the factory has made is never
-- initialized, so no handler of a service runs under it.
unfoldable pub with_plugin :
    {S H A : Type 0} → Keeper → (World S H → A × World S H) → World S H → A × World S H
with_plugin managed_plugin method w = method w
with_plugin (own_plugin p) method w = forget w (method (record w { plugin = p }))

module _ {S H : Type 0} (registry : Registry H) where
  -- `GetSentinel()`, and the plugin that is kept.
  unfoldable pub keep_plugin : World S H → (Option Keeper × Option Failure) × World S H
  keep_plugin w = elim (get_sentinel registry w.host) [
    | missing e ↦ ((none, some (no_sentinel e)), w)
    | managed ↦ ((some managed_plugin, none), w)
    | created ↦
        let (p, closed) = new_sentinel_plugin w.closed in
        ((some (own_plugin p), none), record w { closed = closed })
  ]

  unfoldable pub create_http_middleware : World S H → (Option Keeper × Option Failure) × World S H
  create_http_middleware = keep_plugin

  unfoldable pub create_grpc_interceptor : World S H → (Option Keeper × Option Failure) × World S H
  create_grpc_interceptor = keep_plugin

module _ {S H O : Type 0} (core : Engine S O) where
  -- A request to the HTTP middleware.
  unfoldable pub serve_http :
      (ℕ → String)
      → Keeper
      → String
      → String
      → (World S H → Served × World S H)
      → World S H
      → Reply × World S H
  serve_http status_error keeper extracted path next =
      with_plugin keeper (Middleware.create_http_middleware core status_error extracted path next)

  -- A stream through the interceptor.
  unfoldable pub serve_stream :
      Platform → Keeper → Option String → Option (Body S H) → ℕ → World S H → Outcome × World S H
  serve_stream platform keeper method handler elapsed =
      with_plugin keeper (Middleware.grpc_stream_interceptor core platform method handler elapsed)

  unready_http :
      (status_error : ℕ → String) (extracted path : String) (next : World S H → Served × World S H)
      (w : World S H)
      → w.plugin.sentinel_initialized ≡ false
      → Middleware.create_http_middleware core status_error extracted path next w
        ≡ (too_many_requests (message not_initialized), w)
  unfolding Middleware.create_http_middleware serve
  unready_http status_error extracted path next w off =
      rw (entry_unready core (resource_or extracted path) [] w off) refl

  unready_stream :
      (platform : Platform) (method : Option String) (handler : Option (Body S H)) (elapsed : ℕ)
      (w : World S H)
      → w.plugin.sentinel_initialized ≡ false
      → Middleware.grpc_stream_interceptor core platform method handler elapsed w
        ≡ (done (some not_initialized), w)
  unfolding Middleware.grpc_stream_interceptor execute protect
  unready_stream platform method handler elapsed w off = rw (entry_unready core _ [] w off) refl

  -- An HTTP middleware or a gRPC interceptor that is made when the manager has no plugin and the
  -- factory makes one keeps that plugin, and refuses every later request and stream without running
  -- the handler, whatever the state of the service by then.
  pub created_middleware_refuses :
      (registry : Registry H) (platform : Platform) (status_error : ℕ → String)
      (extracted path : String) (next : World S H → Served × World S H) (method : Option String)
      (handler : Option (Body S H)) (elapsed : ℕ) (w later : World S H)
      → get_sentinel registry w.host ≡ created
      → (p : PlugSentinel) × ((create_http_middleware registry w).0 ≡ (some (own_plugin p), none))
        × ((create_grpc_interceptor registry w).0 ≡ (some (own_plugin p), none))
        × (serve_http status_error (own_plugin p) extracted path next later
            ≡ (too_many_requests (message not_initialized), later))
        × (serve_stream platform (own_plugin p) method handler elapsed later
            ≡ (done (some not_initialized), later))
  unfolding create_http_middleware create_grpc_interceptor keep_plugin serve_http serve_stream
      with_plugin new_sentinel_plugin
  created_middleware_refuses registry platform status_error extracted path next method handler
        elapsed w later made =
      let p = (new_sentinel_plugin w.closed).0 in
      let later_on : World S H = record later { plugin = p } in
      (
        p,
        rw (made, keep_plugin) refl,
        rw (made, keep_plugin) refl,
        ap (forget later) (unready_http status_error extracted path next later_on refl),
        ap (forget later) (unready_stream platform method handler elapsed later_on refl),
      )
