-- ===== src/Middleware/Reports.antt =====
-- The middleware: what becomes of the response, of the entry and of a server error.
use lynx_sentinel.Base.{
  List, ℕ, String, ◌≡◌, refl, ap, ◌∙◌, Bool, true, not, ◌&&◌, [], Option, none, some, arith,
  if◌then◌else◌,
}
use lynx_sentinel.Base.Float.{Platform}
use lynx_sentinel.Engine.{Engine, admitted, blocked}
use lynx_sentinel.Plugin.{
  World, Body, AnyValue, PluginError, blocked_by, message, as_entry, sentinel_entry, nil_value,
  entry, exit_entry, trace,
}
use lynx_sentinel.Plugin.Verdict.{entry_granted, entry_blocked}
use lynx_sentinel.Plugin.Balance.{
  without_entry, without_entry-first, EntryLaws, open_in, Opened, entry-Opened, exit_entry-open,
  KeepsOpen, execute-open,
}
use lynx_sentinel.Middleware.{
  Served, too_many_requests, answered, new_recorder, record_calls, is_server_error, resource_or,
  report_status, serve_entered, serve, create_http_middleware, call_next, http_middleware,
  call_handler, grpc_stream_interceptor,
}
use lynx_sentinel.Middleware.Recorder.{first_status, record_calls-new}

module _ {S O : Type 0} (core : Engine S O) (status_error : ℕ → String) where
  -- The effect of a handler that made `calls`: an error is traced if it did not panic and its status
  -- is one of a server error; the entry is exited in every case.
  abbrev pub reported : ℕ → Served → S → S
  reported handle served s = core.exit handle (
      if not served.panicked && is_server_error (first_status served.calls)
      then core.trace_error handle (status_error (first_status served.calls)) s
      else s)

module _ {S H O : Type 0} (core : Engine S O) (status_error : ℕ → String) where
  serve_granted :
      (next : World S H → Served × World S H) (r : (AnyValue × Option PluginError) × World S H)
      (handle : ℕ)
      → r.0 ≡ (sentinel_entry handle, none)
      → serve core status_error next r ≡ serve_entered core status_error handle (next r.1)
  unfolding serve as_entry
  serve_granted next r handle e = rw e refl

  report_status-core :
      (panicking : Bool) (handle status : ℕ) (w : World S H)
      → (if panicking then w else report_status core status_error handle status w).core ≡ (
          if not panicking && is_server_error status
          then core.trace_error handle (status_error status) w.core
          else w.core)
  unfolding report_status trace
  report_status-core panicking handle status w = ground arith

  serve_entered-reported :
      (handle : ℕ) (served : Served) (w : World S H)
      → ((serve_entered core status_error handle (served, w)).0
          ≡ answered served.calls served.panicked)
        × ((serve_entered core status_error handle (served, w)).1.core
            ≡ reported core status_error handle served w.core)
  unfolding serve_entered report_status exit_entry trace
  serve_entered-reported handle served w =
      let (status, forwarded) = record_calls-new served.calls in
      (
        ap (λ calls. answered calls served.panicked) forwarded,
        ap (core.exit handle) (
            report_status-core served.panicked handle
              (record_calls new_recorder served.calls).status w
            ∙ ap
                (λ n.
                  if not served.panicked && is_server_error n
                  then core.trace_error handle (status_error n) w.core
                  else w.core)
                status),
      )

  -- On an initialized plugin, the HTTP middleware answers an admitted request with the calls of the
  -- writer that the handler makes and with its panic, if it panics; it exits the entry in every
  -- case, and before that traces an error if the handler did not panic and the status of its first
  -- call, or 200, is one of a server error.
  pub create_http_middleware_lem :
      (extracted path : String) (next : World S H → Served × World S H) (w : World S H) (handle : ℕ)
      → w.plugin.sentinel_initialized ≡ true
      → (core.enter (resource_or extracted path) [] w.core).0 ≡ admitted handle
      → let ran = next (entry core (resource_or extracted path) [] w).1 in
        let after = create_http_middleware core status_error extracted path next w in
        (after.0 ≡ answered ran.0.calls ran.0.panicked)
        × (after.1.core ≡ reported core status_error handle ran.0 ran.1.core)
  unfolding create_http_middleware
  create_http_middleware_lem extracted path next w handle ready e =
      let r = entry core (resource_or extracted path) [] w in
      rw
        (serve_granted next r handle
          (entry_granted core (resource_or extracted path) [] w handle ready e))
        (serve_entered-reported handle (next r.1).0 (next r.1).1)

  serve_refused :
      (next : World S H → Served × World S H) (r : (AnyValue × Option PluginError) × World S H)
      (value : AnyValue) (e : PluginError)
      → r.0 ≡ (value, some e)
      → serve core status_error next r ≡ (too_many_requests (message e), r.1)
  unfolding serve
  serve_refused next r value e h = rw h refl

  -- On an initialized plugin, the HTTP middleware does not run the handler of a blocked request; it
  -- answers with status 429 and the text of the block error.
  pub create_http_middleware_refused :
      (extracted path : String) (next : World S H → Served × World S H) (w : World S H)
      (text : String)
      → w.plugin.sentinel_initialized ≡ true
      → (core.enter (resource_or extracted path) [] w.core).0 ≡ blocked text
      → create_http_middleware core status_error extracted path next w
        ≡ (too_many_requests text, (entry core (resource_or extracted path) [] w).1)
  unfolding create_http_middleware message
  create_http_middleware_refused extracted path next w text ready e =
      serve_refused next (entry core (resource_or extracted path) [] w) nil_value (blocked_by text)
        (entry_blocked core (resource_or extracted path) [] w text ready e)

module _ {S H O : Type 0} (core : Engine S O) (entry_laws : EntryLaws core) where
  report_status-open :
      (status_error : ℕ → String) (panicking : Bool) (handle status : ℕ) (w : World S H)
      → open_in core entry_laws
          (if panicking then w else report_status core status_error handle status w)
        ≡ open_in core entry_laws w
  unfolding open_in report_status trace
  report_status-open status_error panicking handle status w =
      ground (arith, entry_laws.trace_keeps handle (status_error status) w.core)

  serve-open :
      (status_error : ℕ → String) (next : World S H → Served × World S H) (n : List ℕ)
      (value : AnyValue) (e : Option PluginError) (w : World S H)
      → ((w : World S H) → open_in core entry_laws (next w).1 ≡ open_in core entry_laws w)
      → Opened core entry_laws n ((value, e), w)
      → open_in core entry_laws (serve core status_error next ((value, e), w)).1 ≡ n
  unfolding serve serve_entered
  serve-open status_error next n value (some e) w keeps opened = opened
  serve-open status_error next n value none w keeps (handle, entered, fresh, opened) =
      let (served, w') = next w in
      let status = (record_calls new_recorder served.calls).status in
      let reported =
        (if served.panicked then w' else report_status core status_error handle status w') in
      rw (entered, serve)
        (exit_entry-open core entry_laws handle reported
          ∙ ap (without_entry handle)
              (report_status-open status_error served.panicked handle status w' ∙ keeps w ∙ opened)
          ∙ without_entry-first handle n fresh)

  -- The HTTP middleware leaves the entries of sentinel-golang open that it found open, and no
  -- others, on every path, if the handler does.
  pub create_http_middleware-open :
      (status_error : ℕ → String) (extracted path : String) (next : World S H → Served × World S H)
      (w : World S H)
      → ((w : World S H) → open_in core entry_laws (next w).1 ≡ open_in core entry_laws w)
      → open_in core entry_laws (create_http_middleware core status_error extracted path next w).1
        ≡ open_in core entry_laws w
  unfolding create_http_middleware
  create_http_middleware-open status_error extracted path next w keeps =
      let r = entry core (resource_or extracted path) [] w in
      serve-open status_error next (open_in core entry_laws w) r.0.0 r.0.1 r.1 keeps
        (entry-Opened core entry_laws (resource_or extracted path) [] w)

  call_next-KeepsOpen :
      (next : Option (World S H → Bool × World S H))
      → ((f : World S H → Bool × World S H)
          → next ≡ some f
          → (w : World S H) → open_in core entry_laws (f w).1 ≡ open_in core entry_laws w)
      → KeepsOpen core entry_laws (call_next next)
  unfolding call_next
  call_next-KeepsOpen none keeps w = refl
  call_next-KeepsOpen (some next) keeps w = keeps next refl w

  call_handler-KeepsOpen :
      (handler : Option (Body S H))
      → ((f : Body S H) → handler ≡ some f → KeepsOpen core entry_laws f)
      → KeepsOpen core entry_laws (call_handler handler)
  unfolding call_handler
  call_handler-KeepsOpen none keeps w = refl
  call_handler-KeepsOpen (some handler) keeps w = keeps handler refl w

  -- HTTPMiddleware leaves the entries of sentinel-golang open that it found open, and no others, if
  -- the next function, where there is one, does.
  pub http_middleware-open :
      (platform : Platform) (extracted : String) (next : Option (World S H → Bool × World S H))
      (elapsed : ℕ) (w : World S H)
      → ((f : World S H → Bool × World S H)
          → next ≡ some f
          → (w : World S H) → open_in core entry_laws (f w).1 ≡ open_in core entry_laws w)
      → open_in core entry_laws (http_middleware core platform extracted next elapsed w).1
        ≡ open_in core entry_laws w
  unfolding http_middleware
  http_middleware-open platform extracted next elapsed w keeps =
      execute-open core entry_laws platform (resource_or extracted "http_request") (call_next next)
        elapsed [] w (call_next-KeepsOpen next keeps)

  -- GRPCStreamInterceptor leaves the entries of sentinel-golang open that it found open, and no
  -- others, if the handler, where there is one, does.
  pub grpc_stream_interceptor-open :
      (platform : Platform) (method : Option String) (handler : Option (Body S H)) (elapsed : ℕ)
      (w : World S H)
      → ((f : Body S H) → handler ≡ some f → KeepsOpen core entry_laws f)
      → open_in core entry_laws (grpc_stream_interceptor core platform method handler elapsed w).1
        ≡ open_in core entry_laws w
  unfolding grpc_stream_interceptor
  grpc_stream_interceptor-open platform method handler elapsed w keeps =
      execute-open core entry_laws platform _ (call_handler handler) elapsed [] w
        (call_handler-KeepsOpen handler keeps)
