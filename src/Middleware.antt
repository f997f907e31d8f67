-- ===== src/Middleware.antt =====
-- middleware.go (statusRecorder, CreateHTTPMiddleware) and the middleware of api.go that passes no
-- response on (HTTPMiddleware, GRPCStreamInterceptor). The writer of net/http and package fmt are
-- parameters: the calls that the recorder forwards to the writer are kept in order.
pub mod Recorder
pub mod Delivery
pub mod Reports
pub mod Responses
use lynx_sentinel.Base.{
  ℕ, String, Bool, true, false, not, ◌&&◌, List, [], ◌∷◌, ◌++◌, Option, none, some, str_eq, leb,
  ltb, if◌then◌else◌,
}
use lynx_sentinel.Base.Words.{two63}
use lynx_sentinel.Base.Float.{Platform}
use lynx_sentinel.Engine.{Engine}
use lynx_sentinel.Plugin.{
  World, Body, Ran, returned, panicked, Outcome, done, panics, AnyValue, PluginError, message,
  as_entry, entry, exit_entry, trace, execute,
}

-- A call of a handler on its `http.ResponseWriter`.
pub data WriterCall : Type 0 where
  header : ℕ → WriterCall
  content : String → WriterCall

-- `forwarded` are the calls of the writer that the recorder wraps.
pub record StatusRecorder : Type 0 where
  pub forwarded : List WriterCall
  pub status : ℕ
  pub wrote_header : Bool

-- `&statusRecorder{ResponseWriter: w, status: http.StatusOK}`.
unfoldable pub new_recorder : StatusRecorder
new_recorder = record { forwarded = []; status = 200; wrote_header = false }

unfoldable pub write_header : ℕ → StatusRecorder → StatusRecorder
write_header code sr =
    let noted =
      (if not sr.wrote_header then record sr { status = code; wrote_header = true } else sr) in
    record noted { forwarded = sr.forwarded ++ header code ∷ [] }

unfoldable pub write_content : String → StatusRecorder → StatusRecorder
write_content text sr =
    let noted = (if not sr.wrote_header then record sr { wrote_header = true } else sr) in
    record noted { forwarded = sr.forwarded ++ content text ∷ [] }

unfoldable pub record_call : StatusRecorder → WriterCall → StatusRecorder
record_call sr (header code) = write_header code sr
record_call sr (content text) = write_content text sr

-- The calls that a handler makes, in order.
unfoldable pub record_calls : StatusRecorder → List WriterCall → StatusRecorder
record_calls sr [] = sr
record_calls sr (call ∷ calls) = record_calls (record_call sr call) calls

-- What a handler does: its calls of the writer, and whether it panics after them.
pub record Served : Type 0 where
  pub calls : List WriterCall
  pub panicked : Bool

-- What the middleware does to the response: `http.Error` with status 429 and a text, or the calls
-- that it forwards, and whether it panics.
pub data Reply : Type 0 where
  too_many_requests : String → Reply
  answered : List WriterCall → Bool → Reply

-- `sw.status >= http.StatusInternalServerError` on an int.
unfoldable pub is_server_error : ℕ → Bool
is_server_error status = leb 500 status && ltb status two63

-- `if resource == "" { resource = fallback }`.
unfoldable pub resource_or : String → String → String
resource_or resource fallback = if str_eq resource "" then fallback else resource

module _ {S H : Type 0} where
  -- The function that HTTPMiddleware protects: `next`, if it is one. The flag says that it panics.
  unfoldable pub call_next : Option (World S H → Bool × World S H) → Body S H
  call_next none w = (returned none, w)
  call_next (some next) w =
      let (panicking, w') = next w in (if panicking then panicked else returned none, w')

  -- The function that GRPCStreamInterceptor protects.
  unfoldable pub call_handler : Option (Body S H) → Body S H
  call_handler none w = (returned none, w)
  call_handler (some handler) w = handler w

module _ {S H O : Type 0} (core : Engine S O) where
  -- `status_error` is the text of `fmt.Errorf("handler returned status %d", status)`.
  module _ (status_error : ℕ → String) where
    -- After the handler, up to the deferred exit.
    unfoldable pub report_status : ℕ → ℕ → World S H → World S H
    report_status handle status w =
        if is_server_error status then trace core handle (status_error status) w else w

    unfoldable pub serve_entered : ℕ → Served × World S H → Reply × World S H
    serve_entered handle (served, w) =
        let sr = record_calls new_recorder served.calls in
        (
          answered sr.forwarded served.panicked,
          exit_entry core handle (if served.panicked then w else report_status handle sr.status w),
        )

    unfoldable pub serve :
        (World S H → Served × World S H)
        → (AnyValue × Option PluginError) × World S H
        → Reply × World S H
    serve next ((value, some e), w) = (too_many_requests (message e), w)
    serve next ((value, none), w) = elim (as_entry value) [
      | none ↦
          let (served, w') = next w in
          (answered (record_calls new_recorder served.calls).forwarded served.panicked, w')
      | some handle ↦ serve_entered handle (next w)
    ]

    -- `extracted` is the extractor's answer, `path` the path of the request.
    unfoldable pub create_http_middleware :
        String → String → (World S H → Served × World S H) → World S H → Reply × World S H
    create_http_middleware extracted path next w =
        serve next (entry core (resource_or extracted path) [] w)

  module _ (platform : Platform) where
    -- An error is only logged.
    unfoldable pub http_middleware :
        String → Option (World S H → Bool × World S H) → ℕ → World S H → Outcome × World S H
    http_middleware extracted next elapsed w =
        let r =
          execute core platform (resource_or extracted "http_request") (call_next next) elapsed []
            w in
        (elim r.0 [ done e ↦ done none | panics ↦ panics ], r.1)

    -- `method` is the full name of the method, if the stream's information has one.
    unfoldable pub grpc_stream_interceptor :
        Option String → Option (Body S H) → ℕ → World S H → Outcome × World S H
    grpc_stream_interceptor method handler elapsed w =
        let resource : String = elim method [ none ↦ "grpc_stream" | some name ↦ name ] in
        execute core platform resource (call_handler handler) elapsed [] w
