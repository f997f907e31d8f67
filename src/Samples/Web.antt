-- ===== src/Samples/Web.antt =====
-- A handler that fails with status 503, behind the middleware.
use lynx_sentinel.Base.{ℕ, String, ◌≡◌, refl, false, List, [], ◌∷◌, none, some}
use lynx_sentinel.Engine.{admitted}
use lynx_sentinel.Plugin.{World, entry}
use lynx_sentinel.Middleware.{
  WriterCall, header, content, Served, answered, resource_or, create_http_middleware,
}
use lynx_sentinel.Middleware.Reports.{reported, create_http_middleware_lem}
use lynx_sentinel.Middleware.Responses.{replied, Handler, operation_or, rate_limit_middleware}
use lynx_sentinel.Middleware.Delivery.{delivered, rate_limit_middleware-delivered}
use lynx_sentinel.Samples.{Loaded, small_core, small_platform, ready_world}

abbrev unavailable : List WriterCall
unavailable = header 503 ∷ content "later" ∷ []

abbrev pub fails_late : World Loaded ℕ → Served × World Loaded ℕ
fails_late w = (record { calls = unavailable; panicked = false }, w)

abbrev pub text_of : ℕ → String
text_of status = "handler returned an error status"

abbrev replies : Handler Loaded ℕ String
replies w = (replied (some "hello") none, w)

a_admitted : (small_core.enter (resource_or "" "a") [] ready_world.core).0 ≡ admitted 0
unfolding resource_or
a_admitted = refl

operation_admitted :
    (small_core.enter (operation_or "http.request" none) [] ready_world.core).0 ≡ admitted 0
unfolding operation_or
operation_admitted = refl

create_http_middleware_lem_example :
    let ran = fails_late (entry small_core (resource_or "" "a") [] ready_world).1 in
    let after = create_http_middleware small_core text_of "" "a" fails_late ready_world in
    (after.0 ≡ answered ran.0.calls ran.0.panicked)
    × (after.1.core ≡ reported small_core text_of 0 ran.0 ran.1.core)
create_http_middleware_lem_example =
    create_http_middleware_lem small_core text_of "" "a" fails_late ready_world 0 refl a_admitted

rate_limit_middleware-delivered_example :
    (rate_limit_middleware small_core small_platform none "http.request" none replies 5
      ready_world).0
    ≡ delivered (replies (entry small_core (operation_or "http.request" none) [] ready_world).1).0
rate_limit_middleware-delivered_example =
    rate_limit_middleware-delivered small_core small_platform "http.request" none replies 5
      ready_world 0 refl operation_admitted
