-- ===== src/Dashboard/Routes.antt =====
-- The endpoints that Start of dashboard.go registers, and the paths that its index page asks for. The
-- ServeMux of package net/http is a parameter.
use Prim.Native.String.{len}
use text.Mathlib.Text.{get?}
use lynx_sentinel.Base.{
  ◌-◌, String, ◌≡◌, refl, ◌≢◌, ◌⊎◌, inl, inr, Bool, true, false, List, [], ◌∷◌, ◌++◌, Option, none,
  some, All, arith, str_eq, eq_iff, Bool-cases, ap, subst, sym, ◌∙◌, if◌then◌else◌,
}
use lynx_sentinel.Base.Dict.{Dict, lookup}

-- The handlers: handleIndex, handleMetrics, handleResources, handleRules and handleHealth.
pub data Page : Type 0 where
  index metrics resources rules health : Page

-- The calls of `mux.HandleFunc`.
unfoldable pub routes : Dict Page
routes =
    ("/", index)
    ∷ ("/api/metrics", metrics)
    ∷ ("/api/resources", resources)
    ∷ ("/api/rules", rules)
    ∷ ("/api/health", health)
    ∷ []

-- The quick links of the index page.
unfoldable pub quick_links : List String
quick_links = "/api/metrics" ∷ "/api/resources" ∷ "/api/rules" ∷ "/api/health" ∷ []

-- What its function `refreshData` fetches.
unfoldable pub refreshed : List String
refreshed = "/api/metrics" ∷ "/api/resources" ∷ []

-- The handler for a path, among patterns that are plain paths. A path that is not clean, such as one
-- with `//` or `..`, is redirected.
pub record Mux : Type 0 where
  pub handler : Dict Page → String → Option Page
  pub clean : String → Bool

abbrev ends_in_slash : String → Bool
ends_in_slash path = elim (get? path (len path - 1) (len path)) [
  | none ↦ false
  | some text ↦ str_eq text "/"
]

-- What the package documents: a pattern that is the path itself comes first, a pattern without a
-- slash at its end matches nothing else, and "/" matches every path.
pub record MuxLaws (mux : Mux) : Type 0 where
  pub handler-exact :
      (patterns : Dict Page) (path : String) (page : Page)
      → mux.clean path ≡ true
      → lookup path patterns ≡ some page
      → mux.handler patterns path ≡ some page
  pub handler-root :
      (patterns : Dict Page) (path : String) (page : Page)
      → mux.clean path ≡ true
      → lookup path patterns ≡ none
      → lookup "/" patterns ≡ some page
      → All (λ p. (p.0 ≡ "/") ⊎ (ends_in_slash p.0 ≡ false)) patterns
      → mux.handler patterns path ≡ some page

-- The page for a path.
abbrev pub page_at : String → Page
page_at path =
    if str_eq "/api/metrics" path
    then metrics
    else if str_eq "/api/resources" path
    then resources
    else if str_eq "/api/rules" path
    then rules
    else if str_eq "/api/health" path
    then health
    else index

only_root : All (λ p. (p.0 ≡ "/") ⊎ (ends_in_slash p.0 ≡ false)) routes
unfolding routes
only_root = (inl refl, (inr refl, (inr refl, (inr refl, (inr refl, tt)))))

-- A registered path has its own page, and any other the index page.
abbrev HasPage : String → Type 0
HasPage path =
    (lookup path routes ≡ some (page_at path))
    ⊎ ((lookup path routes ≡ none) × (page_at path ≡ index))

lookup_lem : (path : String) → HasPage path
unfolding routes lookup
lookup_lem path = elim (Bool-cases (str_eq "/" path)) [
  | inl e ↦ subst HasPage ((eq_iff "/" path).0 e) (inl refl)
  | inr e ↦ ground arith
]

module _ (mux : Mux) (laws : MuxLaws mux) where
  -- A mux with the registered endpoints answers a clean path of one of the four APIs with its
  -- handler and any other with the index page; the paths that the index page links to and fetches
  -- are such APIs.
  pub handler-page_at :
      (path : String)
      → mux.clean path ≡ true
      → (mux.handler routes path ≡ some (page_at path))
        × All (λ link. page_at link ≢ index) (quick_links ++ refreshed)
  unfolding routes lookup quick_links refreshed
  handler-page_at path c = (
    elim (lookup_lem path) [
      | inl own ↦ laws.handler-exact routes path (page_at path) c own
      | inr (missing, e) ↦
          laws.handler-root routes path index c missing refl only_root ∙ ap some (sym e)
    ],
    (λ e. cc, (λ e. cc, (λ e. cc, (λ e. cc, (λ e. cc, (λ e. cc, tt)))))),
  )
