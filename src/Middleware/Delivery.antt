-- ===== src/Middleware/Delivery.antt =====
-- The response and the error of a handler, and what the caller of the middleware gets.
use mathlib.Core.Option
use lynx_sentinel.Base.{
  ℕ, String, ◌≡◌, refl, sym, ap, ◌∙◌, true, List, [], Option, none, some, Option-cases, inl, inr,
  get_elem?,
}
use lynx_sentinel.Base.Float.{Platform}
use lynx_sentinel.Engine.{Engine, Admission, admitted, blocked}
use lynx_sentinel.Metrics.{MetricsCollector, record_passed, record_blocked}
use lynx_sentinel.Plugin.{
  World, Ran, returned, panicked, Outcome, done, panics, PluginError, failed, AnyValue,
  sentinel_entry, as_entry, on_collector, admit, entry, entry_with_context, exit_entry, trace,
  account, finish, protect, execute_with_context, runtime_state,
}
use lynx_sentinel.Plugin.Steps.{on_collector-host, entry_ready}
use lynx_sentinel.Plugin.Verdict.{entry_granted}
use lynx_sentinel.Plugin.Balance.{EntryLaws, open_in, KeepsOpen, execute_with_context-open}
use lynx_sentinel.Middleware.Responses.{
  Handled, replied, handler_panics, Handler, with_local, without_local, assign, assigning, respond,
  operation_or, rate_limit_middleware,
}

-- What the caller gets.
abbrev pub delivered : {R : Type 0} → Handled R → Option R × Outcome
delivered (replied resp err) = (resp, done (Option.map failed err))
delivered handler_panics = (none, panics)

-- `var resp any`.
abbrev local_of : (R : Type 0) → Option R
local_of R = none

on_collector-with_local :
    {S H V : Type 0} (v : V) (c : Option ℕ) (f : MetricsCollector → MetricsCollector)
    (w : World S H)
    → on_collector c f (with_local v w) ≡ with_local v (on_collector c f w)
unfolding on_collector with_local
on_collector-with_local v none f w = refl
on_collector-with_local v (some p) f w = elim (Option-cases (get_elem? w.collectors p)) [
  | inl e ↦ rw (e, on_collector) refl
  | inr (mc, e) ↦ rw (e, on_collector) refl
]

module _ {S H O : Type 0} (core : Engine S O) where
  admit-with_local :
      {V : Type 0} (v : V) (c : Option ℕ) (resource : String) (a : Admission) (s : S)
      (w : World S H)
      → let r = admit core c resource (a, s) w in
        admit core c resource (a, s) (with_local v w) ≡ (r.0, with_local v r.1)
  unfolding admit with_local
  admit-with_local v c resource (admitted handle) s w =
      ap (λ w'. ((sentinel_entry handle, none), w'))
        (on_collector-with_local v c (record_passed resource) (record w { core = s }))
  admit-with_local v c resource (blocked text) s w =
      ap (λ w'. ((AnyValue.nil_value, some (PluginError.blocked_by text)), w'))
        (on_collector-with_local v c (record_blocked resource) (record w { core = s }))

  entry-with_local :
      {V : Type 0} (v : V) (resource : String) (opts : List O) (w : World S H)
      → w.plugin.sentinel_initialized ≡ true
      → let r = entry core resource opts w in
        entry core resource opts (with_local v w) ≡ (r.0, with_local v r.1)
  unfolding with_local
  entry-with_local v resource opts w ready =
      let a = core.enter resource opts w.core in
      entry_ready core resource opts (with_local v w) ready
      ∙ admit-with_local v w.plugin.metrics_collector resource a.0 a.1 w
      ∙ sym (ap (λ r. (r.0, with_local v r.1)) (entry_ready core resource opts w ready))

  module _ (platform : Platform) where
    finish-host :
        (c : Option ℕ) (handle : ℕ) (resource : String) (elapsed : ℕ) (ran : Ran) (w : World S H)
        → (finish core platform c handle resource elapsed (ran, w)).1.host ≡ w.host
    unfolding finish exit_entry account trace
    finish-host c handle resource elapsed panicked w = refl
    finish-host c handle resource elapsed (returned none) w = on_collector-host c _ w
    finish-host c handle resource elapsed (returned (some text)) w =
        on_collector-host c _ _ ∙ on_collector-host c _ w

module _ {S H R O : Type 0} (core : Engine S O) (platform : Platform) where
  finish-delivered :
      (c : Option ℕ) (handle : ℕ) (resource : String) (elapsed : ℕ) (handled : Handled R)
      (w : World S H)
      → let r = finish core platform c handle resource elapsed (assign none (handled, w)) in
        (r.1.host.0, r.0) ≡ delivered handled
  unfolding finish assign with_local
  finish-delivered c handle resource elapsed handler_panics w =
      ap (λ h. (h.0, panics))
        (finish-host core platform c handle resource elapsed panicked (with_local none w))
  finish-delivered c handle resource elapsed (replied resp none) w =
      ap (λ h. (h.0, done none))
        (finish-host core platform c handle resource elapsed (returned none) (with_local resp w))
  finish-delivered c handle resource elapsed (replied resp (some text)) w =
      ap (λ h. (h.0, done (some (failed text))))
        (finish-host core platform c handle resource elapsed (returned (some text))
          (with_local resp w))

  protect-delivered :
      (resource : String) (next : Handler S H R) (elapsed handle : ℕ) (w : World S H)
      → let r =
          protect core platform resource
            (assigning next)
            elapsed
            ((sentinel_entry handle, none), with_local none w) in
        (r.1.host.0, r.0) ≡ delivered (next w).0
  unfolding protect as_entry assigning without_local with_local
  protect-delivered resource next elapsed handle w =
      finish-delivered (runtime_state (with_local none w)).1 handle resource elapsed (next w).0
        (next w).1

  respond-delivered :
      (resource : String) (next : Handler S H R) (elapsed : ℕ) (w : World S H) (handle : ℕ)
      → w.plugin.sentinel_initialized ≡ true
      → (core.enter resource [] w.core).0 ≡ admitted handle
      → (respond core platform none resource next elapsed w).0
        ≡ delivered (next (entry core resource [] w).1).0
  unfolding respond execute_with_context entry_with_context
  respond-delivered resource next elapsed w handle ready e =
      let r = entry core resource [] w in
      let granted : entry core resource [] (with_local (local_of R) w)
          ≡ ((sentinel_entry handle, none), with_local (local_of R) r.1) =
        entry-with_local core (local_of R) resource [] w ready
        ∙ ap (λ a. (a, with_local (local_of R) r.1))
            (entry_granted core resource [] w handle ready e) in
      rw granted (protect-delivered resource next elapsed handle r.1)

  -- On an initialized plugin and with a context that is not cancelled, the rate limit middleware
  -- returns the response and the error of the handler of an admitted request, and panics if the
  -- handler panics.
  pub rate_limit_middleware-delivered :
      (default_resource : String) (operation : Option String) (next : Handler S H R) (elapsed : ℕ)
      (w : World S H) (handle : ℕ)
      → w.plugin.sentinel_initialized ≡ true
      → (core.enter (operation_or default_resource operation) [] w.core).0 ≡ admitted handle
      → (rate_limit_middleware core platform none default_resource operation next elapsed w).0
        ≡ delivered (next (entry core (operation_or default_resource operation) [] w).1).0
  unfolding rate_limit_middleware
  rate_limit_middleware-delivered default_resource operation next elapsed w handle ready e =
      respond-delivered (operation_or default_resource operation) next elapsed w handle ready e

module _ {S H R O : Type 0} (core : Engine S O) (count : EntryLaws core) where
  assign-open :
      (resp : Option R) (handled : Handled R) (w : World S H)
      → open_in core count (assign resp (handled, w)).1 ≡ open_in core count w
  unfolding assign with_local open_in
  assign-open resp (replied resp' err) w = refl
  assign-open resp handler_panics w = refl

  assigning-KeepsOpen :
      (next : Handler S H R)
      → ((w : World S H) → open_in core count (next w).1 ≡ open_in core count w)
      → KeepsOpen core count (assigning next)
  unfolding assigning open_in without_local
  assigning-KeepsOpen next keeps w =
      assign-open w.host.0 (next (without_local w)).0 (next (without_local w)).1
      ∙ keeps (without_local w)

  respond-open :
      (platform : Platform) (ctx_err : Option String) (resource : String) (next : Handler S H R)
      (elapsed : ℕ) (w : World S H)
      → ((w : World S H) → open_in core count (next w).1 ≡ open_in core count w)
      → open_in core count (respond core platform ctx_err resource next elapsed w).1
        ≡ open_in core count w
  unfolding respond open_in with_local without_local
  respond-open platform ctx_err resource next elapsed w keeps =
      execute_with_context-open core count platform ctx_err resource (assigning next) elapsed []
        (with_local (local_of R) w) (assigning-KeepsOpen next keeps)

  -- The rate limit middleware leaves the entries of sentinel-golang open that it found open, and
  -- no others, also with a cancelled context, if the handler does.
  pub rate_limit_middleware-open :
      (platform : Platform) (ctx_err : Option String) (default_resource : String)
      (operation : Option String) (next : Handler S H R) (elapsed : ℕ) (w : World S H)
      → ((w : World S H) → open_in core count (next w).1 ≡ open_in core count w)
      → open_in core count
          (rate_limit_middleware core platform ctx_err default_resource operation next elapsed w).1
        ≡ open_in core count w
  unfolding rate_limit_middleware
  rate_limit_middleware-open platform ctx_err default_resource operation next elapsed w keeps =
      respond-open platform ctx_err (operation_or default_resource operation) next elapsed w keeps
