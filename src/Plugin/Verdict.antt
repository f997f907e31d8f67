-- ===== src/Plugin/Verdict.antt =====
-- What the callers of the request path see, and what the metrics record of it.
use lynx_sentinel.Base.{
  ℕ, String, ◌≡◌, refl, ap, ◌∙◌, ◌⊎◌, Bool, true, false, not, is_some, List, [], Option, none, some,
  arith, Bool-cases, inl, inr,
}
use lynx_sentinel.Base.Float.{Platform}
use lynx_sentinel.Engine.{Engine, Admission, admitted, blocked}
use lynx_sentinel.Plugin.Steps.{on_collector-core, entry_ready, entry_unready}
use lynx_sentinel.Plugin.{
  World, Body, Ran, returned, panicked, Outcome, done, panics, AnyValue, PluginError, failed,
  blocked_by, runtime_state, admit, entry, finish, protect, execute, flow_result, check_flow,
  as_entry, message, sentinel_entry, nil_value, exit_entry, account, trace,
}

-- What Execute reports of the caller's function.
abbrev pub report : Ran → Outcome
report (returned none) = done none
report (returned (some text)) = done (some (failed text))
report panicked = panics

-- The effect on sentinel-golang: an error is traced, and the entry is exited in every case.
abbrev pub settle : {S O : Type 0} → Engine S O → ℕ → Ran → S → S
settle core handle (returned none) s = core.exit handle s
settle core handle (returned (some text)) s = core.exit handle (core.trace_error handle text s)
settle core handle panicked s = core.exit handle s

Admission-cases :
    (a : Admission)
    → ((handle : ℕ) × (a ≡ admitted handle)) ⊎ ((text : String) × (a ≡ blocked text))
Admission-cases (admitted handle) = inl (handle, refl)
Admission-cases (blocked text) = inr (text, refl)

message-blocked_by : (text : String) → message (blocked_by text) ≡ text
unfolding message
message-blocked_by text = refl

module _ {S H O : Type 0} (core : Engine S O) where
  admit_refused :
      (c : Option ℕ) (resource : String) (a : Admission × S) (text : String) (w : World S H)
      → a.0 ≡ blocked text
      → (admit core c resource a w).0 ≡ (nil_value, some (blocked_by text))
  unfolding admit
  admit_refused c resource (blocked t, s) text w e = ground arith
  admit_refused c resource (admitted h, s) text w e = cc

  admit_granted :
      (c : Option ℕ) (resource : String) (a : Admission × S) (handle : ℕ) (w : World S H)
      → a.0 ≡ admitted handle
      → (admit core c resource a w).0 ≡ (sentinel_entry handle, none)
  unfolding admit
  admit_granted c resource (blocked t, s) handle w e = cc
  admit_granted c resource (admitted h, s) handle w e = ground arith

  pub entry_granted :
      (resource : String) (opts : List O) (w : World S H) (handle : ℕ)
      → w.plugin.sentinel_initialized ≡ true
      → (core.enter resource opts w.core).0 ≡ admitted handle
      → (entry core resource opts w).0 ≡ (sentinel_entry handle, none)
  entry_granted resource opts w handle ready e =
      ap (λ r. r.0) (entry_ready core resource opts w ready)
      ∙ admit_granted w.plugin.metrics_collector resource (core.enter resource opts w.core) handle w
          e

  pub entry_blocked :
      (resource : String) (opts : List O) (w : World S H) (text : String)
      → w.plugin.sentinel_initialized ≡ true
      → (core.enter resource opts w.core).0 ≡ blocked text
      → (entry core resource opts w).0 ≡ (nil_value, some (blocked_by text))
  entry_blocked resource opts w text ready e =
      ap (λ r. r.0) (entry_ready core resource opts w ready)
      ∙ admit_refused w.plugin.metrics_collector resource (core.enter resource opts w.core) text w e

  flow_result-allowed :
      (resource : String) (now : ℕ) (r : (AnyValue × Option PluginError) × World S H) {b : Bool}
      → not (is_some r.0.1) ≡ b
      → (flow_result core resource now r).0.allowed ≡ b
  unfolding flow_result
  flow_result-allowed resource now r e = ground arith

  flow_result-reason :
      (resource : String) (now : ℕ) (r : (AnyValue × Option PluginError) × World S H)
      (e : PluginError)
      → r.0.1 ≡ some e
      → (flow_result core resource now r).0.reason ≡ message e
  unfolding flow_result
  flow_result-reason resource now r e refused = ground arith

  -- CheckFlow says yes exactly when the plugin is initialized and sentinel-golang admits a request
  -- without options; when it is blocked, the reason is the text of the block error.
  pub check_flow_lem :
      (resource : String) (now : ℕ) (w : World S H)
      → let allowed = (check_flow core resource now w).0.allowed in
        ((w.plugin.sentinel_initialized ≡ false) × (allowed ≡ false))
        ⊎ ((w.plugin.sentinel_initialized ≡ true)
            × ((handle : ℕ) × ((core.enter resource [] w.core).0 ≡ admitted handle))
            × (allowed ≡ true))
        ⊎ ((w.plugin.sentinel_initialized ≡ true)
            × ((text : String) × ((core.enter resource [] w.core).0 ≡ blocked text)
                × ((check_flow core resource now w).0.reason ≡ text))
            × (allowed ≡ false))
  unfolding check_flow
  check_flow_lem resource now w = elim (Bool-cases w.plugin.sentinel_initialized) [
    | inr unready ↦ inl (
      unready,
      flow_result-allowed resource now (entry core resource [] w)
          (ap (λ r. not (is_some r.0.1)) (entry_unready core resource [] w unready)),
    )
    | inl ready ↦ elim (Admission-cases (core.enter resource [] w.core).0) [
      | inl (handle, e) ↦ inr (
          inl (
            ready,
            (handle, e),
            flow_result-allowed resource now (entry core resource [] w)
                (ap (λ r. not (is_some r.1)) (entry_granted resource [] w handle ready e)),
          ))
      | inr (text, e) ↦
          let refused = entry_blocked resource [] w text ready e in
          inr (
            inr (
              ready,
              (
                text,
                e,
                flow_result-reason resource now (entry core resource [] w) (blocked_by text)
                      (ap (λ r. r.1) refused)
                    ∙ message-blocked_by text,
              ),
              flow_result-allowed resource now (entry core resource [] w)
                  (ap (λ r. not (is_some r.1)) refused),
            ))
    ]
  ]

  module _ (platform : Platform) where
    finish-report :
        (c : Option ℕ) (handle : ℕ) (resource : String) (elapsed : ℕ) (ran : Ran) (w : World S H)
        → ((finish core platform c handle resource elapsed (ran, w)).0 ≡ report ran)
          × ((finish core platform c handle resource elapsed (ran, w)).1.core
              ≡ settle core handle ran w.core)
    unfolding finish exit_entry account trace
    finish-report c handle resource elapsed panicked w = (refl, refl)
    finish-report c handle resource elapsed (returned none) w =
        (refl, ap (core.exit handle) (on_collector-core c _ w))
    finish-report c handle resource elapsed (returned (some text)) w = (
      refl,
      ap (λ s. core.exit handle (core.trace_error handle text s))
          (on_collector-core c _ _ ∙ on_collector-core c _ w),
    )

    protect-entered :
        (resource : String) (body : Body S H) (elapsed : ℕ)
        (r : (AnyValue × Option PluginError) × World S H) (handle : ℕ)
        → r.0 ≡ (sentinel_entry handle, none)
        → protect core platform resource body elapsed r
          ≡ finish core platform (runtime_state r.1).1 handle resource elapsed (body r.1)
    unfolding protect as_entry
    protect-entered resource body elapsed r handle granted = ground arith

    -- On an initialized plugin, an admitted request runs the caller's function in the world after
    -- the admission; Execute reports what it returns, also a panic, traces its error and exits the
    -- entry.
    pub execute_admitted :
        (resource : String) (body : Body S H) (elapsed : ℕ) (opts : List O) (w : World S H)
        (handle : ℕ)
        → w.plugin.sentinel_initialized ≡ true
        → (core.enter resource opts w.core).0 ≡ admitted handle
        → let ran = body (entry core resource opts w).1 in
          let after = execute core platform resource body elapsed opts w in
          (after.0 ≡ report ran.0) × (after.1.core ≡ settle core handle ran.0 ran.1.core)
    unfolding execute
    execute_admitted resource body elapsed opts w handle ready e =
        let r = entry core resource opts w in
        let (ran, w') = body r.1 in
        let granted = entry_granted resource opts w handle ready e in
        let (reported, settled) =
          finish-report (runtime_state r.1).1 handle resource elapsed ran w' in
        let same = protect-entered resource body elapsed r handle granted in
        (ap (λ p. p.0) same ∙ reported, ap (λ p. p.1.core) same ∙ settled)

    -- A request that is not admitted does not run the caller's function: Execute returns the error
    -- of Entry, and the world is as Entry leaves it.
    pub execute_refused :
        (resource : String) (body : Body S H) (elapsed : ℕ) (opts : List O) (w : World S H)
        (e : PluginError)
        → (entry core resource opts w).0.1 ≡ some e
        → execute core platform resource body elapsed opts w
          ≡ (done (some e), (entry core resource opts w).1)
    unfolding execute protect
    execute_refused resource body elapsed opts w e refused = ground arith
