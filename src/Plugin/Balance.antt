-- ===== src/Plugin/Balance.antt =====
-- The entries that are open, before and after the operations of the request path.
use lynx_sentinel.Base.{
  ℕ, ◌∷◌, keep, not, false, ◌==◌, All, String, ◌≡◌, refl, sym, ap, subst, ◌∙◌, List, [], Option,
  none, some, arith, Bool-cases, inl, inr,
}
use lynx_sentinel.Base.Float.{Platform}
use lynx_sentinel.Engine.{Engine, Admission, admitted, blocked}
use lynx_sentinel.Plugin.Steps.{on_collector-core, entry_ready, entry_unready}
use lynx_sentinel.Plugin.{
  World, Body, Ran, returned, panicked, AnyValue, PluginError, runtime_state, admit, entry,
  entry_with_context, exit_entry, trace, account, finish, protect, execute, execute_with_context,
  flow_result, check_flow, as_entry,
}

-- No entry of the list has the handle.
abbrev pub Fresh : ℕ → List ℕ → Type 0
Fresh handle handles = All (λ j. (j == handle) ≡ false) handles

-- The entries that `Exit` of an entry leaves open. A second `Exit` does nothing.
unfoldable pub without_entry : ℕ → List ℕ → List ℕ
without_entry handle handles = keep (λ j. not (j == handle)) handles

keep-Fresh :
    (handle : ℕ) (handles : List ℕ) → Fresh handle handles → without_entry handle handles ≡ handles
unfolding without_entry
keep-Fresh handle [] f = refl
keep-Fresh handle (j ∷ handles) (f, fs) = rw f (ap (λ l. j ∷ l) (keep-Fresh handle handles fs))

pub without_entry-first :
    (handle : ℕ) (handles : List ℕ)
    → Fresh handle handles
    → without_entry handle (handle ∷ handles) ≡ handles
unfolding without_entry
without_entry-first handle handles f = ground (arith, keep-Fresh handle handles f)

pub without_entry-other :
    (handle other : ℕ) (handles : List ℕ)
    → (other == handle) ≡ false
    → without_entry handle (other ∷ handles) ≡ other ∷ without_entry handle handles
unfolding without_entry
without_entry-other handle other handles e = rw e refl

-- What sentinel-golang documents of entries, by the handles of those that are open, the newest first:
-- an admission opens one that was not open, `Exit` closes its own entry, and a block or a traced error
-- does neither.
pub record EntryLaws {S O : Type 0} (core : Engine S O) : Type 0 where
  pub open_entries : S → List ℕ
  pub enter_admitted :
      (resource : String) (opts : List O) (s : S) (handle : ℕ)
      → (core.enter resource opts s).0 ≡ admitted handle
      → Fresh handle (open_entries s)
        × (open_entries (core.enter resource opts s).1 ≡ handle ∷ open_entries s)
  pub enter_blocked :
      (resource : String) (opts : List O) (s : S) (text : String)
      → (core.enter resource opts s).0 ≡ blocked text
      → open_entries (core.enter resource opts s).1 ≡ open_entries s
  pub exit_closes :
      (handle : ℕ) (s : S)
      → open_entries (core.exit handle s) ≡ without_entry handle (open_entries s)
  pub trace_keeps :
      (handle : ℕ) (text : String) (s : S)
      → open_entries (core.trace_error handle text s) ≡ open_entries s

module _ {S H O : Type 0} (core : Engine S O) (entry_laws : EntryLaws core) where
  unfoldable pub open_in : World S H → List ℕ
  open_in w = entry_laws.open_entries w.core

  -- An entry that is returned is open; an error leaves none.
  abbrev pub Opened : List ℕ → (AnyValue × Option PluginError) × World S H → Type 0
  Opened n ((value, some e), w) = open_in w ≡ n
  Opened n ((value, none), w) =
      (handle : ℕ) × (as_entry value ≡ some handle) × Fresh handle n × (open_in w ≡ handle ∷ n)

  admit-Opened :
      (c : Option ℕ) (resource : String) (a : Admission) (s : S) (n : List ℕ) (w : World S H)
      → ((text : String) → a ≡ blocked text → entry_laws.open_entries s ≡ n)
      → ((handle : ℕ)
          → a ≡ admitted handle
          → Fresh handle n × (entry_laws.open_entries s ≡ handle ∷ n))
      → Opened n (admit core c resource (a, s) w)
  unfolding admit as_entry open_in
  admit-Opened c resource (blocked text) s n w closed opened =
      ap entry_laws.open_entries (on_collector-core c _ _) ∙ closed text refl
  admit-Opened c resource (admitted handle) s n w closed opened =
      let (fresh, e) = opened handle refl in
      (handle, refl, fresh, ap entry_laws.open_entries (on_collector-core c _ _) ∙ e)

  pub entry-Opened :
      (resource : String) (opts : List O) (w : World S H)
      → Opened (open_in w) (entry core resource opts w)
  unfolding open_in
  entry-Opened resource opts w = elim (Bool-cases w.plugin.sentinel_initialized) [
    | inl ready ↦ subst (Opened (open_in w)) (sym (entry_ready core resource opts w ready)) (
        admit-Opened w.plugin.metrics_collector resource (core.enter resource opts w.core).0
          (core.enter resource opts w.core).1 (open_in w) w
          (entry_laws.enter_blocked resource opts w.core)
          (entry_laws.enter_admitted resource opts w.core))
    | inr unready ↦
        subst (Opened (open_in w)) (sym (entry_unready core resource opts w unready)) refl
  ]

  entry_with_context-Opened :
      (ctx_err : Option String) (resource : String) (opts : List O) (w : World S H)
      → Opened (open_in w) (entry_with_context core ctx_err resource opts w)
  unfolding entry_with_context
  entry_with_context-Opened none resource opts w = entry-Opened resource opts w
  entry_with_context-Opened (some text) resource opts w = refl

  pub exit_entry-open :
      (handle : ℕ) (w : World S H)
      → open_in (exit_entry core handle w) ≡ without_entry handle (open_in w)
  unfolding open_in exit_entry
  exit_entry-open handle w = entry_laws.exit_closes handle w.core

  -- A function of the caller that closes the entries that it opens, and no others.
  abbrev pub KeepsOpen : Body S H → Type 0
  KeepsOpen body = (w : World S H) → open_in (body w).1 ≡ open_in w

  module _ (platform : Platform) where
    account-open :
        (c : Option ℕ) (handle : ℕ) (resource : String) (elapsed : ℕ) (err : Option String)
        (w : World S H)
        → open_in (account core platform c handle resource elapsed err w) ≡ open_in w
    unfolding account open_in trace
    account-open c handle resource elapsed none w =
        ap entry_laws.open_entries (on_collector-core c _ w)
    account-open c handle resource elapsed (some text) w =
        entry_laws.trace_keeps handle text _
        ∙ ap entry_laws.open_entries (on_collector-core c _ _ ∙ on_collector-core c _ w)

    pub finish-open :
        (c : Option ℕ) (handle : ℕ) (resource : String) (elapsed : ℕ) (ran : Ran) (w : World S H)
        → open_in (finish core platform c handle resource elapsed (ran, w)).1
          ≡ without_entry handle (open_in w)
    unfolding finish
    finish-open c handle resource elapsed panicked w = exit_entry-open handle w
    finish-open c handle resource elapsed (returned none) w =
        exit_entry-open handle _
        ∙ ap (without_entry handle) (account-open c handle resource elapsed none w)
    finish-open c handle resource elapsed (returned (some text)) w =
        exit_entry-open handle _
        ∙ ap (without_entry handle) (account-open c handle resource elapsed (some text) w)

    protect-open :
        (resource : String) (body : Body S H) (elapsed : ℕ) (n : List ℕ) (value : AnyValue)
        (e : Option PluginError) (w : World S H)
        → KeepsOpen body
        → Opened n ((value, e), w)
        → open_in (protect core platform resource body elapsed ((value, e), w)).1 ≡ n
    unfolding protect
    protect-open resource body elapsed n value (some e) w keeps opened = opened
    protect-open resource body elapsed n value none w keeps (handle, entered, fresh, opened) =
        rw (entered, protect)
          (finish-open (runtime_state w).1 handle resource elapsed (body w).0 (body w).1
            ∙ ap (without_entry handle) (keeps w ∙ opened)
            ∙ without_entry-first handle n fresh)

    -- Execute leaves the entries of sentinel-golang open that it found open, and no others, whether
    -- the request is blocked or the function returns, fails or panics, if that function does.
    pub execute-open :
        (resource : String) (body : Body S H) (elapsed : ℕ) (opts : List O) (w : World S H)
        → KeepsOpen body
        → open_in (execute core platform resource body elapsed opts w).1 ≡ open_in w
    unfolding execute
    execute-open resource body elapsed opts w keeps =
        let r = entry core resource opts w in
        protect-open resource body elapsed (open_in w) r.0.0 r.0.1 r.1 keeps
          (entry-Opened resource opts w)

    -- ExecuteWithContext leaves the entries of sentinel-golang open that it found open, and no others,
    -- also when the context is already cancelled, if the caller's function does.
    pub execute_with_context-open :
        (ctx_err : Option String) (resource : String) (body : Body S H) (elapsed : ℕ)
        (opts : List O) (w : World S H)
        → KeepsOpen body
        → open_in (execute_with_context core platform ctx_err resource body elapsed opts w).1
          ≡ open_in w
    unfolding execute_with_context
    execute_with_context-open ctx_err resource body elapsed opts w keeps =
        let r = entry_with_context core ctx_err resource opts w in
        protect-open resource body elapsed (open_in w) r.0.0 r.0.1 r.1 keeps
          (entry_with_context-Opened ctx_err resource opts w)

  flow_result-open :
      (resource : String) (now : ℕ) (n : List ℕ) (value : AnyValue) (e : Option PluginError)
      (w : World S H)
      → Opened n ((value, e), w)
      → open_in (flow_result core resource now ((value, e), w)).1 ≡ n
  unfolding flow_result
  flow_result-open resource now n value (some e) w opened = opened
  flow_result-open resource now n value none w (handle, entered, fresh, opened) =
      rw (entered, flow_result)
        (exit_entry-open handle w
          ∙ ap (without_entry handle) opened
          ∙ without_entry-first handle n fresh)

  -- CheckFlow leaves the entries of sentinel-golang open that it found open, and no others, whatever
  -- the verdict.
  pub check_flow-open :
      (resource : String) (now : ℕ) (w : World S H)
      → open_in (check_flow core resource now w).1 ≡ open_in w
  unfolding check_flow
  check_flow-open resource now w =
      let r = entry core resource [] w in
      flow_result-open resource now (open_in w) r.0.0 r.0.1 r.1 (entry-Opened resource [] w)
