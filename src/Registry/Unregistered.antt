-- ===== src/Registry/Unregistered.antt =====
-- The package-level functions for each answer of GetSentinel: the plugin of the manager, one that the
-- factory has just made, or none.
use mathlib.Core.Option
use lynx_sentinel.Base.{ℕ, String, ◌≡◌, refl, ap, ◌∙◌, false, List, [], ◌∷◌, ◌++◌, some}
use lynx_sentinel.Base.Float.{Platform}
use lynx_sentinel.Engine.{Engine}
use lynx_sentinel.Plugin
use lynx_sentinel.Plugin.{
  World, Body, Ran, done, AnyValue, nil_value, PluginError, not_initialized, protect,
  entry_with_context, flow_result, as_entry,
}
use lynx_sentinel.Plugin.Steps.{entry_unready}
use lynx_sentinel.Lifecycle.Hooks.{with_new_plugin, new_sentinel_plugin}
use lynx_sentinel.Registry.{
  Registry, RegistryError, Located, managed, created, missing, plugin_failed, get_sentinel,
  with_sentinel, with_sentinel-missing, with_sentinel-managed, with_sentinel-created, forget,
}
use lynx_sentinel.Registry.Requests.{
  Protected, returns, of_outcome, of_ran, passing, entry, check_resource_available, execute,
  protect_function,
}

module _ {S H A : Type 0} (registry : Registry H)
    (failing : RegistryError → World S H → A × World S H) (rest : World S H → A × World S H)
    (w : World S H) where
  -- The three ways that a call goes on.
  abbrev pub going_on : Located → A × World S H
  going_on (missing e) = failing e w
  going_on managed = rest w
  going_on created = forget w (rest (with_new_plugin w))

  pub with_sentinel_lem :
      with_sentinel registry failing rest w ≡ going_on (get_sentinel registry w.host)
  unfolding with_sentinel
  with_sentinel_lem = cases (get_sentinel registry w.host) refl
    where
      cases :
          (l : Located)
          → get_sentinel registry w.host ≡ l
          → with_sentinel registry failing rest w ≡ going_on l
      cases (missing e) h = with_sentinel-missing registry failing rest w e h
      cases managed h = with_sentinel-managed registry failing rest w h
      cases created h = with_sentinel-created registry failing rest w h

-- The world after a call on a plugin that the factory has made: its stop channel is left behind.
abbrev pub with_channel : {S H : Type 0} → World S H → World S H
with_channel w = record w { closed = w.closed ++ false ∷ [] }

module _ {S H O : Type 0} (core : Engine S O) where
  entry_new :
      (resource : String) (opts : List O) (w : World S H)
      → Plugin.entry core resource opts (with_new_plugin w)
        ≡ ((nil_value, some not_initialized), with_new_plugin w)
  unfolding with_new_plugin new_sentinel_plugin
  entry_new resource opts w = entry_unready core resource opts (with_new_plugin w) refl

  execute_new :
      (platform : Platform) (resource : String) (body : Body S H) (elapsed : ℕ) (opts : List O)
      (w : World S H)
      → Plugin.execute core platform resource body elapsed opts (with_new_plugin w)
        ≡ (done (some not_initialized), with_new_plugin w)
  unfolding Plugin.execute protect
  execute_new platform resource body elapsed opts w = rw (entry_new resource opts w) refl

  check_flow_new :
      (resource : String) (now : ℕ) (w : World S H)
      → ((Plugin.check_flow core resource now (with_new_plugin w)).0.allowed ≡ false)
        × ((Plugin.check_flow core resource now (with_new_plugin w)).1 ≡ with_new_plugin w)
  unfolding Plugin.check_flow flow_result
  check_flow_new resource now w = rw (entry_new resource [] w) (refl, refl)

  execute_forgotten :
      (platform : Platform) (resource : String) (body : Body S H) (elapsed : ℕ) (opts : List O)
      (w : World S H)
      → forget w (
          passing of_outcome
            (Plugin.execute core platform resource body elapsed opts)
            (with_new_plugin w))
        ≡ (returns (some (plugin_failed not_initialized)), with_channel w)
  unfolding of_outcome with_new_plugin new_sentinel_plugin
  execute_forgotten platform resource body elapsed opts w =
      ap (λ r. forget w (of_outcome r.0, r.1)) (execute_new platform resource body elapsed opts w)

  check_flow_pair :
      (resource : String) (now : ℕ) (w : World S H)
      → passing (λ result. result.allowed) (Plugin.check_flow core resource now) (with_new_plugin w)
        ≡ (false, with_new_plugin w)
  check_flow_pair resource now w = let (refused, same) = check_flow_new resource now w in cc

module _ {S H O : Type 0} (registry : Registry H) (core : Engine S O) where
  -- What ProtectFunction does, for each answer of GetSentinel: the function runs unprotected without a
  -- plugin and protected by the plugin of the manager; with a new plugin it does not run.
  abbrev pub protection :
      Platform → String → Body S H → ℕ → World S H → Located → Protected × World S H
  protection platform resource body elapsed w (missing e) = passing of_ran body w
  protection platform resource body elapsed w managed =
      passing of_outcome (Plugin.execute core platform resource body elapsed []) w
  protection platform resource body elapsed w created =
      (returns (some (plugin_failed not_initialized)), with_channel w)

  -- ProtectFunction runs the function unprotected if there is no plugin, and as Execute of the
  -- plugin that the manager holds; with a plugin that the factory has just made it does not run the
  -- function and returns the error of a plugin that is not initialized.
  pub protect_function_lem :
      (platform : Platform) (resource : String) (body : Body S H) (elapsed : ℕ) (w : World S H)
      → protect_function registry core platform resource body elapsed w
        ≡ protection platform resource body elapsed w (get_sentinel registry w.host)
  unfolding protect_function
  protect_function_lem platform resource body elapsed w =
      with_sentinel_lem registry (λ e. passing of_ran body)
        (passing of_outcome (Plugin.execute core platform resource body elapsed [])) w
      ∙ cases (get_sentinel registry w.host)
    where
      cases :
          (l : Located)
          → going_on registry
              (λ e. passing of_ran body)
              (passing of_outcome (Plugin.execute core platform resource body elapsed []))
              w
              l
            ≡ protection platform resource body elapsed w l
      cases (missing e) = refl
      cases managed = refl
      cases created = execute_forgotten core platform resource body elapsed [] w

  -- On a plugin that the factory has just made, Entry returns no entry and Execute does not run the
  -- function, both with the error of a plugin that is not initialized, and CheckResourceAvailable
  -- says no; nothing changes but for the stop channel of the forgotten plugin.
  pub created_refuses :
      (platform : Platform) (resource : String) (body : Body S H) (elapsed now : ℕ) (opts : List O)
      (w : World S H)
      → get_sentinel registry w.host ≡ created
      → (entry registry core resource opts w
          ≡ ((nil_value, some (plugin_failed not_initialized)), with_channel w))
        × (execute registry core platform resource body elapsed opts w
            ≡ (returns (some (plugin_failed not_initialized)), with_channel w))
        × (check_resource_available registry core resource now w ≡ (false, with_channel w))
  unfolding entry execute check_resource_available with_new_plugin new_sentinel_plugin
  created_refuses platform resource body elapsed now opts w h = (
    with_sentinel-created registry _ _ w h
        ∙ ap (λ r. forget w ((r.0.0, Option.map plugin_failed r.0.1), r.1))
            (entry_new core resource opts w),
    with_sentinel-created registry _ _ w h
        ∙ execute_forgotten core platform resource body elapsed opts w,
    with_sentinel-created registry _ _ w h ∙ ap (forget w) (check_flow_pair core resource now w),
  )
