-- ===== src/Registry/Registration.antt =====
-- What plug.go tells the framework: the constructor that `init` registers with the global factory, and
-- the plugin's capabilities. The factory is a parameter, over the host's state.
use lynx_sentinel.Base.{ℕ, String, ◌≡◌, refl, ◌∙◌, ap, List, [], ◌∷◌}
use lynx_sentinel.Base.Float.{Platform}
use lynx_sentinel.Engine.{Engine}
use lynx_sentinel.Plugin.{World, Body}
use lynx_sentinel.Registry.{
  Held, nothing_held, foreign_held, sentinel_held, Made, registered_made, Registry, Located,
  managed, created, missing, not_a_sentinel_plugin, create_sentinel, get_sentinel,
}
use lynx_sentinel.Registry.Queries.{get_plugin_info}
use lynx_sentinel.Registry.Requests.{protect_function}
use lynx_sentinel.Registry.Unregistered.{protection, protect_function_lem}

-- `lynx.ControlPlaneCapability…`.
data Capability : Type 0 where
  rate_limit traffic_protection : Capability

abbrev control_plane_capabilities : List Capability
control_plane_capabilities = rate_limit ∷ traffic_protection ∷ []

-- RegisterPlugin, of a name, a prefix of the configuration and what the constructor makes, and
-- CreatePlugin.
pub record Factory (H : Type 0) : Type 0 where
  pub register_plugin : String → String → Made → H → H
  pub create_plugin : String → H → Made

-- A plugin is created by the constructor that was registered under its name, and a registration
-- leaves the plugin manager alone.
pub record FactoryLaws {H : Type 0} (factory : Factory H) (held : H → Held) : Type 0 where
  pub create-register :
      (name prefix : String) (made : Made) (h : H)
      → factory.create_plugin name (factory.register_plugin name prefix made h) ≡ made
  pub held-register :
      (name prefix : String) (made : Made) (h : H)
      → held (factory.register_plugin name prefix made h) ≡ held h

abbrev conf_prefix : String
conf_prefix = "lynx.sentinel"

module _ {H : Type 0} (factory : Factory H) where
  -- The function `init`, which runs before anything else of the package.
  unfoldable pub init : H → H
  init = factory.register_plugin get_plugin_info.name conf_prefix registered_made

  -- The plugin manager, and the factory for this plugin's name.
  abbrev pub registry_of : (H → Held) → Registry H
  registry_of held = record { held = held; made = factory.create_plugin get_plugin_info.name }

-- What GetSentinel finds, by what the plugin manager has.
abbrev pub located_by : Held → Located
located_by nothing_held = created
located_by foreign_held = missing not_a_sentinel_plugin
located_by sentinel_held = managed

located :
    {H : Type 0} (registry : Registry H) (h : H) (found : Held)
    → registry.held h ≡ found
    → create_sentinel registry h ≡ created
    → get_sentinel registry h ≡ located_by found
unfolding get_sentinel
located registry h nothing_held e new = rw (e, get_sentinel) new
located registry h foreign_held e new = rw (e, get_sentinel) refl
located registry h sentinel_held e new = rw (e, get_sentinel) refl

module _ {H : Type 0} (factory : Factory H) (held : H → Held)
    (laws : FactoryLaws factory held) where
  create_sentinel-init :
      (h : H) → create_sentinel (registry_of factory held) (init factory h) ≡ created
  unfolding create_sentinel init
  create_sentinel-init h =
      rw (laws.create-register get_plugin_info.name conf_prefix registered_made h) refl

  held-init : (h : H) → held (init factory h) ≡ held h
  unfolding init
  held-init h = laws.held-register get_plugin_info.name conf_prefix registered_made h

  get_sentinel-init :
      (h : H) → get_sentinel (registry_of factory held) (init factory h) ≡ located_by (held h)
  get_sentinel-init h =
      located (registry_of factory held) (init factory h) (held h) (held-init h)
        (create_sentinel-init h)

  module _ {S O : Type 0} (core : Engine S O) where
    -- Once init has registered the constructor, ProtectFunction with no plugin in the manager does
    -- not run the function and returns the error of a plugin that is not initialized; it runs it
    -- unprotected only if the manager has a plugin of another kind, and as Execute of the plugin if
    -- the manager has it.
    pub protect_function-init :
        (platform : Platform) (resource : String) (body : Body S H) (elapsed : ℕ) (w : World S H)
        → let started = record w { host = init factory w.host } in
          protect_function (registry_of factory held) core platform resource body elapsed started
          ≡ protection
              (registry_of factory held)
              core
              platform
              resource
              body
              elapsed
              started
              (located_by (held w.host))
    protect_function-init platform resource body elapsed w =
        let started = record w { host = init factory w.host } in
        protect_function_lem (registry_of factory held) core platform resource body elapsed started
        ∙ ap (protection (registry_of factory held) core platform resource body elapsed started)
            (get_sentinel-init w.host)
