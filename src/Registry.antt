-- ===== src/Registry.antt =====
-- GetSentinel of plug.go: the plugin that the package-level functions act on. The application's plugin
-- manager and the factory are a parameter, over the host's state.
pub mod Requests
pub mod RuleCalls
pub mod Queries
pub mod Waiting
pub mod Unregistered
pub mod Effects
pub mod Traffic
pub mod Handlers
pub mod Registration
use lynx_sentinel.Base.{String, ◌≡◌, refl, ◌≢◌, Option, none, some, arith}
use lynx_sentinel.Rules.{RuleError}
use lynx_sentinel.Plugin.{World, PluginError}
use lynx_sentinel.Lifecycle.{LifecycleError}
use lynx_sentinel.Lifecycle.Hooks.{with_new_plugin}

-- What `lynx.Lynx().GetPluginManager().GetPlugin(PluginName)` gives, the nil pointers on the way
-- included.
pub data Held : Type 0 where
  nothing_held foreign_held sentinel_held : Held

-- What `CreatePlugin(PluginName)` gives: an error, a plugin of another kind, or what the constructor
-- makes that `init` has registered, `NewSentinelPlugin`.
pub data Made : Type 0 where
  creation_failed : String → Made
  foreign_made registered_made : Made

pub record Registry (H : Type 0) : Type 0 where
  pub held : H → Held
  pub made : H → Made

pub data RegistryError : Type 0 where
  not_a_sentinel_plugin not_an_instance : RegistryError
  not_found : String → RegistryError

-- The plugin of the manager, a new one, or an error.
pub data Located : Type 0 where
  managed created : Located
  missing : RegistryError → Located

-- The errors of the package-level functions.
pub data Failure : Type 0 where
  no_sentinel : RegistryError → Failure
  plugin_failed : PluginError → Failure
  rule_failed : RuleError → Failure
  lifecycle_failed : LifecycleError → Failure
  no_collector no_dashboard plugin_stopped : Failure
  context_ended : String → Failure

module _ {H : Type 0} (registry : Registry H) where
  -- The fallback to the factory.
  unfoldable pub create_sentinel : H → Located
  create_sentinel h = elim (registry.made h) [
    | creation_failed text ↦ missing (not_found text)
    | foreign_made ↦ missing not_an_instance
    | registered_made ↦ created
  ]

  unfoldable pub get_sentinel : H → Located
  get_sentinel h = elim (registry.held h) [
    | sentinel_held ↦ managed
    | foreign_held ↦ missing not_a_sentinel_plugin
    | nothing_held ↦ create_sentinel h
  ]

-- Back to the plugin from before; a plugin that the factory has made is forgotten with the call.
abbrev pub forget : {S H A : Type 0} → World S H → A × World S H → A × World S H
forget w (a, w') = (a, record w' { plugin = w.plugin })

-- `plugin, err := GetSentinel()`, what is returned for an error, and the rest of the function.
unfoldable pub with_sentinel :
    {S H A : Type 0}
    → Registry H
    → (RegistryError → World S H → A × World S H)
    → (World S H → A × World S H)
    → World S H
    → A × World S H
with_sentinel registry failing rest w = elim (get_sentinel registry w.host) [
  | missing e ↦ failing e w
  | managed ↦ rest w
  | created ↦ forget w (rest (with_new_plugin w))
]

module _ {S H A : Type 0} (registry : Registry H)
    (failing : RegistryError → World S H → A × World S H) (rest : World S H → A × World S H)
    (w : World S H) where
  pub with_sentinel-missing :
      (e : RegistryError)
      → get_sentinel registry w.host ≡ missing e
      → with_sentinel registry failing rest w ≡ failing e w
  unfolding with_sentinel
  with_sentinel-missing e h = rw (h, with_sentinel) refl

  pub with_sentinel-managed :
      get_sentinel registry w.host ≡ managed → with_sentinel registry failing rest w ≡ rest w
  unfolding with_sentinel
  with_sentinel-managed h = rw (h, with_sentinel) refl

  pub with_sentinel-created :
      get_sentinel registry w.host ≡ created
      → with_sentinel registry failing rest w ≡ forget w (rest (with_new_plugin w))
  unfolding with_sentinel
  with_sentinel-created h = rw (h, with_sentinel) refl
