-- ===== src/Lifecycle/Initialization.antt =====
-- InitializeResources.
use lynx_sentinel.Base.{true, none, String, ◌≡◌, Option, some, arith}
use lynx_sentinel.Base.Float.{Platform}
use lynx_sentinel.Config.{
  SentinelConfig, validate_configuration, validate_and_set_defaults, set_defaults,
}
use lynx_sentinel.Engine.{Engine}
use lynx_sentinel.Plugin.{World}
use lynx_sentinel.Lifecycle.{is_healthy, Host, init_core_once, initialize_sentinel_core}
use lynx_sentinel.Lifecycle.Tasks.{
  make_collector, make_dashboard, mark_initialized, store_conf, initialize_core,
  initialize_configured, initialize_resources,
}

module _ {S H : Type 0} (host : Host H) where
  -- The host after the base plugin is initialized, and the completed configuration.
  abbrev pub based : World S H → H
  based w = (host.init_base w.host).1

  abbrev pub completed : World S H → SentinelConfig
  completed w = set_defaults (host.name (based w)) (host.scan (based w)).0

module _ {S H O : Type 0} (host : Host H) (core : Engine S O) (platform : Platform) where
  -- Once the global core has been initialized, with or without an error, InitializeResources leaves
  -- sentinel-golang and that outcome alone, whatever becomes of the call.
  pub initialize_resources_once :
      (w : World S H) {e : Option String}
      → w.init_once ≡ some e
      → let w' = (initialize_resources host core platform w).1 in
        (w'.core ≡ w.core) × (w'.init_once ≡ some e)
  unfolding initialize_resources initialize_configured initialize_core initialize_sentinel_core
      init_core_once store_conf mark_initialized make_dashboard make_collector
  initialize_resources_once w h = ground arith

  -- An InitializeResources that returns nil leaves the plugin healthy, with the scanned
  -- configuration in which the defaults are set and which is valid, and with the global core
  -- initialized without an error.
  pub initialize_resources-healthy :
      (w : World S H)
      → (initialize_resources host core platform w).0 ≡ none
      → let w' = (initialize_resources host core platform w).1 in
        (w'.plugin.conf ≡ some (completed host w))
        × (validate_configuration (completed host w) ≡ none)
        × (is_healthy w' ≡ true)
        × (w'.init_once ≡ some none)
  unfolding initialize_resources initialize_configured initialize_core initialize_sentinel_core
      init_core_once store_conf mark_initialized make_dashboard make_collector
      validate_and_set_defaults is_healthy
  initialize_resources-healthy w ok = ground arith
