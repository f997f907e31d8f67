-- ===== src/Lifecycle/Configuration.antt =====
-- Configure and OnConfigUpdate, and the reload of the rules.
use mathlib.Core.Option
use lynx_sentinel.Base.{
  refl, ◌<◌, ◌≡◌, sym, ap, ◌∙◌, inl, inr, true, [], none, some, arith, Option-cases,
}
use lynx_sentinel.Config.{SentinelConfig, ConfigError, validate_configuration}
use lynx_sentinel.Config.Checks.{IsValid, validate_configuration_iff}
use lynx_sentinel.Base.Words.{two32}
use lynx_sentinel.Rules.Table.{reloads}
use lynx_sentinel.Rules.Multisets.{rules_in_force, change, reload_rules-change}
use lynx_sentinel.Engine.{Engine, EngineLaws}
use lynx_sentinel.Rules.{reload_rules, is_empty}
use lynx_sentinel.Rules.Loading.{SystemLoaded, reload_rules_lem}
use lynx_sentinel.Lifecycle.Started.{error-ne-none, map-rules_failed}
use lynx_sentinel.Plugin.{World}
use lynx_sentinel.Lifecycle.{
  rules_failed, invalid_configuration, Ending, finished, config, load_all, apply_configuration,
  configure,
}

SystemLoaded-is_empty :
    {S O : Type 0} (core : Engine S O) (laws : EngineLaws core) (conf : SentinelConfig) (s s' : S)
    → is_empty conf.system_rules ≡ true
    → SystemLoaded core laws conf s s'
    → core.system.get s' ≡ core.system.get s
SystemLoaded-is_empty core laws conf s s' e (inl (_, kept)) = kept
SystemLoaded-is_empty core laws conf s s' e (inr (e', _)) = cc

module _ {S H O : Type 0} (core : Engine S O) where
  -- Configure with a valid configuration, on an initialized plugin.
  record Reloaded (conf : SentinelConfig) (w : World S H) (r : Ending × World S H) : Type 0 where
    stored : r.1.plugin.conf ≡ some conf
    ended : r.0 ≡ finished (Option.map rules_failed (reload_rules core conf w.core).0)
    core_after : r.1.core ≡ (reload_rules core conf w.core).1

  configure-Reloaded :
      (conf : SentinelConfig) (w : World S H)
      → validate_configuration conf ≡ none
      → w.plugin.is_initialized ≡ true
      → Reloaded conf w (configure core (config (some conf)) w)
  unfolding configure apply_configuration load_all
  configure-Reloaded conf w ok on = record {
    stored = ground arith;
    ended = ground arith;
    core_after = ground arith;
  }

  configure_refused :
      (conf : SentinelConfig) (w : World S H) (e : ConfigError)
      → validate_configuration conf ≡ some e
      → (configure core (config (some conf)) w).0 ≡ finished (some (invalid_configuration e))
  unfolding configure
  configure_refused conf w e bad = rw (bad, configure) refl

  configured_ok :
      (conf : SentinelConfig) (w : World S H)
      → (configure core (config (some conf)) w).0 ≡ finished none
      → validate_configuration conf ≡ none
  configured_ok conf w ok = elim (Option-cases (validate_configuration conf)) [
    | inl valid ↦ valid
    | inr (e, bad) ↦ absurd (error-ne-none (sym (configure_refused conf w e bad) ∙ ok))
  ]

  -- When Configure returns nil for a configuration that is not nil, on an initialized plugin and
  -- with a port that is the bit pattern of an int32, the configuration is valid and stored, and the
  -- multisets of the rules in force are those of a reload of it: its acceptable rules, but the old
  -- system rules if it has none.
  pub configure-change :
      (laws : EngineLaws core) (conf : SentinelConfig) (w : World S H)
      → conf.dashboard.port < two32
      → w.plugin.is_initialized ≡ true
      → (configure core (config (some conf)) w).0 ≡ finished none
      → let w' = (configure core (config (some conf)) w).1 in
        IsValid conf
        × (w'.plugin.conf ≡ some conf)
        × (rules_in_force core w'.core
            ≡ change core laws (reloads conf) (rules_in_force core w.core))
  configure-change laws conf w port on ok =
      let valid = configured_ok conf w ok in
      let r = configure-Reloaded conf w valid on in
      let done = map-rules_failed (reload_rules core conf w.core).0 (sym r.ended ∙ ok) in
      (
        (validate_configuration_iff conf port).0 valid,
        r.stored,
        ap (rules_in_force core) r.core_after ∙ reload_rules-change core laws conf w.core done,
      )

  -- Reconfiguring an initialized plugin with a configuration that has no system rules leaves the
  -- system rules of the old configuration in force, when Configure returns nil.
  pub configure_keeps_system_rules :
      (laws : EngineLaws core) (conf : SentinelConfig) (w : World S H)
      → conf.system_rules ≡ []
      → w.plugin.is_initialized ≡ true
      → (configure core (config (some conf)) w).0 ≡ finished none
      → core.system.get (configure core (config (some conf)) w).1.core ≡ core.system.get w.core
  configure_keeps_system_rules laws conf w no_rules on ok =
      let r = configure-Reloaded conf w (configured_ok conf w ok) on in
      let done = map-rules_failed (reload_rules core conf w.core).0 (sym r.ended ∙ ok) in
      let (_, _, kept) = reload_rules_lem core laws conf w.core done in
      ap core.system.get r.core_after
      ∙ SystemLoaded-is_empty core laws conf w.core _ (ap is_empty no_rules) kept
