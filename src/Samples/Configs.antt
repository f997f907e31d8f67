-- ===== src/Samples/Configs.antt =====
-- The configuration: defaults and validation.
use lynx_sentinel.Base.{◌≡◌, ◌↔◌, true, false, none, arith, All}
use lynx_sentinel.Config.{SentinelConfig, validate_configuration, validate_and_set_defaults}
use lynx_sentinel.Config.Checks.{
  IsValid, IsValidPort, IsValidFlowRule, IsValidCbRule, validate_configuration_iff,
}
use lynx_sentinel.Config.Defaults.{validate_and_set_defaults_iff}
use lynx_sentinel.Samples.{two_rules}

-- The dashboard on a privileged port.
abbrev privileged : SentinelConfig
privileged = record two_rules { dashboard = record { enabled = true; port = 80 } }

-- What an empty configuration file gives.
abbrev bare : SentinelConfig
bare = record two_rules {
  app_name = "";
  log_level = "";
  log_dir = "";
  metrics = record { enabled = false; interval = "" };
  dashboard = record { enabled = false; port = 0 };
}

validate_configuration_iff_example : (validate_configuration two_rules ≡ none) ↔ IsValid two_rules
validate_configuration_iff_example = validate_configuration_iff two_rules (omega arith)

validate_and_set_defaults_iff_example : ((validate_and_set_defaults "shop" bare).1 ≡ none) ↔ (
    IsValidPort bare.dashboard.port
    × All IsValidFlowRule bare.flow_rules
    × All IsValidCbRule bare.cb_rules)
validate_and_set_defaults_iff_example = validate_and_set_defaults_iff "shop" bare (omega arith)
