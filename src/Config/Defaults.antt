-- ===== src/Config/Defaults.antt =====
-- validateAndSetDefaults.
use lynx_sentinel.Base.{◌<◌, String, ◌≡◌, ◌≢◌, ◌↔◌, none, arith, eq_iff, All}
use lynx_sentinel.Base.Words.{two32}
use lynx_sentinel.Config.{SentinelConfig, or_default, set_defaults, validate_and_set_defaults}
use lynx_sentinel.Config.Checks.{
  IsValidFlowRule, IsValidCbRule, IsValidPort, validate_configuration_iff,
}

or_default_nonempty : (text fallback : String) → fallback ≢ "" → or_default text fallback ≢ ""
unfolding or_default
or_default_nonempty text fallback h = ground (arith, eq_iff text "")

or_default_idem :
    (text fallback : String)
    → fallback ≢ ""
    → or_default (or_default text fallback) fallback ≡ or_default text fallback
unfolding or_default
or_default_idem text fallback h = ground (arith, eq_iff text "", eq_iff fallback "")

lynx_app-nonempty : ◌≢◌ {A = String} "lynx-app" ""
lynx_app-nonempty = ground (arith, eq_iff "lynx-app" "")

app_name-nonempty : (name : String) (conf : SentinelConfig) → (set_defaults name conf).app_name ≢ ""
unfolding set_defaults
app_name-nonempty name conf =
    or_default_nonempty conf.app_name (or_default name "lynx-app")
      (or_default_nonempty name "lynx-app" lynx_app-nonempty)

-- The fields that have a default, once it is set.
pub record IsComplete (conf : SentinelConfig) : Type 0 where
  pub named : conf.app_name ≢ ""
  pub log_dir : conf.log_dir ≢ ""
  pub log_level : conf.log_level ≢ ""
  pub interval : conf.metrics.interval ≢ ""
  pub port : conf.dashboard.port ≢ 0

-- After the defaults are set, no field that has a default is empty.
pub set_defaults-IsComplete :
    (name : String) (conf : SentinelConfig) → IsComplete (set_defaults name conf)
unfolding set_defaults
set_defaults-IsComplete name conf = record {
  named = app_name-nonempty name conf;
  log_dir = or_default_nonempty conf.log_dir _ (ground (arith, eq_iff "./logs/sentinel" ""));
  log_level = or_default_nonempty conf.log_level _ (ground (arith, eq_iff "info" ""));
  interval = or_default_nonempty conf.metrics.interval _ (ground (arith, eq_iff "30s" ""));
  port = ground arith;
}

-- Setting the defaults leaves a configuration alone in which no field that has a default is empty.
pub set_defaults_of_IsComplete :
    (name : String) (conf : SentinelConfig) → IsComplete conf → set_defaults name conf ≡ conf
unfolding set_defaults or_default
set_defaults_of_IsComplete name conf c = ground (
  arith,
  eq_iff conf.app_name "",
  eq_iff conf.log_dir "",
  eq_iff conf.log_level "",
  eq_iff conf.metrics.interval "",
)

-- Setting the defaults twice is setting them once, also if the application's name has changed.
pub set_defaults_idem :
    (name name' : String) (conf : SentinelConfig)
    → set_defaults name' (set_defaults name conf) ≡ set_defaults name conf
set_defaults_idem name name' conf =
    set_defaults_of_IsComplete name' (set_defaults name conf) (set_defaults-IsComplete name conf)

port_defaulted :
    (name : String) (conf : SentinelConfig)
    → IsValidPort (set_defaults name conf).dashboard.port ↔ IsValidPort conf.dashboard.port
unfolding set_defaults
port_defaulted name conf = ground arith

port_bounded :
    (name : String) (conf : SentinelConfig)
    → conf.dashboard.port < two32
    → (set_defaults name conf).dashboard.port < two32
unfolding set_defaults
port_bounded name conf h = ground arith

-- After the defaults only the port and the rules can be refused, and they are refused exactly when
-- they are not valid, for a port that is the bit pattern of an int32.
pub validate_and_set_defaults_iff :
    (name : String) (conf : SentinelConfig)
    → conf.dashboard.port < two32
    → ((validate_and_set_defaults name conf).1 ≡ none) ↔ (
        IsValidPort conf.dashboard.port
        × All IsValidFlowRule conf.flow_rules
        × All IsValidCbRule conf.cb_rules)
unfolding validate_and_set_defaults set_defaults
validate_and_set_defaults_iff name conf h =
    let (to, from) =
      validate_configuration_iff (set_defaults name conf) (port_bounded name conf h) in
    let (port_to, port_from) = port_defaulted name conf in
    (
      λ e. (port_to (to e).port, (to e).flow, (to e).cb),
      λ v. from (record {
        named = app_name-nonempty name conf;
        port = port_from v.0;
        flow = v.1;
        cb = v.2;
      }),
    )
