-- ===== src/Samples.antt =====
-- Concrete instances of the parameters: a small sentinel-golang, host, platform and plugin. The
-- children run the model on them.
pub mod Configs
pub mod RuleSets
pub mod Collectors
pub mod Requests
pub mod Lifecycles
pub mod Web
pub mod Histories
pub mod Departing
pub mod Boards
pub mod Registered
pub mod Traffic
use mathlib.Core.List.Perm
use lynx_sentinel.Base.{
  ◌≢◌, ◌≤◌, subst, Bool-cases, inl, inr, ℕ, suc, ◌+◌, ◌-◌, ◌/◌, String, ◌≡◌, refl, ap, Bool, true,
  false, not, List, [], ◌∷◌, Option, none, some, arith, str_eq, if◌then◌else◌, keep, All, All-keep,
  Perm,
}
use lynx_sentinel.Base.Float.{Platform}
use lynx_sentinel.Config.{SentinelConfig, FlowRule, CircuitBreakerRule, SystemRule}
use lynx_sentinel.Engine.{
  CoreFlowRule, CoreCbRule, CoreSystemRule, RuleManager, RuleManagerLaws, Admission, admitted,
  blocked, Engine, EngineLaws,
}
use lynx_sentinel.Metrics.{MetricsCollector, new_metrics_collector}
use lynx_sentinel.Plugin.{World, DashboardServer, PlugSentinel, Worker, Task}
use lynx_sentinel.Plugin.Balance.{EntryLaws, Fresh, without_entry}
use lynx_sentinel.Lifecycle.{Host}

-- The rules that were loaded last, and the open entries.
pub record Loaded : Type 0 where
  pub flow_rules : List CoreFlowRule
  pub cb_rules : List CoreCbRule
  pub system_rules : List CoreSystemRule
  pub open_entries : List ℕ

abbrev named_flow : CoreFlowRule → Bool
named_flow rule = not (str_eq rule.resource "")

abbrev named_cb : CoreCbRule → Bool
named_cb rule = not (str_eq rule.resource "")

abbrev any_system : CoreSystemRule → Bool
any_system rule = true

-- A handle above all that are in use.
abbrev above : List ℕ → ℕ
above [] = 0
above (handle ∷ handles) = suc (handle + above handles)

-- The resource "closed" is blocked.
abbrev enter_unless_closed : String → List String → Loaded → Admission × Loaded
enter_unless_closed resource opts s = if str_eq resource "closed" then (blocked "flow", s) else (
  admitted (above s.open_entries),
  record s { open_entries = above s.open_entries ∷ s.open_entries },
)

abbrev pub small_core : Engine Loaded String
small_core = record {
  init_with_config = λ app dir s. (none, s);
  enter = enter_unless_closed;
  exit = λ handle s. record s { open_entries = without_entry handle s.open_entries };
  trace_error = λ handle text s. s;
  flow = record {
    load = λ rules s. (none, record s { flow_rules = rules });
    get = λ s. keep named_flow s.flow_rules;
    clear = λ s. record s { flow_rules = [] };
  };
  circuit_breaker = record {
    load = λ rules s. (none, record s { cb_rules = rules });
    get = λ s. keep named_cb s.cb_rules;
    clear = λ s. record s { cb_rules = [] };
  };
  system = record {
    load = λ rules s. (none, record s { system_rules = rules });
    get = λ s. keep any_system s.system_rules;
    clear = λ s. record s { system_rules = [] };
  };
  direct = 0;
  reject = 0;
  throttling = 1;
  slow_request_ratio = 0;
  error_ratio = 1;
  error_count = 2;
  system_load = 0;
  cpu_usage = 4;
  inbound_qps = 3;
  concurrency = 2;
}

pub small_core_laws : EngineLaws small_core
small_core_laws = record {
  flow_laws = record {
    valid = named_flow;
    get_valid = λ s. All-keep named_flow s.flow_rules;
    get-load = λ rules s done. Perm.rfl;
    get-clear = λ s. refl;
  };
  cb_laws = record {
    valid = named_cb;
    get_valid = λ s. All-keep named_cb s.cb_rules;
    get-load = λ rules s done. Perm.rfl;
    get-clear = λ s. refl;
  };
  system_laws = record {
    valid = any_system;
    get_valid = λ s. All-keep any_system s.system_rules;
    get-load = λ rules s done. Perm.rfl;
    get-clear = λ s. refl;
  };
  cb_load-flow = λ rules s. refl;
  system_load-flow = λ rules s. refl;
  flow_load-cb = λ rules s. refl;
  system_load-cb = λ rules s. refl;
  flow_load-system = λ rules s. refl;
  cb_load-system = λ rules s. refl;
  cb_clear-flow = λ s. refl;
  system_clear-flow = λ s. refl;
  system_clear-cb = λ s. refl;
}

blocked-ne : {text : String} {handle : ℕ} → blocked text ≢ admitted handle
blocked-ne e = cc

admitted-eq : {handle handle' : ℕ} → admitted handle ≡ admitted handle' → handle ≡ handle'
admitted-eq e = cc

above-Fresh : (n : ℕ) (l : List ℕ) → above l ≤ n → Fresh n l
above-Fresh n [] h = tt
above-Fresh n (handle ∷ l) h = (ground arith, above-Fresh n l (omega arith))

enter_opens :
    (resource : String) (opts : List String) (s : Loaded) (handle : ℕ)
    → (enter_unless_closed resource opts s).0 ≡ admitted handle
    → Fresh handle s.open_entries
      × ((enter_unless_closed resource opts s).1.open_entries ≡ handle ∷ s.open_entries)
enter_opens resource opts s handle e = elim (Bool-cases (str_eq resource "closed")) [
  | inl closed ↦ absurd (blocked-ne (rw closed at e))
  | inr opened ↦
      let same : above s.open_entries ≡ handle = admitted-eq (rw opened at e) in
      (
        subst (λ n. Fresh n s.open_entries) same
            (above-Fresh (above s.open_entries) s.open_entries (omega arith)),
        rw opened (ap (λ n. n ∷ s.open_entries) same),
      )
]

enter_closed :
    (resource : String) (opts : List String) (s : Loaded) (text : String)
    → (enter_unless_closed resource opts s).0 ≡ blocked text
    → (enter_unless_closed resource opts s).1.open_entries ≡ s.open_entries
enter_closed resource opts s text e = ground arith

pub small_core_entries : EntryLaws small_core
small_core_entries = record {
  open_entries = λ s. s.open_entries;
  enter_admitted = enter_opens;
  enter_blocked = enter_closed;
  exit_closes = λ handle s. refl;
  trace_keeps = λ handle text s. refl;
}

-- Integer arithmetic, and two durations.
abbrev pub small_platform : Platform
small_platform = record {
  add = λ x y. x + y;
  div = λ x y. x / y;
  of_int64 = λ x. x;
  seconds = λ d. d / 1000000000;
  duration_text = λ d. "30s";
  parse_duration = λ text. if str_eq text "30s" then some 30000000000 else none;
}

abbrev pub flow_a : FlowRule
flow_a = record {
  resource = "a";
  token_calculate_strategy = 0;
  control_behavior = 1;
  threshold = 0x4024000000000000;
  relation_strategy = 0;
  ref_resource = "";
  max_queueing_time_ms = 500;
  warm_up_period_sec = 0;
  warm_up_cold_factor = 0;
  stat_interval_in_ms = 1000;
  low_mem_usage_threshold = 0;
  high_mem_usage_threshold = 0;
  mem_low_water_mark_bytes = 0;
  mem_high_water_mark_bytes = 0;
}

abbrev pub cb_a : CircuitBreakerRule
cb_a = record {
  resource = "a";
  strategy = 1;
  retry_timeout_ms = 5000;
  min_request_amount = 10;
  stat_interval_ms = 1000;
  stat_sliding_window_bucket_count = 0;
  threshold = 0x3fe0000000000000;
  probe_num = 0;
}

-- A configuration with rules of two kinds, whose defaults are set.
abbrev pub two_rules : SentinelConfig
two_rules = record {
  enabled = true;
  app_name = "shop";
  log_level = "info";
  log_dir = "./logs/sentinel";
  flow_rules = flow_a ∷ [];
  cb_rules = cb_a ∷ [];
  system_rules = [];
  metrics = record { enabled = true; interval = "30s" };
  dashboard = record { enabled = true; port = 8719 };
  data_source = record {
    kind = "";
    file = record { flow_rules_path = ""; circuit_breaker_rules_path = ""; system_rules_path = "" };
  };
  warm_up = record { enabled = false; duration = "" };
  advanced = record { stat_interval_ms = 0; metric_log_flush_interval_sec = 0 };
}

-- A host that counts the registrations, and whose configuration is the one above.
abbrev pub small_host : Host ℕ
small_host = record {
  name = λ h. "shop";
  init_base = λ h. (none, h);
  scan = λ h. (two_rules, none);
  set_rate_limiter = λ h. h;
  register_resources = λ h. suc h;
}

-- What NewSentinelPlugin returns, and the state that it finds.
abbrev pub new_world : World Loaded ℕ
new_world = record {
  plugin = record {
    conf = none;
    has_runtime = false;
    sentinel_initialized = false;
    metrics_collector = none;
    dashboard_server = none;
    is_initialized = false;
    stop_ch = some 0;
    workers = [];
  };
  collectors = [];
  dashboards = [];
  closed = false ∷ [];
  core = record { flow_rules = []; cb_rules = []; system_rules = []; open_entries = [] };
  host = 0;
  init_once = none;
}

-- An initialized plugin with a collector and a server, which has no workers yet.
abbrev pub ready_world : World Loaded ℕ
ready_world = record {
  plugin = record {
    conf = some two_rules;
    has_runtime = true;
    sentinel_initialized = true;
    metrics_collector = some 0;
    dashboard_server = some 0;
    is_initialized = true;
    stop_ch = some 0;
    workers = [];
  };
  collectors = new_metrics_collector 30000000000 ∷ [];
  dashboards = record { port = 8719; metrics_collector = some 0; running = false } ∷ [];
  closed = false ∷ [];
  core = record { flow_rules = []; cb_rules = []; system_rules = []; open_entries = [] };
  host = 0;
  init_once = some none;
}

-- The same plugin with its two workers running.
abbrev pub running_world : World Loaded ℕ
running_world = record ready_world {
  plugin = record (ready_world.plugin) {
    workers =
        record { task = Task.serves 0; channel = some 0 }
        ∷ record { task = Task.collects 0; channel = some 0 }
        ∷ [];
  };
}
