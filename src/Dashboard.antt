-- ===== src/Dashboard.antt =====
-- dashboard.go: the server, the goroutines that serve its pages, the routes, and the answers of its
-- handlers. The JSON encoding is a parameter; package net/http is known by what it documents.
pub mod Serving
pub mod Running
pub mod Pages
pub mod Views
pub mod Listening
pub mod Leaking
pub mod Routes
use Prim.Native.String.{◌++◌ as append}
use lynx_sentinel.Base.{ℕ, String, Bool, true, false, Option}
use lynx_sentinel.Plugin.{DashboardServer}

-- NewDashboardServer; the conversions of the port from int32 to int and back keep it.
abbrev pub new_dashboard_server : ℕ → Option ℕ → DashboardServer
new_dashboard_server port metrics_collector = record {
  port = port;
  metrics_collector = metrics_collector;
  running = false;
}

unfoldable pub get_port : DashboardServer → ℕ
get_port ds = ds.port

unfoldable pub set_running : Bool → DashboardServer → DashboardServer
set_running running ds = record ds { running = running }

unfoldable pub is_running : DashboardServer → Bool
is_running ds = ds.running

-- `decimal` is the verb %d of package fmt on an int32.
unfoldable pub get_url : (ℕ → String) → DashboardServer → String
get_url decimal ds = append "http://localhost:" (decimal ds.port)
