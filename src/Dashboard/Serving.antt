-- ===== src/Dashboard/Serving.antt =====
-- Start of dashboard.go: the goroutines that were launched for one server, the server's running flag
-- and its `http.Server`, and its entry in `dashboardStartTimes`. Each step is what one goroutine does
-- between two points where others may act. Package net/http is known by what it documents: a port is
-- bound by one listener at a time, Shutdown closes the listeners of its own server, and Serve on a
-- server that was shut down closes its listener and returns. An accept loop is taken not to fail.
use lynx_sentinel.Base.{
  ℕ, ◌≡◌, Bool, true, false, List, [], ◌∷◌, ◌++◌, Option, none, some, get_elem?, set, ◌==◌,
  if◌then◌else◌,
}
use lynx_sentinel.Plugin.{DashboardServer}
use lynx_sentinel.Dashboard.{set_running}

-- Before Start has stored its time; before the port is bound; until it shuts its server down; until the
-- shutdown, which waits for the connections for up to five seconds, is done; after the return.
pub data Phase : Type 0 where
  launched probing serving stopping finished : Phase

-- What holds the port: the listener of a run, by itself or served by an `http.Server`.
pub data Listener : Type 0 where
  bound : ℕ → Listener
  served : ℕ → ℕ → Listener

-- The `http.Server` that run `i` makes has the number `i`; `handler` is the one that `ds.server` points
-- to, and `shut` has those that were shut down.
pub record Board : Type 0 where
  pub server : DashboardServer
  pub started : Option ℕ
  pub handler : Option ℕ
  pub shut : List ℕ
  pub listener : Option Listener
  pub runs : List Phase

-- `go s.dashboardServer.Start(&s.wg, s.stopCh)`.
unfoldable pub launch_run : Board → Board
launch_run b = record b { runs = b.runs ++ launched ∷ [] }

-- `dashboardStartTimes.Store(ds, time.Now())` and `ds.server = &http.Server{…}`.
unfoldable pub begin_run : ℕ → ℕ → Board → Board
begin_run i now b = record b { started = some now; handler = some i; runs = set b.runs i probing }

-- The return after a failed `net.Listen`, with the deferred `dashboardStartTimes.Delete(ds)`.
unfoldable pub fail_run : ℕ → Board → Board
fail_run i b = record b {
  server = set_running false b.server;
  started = none;
  runs = set b.runs i finished;
}

-- `net.Listen` has bound the port, and the goroutine that serves is launched.
unfoldable pub bind_run : ℕ → Board → Board
bind_run i b = record b {
  server = set_running true b.server;
  listener = some (bound i);
  runs = set b.runs i serving;
}

unfoldable pub is_shut : ℕ → List ℕ → Bool
is_shut p [] = false
is_shut p (q ∷ shut) = elim (q == p) [ true ↦ true | false ↦ is_shut p shut ]

-- `ds.server.Serve(listener)`, which reads `ds.server` when it runs.
unfoldable pub accept : Option ℕ → List ℕ → Option Listener → Option Listener
accept none shut l = l
accept (some p) shut none = none
accept (some p) shut (some (bound i)) = if is_shut p shut then none else some (served i p)
accept (some p) shut (some (served i q)) = some (served i q)

unfoldable pub serve_run : Board → Board
serve_run b = record b { listener = accept b.handler b.shut b.listener }

-- The listeners that Shutdown of server `p` leaves.
unfoldable pub release : ℕ → Option Listener → Option Listener
release p none = none
release p (some (bound i)) = some (bound i)
release p (some (served i q)) = if q == p then none else some (served i q)

-- `ds.server.Shutdown(ctx)`; the pointer is not nil by then.
unfoldable pub shut_down : Option ℕ → Board → Board
shut_down none b = b
shut_down (some p) b = record b { shut = p ∷ b.shut; listener = release p b.listener }

-- After `<-stopCh`: the shutdown closes the listeners first, and then waits.
unfoldable pub stop_run : ℕ → Board → Board
stop_run i b = record (shut_down b.handler b) { runs = set b.runs i stopping }

-- After the shutdown: the deferred `ds.setRunning(false)` and `dashboardStartTimes.Delete(ds)`, and the
-- return.
unfoldable pub return_run : ℕ → Board → Board
return_run i b = record b {
  server = set_running false b.server;
  started = none;
  runs = set b.runs i finished;
}

abbrev pub serves : Phase → Bool
serves launched = false
serves probing = false
serves serving = true
serves stopping = true
serves finished = false

-- Has one of the goroutines bound the port, and not returned?
unfoldable pub any_serving : List Phase → Bool
any_serving [] = false
any_serving (phase ∷ phases) = elim (serves phase) [ true ↦ true | false ↦ any_serving phases ]

abbrev pub listens : Phase → Bool
listens launched = false
listens probing = false
listens serving = true
listens stopping = false
listens finished = false

-- Has one of the goroutines bound the port, and not begun the shutdown?
unfoldable pub any_listening : List Phase → Bool
any_listening [] = false
any_listening (phase ∷ phases) = elim (listens phase) [ true ↦ true | false ↦ any_listening phases ]

-- What may happen next. A port that is bound cannot be bound again; `net.Listen` may fail at any time.
pub data Step : Board → Board → Type 0 where
  launches : (b : Board) → Step b (launch_run b)
  begins : (i now : ℕ) (b : Board) → get_elem? b.runs i ≡ some launched → Step b (begin_run i now b)
  fails : (i : ℕ) (b : Board) → get_elem? b.runs i ≡ some probing → Step b (fail_run i b)
  binds :
      (i : ℕ) (b : Board)
      → get_elem? b.runs i ≡ some probing
      → b.listener ≡ none
      → Step b (bind_run i b)
  accepts : (b : Board) → Step b (serve_run b)
  stops : (i : ℕ) (b : Board) → get_elem? b.runs i ≡ some serving → Step b (stop_run i b)
  returns : (i : ℕ) (b : Board) → get_elem? b.runs i ≡ some stopping → Step b (return_run i b)

pub data Steps (from : Board) : Board → Type 0 where
  here : Steps from from
  next : {b b' : Board} → Steps from b → Step b b' → Steps from b'

-- A server that NewDashboardServer has made.
abbrev pub new_board : DashboardServer → Board
new_board ds = record {
  server = ds;
  started = none;
  handler = none;
  shut = [];
  listener = none;
  runs = [];
}

-- What may happen to it.
abbrev pub Reach : DashboardServer → Board → Type 0
Reach ds = Steps (new_board ds)
