-- ===== src/Samples/Boards.antt =====
-- A dashboard server whose Start was launched twice, and its endpoints.
use lynx_sentinel.Base.{
  [], ◌∷◌, Option, none, is_some, ◌≡◌, refl, ◌≤◌, true, false, some, arith, get_elem?, length,
}
use lynx_sentinel.Dashboard.{new_dashboard_server, set_running, is_running}
use lynx_sentinel.Dashboard.Listening.{serve_run_alone}
use lynx_sentinel.Dashboard.Leaking.{second_start_leaks, second_start_hides}
use lynx_sentinel.Dashboard.Serving.{
  any_listening, stops, serving, served, new_board, serve_run, accepts, stop_run, fails, Board,
  probing, launch_run, begin_run, fail_run, bind_run, any_serving, launches, begins, binds, Reach,
  here, next,
}
use lynx_sentinel.Dashboard.Running.{is_running-any_serving}
use lynx_sentinel.Base.Dict.{Dict, lookup}
use lynx_sentinel.Dashboard.Routes.{Page, Mux, MuxLaws}

-- One goroutine that serves.
abbrev one_run : Board
one_run =
    serve_run
      (bind_run 0 (begin_run 0 7 (launch_run (new_board (new_dashboard_server 8719 (some 0))))))

one_run-Reach : Reach (new_dashboard_server 8719 (some 0)) one_run
unfolding launch_run begin_run
one_run-Reach =
    next (next (next (next here (launches _)) (begins 0 7 _ refl)) (binds 0 _ refl refl))
      (accepts _)

-- And a second one, which is about to bind the port.
abbrev two_runs : Board
two_runs = begin_run 1 9 (launch_run one_run)

two_runs-Reach : Reach (new_dashboard_server 8719 (some 0)) two_runs
unfolding launch_run begin_run bind_run serve_run
two_runs-Reach = next (next one_run-Reach (launches _)) (begins 1 9 _ refl)

two_runs_up : is_running two_runs.server ≡ true
unfolding is_running launch_run begin_run bind_run serve_run set_running
two_runs_up = refl

alone : length one_run.runs ≤ 1
unfolding launch_run begin_run bind_run serve_run
alone = omega arith

serve_run_alone_example : is_some (serve_run one_run).listener ≡ any_listening one_run.runs
serve_run_alone_example = serve_run_alone 8719 (some 0) one_run one_run-Reach alone

-- The second one finds the port bound, and then the first one stops.
abbrev replaced : Board
replaced = begin_run 1 9 (launch_run (serve_run one_run))

abbrev both_done : Board
both_done = stop_run 0 (fail_run 1 replaced)

one_serves : one_run.runs ≡ serving ∷ []
unfolding launch_run begin_run bind_run serve_run
one_serves = refl

second_finds : get_elem? replaced.runs 1 ≡ some probing
unfolding launch_run begin_run bind_run serve_run
second_finds = refl

first_waits : get_elem? (fail_run 1 replaced).runs 0 ≡ some serving
unfolding launch_run begin_run bind_run serve_run fail_run
first_waits = refl

second_start_leaks_example : both_done.listener ≡ some (served 0 0)
second_start_leaks_example =
    second_start_leaks 8719 9 (some 0) one_run both_done one_run-Reach one_serves
      (next (next here (fails 1 replaced second_finds)) (stops 0 (fail_run 1 replaced) first_waits))

is_running-any_serving_example : any_serving two_runs.runs ≡ true
is_running-any_serving_example =
    is_running-any_serving 8719 (some 0) two_runs two_runs-Reach two_runs_up

second_start_hides_example :
    (is_running both_done.server ≡ false) × (both_done.listener ≡ some (served 0 0))
second_start_hides_example =
    second_start_hides 8719 9 (some 0) one_run both_done one_run-Reach one_serves
      (next here (stops 0 (fail_run 1 replaced) first_waits))

-- A mux that looks the path up, and then "/".
abbrev or_root : Dict Page → Option Page → Option Page
or_root patterns none = lookup "/" patterns
or_root patterns (some page) = some page

abbrev small_mux : Mux
small_mux = record {
  handler = λ patterns path. or_root patterns (lookup path patterns);
  clean = λ path. true;
}

small_mux_laws : MuxLaws small_mux
small_mux_laws = record {
  handler-exact = λ patterns path page c e. rw e refl;
  handler-root = λ patterns path page c missing e plain. rw missing e;
}
