-- ===== src/Samples/Requests.antt =====
-- Requests for an open and for a closed resource.
use lynx_sentinel.Base.{◌++◌, ℕ, ◌≡◌, refl, List, [], some, get_elem?, without}
use lynx_sentinel.Plugin.{
  World, Body, returned, entry, execute, admit, on_collector, as_entry, runtime_state,
}
use lynx_sentinel.Plugin.Flights.{
  handles, Flight, take_off, land, takes_off, lands, Reach, idle, next, Reach-open,
}
use lynx_sentinel.Plugin.Verdict.{report, settle, execute_admitted}
use lynx_sentinel.Plugin.Balance.{open_in, KeepsOpen, execute-open}
use lynx_sentinel.Samples.{Loaded, small_core, small_core_entries, small_platform, ready_world}

-- A function that fails.
abbrev pub fails : Body Loaded ℕ
fails w = (returned (some "timeout"), w)

fails-KeepsOpen : KeepsOpen small_core small_core_entries fails
fails-KeepsOpen w = refl

execute-open_example :
    open_in small_core small_core_entries
      (execute small_core small_platform "a" fails 5 [] ready_world).1
    ≡ open_in small_core small_core_entries ready_world
execute-open_example =
    execute-open small_core small_core_entries small_platform "a" fails 5 [] ready_world
      fails-KeepsOpen

execute_admitted_example :
    let ran = fails (entry small_core "a" [] ready_world).1 in
    let after = execute small_core small_platform "a" fails 5 [] ready_world in
    (after.0 ≡ report ran.0) × (after.1.core ≡ settle small_core 0 ran.0 ran.1.core)
execute_admitted_example =
    execute_admitted small_core small_platform "a" fails 5 [] ready_world 0 refl refl

-- Two requests in the air, of which the first to arrive fails and returns.
abbrev both : World Loaded ℕ × List Flight
both =
    let first = take_off small_core "a" (entry small_core "a" [] ready_world) [] in
    take_off small_core "b" (entry small_core "b" [] first.0) first.1

abbrev a_flight : Flight
a_flight = record { handle = 0; collector = ready_world.plugin.metrics_collector; resource = "a" }

a_flies : get_elem? both.1 1 ≡ some a_flight
unfolding take_off entry admit on_collector as_entry runtime_state
a_flies = refl

abbrev a_landed : World Loaded ℕ × List Flight
a_landed =
    (land small_core small_platform a_flight (returned (some "timeout")) 5 both.0, without both.1 1)

a_landed-Reach : Reach small_core small_platform ready_world a_landed
a_landed-Reach =
    next (next (next idle (takes_off "a" [] ready_world [])) (takes_off "b" [] _ _))
      (lands 1 a_flight (returned (some "timeout")) 5 both.0 both.1 a_flies)

Reach-open_example :
    open_in small_core small_core_entries a_landed.0
    ≡ handles a_landed.1 ++ open_in small_core small_core_entries ready_world
Reach-open_example =
    Reach-open small_core small_core_entries small_platform ready_world a_landed a_landed-Reach
