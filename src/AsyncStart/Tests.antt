-- ===== src/AsyncStart/Tests.antt =====
-- The configuration of main, in milliseconds, and a run in which main sees the server stop.
use go_by_example.Prelude.{◌≤◌, ◌≡◌, ◌⊎◌, refl, true, false, none, some, List, [], ◌∷◌, ok}
use go_by_example.Prelude.Integers.{pos}
use go_by_example.AsyncStart.{
  ServerConfig, RunError, returned, server_error, closed_normally, server_stopped, starting,
  launching, ended, State, start_async_server, start_timer, ticker, stop_timer, proceed, run_step,
  see_ready, see_stop, main_step, Action, by_run, by_main, act, acts,
}
use go_by_example.AsyncStart.Fit.{sound}
use go_by_example.AsyncStart.Ending.{moves, HasEnded, CanGo, execution_ends}

abbrev config : ServerConfig
config = record {
  startup_delay = pos 1200;
  tick_interval = pos 1000;
  run_duration = pos 5000;
  fail_startup = false;
}

abbrev first : State
first = record {
  ready_closed = false;
  stop_closed = false;
  err_closed = false;
  err_buffer = none;
  cancelled = false;
  once_done = false;
  panicked = false;
  run = starting;
  main = launching;
  handler_done = false;
}

abbrev last : State
last = record {
  ready_closed = true;
  stop_closed = true;
  err_closed = true;
  err_buffer = none;
  cancelled = false;
  once_done = true;
  panicked = false;
  run = returned;
  main = ended server_stopped;
  handler_done = false;
}

abbrev actions : List Action
actions =
    by_run start_timer
    ∷ by_run proceed
    ∷ by_main see_ready
    ∷ by_run ticker
    ∷ by_run stop_timer
    ∷ by_run proceed
    ∷ by_run proceed
    ∷ by_main see_stop
    ∷ by_run proceed
    ∷ []

begun : start_async_server config ≡ ok first
unfolding start_async_server
begun = refl

reached : acts config actions first ≡ some last
unfolding acts act run_step main_step
reached = refl

sound_example :
    (last.panicked ≡ false)
    × (last.run ≡ returned → (last.stop_closed ≡ true) × (last.err_closed ≡ true))
    × (config.fail_startup ≡ true → last.ready_closed ≡ false)
    × ((e : RunError) → last.main ≡ ended (server_error e) → config.fail_startup ≡ true)
    × (last.main ≡ ended closed_normally → config.fail_startup ≡ true → last.cancelled ≡ true)
sound_example = sound config actions first last begun reached

execution_ends_example : (moves actions ≤ 9) × (HasEnded last ⊎ CanGo config last)
execution_ends_example = execution_ends config actions first last begun reached
