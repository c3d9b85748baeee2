-- ===== src/AsyncStart.antt =====
-- etcd/async-start/main.go: a server whose goroutine tells by channels that it is ready, has stopped
-- or has failed, the goroutine that waits for a signal, and main, which waits for the channels. A
-- select takes any case that can go on, and a timer fires at any time after it is set.
pub mod Fit
pub mod Ending
mod Tests
use go_by_example.Prelude.{
  ℕ, Bool, true, false, not, Option, none, some, List, [], ◌∷◌, if◌then◌else◌, Result, ok, err,
}
use go_by_example.Prelude.Integers.{ℤ, pos, less}

pub record ServerConfig : Type 0 where
  pub startup_delay : ℤ
  pub tick_interval : ℤ
  pub run_duration : ℤ
  pub fail_startup : Bool

pub data ConfigError : Type 0 where
  negative_delay interval_not_positive duration_not_positive : ConfigError

-- errors.New("startup failed: simulated error")
pub data RunError : Type 0 where
  startup_failed : RunError

-- Where the goroutine of `run` is: at the first select, behind it, in the loop, before finish with an
-- error or none, before it closes stopCh, before it closes errCh, or at its end.
pub data RunPhase : Type 0 where
  starting started serving : RunPhase
  finishing : Option RunError → RunPhase
  stopping closing returned : RunPhase

-- what main says at its end
pub data Outcome : Type 0 where
  server_error : RunError → Outcome
  closed_normally server_stopped : Outcome

-- main waits in startAsyncServer, then in its own select
pub data MainPhase : Type 0 where
  launching waiting : MainPhase
  ended : Outcome → MainPhase

-- AsyncServer with the goroutines; `cancelled` is its context, `panicked` that a closed channel was
-- closed or sent to.
pub record State : Type 0 where
  pub ready_closed : Bool
  pub stop_closed : Bool
  pub err_closed : Bool
  pub err_buffer : Option RunError
  pub cancelled : Bool
  pub once_done : Bool
  pub panicked : Bool
  pub run : RunPhase
  pub main : MainPhase
  pub handler_done : Bool

unfoldable pub start_async_server : ServerConfig → Result ConfigError State
start_async_server cfg =
    if less cfg.startup_delay (pos 0)
    then err negative_delay
    else if not (less (pos 0) cfg.tick_interval)
    then err interval_not_positive
    else if not (less (pos 0) cfg.run_duration)
    then err duration_not_positive
    else ok (record {
      ready_closed = false;
      stop_closed = false;
      err_closed = false;
      err_buffer = none;
      cancelled = false;
      once_done = false;
      panicked = false;
      run = starting;
      main = launching;
      handler_done = false;
    })

unfoldable pub panic : State → State
panic s = record s { panicked = true }

unfoldable pub close_ready : State → State
unfolding panic
close_ready s = if s.ready_closed then panic s else record s { ready_closed = true }

unfoldable pub close_stop : State → State
unfolding panic
close_stop s = if s.stop_closed then panic s else record s { stop_closed = true }

unfoldable pub close_err : State → State
unfolding panic
close_err s = if s.err_closed then panic s else record s { err_closed = true }

abbrev pub move : RunPhase → State → State
move p s = record s { run = p }

abbrev pub when : Bool → State → Option State
when test s = if test then some s else none

-- a send waits, which is `none`, while the buffer of one error is full
abbrev pub send_into : RunError → Option RunError → State → Option State
send_into e none s = some (record s { err_buffer = some e; run = stopping })
send_into e (some _) s = none

unfoldable pub send : Option RunError → State → Option State
unfolding panic
send none s = some (move stopping s)
send (some e) s = if s.err_closed then some (panic s) else send_into e s.err_buffer s

-- `s.once.Do`
unfoldable pub finish : Option RunError → State → Option State
unfolding send
finish e s = if s.once_done then some (move returned s) else send e (record s { once_done = true })

-- the cases of the selects of `run`, and to go on where it does not wait
pub data RunAction : Type 0 where
  see_cancel start_timer ticker stop_timer proceed : RunAction

unfoldable pub run_step : ServerConfig → RunAction → RunPhase → State → Option State
unfolding finish close_ready close_stop close_err
run_step cfg see_cancel starting s = when s.cancelled (move (finishing none) s)
run_step cfg start_timer starting s = some (move started s)
run_step cfg proceed started s = some (
    if cfg.fail_startup
    then move (finishing (some startup_failed)) s
    else close_ready (move serving s))
run_step cfg see_cancel serving s = when s.cancelled (move (finishing none) s)
run_step cfg ticker serving s = some s
run_step cfg stop_timer serving s = some (move (finishing none) s)
run_step cfg proceed (finishing e) s = finish e s
run_step cfg proceed stopping s = some (close_stop (move closing s))
run_step cfg proceed closing s = some (close_err (move returned s))
run_step _ _ _ _ = none

-- the cases of the selects of startAsyncServer and main
pub data MainAction : Type 0 where
  see_ready see_stop see_err : MainAction

abbrev pub receive : Option RunError → State → Option State
receive (some e) s = some (record s { err_buffer = none; main = ended (server_error e) })
receive none s = when s.err_closed (record s { main = ended closed_normally })

unfoldable pub main_step : MainAction → MainPhase → State → Option State
main_step see_ready launching s = when s.ready_closed (record s { main = waiting })
main_step see_stop launching s = when s.stop_closed (record s { main = waiting })
main_step see_err waiting s = receive s.err_buffer s
main_step see_stop waiting s = when s.stop_closed (record s { main = ended server_stopped })
main_step _ _ _ = none

-- `interrupt` is a signal, which the handler of registerInterruptHandler waits for once
pub data Action : Type 0 where
  by_run : RunAction → Action
  by_main : MainAction → Action
  interrupt : Action

unfoldable pub act : ServerConfig → Action → State → Option State
unfolding run_step main_step
act cfg (by_run a) s = run_step cfg a s.run s
act cfg (by_main a) s = main_step a s.main s
act cfg interrupt s =
    if s.handler_done then none else some (record s { handler_done = true; cancelled = true })

abbrev pub then_act : Option State → (State → Option State) → Option State
then_act none f = none
then_act (some s) f = f s

-- an execution, if each of its actions could go on
unfoldable pub acts : ServerConfig → List Action → State → Option State
acts cfg [] s = some s
acts cfg (a ∷ rest) s = then_act (act cfg a s) (acts cfg rest)
