-- ===== src/AsyncStart/Fit.antt =====
-- The invariant of the executions.
use go_by_example.Prelude.{
  ◌≡◌, inl, inr, refl, Bool, true, false, ◌||◌, not, Option, none, some, List, [], ◌∷◌, ok, arith,
  Option-cases,
}
use go_by_example.AsyncStart.{
  ServerConfig, RunError, RunPhase, starting, started, serving, finishing, stopping, closing,
  returned, server_error, closed_normally, MainPhase, launching, waiting, ended, State,
  start_async_server, RunAction, see_cancel, start_timer, ticker, stop_timer, proceed, run_step,
  MainAction, see_ready, see_stop, see_err, main_step, Action, by_run, by_main, interrupt, act,
  acts,
}

-- stopCh is closed
abbrev pub has_stopped : RunPhase → Bool
has_stopped closing = true
has_stopped returned = true
has_stopped _ = false

abbrev pub has_returned : RunPhase → Bool
has_returned returned = true
has_returned _ = false

-- within `s.once.Do` or behind it
abbrev pub is_done : RunPhase → Bool
is_done stopping = true
is_done closing = true
is_done returned = true
is_done _ = false

abbrev pub before_loop : RunPhase → Bool
before_loop starting = true
before_loop started = true
before_loop _ = false

abbrev pub will_fail : RunPhase → Bool
will_fail (finishing (some e)) = true
will_fail _ = false

-- no error is to be sent any more
abbrev pub is_late : RunPhase → Bool
is_late (finishing none) = true
is_late stopping = true
is_late closing = true
is_late returned = true
is_late _ = false

abbrev pub has_error : Option RunError → Bool
has_error none = false
has_error (some e) = true

abbrev pub told_error : MainPhase → Bool
told_error (ended (server_error e)) = true
told_error _ = false

pub record Fit (cfg : ServerConfig) (s : State) : Type 0 where
  pub no_panic : s.panicked ≡ false
  pub stop_at : s.stop_closed ≡ has_stopped s.run
  pub err_at : s.err_closed ≡ has_returned s.run
  pub once_at : s.once_done ≡ is_done s.run
  pub not_ready : before_loop s.run ≡ true → s.ready_closed ≡ false
  pub ready_fits : s.ready_closed ≡ true → cfg.fail_startup ≡ false
  pub loop_fits : s.run ≡ serving → cfg.fail_startup ≡ false
  pub fails : will_fail s.run ≡ true → cfg.fail_startup ≡ true
  pub buffer_fits : has_error s.err_buffer ≡ true → cfg.fail_startup ≡ true
  pub buffer_empty : is_done s.run ≡ false → s.err_buffer ≡ none
  pub told_fits : told_error s.main ≡ true → cfg.fail_startup ≡ true
  pub silent :
      is_late s.run ≡ true
      → has_error s.err_buffer ≡ false
      → told_error s.main ≡ false
      → (not cfg.fail_startup || s.cancelled) ≡ true
  pub told_nothing : s.main ≡ ended closed_normally → (not cfg.fail_startup || s.cancelled) ≡ true

pub start-Fit : (cfg : ServerConfig) (s : State) → start_async_server cfg ≡ ok s → Fit cfg s
unfolding start_async_server
start-Fit cfg s e = ground arith

run_step-Fit :
    (cfg : ServerConfig) (a : RunAction) (p : RunPhase) (s t : State)
    → s.run ≡ p
    → run_step cfg a p s ≡ some t
    → Fit cfg s
    → Fit cfg t
unfolding run_step
run_step-Fit cfg see_cancel starting s t at e h = ground arith
run_step-Fit cfg start_timer starting s t at e h = ground arith
run_step-Fit cfg proceed started s t at e h = ground arith
run_step-Fit cfg see_cancel serving s t at e h = ground arith
run_step-Fit cfg ticker serving s t at e h = ground arith
run_step-Fit cfg stop_timer serving s t at e h = ground arith
run_step-Fit cfg proceed (finishing none) s t at e h = ground arith
run_step-Fit cfg proceed (finishing (some c)) s t at e h = ground arith
run_step-Fit cfg proceed stopping s t at e h = ground arith
run_step-Fit cfg proceed closing s t at e h = ground arith
run_step-Fit cfg _ _ s t at e h = absurd (cc)

main_step-Fit :
    (cfg : ServerConfig) (a : MainAction) (p : MainPhase) (s t : State)
    → s.main ≡ p
    → main_step a p s ≡ some t
    → Fit cfg s
    → Fit cfg t
unfolding main_step
main_step-Fit cfg see_ready launching s t at e h = ground arith
main_step-Fit cfg see_stop launching s t at e h = ground arith
main_step-Fit cfg see_err waiting s t at e h = ground arith
main_step-Fit cfg see_stop waiting s t at e h = ground arith
main_step-Fit cfg _ _ s t at e h = absurd (cc)

pub act-Fit :
    (cfg : ServerConfig) (a : Action) (s t : State) → act cfg a s ≡ some t → Fit cfg s → Fit cfg t
unfolding act
act-Fit cfg (by_run a) s t e h = run_step-Fit cfg a s.run s t refl e h
act-Fit cfg (by_main a) s t e h = main_step-Fit cfg a s.main s t refl e h
act-Fit cfg interrupt s t e h = ground arith

pub acts-Fit :
    (cfg : ServerConfig) (actions : List Action) (s t : State)
    → acts cfg actions s ≡ some t
    → Fit cfg s
    → Fit cfg t
unfolding acts
acts-Fit cfg [] s t e h = ground arith
acts-Fit cfg (a ∷ rest) s t e h = elim (Option-cases (act cfg a s)) [
  | inl none_next ↦ absurd (ground arith)
  | inr (u, first) ↦ acts-Fit cfg rest u t (ground arith) (act-Fit cfg a s u first h)
]

-- In every execution of a server that was started: no channel is closed twice, and nothing is sent
-- to a closed one; stopCh and errCh are closed when the goroutine of the server has returned; a server
-- that is to fail is never ready; main reports an error only of such a server, and a normal shutdown
-- of such a server only after its cancellation.
pub sound :
    (cfg : ServerConfig) (actions : List Action) (s t : State)
    → start_async_server cfg ≡ ok s
    → acts cfg actions s ≡ some t
    → (t.panicked ≡ false)
      × (t.run ≡ returned → (t.stop_closed ≡ true) × (t.err_closed ≡ true))
      × (cfg.fail_startup ≡ true → t.ready_closed ≡ false)
      × ((e : RunError) → t.main ≡ ended (server_error e) → cfg.fail_startup ≡ true)
      × (t.main ≡ ended closed_normally → cfg.fail_startup ≡ true → t.cancelled ≡ true)
sound cfg actions s t begun reached =
    let fit = acts-Fit cfg actions s t reached (start-Fit cfg s begun) in
    (fit.no_panic, λ e. ground arith, λ e. ground arith, λ e k. ground arith, λ k e. ground arith)
