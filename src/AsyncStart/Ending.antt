-- ===== src/AsyncStart/Ending.antt =====
-- The executions end, but for ticks.
use go_by_example.Prelude.{
  ℕ, ◌+◌, ◌≤◌, ◌≡◌, ◌≢◌, ◌⊎◌, inl, inr, refl, ap, sym, ◌∙◌, Bool, true, false, none, some, List, [],
  ◌∷◌, if◌then◌else◌, ok, arith, Option-cases,
}
use go_by_example.AsyncStart.{
  ServerConfig, RunPhase, starting, started, serving, finishing, stopping, closing, returned,
  Outcome, MainPhase, launching, waiting, ended, State, start_async_server, RunAction, see_cancel,
  start_timer, ticker, stop_timer, proceed, run_step, MainAction, see_ready, see_stop, see_err,
  main_step, Action, by_run, by_main, interrupt, act, acts,
}
use go_by_example.AsyncStart.Fit.{Fit, start-Fit, act-Fit, acts-Fit}

abbrev pub is_tick : Action → Bool
is_tick (by_run ticker) = true
is_tick _ = false

-- the actions other than ticks
abbrev pub moves : List Action → ℕ
moves [] = 0
moves (a ∷ rest) = (if is_tick a then 0 else 1) + moves rest

abbrev run_left : RunPhase → ℕ
run_left starting = 6
run_left started = 5
run_left serving = 4
run_left (finishing e) = 3
run_left stopping = 2
run_left closing = 1
run_left returned = 0

abbrev main_left : MainPhase → ℕ
main_left launching = 2
main_left waiting = 1
main_left (ended o) = 0

abbrev left : State → ℕ
left s = run_left s.run + main_left s.main + (if s.handler_done then 0 else 1)

run_step-left :
    (cfg : ServerConfig) (a : RunAction) (p : RunPhase) (s t : State)
    → s.run ≡ p
    → run_step cfg a p s ≡ some t
    → Fit cfg s
    → (if is_tick (by_run a) then 0 else 1) + left t ≤ left s
unfolding run_step
run_step-left cfg see_cancel starting s t at e h = ground arith
run_step-left cfg start_timer starting s t at e h = ground arith
run_step-left cfg proceed started s t at e h = ground arith
run_step-left cfg see_cancel serving s t at e h = ground arith
run_step-left cfg ticker serving s t at e h = ground arith
run_step-left cfg stop_timer serving s t at e h = ground arith
run_step-left cfg proceed (finishing none) s t at e h = ground arith
run_step-left cfg proceed (finishing (some c)) s t at e h = ground arith
run_step-left cfg proceed stopping s t at e h = ground arith
run_step-left cfg proceed closing s t at e h = ground arith
run_step-left cfg _ _ s t at e h = absurd (cc)

main_step-left :
    (cfg : ServerConfig) (a : MainAction) (p : MainPhase) (s t : State)
    → s.main ≡ p
    → main_step a p s ≡ some t
    → 1 + left t ≤ left s
unfolding main_step
main_step-left cfg see_ready launching s t at e = ground arith
main_step-left cfg see_stop launching s t at e = ground arith
main_step-left cfg see_err waiting s t at e = ground arith
main_step-left cfg see_stop waiting s t at e = ground arith
main_step-left cfg _ _ s t at e = absurd (cc)

act-left :
    (cfg : ServerConfig) (a : Action) (s t : State)
    → act cfg a s ≡ some t
    → Fit cfg s
    → (if is_tick a then 0 else 1) + left t ≤ left s
unfolding act
act-left cfg (by_run a) s t e h = run_step-left cfg a s.run s t refl e h
act-left cfg (by_main a) s t e h = main_step-left cfg a s.main s t refl e
act-left cfg interrupt s t e h = ground arith

acts-left :
    (cfg : ServerConfig) (actions : List Action) (s t : State)
    → acts cfg actions s ≡ some t
    → Fit cfg s
    → moves actions + left t ≤ left s
unfolding acts
acts-left cfg [] s t e h = ground arith
acts-left cfg (a ∷ rest) s t e h = elim (Option-cases (act cfg a s)) [
  | inl none_next ↦ absurd (ground arith)
  | inr (u, first) ↦ omega (
    arith,
    act-left cfg a s u first h,
    acts-left cfg rest u t (ground arith) (act-Fit cfg a s u first h),
  )
]

-- both goroutines are at their ends
abbrev pub HasEnded : State → Type 0
HasEnded s = (s.run ≡ returned) × (o : Outcome) × (s.main ≡ ended o)

-- an action that is neither a tick nor a signal can go on
abbrev pub CanGo : ServerConfig → State → Type 0
CanGo cfg s =
    (a : Action) × (is_tick a ≡ false) × (a ≢ interrupt) × (t : State) × (act cfg a s ≡ some t)

can_go :
    (cfg : ServerConfig) (a : Action) (s : State)
    → is_tick a ≡ false
    → a ≢ interrupt
    → act cfg a s ≢ none
    → CanGo cfg s
can_go cfg a s quiet own able = elim (Option-cases (act cfg a s)) [
  | inl e ↦ absurd (able e)
  | inr (t, e) ↦ (a, quiet, own, t, e)
]

main_goes :
    (cfg : ServerConfig) (m : MainPhase) (s : State)
    → s.main ≡ m
    → s.run ≡ returned
    → Fit cfg s
    → HasEnded s ⊎ CanGo cfg s
unfolding act main_step
main_goes cfg (ended o) s at end h = inl (end, o, at)
main_goes cfg launching s at end h =
    inr (can_go cfg (by_main see_stop) s refl (λ e. absurd (cc)) (λ e. ground arith))
main_goes cfg waiting s at end h =
    inr (can_go cfg (by_main see_stop) s refl (λ e. absurd (cc)) (λ e. ground arith))

-- what the goroutine of the server can do
abbrev next_action : RunPhase → RunAction
next_action starting = start_timer
next_action serving = stop_timer
next_action _ = proceed

run_goes :
    (cfg : ServerConfig) (p : RunPhase) (s : State)
    → s.run ≡ p
    → p ≢ returned
    → Fit cfg s
    → run_step cfg (next_action p) p s ≢ none
unfolding run_step
run_goes cfg starting s at n h e = ground arith
run_goes cfg started s at n h e = ground arith
run_goes cfg serving s at n h e = ground arith
run_goes cfg (finishing none) s at n h e = ground arith
run_goes cfg (finishing (some c)) s at n h e = ground arith
run_goes cfg stopping s at n h e = ground arith
run_goes cfg closing s at n h e = ground arith
run_goes cfg returned s at n h e = n refl

next_action-quiet : (p : RunPhase) → is_tick (by_run (next_action p)) ≡ false
next_action-quiet starting = refl
next_action-quiet _ = refl

goes :
    (cfg : ServerConfig) (p : RunPhase) (s : State)
    → s.run ≡ p
    → Fit cfg s
    → HasEnded s ⊎ CanGo cfg s
unfolding act
goes cfg returned s at h = main_goes cfg s.main s refl at h
goes cfg p s at h = inr (
    can_go cfg (by_run (next_action p)) s (next_action-quiet p) (λ e. absurd (cc))
      (λ e.
        run_goes cfg p s at (λ q. absurd (cc)) h
          (ap (λ r. run_step cfg (next_action p) r s) (sym at) ∙ e)))

-- An execution of a server that was started has at most nine actions other than ticks; and unless the
-- server has returned and main has ended, an action other than a tick and a signal can go on.
pub execution_ends :
    (cfg : ServerConfig) (actions : List Action) (s t : State)
    → start_async_server cfg ≡ ok s
    → acts cfg actions s ≡ some t
    → (moves actions ≤ 9) × (HasEnded t ⊎ CanGo cfg t)
unfolding start_async_server
execution_ends cfg actions s t begun reached =
    let fit = start-Fit cfg s begun in
    let bound = acts-left cfg actions s t reached fit in
    (ground arith, goes cfg t.run t refl (acts-Fit cfg actions s t reached fit))
