-- ===== src/LinearRead/Reads.antt =====
-- Proofs about all executions of the server, from the invariant.
use go_by_example.Prelude.{
  ℕ, ◌≤◌, ◌≡◌, ◌⊎◌, inl, inr, true, false, none, arith, comparable_number, if◌then◌else◌, subst,
}
use go_by_example.LinearRead.{
  taken, stopped, waiting, finished, blocked, returned, Server, new_server, Step, Run,
  confirmed_index, take, swap, load, enter, leave, write, notify, stop_idle, stop_waiting, store,
  release, fetch, send, wake, expire, quit, shut_down, now, ◌then◌,
}
use go_by_example.LinearRead.Rounds.{Holds, ApplierFits, ReaderFits, IsFit}
use go_by_example.LinearRead.Rounds.{new_server-IsFit}
use go_by_example.LinearRead.Rounds.LoopSteps.{
  take-IsFit, swap-IsFit, enter-IsFit, leave-IsFit, write-IsFit, loop_fits,
}
use go_by_example.LinearRead.Rounds.MoreLoopSteps.{load-IsFit, notify-IsFit, stop-IsFit}
use go_by_example.LinearRead.Rounds.OtherSteps.{
  store-IsFit, release-IsFit, fetch-IsFit, send-IsFit, wake-IsFit, give_up-IsFit, shut_down-IsFit,
}
use go_by_example.LinearRead.{deadline_exceeded, server_stopping}

pub Step-IsFit : {s t : Server} → Step s t → IsFit s → IsFit t
Step-IsFit {s} (take l w) f = take-IsFit s l w f
Step-IsFit {s} (swap l) f = swap-IsFit s l f
Step-IsFit {s} (load nr l) f = load-IsFit s nr l f
Step-IsFit {s} (enter nr l) f = enter-IsFit s nr l f
Step-IsFit {s} (leave nr ch l c) f = leave-IsFit s nr ch l c f
Step-IsFit {s} (write nr l) f = write-IsFit s nr l f
Step-IsFit {s} (notify nr l) f = notify-IsFit s nr l f
Step-IsFit {s} (stop_idle _ _) f = stop-IsFit s f
Step-IsFit {s} (stop_waiting _ _ _ _) f = stop-IsFit s f
Step-IsFit {s} (store i a) f = store-IsFit s i a f
Step-IsFit {s} (release i a) f = release-IsFit s i a f
Step-IsFit {s} (fetch r _) f = fetch-IsFit s r f
Step-IsFit {s} (send r nc e) f = send-IsFit s r nc e f
Step-IsFit {s} (wake r nc _ c) f = wake-IsFit s r nc c f
Step-IsFit {s} (expire r _ _) f = give_up-IsFit s r deadline_exceeded f
Step-IsFit {s} (quit r _ _ _) f = give_up-IsFit s r server_stopping f
Step-IsFit {s} shut_down f = shut_down-IsFit s f

pub Run-IsFit : {s t : Server} → Run s t → IsFit s → IsFit t
Run-IsFit now f = f
Run-IsFit (step then run) f = Run-IsFit run (Step-IsFit step f)

pub finished_closed :
    (s : Server) (nr ch : ℕ)
    → s.applier ≡ finished
    → s.loop ≡ waiting nr ch
    → IsFit s
    → s.apply_wait.closed ch ≡ true
finished_closed s nr ch a l f =
    let (last, applied) =
      subst (λ x. ApplierFits x s.apply_wait.last s.applied_index) a f.in_applier in
    elim (loop_fits s (waiting nr ch) l f) [ inl (c, _) ↦ c | inr (lt, m) ↦ ground arith ]

-- In every execution of the server, when a call of linearizableReadNotify has returned nil, the
-- applied index is at least the confirmed index.
pub read_after_apply :
    {s : Server} (r : ℕ)
    → Run new_server s
    → s.readers r ≡ returned none
    → confirmed_index ≤ s.applied_index
read_after_apply {s} r run e = subst (ReaderFits s) e ((Run-IsFit run new_server-IsFit).in_reader r)

-- No execution of the server closes a channel twice: neither that of a notifier nor one of those
-- that applyWait hands out.
pub no_panic :
    {s : Server} → Run new_server s → (s.panicked ≡ false) × (s.apply_wait.panicked ≡ false)
no_panic run = let f = Run-IsFit run new_server-IsFit in (f.calm, f.sound.calm)

-- No wakeup is lost: while a call waits for a notifier that is still open, the loop holds that
-- notifier, or the notifier is the next one and the loop is awake or has a wakeup to come, or the
-- loop has stopped.
pub no_lost_wakeup :
    {s : Server} (r nc : ℕ)
    → Run new_server s
    → s.readers r ≡ blocked nc
    → (s.notifiers nc).closed ≡ false
    → Holds s.loop nc
      ⊎ ((s.read_notifier ≡ nc) × ((s.readwaitc ≡ true) ⊎ (s.loop ≡ taken)))
      ⊎ (s.loop ≡ stopped)
no_lost_wakeup {s} r nc run e open_yet =
    let h = subst (ReaderFits s) e ((Run-IsFit run new_server-IsFit).in_reader r) in ground arith

-- No trigger is lost: when the apply thread has finished, the channel that the loop waits for is
-- closed.
pub no_lost_trigger :
    {s : Server} (nr ch : ℕ)
    → Run new_server s
    → s.applier ≡ finished
    → s.loop ≡ waiting nr ch
    → s.apply_wait.closed ch ≡ true
no_lost_trigger {s} nr ch run a l = finished_closed s nr ch a l (Run-IsFit run new_server-IsFit)
