-- ===== src/LinearRead/Confirmed.antt =====
-- Proofs about a call of linearizableReadNotify and the rounds of the loop after it.
use go_by_example.Prelude.{
  ℕ, ◌≤◌, ◌<◌, ◌≡◌, ◌∙◌, inl, inr, true, none, some, eqb, arith, comparable_number, Bool-cases,
  if◌then◌else◌, ap, subst, eqb_iff,
}
use go_by_example.LinearRead.{
  idle, stopped, ready, Reader, begun, fetched, blocked, returned, Server, new_server, set_notifier,
  set_reader, write_failure, close_notifier, take_wakeup, swap_notifier, load_applied, begin_wait,
  store_applied, trigger_applied, send_wakeup, Step, Run, take, swap, load, enter, leave, write,
  notify, stop_idle, stop_waiting, store, release, fetch, send, wake, expire, quit, shut_down, now,
  ◌then◌,
}
use go_by_example.LinearRead.Rounds.{IsFit}
use go_by_example.LinearRead.Rounds.{new_server-IsFit}
use go_by_example.LinearRead.{deadline_exceeded, server_stopping}
use go_by_example.LinearRead.Reads.{Step-IsFit, Run-IsFit}

-- What a run that starts when `k` rounds were begun, before the call of `r`, knows of that call.
Later : ℕ → Server → Reader → Type 0
Later k s begun = k ≤ s.req_id
Later k s (fetched nc) = k ≤ nc
Later k s (blocked nc) = k ≤ nc
Later k s (returned none) = k < s.req_id
Later k s (returned (some _)) = Unit

Later-keeps :
    (k : ℕ) (s t : Server) → s.req_id ≤ t.req_id → (v : Reader) → Later k s v → Later k t v
unfolding Later
Later-keeps k s t le begun h = omega arith
Later-keeps k s t le (fetched nc) h = h
Later-keeps k s t le (blocked nc) h = h
Later-keeps k s t le (returned none) h = omega arith
Later-keeps k s t le (returned (some e)) h = tt

at_other :
    (k : ℕ) (s t : Server) (r i : ℕ) (v : Reader)
    → s.req_id ≤ t.req_id
    → (eqb i r ≡ true → Later k t v)
    → Later k s (s.readers i)
    → Later k t ((set_reader r v s).readers i)
unfolding set_reader
at_other k s t r i v le now_fits h = elim (Bool-cases (eqb i r)) [
  | inl e ↦ rw e (now_fits e)
  | inr e ↦ rw e (Later-keeps k s t le (s.readers i) h)
]

same_reader :
    (k : ℕ) (s : Server) (i r : ℕ) (v : Reader)
    → eqb i r ≡ true
    → s.readers r ≡ v
    → Later k s (s.readers i)
    → Later k s v
same_reader k s i r v e at h = subst (Later k s) (ap s.readers (ground (arith, eqb_iff i r)) ∙ at) h

closed_before : (s : Server) (n : ℕ) → IsFit s → (s.notifiers n).closed ≡ true → n < s.req_id
closed_before s n f c = ground (arith, f.unused n, f.counted)

notify-Later :
    (k : ℕ) (s : Server) (n i : ℕ)
    → Later k s (s.readers i)
    → Later k (close_notifier n s) ((close_notifier n s).readers i)
unfolding close_notifier set_notifier
notify-Later k s n i h = elim (Bool-cases (s.notifiers n).closed) [
  | inl e ↦
      rw e (
        Later-keeps k s (record s { panicked = true; loop = stopped }) (omega arith) (s.readers i)
          h)
  | inr e ↦ rw e (
      Later-keeps k s
        (record (set_notifier n (record (s.notifiers n) { closed = true }) s) { loop = idle })
        (omega arith) (s.readers i) h)
]

Step-Later :
    (k : ℕ) {s t : Server} (i : ℕ)
    → IsFit s
    → Step s t
    → Later k s (s.readers i)
    → Later k t (t.readers i)
unfolding Later take_wakeup swap_notifier load_applied begin_wait write_failure store_applied
    trigger_applied send_wakeup set_notifier set_reader
Step-Later k {s} i f (take l w) h = Later-keeps k s (take_wakeup s) (omega arith) (s.readers i) h
Step-Later k {s} i f (swap l) h = Later-keeps k s (swap_notifier s) (omega arith) (s.readers i) h
Step-Later k {s} i f (load n l) h = Later-keeps k s (load_applied n s) (omega arith) (s.readers i) h
Step-Later k {s} i f (enter n l) h = Later-keeps k s (begin_wait n s) (omega arith) (s.readers i) h
Step-Later k {s} i f (leave n ch l c) h =
    Later-keeps k s (record s { loop = ready n }) (omega arith) (s.readers i) h
Step-Later k {s} i f (write n l) h =
    Later-keeps k s (write_failure n none s) (omega arith) (s.readers i) h
Step-Later k {s} i f (notify n l) h = notify-Later k s n i h
Step-Later k {s} i f (stop_idle _ _) h =
    Later-keeps k s (record s { loop = stopped }) (omega arith) (s.readers i) h
Step-Later k {s} i f (stop_waiting _ _ _ _) h =
    Later-keeps k s (record s { loop = stopped }) (omega arith) (s.readers i) h
Step-Later k {s} i f (store j a) h =
    Later-keeps k s (store_applied j s) (omega arith) (s.readers i) h
Step-Later k {s} i f (release j a) h =
    Later-keeps k s (trigger_applied j s) (omega arith) (s.readers i) h
Step-Later k {s} i f (fetch r e) h =
    at_other k s (set_reader r (fetched s.read_notifier) s) r i (fetched s.read_notifier)
      (omega arith) (λ m. ground (arith, f.counted, same_reader k s i r begun m e h)) h
Step-Later k {s} i f (send r nc e) h =
    at_other k s (send_wakeup r nc s) r i (blocked nc) (omega arith)
      (λ m. same_reader k s i r (fetched nc) m e h) h
Step-Later k {s} i f (wake r nc e c) h =
    at_other k s (set_reader r (returned (s.notifiers nc).failure) s) r i
      (returned (s.notifiers nc).failure) (omega arith)
      (λ m.
        rw (f.no_failure nc)
          (ground (arith, same_reader k s i r (blocked nc) m e h, closed_before s nc f c)))
      h
Step-Later k {s} i f (expire r nc e) h =
    at_other k s (set_reader r (returned (some deadline_exceeded)) s) r i
      (returned (some deadline_exceeded)) (omega arith) (λ m. tt) h
Step-Later k {s} i f (quit r nc e _) h =
    at_other k s (set_reader r (returned (some server_stopping)) s) r i
      (returned (some server_stopping)) (omega arith) (λ m. tt) h
Step-Later k {s} i f shut_down h =
    Later-keeps k s (record s { stopping = true }) (omega arith) (s.readers i) h

Run-Later :
    (k : ℕ) {s t : Server} (i : ℕ)
    → IsFit s
    → Run s t
    → Later k s (s.readers i)
    → Later k t (t.readers i)
Run-Later k i f now h = h
Run-Later k i f (step then run) h = Run-Later k i (Step-IsFit step f) run (Step-Later k i f step h)

-- A call of linearizableReadNotify that returns nil was confirmed by a round of the loop that began
-- after the call did: in every execution, when the call has not begun in one state and has returned
-- nil in a later one, the loop has started a round between the two.
pub confirmed_after_call :
    {s t : Server} (r : ℕ)
    → Run new_server s
    → s.readers r ≡ begun
    → Run s t
    → t.readers r ≡ returned none
    → s.req_id < t.req_id
unfolding Later
confirmed_after_call {s} {t} r before e run e' =
    subst (Later s.req_id t) e'
      (Run-Later s.req_id r (Run-IsFit before new_server-IsFit) run (rw e (omega arith)))
