-- ===== src/LinearRead/Tests.antt =====
-- One reader served in a run of the server, step by step, and the results at its states.
use go_by_example.Prelude.{
  ℕ, zero, suc, ap, sym, ◌∙◌, ◌+◌, ◌≤◌, ◌<◌, ◌≡◌, ◌≢◌, ◌⊎◌, refl, true, false, none, lookup,
  comparable_number, arith,
}
use go_by_example.LinearRead.Deadlines.{wait}
use go_by_example.LinearRead.{
  idle, taken, stopped, waiting, storing, finished, blocked, fetched, returned, Server, new_server,
  set_notifier, set_reader, take_wakeup, swap_notifier, load_applied, begin_wait, store_applied,
  trigger_applied, send_wakeup, confirmed_index, Run, now, ◌then◌, take, swap, load, enter, store,
  release, fetch, send,
}
use go_by_example.LinearRead.Rounds.{Holds}
use go_by_example.LinearRead.Reads.{read_after_apply, no_panic, no_lost_wakeup}
use go_by_example.LinearRead.Confirmed.{confirmed_after_call}
use go_by_example.LinearRead.Progress.{reader_is_served}
use go_by_example.LinearRead.Served.{joined}

abbrev called : Server
called = send_wakeup 0 0 (set_reader 0 (fetched 0) new_server)

abbrev entered : Server
entered = begin_wait 0 (load_applied 0 (swap_notifier (take_wakeup called)))

to_called : Run new_server called
unfolding set_reader send_wakeup
to_called = fetch 0 refl then send 0 0 refl then now

to_entered : Run new_server entered
unfolding set_reader send_wakeup take_wakeup swap_notifier load_applied begin_wait set_notifier
to_entered =
    fetch 0 refl
    then send 0 0 refl
    then take refl refl
    then swap refl
    then load 0 refl
    then enter 0 refl
    then now

advance : ℕ → Server → Server
advance i s = trigger_applied i (store_applied i s)

-- `n` rounds of the apply thread
all_applied : ℕ → ℕ → Server → Server
all_applied zero i s = s
all_applied (suc n) i s = all_applied n (i + 1) (advance i s)

-- What the apply thread does when it has `n` rounds to go.
record Applied (s t : Server) : Type 0 where
  run : Run s t
  ends : t.applier ≡ finished
  same_loop : t.loop ≡ s.loop
  same_notifier : t.read_notifier ≡ s.read_notifier
  same_readers : t.readers ≡ s.readers

advance-Run : (i : ℕ) (s : Server) → s.applier ≡ storing i → Run s (advance i s)
unfolding advance trigger_applied store_applied
advance-Run i s e = store i e then release i refl then now

all_applied_run :
    (n i : ℕ) (s : Server)
    → i + suc n ≡ 11
    → s.applier ≡ storing i
    → Applied s (all_applied (suc n) i s)
unfolding all_applied advance trigger_applied store_applied
all_applied_run zero i s e a = record {
  run = advance-Run i s a;
  ends = ground arith;
  same_loop = refl;
  same_notifier = refl;
  same_readers = refl;
}
all_applied_run (suc n) i s e a =
    let v = all_applied_run n (i + 1) (advance i s) (omega arith) (ground arith) in
    record {
      run = joined (advance-Run i s a) v.run;
      ends = v.ends;
      same_loop = v.same_loop;
      same_notifier = v.same_notifier;
      same_readers = v.same_readers;
    }

-- the loop waits, and then the apply thread runs to its end
abbrev applied : Server
applied = all_applied 10 1 entered

entered-Applied : Applied entered applied
unfolding begin_wait load_applied swap_notifier take_wakeup send_wakeup set_reader set_notifier
entered-Applied = all_applied_run 9 1 entered (omega arith) (refl)

waits : entered.loop ≡ waiting 0 0
unfolding lookup begin_wait load_applied swap_notifier wait take_wakeup send_wakeup set_reader
    set_notifier
waits = refl

-- a call that comes after the apply thread has finished
abbrev idle_after : Server
idle_after = all_applied 10 1 new_server

start-Applied : Applied new_server idle_after
start-Applied = all_applied_run 9 1 new_server (omega arith) refl

abbrev late : Server
late =
    send_wakeup 0 idle_after.read_notifier
      (set_reader 0 (fetched idle_after.read_notifier) idle_after)

to_late : Run new_server late
unfolding set_reader
to_late = joined start-Applied.run (
    fetch 0 (ap (λ f. f 0) start-Applied.same_readers)
    then send 0 idle_after.read_notifier refl
    then now)

late_ends : late.applier ≡ finished
unfolding send_wakeup set_reader
late_ends = start-Applied.ends

not_stopped : idle ≢ stopped
not_stopped e = cc

late_idle : late.loop ≢ stopped
unfolding send_wakeup set_reader
late_idle e = not_stopped (sym start-Applied.same_loop ∙ e)

late_blocked : late.readers 0 ≡ blocked idle_after.read_notifier
unfolding send_wakeup set_reader
late_blocked = refl

-- the same call, served
late_served : (t : Server) × Run late t × (t.readers 0 ≡ returned none)
late_served = reader_is_served 0 idle_after.read_notifier to_late late_ends late_idle late_blocked

abbrev served : Server
served = late_served.0

to_served : Run new_server served
to_served = joined to_late late_served.1

read_after_apply_example : confirmed_index ≤ served.applied_index
read_after_apply_example = read_after_apply 0 to_served late_served.2

no_panic_example : (served.panicked ≡ false) × (served.apply_wait.panicked ≡ false)
no_panic_example = no_panic to_served

no_lost_wakeup_example :
    Holds called.loop 0
    ⊎ ((called.read_notifier ≡ 0) × ((called.readwaitc ≡ true) ⊎ (called.loop ≡ taken)))
    ⊎ (called.loop ≡ stopped)
unfolding send_wakeup set_reader
no_lost_wakeup_example = no_lost_wakeup 0 0 to_called refl refl

confirmed_after_call_example : new_server.req_id < served.req_id
confirmed_after_call_example = confirmed_after_call 0 now refl to_served late_served.2

reader_is_served_example : (t : Server) × Run late t × (t.readers 0 ≡ returned none)
reader_is_served_example =
    reader_is_served 0 idle_after.read_notifier to_late late_ends late_idle late_blocked

below_ten : 0 < 10
below_ten = omega arith
