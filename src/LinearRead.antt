-- ===== src/LinearRead.antt =====
-- etcd/linearizable-read-demo/main.go: readers that wait for one shared loop, the loop, and the
-- apply thread, as a step relation on the memory that they share. A step is one atomic action of
-- one goroutine; a guard of `Step` is what the goroutine waits for.
pub mod Deadlines
pub mod Rounds
pub mod Reads
pub mod Confirmed
pub mod Served
pub mod Progress
mod Tests
use go_by_example.Prelude.{
  ℕ, ◌+◌, ◌≡◌, Bool, true, false, Option, none, some, if◌then◌else◌, ltb, eqb,
}
use Deadlines.{ApplyWait, new_apply_wait, wait, trigger}

pub data ReadError : Type 0 where
  deadline_exceeded server_stopping : ReadError

pub record Notifier : Type 0 where
  pub closed : Bool
  pub failure : Option ReadError

abbrev pub new_notifier : Notifier
new_notifier = record { closed = false; failure = none }

-- Where linearizableReadLoop stands, with the notifier `nr` that it took.
pub data Loop : Type 0 where
  idle taken stopped : Loop
  holding behind ready written : ℕ → Loop
  waiting : ℕ → ℕ → Loop

-- Where the apply goroutine of main stands, with its `i`.
pub data Applier : Type 0 where
  storing triggering : ℕ → Applier
  finished : Applier

-- Where a call of linearizableReadNotify stands, with the notifier `nc` that it read.
pub data Reader : Type 0 where
  begun : Reader
  fetched blocked : ℕ → Reader
  returned : Option ReadError → Reader

-- A notifier is a number of the heap `notifiers`, of which `made` are in use; any number of
-- readers may call.
pub record Server : Type 0 where
  pub notifiers : ℕ → Notifier
  pub made : ℕ
  pub read_notifier : ℕ
  -- the one place of the channel readwaitc is taken
  pub readwaitc : Bool
  pub stopping : Bool
  pub apply_wait : ApplyWait
  pub applied_index : ℕ
  pub req_id : ℕ
  pub loop : Loop
  pub applier : Applier
  pub readers : ℕ → Reader
  pub panicked : Bool

abbrev pub confirmed_index : ℕ
confirmed_index = 10

abbrev pub new_server : Server
new_server = record {
  notifiers = λ (i : ℕ). new_notifier;
  made = 1;
  read_notifier = 0;
  readwaitc = false;
  stopping = false;
  apply_wait = new_apply_wait;
  applied_index = 0;
  req_id = 0;
  loop = idle;
  applier = storing 1;
  readers = λ (i : ℕ). begun;
  panicked = false;
}

unfoldable pub set_notifier : ℕ → Notifier → Server → Server
set_notifier n v s = record s { notifiers = λ (i : ℕ). if eqb i n then v else s.notifiers i }

unfoldable pub set_reader : ℕ → Reader → Server → Server
set_reader r v s = record s { readers = λ (i : ℕ). if eqb i r then v else s.readers i }

-- the two halves of notify
unfoldable pub write_failure : ℕ → Option ReadError → Server → Server
unfolding set_notifier
write_failure nr e s = record (set_notifier nr (record (s.notifiers nr) { failure = e }) s) {
  loop = written nr;
}

unfoldable pub close_notifier : ℕ → Server → Server
unfolding set_notifier
close_notifier nr s =
    if (s.notifiers nr).closed
    then record s { panicked = true; loop = stopped }
    else record (set_notifier nr (record (s.notifiers nr) { closed = true }) s) { loop = idle }

unfoldable pub take_wakeup : Server → Server
take_wakeup s = record s { readwaitc = false; loop = taken }

unfoldable pub swap_notifier : Server → Server
unfolding set_notifier
swap_notifier s = record (set_notifier s.made new_notifier s) {
  req_id = s.req_id + 1;
  made = s.made + 1;
  read_notifier = s.made;
  loop = holding s.read_notifier;
}

unfoldable pub load_applied : ℕ → Server → Server
load_applied nr s = record s {
  loop = if ltb s.applied_index confirmed_index then behind nr else ready nr;
}

unfoldable pub begin_wait : ℕ → Server → Server
begin_wait nr s = record s {
  apply_wait = (wait confirmed_index s.apply_wait).0;
  loop = waiting nr (wait confirmed_index s.apply_wait).1;
}

unfoldable pub store_applied : ℕ → Server → Server
store_applied i s = record s { applied_index = i; applier = triggering i }

unfoldable pub trigger_applied : ℕ → Server → Server
trigger_applied i s = record s {
  apply_wait = trigger i s.apply_wait;
  applier = if ltb i 10 then storing (i + 1) else finished;
}

unfoldable pub send_wakeup : ℕ → ℕ → Server → Server
unfolding set_reader
send_wakeup r nc s = record (set_reader r (blocked nc) s) { readwaitc = true }

pub data Step : Server → Server → Type 0 where
  -- linearizableReadLoop
  take : {s : Server} → s.loop ≡ idle → s.readwaitc ≡ true → Step s (take_wakeup s)
  swap : {s : Server} → s.loop ≡ taken → Step s (swap_notifier s)
  load : {s : Server} (nr : ℕ) → s.loop ≡ holding nr → Step s (load_applied nr s)
  enter : {s : Server} (nr : ℕ) → s.loop ≡ behind nr → Step s (begin_wait nr s)
  leave :
      {s : Server} (nr ch : ℕ)
      → s.loop ≡ waiting nr ch
      → s.apply_wait.closed ch ≡ true
      → Step s (record s { loop = ready nr })
  write : {s : Server} (nr : ℕ) → s.loop ≡ ready nr → Step s (write_failure nr none s)
  notify : {s : Server} (nr : ℕ) → s.loop ≡ written nr → Step s (close_notifier nr s)
  stop_idle :
      {s : Server} → s.loop ≡ idle → s.stopping ≡ true → Step s (record s { loop = stopped })
  stop_waiting :
      {s : Server} (nr ch : ℕ)
      → s.loop ≡ waiting nr ch
      → s.stopping ≡ true
      → Step s (record s { loop = stopped })
  -- the apply goroutine
  store : {s : Server} (i : ℕ) → s.applier ≡ storing i → Step s (store_applied i s)
  release : {s : Server} (i : ℕ) → s.applier ≡ triggering i → Step s (trigger_applied i s)
  -- linearizableReadNotify, of reader `r`
  fetch :
      {s : Server} (r : ℕ) → s.readers r ≡ begun → Step s (set_reader r (fetched s.read_notifier) s)
  send : {s : Server} (r nc : ℕ) → s.readers r ≡ fetched nc → Step s (send_wakeup r nc s)
  wake :
      {s : Server} (r nc : ℕ)
      → s.readers r ≡ blocked nc
      → (s.notifiers nc).closed ≡ true
      → Step s (set_reader r (returned (s.notifiers nc).failure) s)
  expire :
      {s : Server} (r nc : ℕ)
      → s.readers r ≡ blocked nc
      → Step s (set_reader r (returned (some deadline_exceeded)) s)
  quit :
      {s : Server} (r nc : ℕ)
      → s.readers r ≡ blocked nc
      → s.stopping ≡ true
      → Step s (set_reader r (returned (some server_stopping)) s)
  -- the end of main
  shut_down : {s : Server} → Step s (record s { stopping = true })

-- the states that an execution passes
infixr 30 ◌then◌
pub data Run : Server → Server → Type 0 where
  now : {s : Server} → Run s s
  ◌then◌ : {s t u : Server} → Step s t → Run t u → Run s u
