-- ===== src/LinearRead/Rounds.antt =====
-- The invariant of the read loop, its readers and the apply thread.
pub mod LoopSteps
pub mod MoreLoopSteps
pub mod OtherSteps
use go_by_example.Prelude.{
  ℕ, ◌+◌, ◌≤◌, ◌<◌, ◌≡◌, ◌⊎◌, inl, inr, refl, Bool, true, false, Option, none, some, ltb, eqb,
  lookup, arith, comparable_number, Bool-cases, if◌then◌else◌, sym, ap, subst, eqb_iff,
}
use go_by_example.LinearRead.Deadlines.{ApplyWait, wait, trigger}
use go_by_example.LinearRead.Deadlines.Releases.{IsSound}
use go_by_example.LinearRead.Deadlines.Triggers.{
  trigger-IsSound, trigger-last, trigger-keeps, trigger-closes, trigger-stays_closed, wait-IsSound,
  wait_lem, wait-last,
}
use go_by_example.LinearRead.{
  ReadError, Notifier, new_notifier, Loop, idle, taken, stopped, holding, behind, ready, written,
  waiting, Applier, storing, triggering, finished, Reader, begun, fetched, blocked, returned,
  Server, new_server, set_notifier, set_reader, write_failure, close_notifier, take_wakeup,
  swap_notifier, load_applied, begin_wait, store_applied, trigger_applied, send_wakeup, Step, Run,
  take, swap, load, enter, leave, write, notify, stop_idle, stop_waiting, store, release, fetch,
  send, wake, expire, quit, shut_down, now, ◌then◌,
}

-- The loop has taken the notifier and not closed it yet.
abbrev pub Holds : Loop → ℕ → Type 0
Holds idle n = ⊥
Holds taken n = ⊥
Holds stopped n = ⊥
Holds (holding nr) n = nr ≡ n
Holds (behind nr) n = nr ≡ n
Holds (ready nr) n = nr ≡ n
Holds (written nr) n = nr ≡ n
Holds (waiting nr _) n = nr ≡ n

-- What the place of the loop says of the apply thread.
abbrev pub LoopFits : Loop → ApplyWait → ℕ → Type 0
LoopFits (ready _) w applied = 10 ≤ applied
LoopFits (written _) w applied = 10 ≤ applied
LoopFits (waiting _ ch) w applied =
    ((w.closed ch ≡ true) × (10 ≤ applied)) ⊎ ((w.last < 10) × (lookup 10 w.m ≡ some ch))
LoopFits _ w applied = Unit

abbrev pub ApplierFits : Applier → ℕ → ℕ → Type 0
ApplierFits (storing i) last applied = (last + 1 ≡ i) × (applied + 1 ≡ i) × (i ≤ 10)
ApplierFits (triggering i) last applied = (last + 1 ≡ i) × (applied ≡ i) × (i ≤ 10)
ApplierFits finished last applied = (last ≡ 10) × (applied ≡ 10)

-- The loop will see the notifier: it is closed, or held, or the next to be taken; a reader that
-- has sent its wakeup also knows that the loop is awake or has the wakeup to come.
abbrev pub Attended : Bool → Server → ℕ → Type 0
Attended sent s n =
    ((s.notifiers n).closed ≡ true)
    ⊎ Holds s.loop n
    ⊎ ((s.read_notifier ≡ n) × ((sent ≡ false) ⊎ (s.readwaitc ≡ true) ⊎ (s.loop ≡ taken)))
    ⊎ (s.loop ≡ stopped)

abbrev pub ReaderFits : Server → Reader → Type 0
ReaderFits s begun = Unit
ReaderFits s (fetched nc) = Attended false s nc
ReaderFits s (blocked nc) = Attended true s nc
ReaderFits s (returned none) = 10 ≤ s.applied_index
ReaderFits s (returned (some _)) = Unit

pub record IsFit (s : Server) : Type 0 where
  pub sound : IsSound s.apply_wait
  pub counted : (s.read_notifier ≡ s.req_id) × (s.made ≡ s.req_id + 1)
  pub unused : (n : ℕ) → s.read_notifier ≤ n → (s.notifiers n).closed ≡ false
  pub no_failure : (n : ℕ) → (s.notifiers n).failure ≡ none
  pub reached : (n : ℕ) → (s.notifiers n).closed ≡ true → 10 ≤ s.applied_index
  pub held : (n : ℕ) → Holds s.loop n → (n < s.read_notifier) × ((s.notifiers n).closed ≡ false)
  pub in_loop : LoopFits s.loop s.apply_wait s.applied_index
  pub in_applier : ApplierFits s.applier s.apply_wait.last s.applied_index
  pub in_reader : (r : ℕ) → ReaderFits s (s.readers r)
  pub calm : s.panicked ≡ false

pub new_server-IsFit : IsFit new_server
unfolding lookup
new_server-IsFit = record {
  sound = record {
    distinct = tt;
    apart = λ d e ch h h'. ground arith;
    is_open = λ d ch h. refl;
    is_made = λ d ch h. ground arith;
    made_first = λ ch h. refl;
    calm = refl;
  };
  counted = (refl, refl);
  unused = λ n h. refl;
  no_failure = λ n. refl;
  reached = λ n h. ground arith;
  held = λ n h. elim h [ ];
  in_loop = tt;
  in_applier = ground arith;
  in_reader = λ r. tt;
  calm = refl;
}

-- A reader is served after a step that keeps the notifiers attended and the applied index.
pub ReaderFits-keeps :
    (s s' : Server)
    → ((sent : Bool) (n : ℕ) → Attended sent s n → Attended sent s' n)
    → s.applied_index ≤ s'.applied_index
    → (v : Reader) → ReaderFits s v
    → ReaderFits s' v
ReaderFits-keeps s s' keeps le begun h = tt
ReaderFits-keeps s s' keeps le (fetched nc) h = keeps false nc h
ReaderFits-keeps s s' keeps le (blocked nc) h = keeps true nc h
ReaderFits-keeps s s' keeps le (returned none) h = omega arith
ReaderFits-keeps s s' keeps le (returned (some e)) h = tt

-- What the loop holds, from where it stands.
pub Holds-at : (l m : Loop) (n : ℕ) → l ≡ m → Holds l n → Holds m n
Holds-at l m n e h = subst (λ x. Holds x n) e h

-- The deadlines run behind the applied index.
pub ApplierFits-last :
    (a : Applier) (last applied : ℕ) → ApplierFits a last applied → 10 ≤ last → 10 ≤ applied
ApplierFits-last (storing i) last applied h le = omega arith
ApplierFits-last (triggering i) last applied h le = omega arith
ApplierFits-last finished last applied h le = omega arith
