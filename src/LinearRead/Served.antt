-- ===== src/LinearRead/Served.antt =====
-- One round of the loop, from where it stands to where it has closed the notifier that it holds.
use go_by_example.Prelude.{
  ℕ, ◌≡◌, ◌∙◌, inl, inr, refl, true, none, ltb, arith, comparable_number, Bool-cases, if◌then◌else◌,
  sym, ap,
}
use go_by_example.LinearRead.Deadlines.{wait}
use go_by_example.LinearRead.{
  Loop, idle, taken, stopped, holding, behind, ready, written, waiting, finished, Server,
  set_notifier, write_failure, close_notifier, load_applied, begin_wait, Step, Run, confirmed_index,
  load, enter, leave, write, notify, now, ◌then◌,
}
use go_by_example.LinearRead.Rounds.{Holds, IsFit, Holds-at}
use go_by_example.LinearRead.Reads.{Step-IsFit, finished_closed}

pub joined : {s t u : Server} → Run s t → Run t u → Run s u
joined now r = r
joined (step then q) r = step then joined q r

-- What a round of the loop from `s` to `t` that closes the notifier `n` leaves.
pub record Served (s t : Server) (n : ℕ) : Type 0 where
  pub run : Run s t
  pub fit : IsFit t
  pub closes : (t.notifiers n).closed ≡ true
  pub is_idle : t.loop ≡ idle
  pub same_notifier : t.read_notifier ≡ s.read_notifier
  pub same_wakeup : t.readwaitc ≡ s.readwaitc
  pub same_applier : t.applier ≡ s.applier
  pub same_reader : (i : ℕ) → t.readers i ≡ s.readers i

-- A step of the loop before a round.
before :
    {s t u : Server} (n : ℕ)
    → Step s t
    → t.read_notifier ≡ s.read_notifier
    → t.readwaitc ≡ s.readwaitc
    → t.applier ≡ s.applier
    → ((i : ℕ) → t.readers i ≡ s.readers i)
    → Served t u n
    → Served s u n
before n step e w a r v = record {
  run = step then v.run;
  fit = v.fit;
  closes = v.closes;
  is_idle = v.is_idle;
  same_notifier = v.same_notifier ∙ e;
  same_wakeup = v.same_wakeup ∙ w;
  same_applier = v.same_applier ∙ a;
  same_reader = λ i. v.same_reader i ∙ r i;
}

from_written : (s : Server) (n : ℕ) → IsFit s → s.loop ≡ written n → (t : Server) × Served s t n
unfolding close_notifier set_notifier
from_written s n f l =
    let opened = f.held n (Holds-at (written n) s.loop n (sym l) refl) in
    (
      close_notifier n s,
      record {
        run = notify n l then now;
        fit = Step-IsFit (notify n l) f;
        closes = ground (arith, opened);
        is_idle = ground (arith, opened);
        same_notifier = ground (arith, opened);
        same_wakeup = ground (arith, opened);
        same_applier = ground (arith, opened);
        same_reader = λ i. ground (arith, opened);
      },
    )

from_ready : (s : Server) (n : ℕ) → IsFit s → s.loop ≡ ready n → (t : Server) × Served s t n
unfolding write_failure set_notifier
from_ready s n f l =
    let (t, v) = from_written (write_failure n none s) n (Step-IsFit (write n l) f) refl in
    (t, before n (write n l) refl refl refl (λ i. refl) v)

from_waiting :
    (s : Server) (n ch : ℕ)
    → IsFit s
    → s.applier ≡ finished
    → s.loop ≡ waiting n ch
    → (t : Server) × Served s t n
from_waiting s n ch f a l =
    let step = leave n ch l (finished_closed s n ch a l f) in
    let (t, v) = from_ready (record s { loop = ready n }) n (Step-IsFit step f) refl in
    (t, before n step refl refl refl (λ i. refl) v)

from_behind :
    (s : Server) (n : ℕ)
    → IsFit s
    → s.applier ≡ finished
    → s.loop ≡ behind n
    → (t : Server) × Served s t n
unfolding begin_wait
from_behind s n f a l =
    let (t, v) =
      from_waiting (begin_wait n s) n (wait confirmed_index s.apply_wait).1
        (Step-IsFit (enter n l) f) a refl in
    (t, before n (enter n l) refl refl refl (λ i. refl) v)

pub from_holding :
    (s : Server) (n : ℕ)
    → IsFit s
    → s.applier ≡ finished
    → s.loop ≡ holding n
    → (t : Server) × Served s t n
unfolding load_applied
from_holding s n f a l =
    let f' = Step-IsFit (load n l) f in
    elim (Bool-cases (ltb s.applied_index confirmed_index)) [
      | inl e ↦
          let (t, v) = from_behind (load_applied n s) n f' a (rw e refl) in
          (t, before n (load n l) refl refl refl (λ i. refl) v)
      | inr e ↦
          let (t, v) = from_ready (load_applied n s) n f' (rw e refl) in
          (t, before n (load n l) refl refl refl (λ i. refl) v)
    ]

-- a round from the place where the loop stands
pub from_held :
    (l : Loop) (s : Server) (n : ℕ)
    → s.loop ≡ l
    → IsFit s
    → s.applier ≡ finished
    → Holds l n
    → (t : Server) × Served s t n
from_held idle s n e f a h = elim h [ ]
from_held taken s n e f a h = elim h [ ]
from_held stopped s n e f a h = elim h [ ]
from_held (holding m) s n e f a h = from_holding s n f a (e ∙ ap holding h)
from_held (behind m) s n e f a h = from_behind s n f a (e ∙ ap behind h)
from_held (ready m) s n e f a h = from_ready s n f (e ∙ ap ready h)
from_held (written m) s n e f a h = from_written s n f (e ∙ ap written h)
from_held (waiting m ch) s n e f a h = from_waiting s n ch f a (e ∙ ap (λ x. waiting x ch) h)
