-- ===== src/LinearRead/Rounds/LoopSteps.antt =====
-- The steps of linearizableReadLoop and the invariant.
use go_by_example.Prelude.{
  ℕ, ◌≤◌, ◌≡◌, inl, inr, Bool, true, none, arith, comparable_number, sym, subst,
}
use go_by_example.LinearRead.Deadlines.Triggers.{wait-IsSound, wait_lem, wait-last}
use go_by_example.LinearRead.{
  Loop, idle, taken, behind, ready, waiting, Server, set_notifier, write_failure, take_wakeup,
  swap_notifier, begin_wait, confirmed_index,
}
use go_by_example.LinearRead.Rounds.{
  LoopFits, Attended, IsFit, ReaderFits-keeps, Holds-at, ApplierFits-last,
}

take-Attended :
    (s : Server)
    → s.loop ≡ idle
    → s.readwaitc ≡ true
    → IsFit s
    → (sent : Bool) (n : ℕ) → Attended sent s n
    → Attended sent (take_wakeup s) n
unfolding take_wakeup
take-Attended s l w f sent n h = ground (arith, Holds-at s.loop idle n l)

pub take-IsFit : (s : Server) → s.loop ≡ idle → s.readwaitc ≡ true → IsFit s → IsFit (take_wakeup s)
unfolding take_wakeup
take-IsFit s l w f = record {
  sound = f.sound;
  counted = f.counted;
  unused = f.unused;
  no_failure = f.no_failure;
  reached = f.reached;
  held = λ n h. elim h [ ];
  in_loop = tt;
  in_applier = f.in_applier;
  in_reader = λ r.
      ReaderFits-keeps s (take_wakeup s) (take-Attended s l w f) (omega arith) (s.readers r)
        (f.in_reader r);
  calm = f.calm;
}

swap-Attended :
    (s : Server)
    → s.loop ≡ taken
    → IsFit s
    → (sent : Bool) (n : ℕ) → Attended sent s n
    → Attended sent (swap_notifier s) n
unfolding swap_notifier set_notifier
swap-Attended s l f sent n h = ground (arith, Holds-at s.loop taken n l, f.unused n, f.counted)

pub swap-IsFit : (s : Server) → s.loop ≡ taken → IsFit s → IsFit (swap_notifier s)
unfolding swap_notifier set_notifier
swap-IsFit s l f = record {
  sound = f.sound;
  counted = ground (arith, f.counted);
  unused = λ n h. ground (arith, f.unused n, f.counted);
  no_failure = λ n. ground (arith, f.no_failure n);
  reached = λ n h. ground (arith, f.reached n);
  held = λ n h. ground (arith, f.unused n, f.counted);
  in_loop = tt;
  in_applier = f.in_applier;
  in_reader = λ r.
      ReaderFits-keeps s (swap_notifier s) (swap-Attended s l f) (omega arith) (s.readers r)
        (f.in_reader r);
  calm = f.calm;
}

-- the deadline is reached only after the applied index
last_reached : (s : Server) → IsFit s → 10 ≤ s.apply_wait.last → 10 ≤ s.applied_index
last_reached s f h = ApplierFits-last s.applier s.apply_wait.last s.applied_index f.in_applier h

enter-Attended :
    (s : Server) (nr : ℕ)
    → s.loop ≡ behind nr
    → IsFit s
    → (sent : Bool) (n : ℕ) → Attended sent s n
    → Attended sent (begin_wait nr s) n
unfolding begin_wait
enter-Attended s nr l f sent n h = ground (arith, Holds-at s.loop (behind nr) n l)

pub enter-IsFit : (s : Server) (nr : ℕ) → s.loop ≡ behind nr → IsFit s → IsFit (begin_wait nr s)
unfolding begin_wait
enter-IsFit s nr l f = record {
  sound = wait-IsSound confirmed_index s.apply_wait f.sound;
  counted = f.counted;
  unused = f.unused;
  no_failure = f.no_failure;
  reached = f.reached;
  held = λ n h. f.held n (Holds-at (behind nr) s.loop n (sym l) h);
  in_loop = elim (wait_lem confirmed_index s.apply_wait) [
    | inl (le, c) ↦ inl (c, last_reached s f le)
    | inr (lt, m) ↦ inr (ground (arith, wait-last confirmed_index s.apply_wait), m)
  ];
  in_applier = rw (wait-last confirmed_index s.apply_wait) f.in_applier;
  in_reader = λ r.
      ReaderFits-keeps s (begin_wait nr s) (enter-Attended s nr l f) (omega arith) (s.readers r)
        (f.in_reader r);
  calm = f.calm;
}

pub loop_fits :
    (s : Server) (m : Loop) → s.loop ≡ m → IsFit s → LoopFits m s.apply_wait s.applied_index
loop_fits s m l f = subst (λ x. LoopFits x s.apply_wait s.applied_index) l f.in_loop

leave_reached :
    (s : Server) (nr ch : ℕ)
    → s.loop ≡ waiting nr ch
    → s.apply_wait.closed ch ≡ true
    → IsFit s
    → 10 ≤ s.applied_index
leave_reached s nr ch l c f = elim (loop_fits s (waiting nr ch) l f) [
  | inl (c', le) ↦ le
  | inr (lt, m) ↦ ground (arith, f.sound.is_open 10 ch)
]

leave-Attended :
    (s : Server) (nr ch : ℕ)
    → s.loop ≡ waiting nr ch
    → s.apply_wait.closed ch ≡ true
    → IsFit s
    → (sent : Bool) (n : ℕ) → Attended sent s n
    → Attended sent (record s { loop = ready nr }) n
unfolding begin_wait
leave-Attended s nr ch l c f sent n h = ground (arith, Holds-at s.loop (waiting nr ch) n l)

pub leave-IsFit :
    (s : Server) (nr ch : ℕ)
    → s.loop ≡ waiting nr ch
    → s.apply_wait.closed ch ≡ true
    → IsFit s
    → IsFit (record s { loop = ready nr })
unfolding begin_wait
leave-IsFit s nr ch l c f = record {
  sound = f.sound;
  counted = f.counted;
  unused = f.unused;
  no_failure = f.no_failure;
  reached = f.reached;
  held = λ n h. f.held n (Holds-at (waiting nr ch) s.loop n (sym l) h);
  in_loop = leave_reached s nr ch l c f;
  in_applier = f.in_applier;
  in_reader = λ r.
      ReaderFits-keeps s (record s { loop = ready nr }) (leave-Attended s nr ch l c f) (omega arith)
        (s.readers r) (f.in_reader r);
  calm = f.calm;
}

write-Attended :
    (s : Server) (nr : ℕ)
    → s.loop ≡ ready nr
    → IsFit s
    → (sent : Bool) (n : ℕ) → Attended sent s n
    → Attended sent (write_failure nr none s) n
unfolding write_failure set_notifier
write-Attended s nr l f sent n h = ground (arith, Holds-at s.loop (ready nr) n l)

pub write-IsFit :
    (s : Server) (nr : ℕ) → s.loop ≡ ready nr → IsFit s → IsFit (write_failure nr none s)
unfolding write_failure set_notifier
write-IsFit s nr l f = record {
  sound = f.sound;
  counted = f.counted;
  unused = λ n h. ground (arith, f.unused n);
  no_failure = λ n. ground (arith, f.no_failure n);
  reached = λ n h. ground (arith, f.reached n);
  held = λ n h. ground (arith, f.held n (Holds-at (ready nr) s.loop n (sym l) h));
  in_loop = loop_fits s (ready nr) l f;
  in_applier = f.in_applier;
  in_reader = λ r.
      ReaderFits-keeps s (write_failure nr none s) (write-Attended s nr l f) (omega arith)
        (s.readers r) (f.in_reader r);
  calm = f.calm;
}
