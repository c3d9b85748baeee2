-- ===== src/LinearRead/Rounds/OtherSteps.antt =====
-- The steps of the apply thread, the readers and main, and the invariant.
use go_by_example.Prelude.{
  ℕ, ◌≤◌, ◌≡◌, inl, inr, refl, Bool, true, false, none, some, ltb, eqb, arith, comparable_number,
  Bool-cases, subst,
}
use go_by_example.LinearRead.Deadlines.{ApplyWait, trigger}
use go_by_example.LinearRead.Deadlines.Triggers.{
  trigger-IsSound, trigger-last, trigger-keeps, trigger-closes, trigger-stays_closed,
}
use go_by_example.LinearRead.{
  ReadError, Loop, idle, taken, stopped, holding, behind, ready, written, waiting, Applier, storing,
  triggering, Reader, fetched, blocked, returned, Server, set_reader, begin_wait, store_applied,
  trigger_applied, send_wakeup,
}
use go_by_example.LinearRead.Rounds.{
  LoopFits, ApplierFits, Attended, ReaderFits, IsFit, ReaderFits-keeps,
}

applier_fits :
    (s : Server) (m : Applier)
    → s.applier ≡ m
    → IsFit s
    → ApplierFits m s.apply_wait.last s.applied_index
applier_fits s m a f = subst (λ x. ApplierFits x s.apply_wait.last s.applied_index) a f.in_applier

LoopFits-later : (l : Loop) (w : ApplyWait) (a b : ℕ) → a ≤ b → LoopFits l w a → LoopFits l w b
LoopFits-later (ready _) w a b le h = omega arith
LoopFits-later (written _) w a b le h = omega arith
LoopFits-later (waiting _ ch) w a b le h = ground arith
LoopFits-later idle w a b le h = tt
LoopFits-later taken w a b le h = tt
LoopFits-later stopped w a b le h = tt
LoopFits-later (holding _) w a b le h = tt
LoopFits-later (behind _) w a b le h = tt

LoopFits-trigger :
    (l : Loop) (w : ApplyWait) (i : ℕ) → i ≤ 10 → LoopFits l w i → LoopFits l (trigger i w) i
LoopFits-trigger (ready _) w i le h = h
LoopFits-trigger (written _) w i le h = h
LoopFits-trigger (waiting _ ch) w i le h = elim h [
  | inl (c, d) ↦ inl (trigger-stays_closed i ch w c, d)
  | inr (lt, m) ↦ elim (Bool-cases (ltb i 10)) [
    | inl e ↦ inr (ground (arith, trigger-last i w), trigger-keeps i 10 ch w (ground arith) m)
    | inr e ↦ inl (trigger-closes i 10 ch w (ground arith) m, ground arith)
  ]
]
LoopFits-trigger idle w i le h = tt
LoopFits-trigger taken w i le h = tt
LoopFits-trigger stopped w i le h = tt
LoopFits-trigger (holding _) w i le h = tt
LoopFits-trigger (behind _) w i le h = tt

store-Attended :
    (s : Server) (i : ℕ)
    → s.applier ≡ storing i
    → IsFit s
    → (sent : Bool) (n : ℕ) → Attended sent s n
    → Attended sent (store_applied i s) n
unfolding store_applied
store-Attended s i a f sent n h = h

pub store-IsFit : (s : Server) (i : ℕ) → s.applier ≡ storing i → IsFit s → IsFit (store_applied i s)
unfolding store_applied
store-IsFit s i a f = record {
  sound = f.sound;
  counted = f.counted;
  unused = f.unused;
  no_failure = f.no_failure;
  reached = λ n h. ground (arith, f.reached n, applier_fits s (storing i) a f);
  held = f.held;
  in_loop =
      LoopFits-later s.loop s.apply_wait s.applied_index i
        (ground (arith, applier_fits s (storing i) a f)) f.in_loop;
  in_applier = ground (arith, applier_fits s (storing i) a f);
  in_reader = λ r.
      ReaderFits-keeps s (store_applied i s) (store-Attended s i a f)
        (ground (arith, applier_fits s (storing i) a f)) (s.readers r) (f.in_reader r);
  calm = f.calm;
}

release-Attended :
    (s : Server) (i : ℕ)
    → s.applier ≡ triggering i
    → IsFit s
    → (sent : Bool) (n : ℕ) → Attended sent s n
    → Attended sent (trigger_applied i s) n
unfolding trigger_applied
release-Attended s i a f sent n h = h

pub release-IsFit :
    (s : Server) (i : ℕ) → s.applier ≡ triggering i → IsFit s → IsFit (trigger_applied i s)
unfolding trigger_applied
release-IsFit s i a f = record {
  sound = trigger-IsSound i s.apply_wait f.sound;
  counted = f.counted;
  unused = f.unused;
  no_failure = f.no_failure;
  reached = f.reached;
  held = f.held;
  in_loop =
      let (_, now_at, le) = applier_fits s (triggering i) a f in
      rw now_at (LoopFits-trigger s.loop s.apply_wait i le (rw (← now_at) f.in_loop));
  in_applier = elim (Bool-cases (ltb i 10)) [
    | inl e ↦ rw e (ground (arith, applier_fits s (triggering i) a f, trigger-last i s.apply_wait))
    | inr e ↦ rw e (ground (arith, applier_fits s (triggering i) a f, trigger-last i s.apply_wait))
  ];
  in_reader = λ r.
      ReaderFits-keeps s (trigger_applied i s) (release-Attended s i a f) (omega arith)
        (s.readers r) (f.in_reader r);
  calm = f.calm;
}

-- Only the place of reader `r` changes, and to one that fits.
at_reader :
    (s : Server) (r : ℕ) (v : Reader)
    → IsFit s
    → ReaderFits s v
    → (i : ℕ) → ReaderFits s ((set_reader r v s).readers i)
unfolding set_reader
at_reader s r v f h i = elim (Bool-cases (eqb i r)) [
  | inl e ↦ rw e h
  | inr e ↦ rw e (f.in_reader i)
]

set-Attended :
    (s : Server) (r : ℕ) (v : Reader)
    → ReaderFits s v
    → IsFit s
    → (sent : Bool) (n : ℕ) → Attended sent s n
    → Attended sent (set_reader r v s) n
unfolding set_reader
set-Attended s r v fits f sent n h = h

set-IsFit : (s : Server) (r : ℕ) (v : Reader) → ReaderFits s v → IsFit s → IsFit (set_reader r v s)
unfolding set_reader
set-IsFit s r v fits f = record {
  sound = f.sound;
  counted = f.counted;
  unused = f.unused;
  no_failure = f.no_failure;
  reached = f.reached;
  held = f.held;
  in_loop = f.in_loop;
  in_applier = f.in_applier;
  in_reader = λ i.
      ReaderFits-keeps s (set_reader r v s) (set-Attended s r v fits f) (omega arith)
        ((set_reader r v s).readers i) (at_reader s r v f fits i);
  calm = f.calm;
}

reader_fits : (s : Server) (r : ℕ) (v : Reader) → s.readers r ≡ v → IsFit s → ReaderFits s v
reader_fits s r v e f = subst (ReaderFits s) e (f.in_reader r)

pub fetch-IsFit : (s : Server) (r : ℕ) → IsFit s → IsFit (set_reader r (fetched s.read_notifier) s)
fetch-IsFit s r f = set-IsFit s r (fetched s.read_notifier) (inr (inr (inl (refl, inl refl)))) f

pub wake-IsFit :
    (s : Server) (r nc : ℕ)
    → (s.notifiers nc).closed ≡ true
    → IsFit s
    → IsFit (set_reader r (returned (s.notifiers nc).failure) s)
wake-IsFit s r nc c f = rw (f.no_failure nc) (set-IsFit s r (returned none) (f.reached nc c) f)

pub give_up-IsFit :
    (s : Server) (r : ℕ) (e : ReadError) → IsFit s → IsFit (set_reader r (returned (some e)) s)
give_up-IsFit s r e f = set-IsFit s r (returned (some e)) tt f

wakeup-Attended :
    (s : Server)
    → IsFit s
    → (sent : Bool) (n : ℕ) → Attended sent s n
    → Attended sent (record s { readwaitc = true }) n
unfolding begin_wait
wakeup-Attended s f sent n h = ground arith

wakeup-IsFit : (s : Server) → IsFit s → IsFit (record s { readwaitc = true })
unfolding begin_wait
wakeup-IsFit s f = record {
  sound = f.sound;
  counted = f.counted;
  unused = f.unused;
  no_failure = f.no_failure;
  reached = f.reached;
  held = f.held;
  in_loop = f.in_loop;
  in_applier = f.in_applier;
  in_reader = λ r.
      ReaderFits-keeps s (record s { readwaitc = true }) (wakeup-Attended s f) (omega arith)
        (s.readers r) (f.in_reader r);
  calm = f.calm;
}

sent_fits :
    (s : Server) (nc : ℕ) → Attended false s nc → Attended true (record s { readwaitc = true }) nc
sent_fits s nc h = ground arith

pub send-IsFit :
    (s : Server) (r nc : ℕ) → s.readers r ≡ fetched nc → IsFit s → IsFit (send_wakeup r nc s)
unfolding send_wakeup set_reader
send-IsFit s r nc e f =
    set-IsFit (record s { readwaitc = true }) r (blocked nc)
      (sent_fits s nc (reader_fits s r (fetched nc) e f)) (wakeup-IsFit s f)

shut_down-Attended :
    (s : Server)
    → IsFit s
    → (sent : Bool) (n : ℕ) → Attended sent s n
    → Attended sent (record s { stopping = true }) n
unfolding begin_wait
shut_down-Attended s f sent n h = h

pub shut_down-IsFit : (s : Server) → IsFit s → IsFit (record s { stopping = true })
unfolding begin_wait
shut_down-IsFit s f = record {
  sound = f.sound;
  counted = f.counted;
  unused = f.unused;
  no_failure = f.no_failure;
  reached = f.reached;
  held = f.held;
  in_loop = f.in_loop;
  in_applier = f.in_applier;
  in_reader = λ r.
      ReaderFits-keeps s (record s { stopping = true }) (shut_down-Attended s f) (omega arith)
        (s.readers r) (f.in_reader r);
  calm = f.calm;
}
