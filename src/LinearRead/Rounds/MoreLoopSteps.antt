-- ===== src/LinearRead/Rounds/MoreLoopSteps.antt =====
-- Loading the index, closing a notifier and stopping, and the invariant.
use go_by_example.Prelude.{
  ℕ, ◌≡◌, ◌≢◌, inl, inr, refl, Bool, true, ltb, arith, comparable_number, Bool-cases, sym,
}
use go_by_example.LinearRead.{
  Loop, idle, taken, stopped, holding, behind, ready, written, Server, set_notifier, close_notifier,
  load_applied, begin_wait, confirmed_index,
}
use go_by_example.LinearRead.Rounds.LoopSteps.{loop_fits}
use go_by_example.LinearRead.Rounds.{Holds, LoopFits, Attended, IsFit, ReaderFits-keeps, Holds-at}

-- from one place to another, with the same notifier
move-Attended :
    (s : Server) (m : Loop)
    → ((n : ℕ) → Holds s.loop n → Holds m n)
    → ((n : ℕ) → Holds m n → Holds s.loop n)
    → s.loop ≢ taken
    → s.loop ≢ stopped
    → LoopFits m s.apply_wait s.applied_index
    → IsFit s
    → (sent : Bool) (n : ℕ) → Attended sent s n
    → Attended sent (record s { loop = m }) n
unfolding begin_wait
move-Attended s m on back not_taken not_stopped fits f sent n h = ground (arith, on n)

move-IsFit :
    (s : Server) (m : Loop)
    → ((n : ℕ) → Holds s.loop n → Holds m n)
    → ((n : ℕ) → Holds m n → Holds s.loop n)
    → s.loop ≢ taken
    → s.loop ≢ stopped
    → LoopFits m s.apply_wait s.applied_index
    → IsFit s
    → IsFit (record s { loop = m })
unfolding begin_wait
move-IsFit s m on back not_taken not_stopped fits f = record {
  sound = f.sound;
  counted = f.counted;
  unused = f.unused;
  no_failure = f.no_failure;
  reached = f.reached;
  held = λ n h. f.held n (back n h);
  in_loop = fits;
  in_applier = f.in_applier;
  in_reader = λ r.
      ReaderFits-keeps s (record s { loop = m })
        (move-Attended s m on back not_taken not_stopped fits f) (omega arith) (s.readers r)
        (f.in_reader r);
  calm = f.calm;
}

holding_only : (s : Server) (nr : ℕ) → s.loop ≡ holding nr → (s.loop ≢ taken) × (s.loop ≢ stopped)
holding_only s nr l = (λ e. cc, λ e. cc)

pub load-IsFit : (s : Server) (nr : ℕ) → s.loop ≡ holding nr → IsFit s → IsFit (load_applied nr s)
unfolding load_applied
load-IsFit s nr l f = elim (Bool-cases (ltb s.applied_index confirmed_index)) [
  | inl e ↦ rw e (
      move-IsFit s (behind nr) (λ n h. Holds-at s.loop (holding nr) n l h)
        (λ n h. Holds-at (holding nr) s.loop n (sym l) h) (holding_only s nr l).0
        (holding_only s nr l).1 tt f)
  | inr e ↦ rw e (
      move-IsFit s (ready nr) (λ n h. Holds-at s.loop (holding nr) n l h)
        (λ n h. Holds-at (holding nr) s.loop n (sym l) h) (holding_only s nr l).0
        (holding_only s nr l).1 (ground arith) f)
]

closed_notifier : (nr : ℕ) (s : Server) → Server
unfolding set_notifier
closed_notifier nr s = record (set_notifier nr (record (s.notifiers nr) { closed = true }) s) {
  loop = idle;
}

closed-Attended :
    (s : Server) (nr : ℕ)
    → s.loop ≡ written nr
    → IsFit s
    → (sent : Bool) (n : ℕ) → Attended sent s n
    → Attended sent (closed_notifier nr s) n
unfolding closed_notifier set_notifier
closed-Attended s nr l f sent n h = ground (arith, Holds-at s.loop (written nr) n l)

closed-IsFit : (s : Server) (nr : ℕ) → s.loop ≡ written nr → IsFit s → IsFit (closed_notifier nr s)
unfolding closed_notifier set_notifier
closed-IsFit s nr l f = record {
  sound = f.sound;
  counted = f.counted;
  unused =
      λ n h. ground (arith, f.unused n, f.held nr (Holds-at (written nr) s.loop nr (sym l) refl));
  no_failure = λ n. ground (arith, f.no_failure n);
  reached = λ n h. ground (arith, f.reached n, loop_fits s (written nr) l f);
  held = λ n h. elim h [ ];
  in_loop = tt;
  in_applier = f.in_applier;
  in_reader = λ r.
      ReaderFits-keeps s (closed_notifier nr s) (closed-Attended s nr l f) (omega arith)
        (s.readers r) (f.in_reader r);
  calm = f.calm;
}

pub notify-IsFit :
    (s : Server) (nr : ℕ) → s.loop ≡ written nr → IsFit s → IsFit (close_notifier nr s)
unfolding close_notifier closed_notifier
notify-IsFit s nr l f =
    rw (f.held nr (Holds-at (written nr) s.loop nr (sym l) refl)).1 (closed-IsFit s nr l f)

stop-Attended :
    (s : Server)
    → IsFit s
    → (sent : Bool) (n : ℕ) → Attended sent s n
    → Attended sent (record s { loop = stopped }) n
unfolding begin_wait
stop-Attended s f sent n h = inr (inr (inr refl))

pub stop-IsFit : (s : Server) → IsFit s → IsFit (record s { loop = stopped })
unfolding begin_wait
stop-IsFit s f = record {
  sound = f.sound;
  counted = f.counted;
  unused = f.unused;
  no_failure = f.no_failure;
  reached = f.reached;
  held = λ n h. elim h [ ];
  in_loop = tt;
  in_applier = f.in_applier;
  in_reader = λ r.
      ReaderFits-keeps s (record s { loop = stopped }) (stop-Attended s f) (omega arith)
        (s.readers r) (f.in_reader r);
  calm = f.calm;
}
