-- ===== src/LinearRead/Progress.antt =====
-- Proofs about the steps of the loop after which a call that waits can return.
use go_by_example.Prelude.{
  ℕ, ◌≡◌, ◌≢◌, ◌∙◌, inl, inr, refl, true, none, arith, comparable_number, if◌then◌else◌, sym, subst,
  eqb_iff,
}
use go_by_example.LinearRead.{
  Loop, idle, taken, stopped, holding, behind, ready, written, waiting, finished, blocked, returned,
  Server, new_server, set_notifier, set_reader, take_wakeup, swap_notifier, Run, take, swap, wake,
  now, ◌then◌,
}
use go_by_example.LinearRead.Rounds.{Holds, Attended, ReaderFits, IsFit, Holds-at}
use go_by_example.LinearRead.Rounds.{new_server-IsFit}
use go_by_example.LinearRead.Reads.{Step-IsFit, Run-IsFit}
use go_by_example.LinearRead.Served.{Served, joined, from_holding, from_held}

-- The notifier `n` is closed after some steps that leave the readers where they are.
record Reached (s t : Server) (n : ℕ) : Type 0 where
  run : Run s t
  fit : IsFit t
  closes : (t.notifiers n).closed ≡ true
  same_reader : (i : ℕ) → t.readers i ≡ s.readers i

Served-Reached : {s t : Server} {n : ℕ} → Served s t n → Reached s t n
Served-Reached v = record {
  run = v.run;
  fit = v.fit;
  closes = v.closes;
  same_reader = v.same_reader;
}

Reached-after :
    {s t u : Server} {n : ℕ}
    → Run s t
    → ((i : ℕ) → t.readers i ≡ s.readers i)
    → Reached t u n
    → Reached s u n
Reached-after run r v = record {
  run = joined run v.run;
  fit = v.fit;
  closes = v.closes;
  same_reader = λ i. v.same_reader i ∙ r i;
}

from_taken :
    (s : Server)
    → IsFit s
    → s.applier ≡ finished
    → s.loop ≡ taken
    → (t : Server) × Reached s t s.read_notifier
unfolding swap_notifier set_notifier
from_taken s f a l =
    let (t, v) = from_holding (swap_notifier s) s.read_notifier (Step-IsFit (swap l) f) a refl in
    (t, Reached-after (swap l then now) (λ i. refl) (Served-Reached v))

from_idle :
    (s : Server)
    → IsFit s
    → s.applier ≡ finished
    → s.loop ≡ idle
    → s.readwaitc ≡ true
    → (t : Server) × Reached s t s.read_notifier
unfolding take_wakeup
from_idle s f a l w =
    let (t, v) = from_taken (take_wakeup s) (Step-IsFit (take l w) f) a refl in
    (t, Reached-after (take l w then now) (λ i. refl) v)

-- The loop first closes what it holds.
from_busy :
    (s : Server) (m : ℕ)
    → IsFit s
    → s.applier ≡ finished
    → Holds s.loop m
    → s.readwaitc ≡ true
    → (t : Server) × Reached s t s.read_notifier
from_busy s m f a h w =
    let (t, v) = from_held s.loop s m refl f a h in
    let (u, v') = from_idle t v.fit (v.same_applier ∙ a) v.is_idle (v.same_wakeup ∙ w) in
    (u, Reached-after v.run v.same_reader (subst (Reached t u) v.same_notifier v'))

from_wakeup :
    (l : Loop) (s : Server)
    → s.loop ≡ l
    → IsFit s
    → s.applier ≡ finished
    → l ≢ stopped
    → s.readwaitc ≡ true
    → (t : Server) × Reached s t s.read_notifier
from_wakeup idle s e f a ns w = from_idle s f a e w
from_wakeup taken s e f a ns w = from_taken s f a e
from_wakeup stopped s e f a ns w = elim (ns refl) [ ]
from_wakeup (holding m) s e f a ns w =
    from_busy s m f a (Holds-at (holding m) s.loop m (sym e) refl) w
from_wakeup (behind m) s e f a ns w =
    from_busy s m f a (Holds-at (behind m) s.loop m (sym e) refl) w
from_wakeup (ready m) s e f a ns w = from_busy s m f a (Holds-at (ready m) s.loop m (sym e) refl) w
from_wakeup (written m) s e f a ns w =
    from_busy s m f a (Holds-at (written m) s.loop m (sym e) refl) w
from_wakeup (waiting m ch) s e f a ns w =
    from_busy s m f a (Holds-at (waiting m ch) s.loop m (sym e) refl) w

from_Attended :
    (s : Server) (n : ℕ)
    → IsFit s
    → s.applier ≡ finished
    → s.loop ≢ stopped
    → Attended true s n
    → (t : Server) × Reached s t n
from_Attended s n f a ns h = elim h [
  | inl c ↦ (s, record { run = now; fit = f; closes = c; same_reader = λ i. refl })
  | inr h ↦ elim h [
    | inl held ↦ let (t, v) = from_held s.loop s n refl f a held in (t, Served-Reached v)
    | inr h ↦ elim h [
      | inl (e, awake) ↦ elim awake [
        | inl unsent ↦ ground arith
        | inr awake ↦ elim awake [
          | inl w ↦ let (t, v) = from_wakeup s.loop s refl f a ns w in (t, subst (Reached s t) e v)
          | inr l ↦ let (t, v) = from_taken s f a l in (t, subst (Reached s t) e v)
        ]
      ]
      | inr l ↦ elim (ns l) [ ]
    ]
  ]
]

-- Once the apply thread has finished, and while the loop has not stopped, a call that waits can be
-- served: some execution from there makes it return nil.
pub reader_is_served :
    {s : Server} (r nc : ℕ)
    → Run new_server s
    → s.applier ≡ finished
    → s.loop ≢ stopped
    → s.readers r ≡ blocked nc
    → (t : Server) × Run s t × (t.readers r ≡ returned none)
unfolding set_reader
reader_is_served {s} r nc run a ns e =
    let f = Run-IsFit run new_server-IsFit in
    let (t, v) = from_Attended s nc f a ns (subst (ReaderFits s) e (f.in_reader r)) in
    (
      set_reader r (returned (t.notifiers nc).failure) t,
      joined v.run (wake r nc (v.same_reader r ∙ e) v.closes then now),
      rw (v.fit.no_failure nc) (ground (arith, eqb_iff r r)),
    )
