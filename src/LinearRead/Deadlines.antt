-- ===== src/LinearRead/Deadlines.antt =====
-- applyWait of etcd/linearizable-read-demo/main.go: channels that Trigger closes once the applied
-- index reaches their deadline. A channel is a number of this object's own heap.
pub mod Releases
pub mod Triggers
use go_by_example.Prelude.{
  ℕ, ◌+◌, Bool, true, false, Option, none, some, List, [], ◌∷◌, if◌then◌else◌, leb, eqb, Map,
  lookup, insert, delete, comparable_number,
}

pub record ApplyWait : Type 0 where
  pub last : ℕ
  pub m : Map ℕ ℕ
  -- which of the channels that were made are closed
  pub closed : ℕ → Bool
  pub made : ℕ
  -- a second close of a channel panics
  pub panicked : Bool

abbrev pub new_apply_wait : ApplyWait
new_apply_wait = record { last = 0; m = []; closed = λ (ch : ℕ). false; made = 0; panicked = false }

unfoldable pub close_chan : ℕ → ApplyWait → ApplyWait
close_chan ch w =
    if w.closed ch
    then record w { panicked = true }
    else record w { closed = λ (i : ℕ). if eqb i ch then true else w.closed i }

make_chan : ApplyWait → ApplyWait × ℕ
make_chan w = (record w { made = w.made + 1 }, w.made)

register : ℕ → ApplyWait → Option ℕ → ApplyWait × ℕ
unfolding make_chan
register deadline w (some ch) = (w, ch)
register deadline w none =
    (record (make_chan w).0 { m = insert deadline w.made w.m }, (make_chan w).1)

-- Wait, with the channel that it answers with
unfoldable pub wait : ℕ → ApplyWait → ApplyWait × ℕ
unfolding close_chan make_chan register
wait deadline w =
    if leb deadline w.last
    then (close_chan w.made (make_chan w).0, (make_chan w).1)
    else register deadline w (lookup deadline w.m)

-- one round of the loop of Trigger
release : ℕ → ℕ × ℕ → ApplyWait → ApplyWait
unfolding close_chan
release deadline p w =
    if leb p.0 deadline then close_chan p.1 (record w { m = delete p.0 w.m }) else w

pub release_each : ℕ → Map ℕ ℕ → ApplyWait → ApplyWait
unfolding release
release_each deadline [] w = w
release_each deadline (p ∷ ps) w = release_each deadline ps (release deadline p w)

unfoldable pub trigger : ℕ → ApplyWait → ApplyWait
unfolding release_each
trigger deadline w = release_each deadline w.m (record w { last = deadline })
