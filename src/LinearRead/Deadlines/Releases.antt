-- ===== src/LinearRead/Deadlines/Releases.antt =====
-- What one round and all rounds of the loop of Trigger do to the channels.
use go_by_example.Prelude.{
  ℕ, ◌≤◌, ◌<◌, ◌≡◌, inl, inr, refl, true, false, none, some, [], ◌∷◌, leb, eqb, eqb_iff, Map,
  lookup, comparable_number, All, arith, lookup-delete, Bool-cases, Distinct, delete-Distinct,
  Distinct-lookup, All-both,
}
use go_by_example.LinearRead.Deadlines.{ApplyWait, close_chan, release, release_each}

-- The registered channels are different channels, made and open, and nothing has panicked.
pub record IsSound (w : ApplyWait) : Type 0 where
  pub distinct : Distinct w.m
  pub apart : (d e ch : ℕ) → lookup d w.m ≡ some ch → lookup e w.m ≡ some ch → d ≡ e
  pub is_open : (d ch : ℕ) → lookup d w.m ≡ some ch → w.closed ch ≡ false
  pub is_made : (d ch : ℕ) → lookup d w.m ≡ some ch → ch < w.made
  pub made_first : (ch : ℕ) → w.made ≤ ch → w.closed ch ≡ false
  pub calm : w.panicked ≡ false

-- What a round leaves as it is.
release-last : (t : ℕ) (p : ℕ × ℕ) (w : ApplyWait) → (release t p w).last ≡ w.last
unfolding release close_chan
release-last t p w = ground arith

pub release_each-last : (t : ℕ) (ps : Map ℕ ℕ) (w : ApplyWait) → (release_each t ps w).last ≡ w.last
unfolding release_each
release_each-last t [] w = refl
release_each-last t (p ∷ ps) w =
    ground (arith, release_each-last t ps (release t p w), release-last t p w)

release-stays_closed :
    (t : ℕ) (p : ℕ × ℕ) (w : ApplyWait) (ch : ℕ)
    → w.closed ch ≡ true
    → (release t p w).closed ch ≡ true
unfolding release close_chan
release-stays_closed t p w ch h = ground arith

pub release_each-stays_closed :
    (t : ℕ) (ps : Map ℕ ℕ) (w : ApplyWait) (ch : ℕ)
    → w.closed ch ≡ true
    → (release_each t ps w).closed ch ≡ true
unfolding release_each
release_each-stays_closed t [] w ch h = h
release_each-stays_closed t (p ∷ ps) w ch h =
    release_each-stays_closed t ps (release t p w) ch (release-stays_closed t p w ch h)

release-closes : (t d ch : ℕ) (w : ApplyWait) → d ≤ t → (release t (d, ch) w).closed ch ≡ true
unfolding release close_chan
release-closes t d ch w h = ground arith

-- Trigger closes the channel of a deadline that is reached.
pub release_each-closes :
    (t d ch : ℕ) (ps : Map ℕ ℕ) (w : ApplyWait)
    → lookup d ps ≡ some ch
    → d ≤ t
    → (release_each t ps w).closed ch ≡ true
unfolding release_each lookup
release_each-closes t d ch [] w l h = ground arith
release_each-closes t d ch (p ∷ ps) w l h = elim (Bool-cases (eqb p.0 d)) [
  | inl e ↦
      release_each-stays_closed t ps (release t p w) ch
        (ground (arith, release-closes t p.0 p.1 w, eqb_iff p.0 d))
  | inr e ↦ release_each-closes t d ch ps (release t p w) (ground arith) h
]

-- The map that a round of the loop meets still has the entries that are to come.
abbrev Mirrors : ApplyWait → Map ℕ ℕ → Type 0
Mirrors w = All (λ q. lookup q.0 w.m ≡ some q.1)

release-IsSound :
    (t d ch : ℕ) (w : ApplyWait)
    → IsSound w
    → lookup d w.m ≡ some ch
    → IsSound (release t (d, ch) w)
unfolding release close_chan
release-IsSound t d ch w s l = elim (Bool-cases (leb d t)) [
  | inl e ↦
      rw (e, s.is_open d ch l)
        record {
          distinct = delete-Distinct d w.m s.distinct;
          apart = λ i j k h k'.
              s.apart i j k (ground (arith, lookup-delete d i w.m))
                (ground (arith, lookup-delete d j w.m));
          is_open = λ i k h.
              ground (arith, lookup-delete d i w.m, s.is_open i k, s.apart i d ch, eqb_iff i d);
          is_made = λ i k h. ground (arith, lookup-delete d i w.m, s.is_made i k);
          made_first = λ k h. ground (arith, s.made_first k h, s.is_made d ch l);
          calm = s.calm;
        }
  | inr e ↦ rw e s
]

-- the entries that are to come after a round
release-Mirrors :
    (t : ℕ) (p : ℕ × ℕ) (ps : Map ℕ ℕ) (w : ApplyWait)
    → lookup p.0 ps ≡ none
    → Distinct ps
    → Mirrors w ps
    → Mirrors (release t p w) ps
unfolding release close_chan
release-Mirrors t p ps w absent d ms =
    All-both (λ q h i. ground (arith, lookup-delete p.0 q.0 w.m, eqb_iff p.0 q.0)) ps
      (Distinct-lookup ps d) ms

pub release_each-IsSound :
    (t : ℕ) (ps : Map ℕ ℕ) (w : ApplyWait)
    → Distinct ps
    → Mirrors w ps
    → IsSound w
    → IsSound (release_each t ps w)
unfolding release_each
release_each-IsSound t [] w d ms s = s
release_each-IsSound t (p ∷ ps) w d ms s =
    release_each-IsSound t ps (release t p w) d.1 (release-Mirrors t p ps w d.0 d.1 ms.1)
      (release-IsSound t p.0 p.1 w s ms.0)

release-keeps :
    (t i k : ℕ) (p : ℕ × ℕ) (w : ApplyWait)
    → t < i
    → lookup i w.m ≡ some k
    → lookup i (release t p w).m ≡ some k
unfolding release close_chan
release-keeps t i k p w h l = ground (arith, lookup-delete p.0 i w.m, eqb_iff p.0 i)

pub release_each-keeps :
    (t i k : ℕ) (ps : Map ℕ ℕ) (w : ApplyWait)
    → t < i
    → lookup i w.m ≡ some k
    → lookup i (release_each t ps w).m ≡ some k
unfolding release_each
release_each-keeps t i k [] w h l = l
release_each-keeps t i k (p ∷ ps) w h l =
    release_each-keeps t i k ps (release t p w) h (release-keeps t i k p w h l)

-- Setting the index leaves the channels as they are.
pub at_index : (t : ℕ) (w : ApplyWait) → IsSound w → IsSound (record w { last = t })
at_index t w s = record {
  distinct = s.distinct;
  apart = s.apart;
  is_open = s.is_open;
  is_made = s.is_made;
  made_first = s.made_first;
  calm = s.calm;
}
