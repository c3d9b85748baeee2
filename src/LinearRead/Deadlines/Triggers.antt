-- ===== src/LinearRead/Deadlines/Triggers.antt =====
-- Proofs about Wait and Trigger of applyWait: the channels that they make and close.
use go_by_example.Prelude.{
  ℕ, ◌≤◌, ◌<◌, ◌≡◌, ◌⊎◌, ◌↔◌, inl, inr, true, some, leb, eqb_iff, lookup, comparable_number, arith,
  lookup-insert, Option-cases, Bool-cases, insert-Distinct, Distinct-lookup, lookup-insert_self,
}
use go_by_example.LinearRead.Deadlines.{ApplyWait, close_chan, make_chan, register, wait, trigger}
use go_by_example.LinearRead.Deadlines.Releases.{
  IsSound, release_each-last, release_each-stays_closed, release_each-closes, release_each-IsSound,
  release_each-keeps, at_index,
}

pub trigger-IsSound : (t : ℕ) (w : ApplyWait) → IsSound w → IsSound (trigger t w)
unfolding trigger
trigger-IsSound t w s =
    release_each-IsSound t w.m (record w { last = t }) s.distinct (Distinct-lookup w.m s.distinct)
      (at_index t w s)

pub trigger-last : (t : ℕ) (w : ApplyWait) → (trigger t w).last ≡ t
unfolding trigger
trigger-last t w = release_each-last t w.m (record w { last = t })

pub trigger-keeps :
    (t d ch : ℕ) (w : ApplyWait)
    → t < d
    → lookup d w.m ≡ some ch
    → lookup d (trigger t w).m ≡ some ch
unfolding trigger
trigger-keeps t d ch w h l = release_each-keeps t d ch w.m (record w { last = t }) h l

pub trigger-closes :
    (t d ch : ℕ) (w : ApplyWait) → d ≤ t → lookup d w.m ≡ some ch → (trigger t w).closed ch ≡ true
unfolding trigger
trigger-closes t d ch w h l = release_each-closes t d ch w.m (record w { last = t }) l h

pub trigger-stays_closed :
    (t ch : ℕ) (w : ApplyWait) → w.closed ch ≡ true → (trigger t w).closed ch ≡ true
unfolding trigger
trigger-stays_closed t ch w h = release_each-stays_closed t w.m (record w { last = t }) ch h

pub wait-IsSound : (d : ℕ) (w : ApplyWait) → IsSound w → IsSound (wait d w).0
unfolding wait register make_chan close_chan
wait-IsSound d w s = elim (Bool-cases (leb d w.last)) [
  | inl e ↦
      rw (e, s.made_first w.made (omega arith))
        record {
          distinct = s.distinct;
          apart = s.apart;
          is_open = λ i k h. ground (arith, s.is_open i k, s.is_made i k);
          is_made = λ i k h. ground (arith, s.is_made i k);
          made_first = λ k h. ground (arith, s.made_first k);
          calm = s.calm;
        }
  | inr e ↦ elim (Option-cases (lookup d w.m)) [
    | inl none_yet ↦
        rw (e, none_yet)
          record {
            distinct = insert-Distinct d w.made w.m s.distinct;
            apart = λ i j k h k'. ground (
              arith,
              lookup-insert d i w.made w.m,
              lookup-insert d j w.made w.m,
              s.apart i j k,
              s.is_made i k,
              s.is_made j k,
              eqb_iff d i,
              eqb_iff d j,
            );
            is_open = λ i k h.
                ground (arith, lookup-insert d i w.made w.m, s.is_open i k, s.made_first w.made);
            is_made = λ i k h. ground (arith, lookup-insert d i w.made w.m, s.is_made i k);
            made_first = λ k h. ground (arith, s.made_first k);
            calm = s.calm;
          }
    | inr (ch, found) ↦ rw (e, found) s
  ]
]

-- Wait answers with a channel that is closed already, if the deadline is reached, or registered.
pub wait_lem :
    (d : ℕ) (w : ApplyWait)
    → ((d ≤ w.last) × ((wait d w).0.closed (wait d w).1 ≡ true))
      ⊎ ((w.last < d) × (lookup d (wait d w).0.m ≡ some (wait d w).1))
unfolding wait register make_chan close_chan
wait_lem d w = elim (Bool-cases (leb d w.last)) [
  | inl e ↦ inl (ground arith, ground arith)
  | inr e ↦ inr (
    ground arith,
    elim (Option-cases (lookup d w.m)) [
      | inl none_yet ↦ ground (arith, lookup-insert_self d w.made w.m)
      | inr (ch, found) ↦ ground arith
    ],
  )
]

pub wait-last : (d : ℕ) (w : ApplyWait) → (wait d w).0.last ≡ w.last
unfolding wait register make_chan close_chan
wait-last d w = ground arith

-- A channel that Wait answers with before its deadline is reached stays open until Trigger is
-- called with the deadline or more, and is closed by that call, and no call closes a channel
-- twice.
pub wait-trigger :
    (d t : ℕ) (w : ApplyWait)
    → IsSound w
    → w.last < d
    → (((trigger t (wait d w).0).closed (wait d w).1 ≡ true) ↔ (d ≤ t))
      × IsSound (trigger t (wait d w).0)
wait-trigger d t w s early =
    let w' = (wait d w).0 in
    let ch = (wait d w).1 in
    let s' = trigger-IsSound t w' (wait-IsSound d w s) in
    elim (wait_lem d w) [
      | inl (reached, _) ↦ ground arith
      | inr (_, l) ↦ (
        (
          λ h. elim (Bool-cases (leb d t)) [
            | inl e ↦ ground arith
            | inr e ↦ ground (arith, s'.is_open d ch, trigger-keeps t d ch w')
          ],
          λ h. trigger-closes t d ch w' h l,
        ),
        s',
      )
    ]
