-- ===== src/Metcd/Published.antt =====
-- What publishSnapshot sends to commitC in an execution of serveChannels.
use go_by_example.Prelude.{
  ℕ, ◌<◌, ◌≡◌, inl, inr, refl, ap, sym, subst, ◌∙◌, Bool, true, false, Option, none, some, List, [],
  ◌∷◌, ◌++◌, String, if◌then◌else◌, leb, arith, Option-cases, Bool-cases,
}
use mathlib.Core.List.{append_assoc, append-nil}
use go_by_example.Metcd.{
  Lib, RaftNode, Ready, Event, input, leave, ticker, stopped, ready, take_input, Input, proposal,
  conf_change, proposals_closed, conf_changes_closed, publish_snapshot, handle_ready, step, steps,
  stop, when,
}

-- as many nil values as there are numbers
unfoldable pub nils : List ℕ → List (Option (List String))
nils [] = []
nils (j ∷ js) = none ∷ nils js

unfoldable pub last_index : ℕ → List ℕ → ℕ
last_index i [] = i
last_index i (j ∷ js) = last_index j js

abbrev pub Ascending : ℕ → List ℕ → Type 0
Ascending i [] = Unit
Ascending i (j ∷ js) = (i < j) × Ascending j js

nils-append : (js ks : List ℕ) → nils (js ++ ks) ≡ nils js ++ nils ks
unfolding nils
nils-append [] ks = refl
nils-append (j ∷ js) ks = ap (◌∷◌ none) (nils-append js ks)

last_index-append :
    (i : ℕ) (js ks : List ℕ) → last_index i (js ++ ks) ≡ last_index (last_index i js) ks
unfolding last_index
last_index-append i [] ks = refl
last_index-append i (j ∷ js) ks = last_index-append j js ks

Ascending-append :
    (i : ℕ) (js ks : List ℕ)
    → Ascending i js
    → Ascending (last_index i js) ks
    → Ascending i (js ++ ks)
unfolding last_index
Ascending-append i [] ks h k = k
Ascending-append i (j ∷ js) ks h k = (h.0, Ascending-append j js ks h.1 k)

-- the node has published nil for each of these indices, which are above the ones before
pub record Published (js : List ℕ) (n m : RaftNode) : Type 0 where
  pub sent : m.commits ≡ n.commits ++ nils js
  pub moved : m.snapshot_index ≡ last_index n.snapshot_index js
  pub above : Ascending n.snapshot_index js

Published-append :
    (js ks : List ℕ) (n m k : RaftNode)
    → Published js n m
    → Published ks m k
    → Published (js ++ ks) n k
Published-append js ks n m k p q = record {
  sent =
      q.sent
      ∙ ap (λ cs. cs ++ nils ks) p.sent
      ∙ append_assoc n.commits (nils js) (nils ks)
      ∙ ap (λ cs. n.commits ++ cs) (sym (nils-append js ks));
  moved =
      q.moved ∙ ap (λ i. last_index i ks) p.moved ∙ sym (last_index-append n.snapshot_index js ks);
  above =
      Ascending-append n.snapshot_index js ks p.above (subst (λ i. Ascending i ks) p.moved q.above);
}

Published-nil :
    (n m : RaftNode)
    → m.commits ≡ n.commits
    → m.snapshot_index ≡ n.snapshot_index
    → Published [] n m
unfolding nils last_index
Published-nil n m e f = record { sent = e ∙ sym (append-nil n.commits); moved = f; above = tt }

module _ {X C E T P : Type 0} (etcd : Lib X C E T P) where
  -- the index of a snapshot that is not empty
  unfoldable pub told : Event C E T P → List ℕ
  told (input i) = []
  told leave = []
  told ticker = []
  told stopped = []
  told (ready rd) = if etcd.is_empty_snap rd.snapshot then [] else etcd.index rd.snapshot ∷ []

  -- the indices of the snapshots that are not empty, in the order in which raft hands them over
  unfoldable pub snapshot_indices : List (Event C E T P) → List ℕ
  unfolding told
  snapshot_indices [] = []
  snapshot_indices (e ∷ es) = told e ++ snapshot_indices es

  pub when-some :
      (test : Bool) (r s : RaftNode × X) → when etcd test r ≡ some s → (test ≡ true) × (r ≡ s)
  when-some true r s e = ground arith
  when-some false r s e = absurd (cc)

  handle_ready-Published :
      (rd : Ready E T P) (n : RaftNode) (x : X)
      → (handle_ready etcd rd n x).0.fatal ≡ false
      → Published (told (ready rd)) n (handle_ready etcd rd n x).0
  unfolding handle_ready publish_snapshot told nils last_index
  handle_ready-Published rd n x alive = elim (Bool-cases (etcd.is_empty_snap rd.snapshot)) [
    | inl e ↦ rw e (Published-nil n n refl refl)
    | inr e ↦ elim (Bool-cases (leb (etcd.index rd.snapshot) n.snapshot_index)) [
      | inl stale ↦ absurd (ground arith)
      | inr newer ↦ rw (e, newer) record { sent = refl; moved = refl; above = (ground arith, tt) }
    ]
  ]

  take_input-Published :
      (i : Input C) (n : RaftNode) (x : X) → Published [] n (take_input etcd i n x).0
  unfolding take_input
  take_input-Published (proposal p) n x = Published-nil n n refl refl
  take_input-Published (conf_change c) n x = Published-nil n _ refl refl
  take_input-Published proposals_closed n x = Published-nil n _ refl refl
  take_input-Published conf_changes_closed n x = Published-nil n _ refl refl

  step-Published :
      (e : Event C E T P) (n m : RaftNode) (x y : X)
      → step etcd e n x ≡ some (m, y)
      → m.fatal ≡ false
      → (n.fatal ≡ false) × Published (told e) n m
  unfolding step told
  step-Published (input i) n m x y e alive =
      let (can, same) = when-some _ (take_input etcd i n x) (m, y) e in
      (
        ground arith,
        subst (Published [] n) (ap (λ (r : RaftNode × X). r.0) same) (take_input-Published i n x),
      )
  step-Published leave n m x y e alive =
      (ground arith, Published-nil n m (ground arith) (ground arith))
  step-Published ticker n m x y e alive =
      (ground arith, Published-nil n m (ground arith) (ground arith))
  step-Published stopped n m x y e alive =
      let (can, same) = when-some _ (stop etcd n x) (m, y) e in
      (
        ground arith,
        subst (Published [] n) (ap (λ (r : RaftNode × X). r.0) same)
            (Published-nil n (stop etcd n x).0 refl refl),
      )
  step-Published (ready rd) n m x y e alive =
      let (can, same) = when-some _ (handle_ready etcd rd n x) (m, y) e in
      let same_node : (handle_ready etcd rd n x).0 ≡ m = ap (λ (r : RaftNode × X). r.0) same in
      (
        ground arith,
        subst (Published (told (ready rd)) n) same_node
            (handle_ready-Published rd n x (ap (λ k. k.fatal) same_node ∙ alive)),
      )

  -- In an execution that does not end in log.Fatalf, nil is published for every snapshot that is not
  -- empty, and for nothing else, and the indices of these snapshots go up.
  pub steps-Published :
      (es : List (Event C E T P)) (n m : RaftNode) (x y : X)
      → steps etcd es n x ≡ some (m, y)
      → m.fatal ≡ false
      → (n.fatal ≡ false) × Published (snapshot_indices es) n m
  unfolding steps snapshot_indices
  steps-Published [] n m x y e alive =
      (ground arith, Published-nil n m (ground arith) (ground arith))
  steps-Published (o ∷ es) n m x y e alive = elim (Option-cases (step etcd o n x)) [
    | inl ends ↦ absurd (ground arith)
    | inr ((k, z), stepped) ↦
        let (live, later) = steps-Published es k m z y (ground arith) alive in
        let (first, now) = step-Published o n k x z stepped live in
        (first, Published-append (told o) (snapshot_indices es) n k m now later)
  ]
