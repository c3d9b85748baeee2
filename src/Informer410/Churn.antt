-- ===== src/Informer410/Churn.antt =====
-- What the churn leaves on the server.
use go_by_example.Prelude.{
  ℕ, zero, suc, ◌+◌, ◌%◌, ◌^◌, ◌≤◌, ◌<◌, ◌≡◌, ◌≢◌, refl, ap, sym, ◌∙◌, inl, inr, true, Option, none,
  some, [], eqb, lookup, insert, lookup-insert_self, Result, ok, err, arith, Bool-cases, subst,
}
use go_by_example.Prelude.Texts.{Text, codes, comparable_text}
use go_by_example.Informer410.Names.{churn_name-ne}
use go_by_example.Informer410.{
  ConfigMap, Got, found, not_found, get_failed, Deleted, deleted, missing, delete_failed, Api,
  Failure, demo_label_key, demo_label_value, next, checked_delete, churn_name, churn_value, fresh,
  changed, write_got, create_or_update, delete_odd, churn_from, churn_config_maps,
}

-- the server's view of a name
abbrev pub View : Type 0 → Type 0
View S = S → Text → Option ConfigMap

-- the contents that a write gives; the server sets the rest
abbrev pub Same : ConfigMap → ConfigMap → Type 0
Same c d = (c.labels ≡ d.labels) × (c.entries ≡ d.entries)

-- The documented behaviour of the server where no other client writes.
pub record ApiLaws {S : Type 0} (api : Api S) (view : View S) : Type 0 where
  pub got : (n m : Text) (s : S) → view (api.get n s).0 m ≡ view s m
  pub created :
      (n : Text) (cm : ConfigMap) (s : S)
      → (api.create n cm s).1 ≡ true
      → (c : ConfigMap) × (view (api.create n cm s).0 n ≡ some c) × Same c cm
  pub created_others :
      (n m : Text) (cm : ConfigMap) (s : S) → n ≢ m → view (api.create n cm s).0 m ≡ view s m
  pub updated :
      (n : Text) (cm : ConfigMap) (s : S)
      → (api.update n cm s).1 ≡ true
      → (c : ConfigMap) × (view (api.update n cm s).0 n ≡ some c) × Same c cm
  pub updated_others :
      (n m : Text) (cm : ConfigMap) (s : S) → n ≢ m → view (api.update n cm s).0 m ≡ view s m
  pub removed :
      (n : Text) (s : S) → (api.delete n s).1 ≢ delete_failed → view (api.delete n s).0 n ≡ none
  pub removed_others : (n m : Text) (s : S) → n ≢ m → view (api.delete n s).0 m ≡ view s m

-- a config map of the demo with its label and the value
abbrev pub Demo : Text → Option ConfigMap → Type 0
Demo v o =
    (c : ConfigMap) × (o ≡ some c)
    × (lookup demo_label_key c.labels ≡ some demo_label_value)
    × (lookup (codes "value") c.entries ≡ some v)

-- what a round leaves of its name
abbrev pub Left : {S : Type 0} → View S → ℕ → S → Type 0
Left view j s =
    (j % 2 ≡ 1 → view s (churn_name j) ≡ none)
    × (j % 2 ≡ 0 → Demo (churn_value j) (view s (churn_name j)))

abbrev nothing : ConfigMap
nothing = record { labels = []; entries = []; resource_version = [] }

module _ {S : Type 0} where
  next_ok :
      {A B : Type 0} (x : S × Result Failure A) (f : A → S → S × Result Failure B) (b : B)
      → (next x f).1 ≡ ok b
      → (a : A) × (x.1 ≡ ok a) × (next x f ≡ f a x.0)
  next_ok (s, ok a) f b e = (a, refl, refl)
  next_ok (s, err c) f b e = absurd (cc)

  checked_delete_ok : (x : S × Deleted) → (checked_delete x).1 ≡ ok tt → x.1 ≢ delete_failed
  checked_delete_ok (s, deleted) e k = absurd (cc)
  checked_delete_ok (s, missing) e k = absurd (cc)
  checked_delete_ok (s, delete_failed) e k = absurd (cc)

  state-checked_delete : (x : S × Deleted) → (checked_delete x).0 ≡ x.0
  state-checked_delete (s, deleted) = refl
  state-checked_delete (s, missing) = refl
  state-checked_delete (s, delete_failed) = refl

module _ {S : Type 0} (api : Api S) (view : View S) (laws : ApiLaws api view) where
  written :
      (v : Text) (cm : ConfigMap) (o : Option ConfigMap)
      → (c : ConfigMap) × (o ≡ some c) × Same c (changed v cm)
      → Demo v o
  written v cm o (c, is_c, (labels, entries)) = (
    c,
    is_c,
    ap (λ m. lookup demo_label_key m) labels
        ∙ lookup-insert_self demo_label_key demo_label_value cm.labels,
    ap (λ m. lookup (codes "value") m) entries ∙ lookup-insert_self (codes "value") v cm.entries,
  )

  write_got-Demo :
      (n v : Text) (x : S × Got)
      → (write_got api n v x).1 ≡ ok tt
      → Demo v (view (write_got api n v x).0 n)
  unfolding insert
  write_got-Demo n v (s, found cm) e =
      written v cm (view (api.update n (changed v cm) s).0 n)
        (laws.updated n (changed v cm) s (ground arith))
  write_got-Demo n v (s, not_found) e =
      written v nothing (view (api.create n (fresh v) s).0 n)
        (laws.created n (fresh v) s (ground arith))
  write_got-Demo n v (s, get_failed) e = absurd (cc)

  write_got-others :
      (n m v : Text) (x : S × Got) → n ≢ m → view (write_got api n v x).0 m ≡ view x.0 m
  write_got-others n m v (s, found cm) h = laws.updated_others n m (changed v cm) s h
  write_got-others n m v (s, not_found) h = laws.created_others n m (fresh v) s h
  write_got-others n m v (s, get_failed) h = refl

  create_or_update-Demo :
      (n v : Text) (s : S)
      → (create_or_update api n v s).1 ≡ ok tt
      → Demo v (view (create_or_update api n v s).0 n)
  unfolding create_or_update
  create_or_update-Demo n v s e = write_got-Demo n v (api.get n s) e

  create_or_update-others :
      (n m v : Text) (s : S) → n ≢ m → view (create_or_update api n v s).0 m ≡ view s m
  unfolding create_or_update
  create_or_update-others n m v s h = write_got-others n m v (api.get n s) h ∙ laws.got n m s

  delete_odd-Left :
      (i : ℕ) (s : S)
      → Demo (churn_value i) (view s (churn_name i))
      → (delete_odd api i s).1 ≡ ok tt
      → Left view i (delete_odd api i s).0
  delete_odd-Left i s d e = elim (Bool-cases (eqb (i % 2) 1)) [
    | inl odd ↦
        let gone = api.delete (churn_name i) s in
        let same : delete_odd api i s ≡ checked_delete gone = rw odd refl in
        (
          λ k.
              ap (λ x. view x.0 (churn_name i)) same
              ∙ ap (λ t. view t (churn_name i)) (state-checked_delete gone)
              ∙ laws.removed (churn_name i) s
                  (checked_delete_ok gone (sym (ap (λ x. x.1) same) ∙ e)),
          λ k. absurd (ground arith),
        )
    | inr even ↦ rw even ((λ k. absurd (ground arith)), (λ k. d))
  ]

  delete_odd-others :
      (i : ℕ) (m : Text) (s : S) → churn_name i ≢ m → view (delete_odd api i s).0 m ≡ view s m
  delete_odd-others i m s h = elim (Bool-cases (eqb (i % 2) 1)) [
    | inl odd ↦ rw odd (
        ap (λ t. view t m) (state-checked_delete (api.delete (churn_name i) s))
        ∙ laws.removed_others (churn_name i) m s h)
    | inr even ↦ rw even refl
  ]

  Left-subst :
      (j : ℕ) (s t : S)
      → view t (churn_name j) ≡ view s (churn_name j)
      → Left view j s
      → Left view j t
  Left-subst j s t e h = (λ k. e ∙ h.0 k, λ k. subst (λ o. Demo (churn_value j) o) (sym e) (h.1 k))

  churn_from_lem :
      (rounds i : ℕ) (s : S)
      → i + rounds ≤ 10 ^ 19
      → (churn_from api i rounds s).1 ≡ ok tt
      → ((j : ℕ) → i ≤ j → j < i + rounds → Left view j (churn_from api i rounds s).0)
        × ((j : ℕ)
            → j < i
            → view (churn_from api i rounds s).0 (churn_name j) ≡ view s (churn_name j))
  unfolding churn_from
  churn_from_lem zero i s small e = (λ j h k. absurd (omega arith), λ j h. refl)
  churn_from_lem (suc rounds) i s small e =
      let x = create_or_update api (churn_name i) (churn_value i) s in
      let (u, written_ok, to_delete) = next_ok x _ tt e in
      let y = delete_odd api i x.0 in
      let (v, deleted_ok, to_rest) = next_ok y _ tt (sym (ap (λ r. r.1) to_delete) ∙ e) in
      let whole = to_delete ∙ to_rest in
      let (later, before) =
        churn_from_lem rounds (i + 1) y.0 (omega arith) (sym (ap (λ r. r.1) whole) ∙ e) in
      let here =
        delete_odd-Left i x.0 (create_or_update-Demo (churn_name i) (churn_value i) s written_ok)
          deleted_ok in
      let rest = (churn_from api (i + 1) rounds y.0).0 in
      let last = (churn_from api i (suc rounds) s).0 in
      let same_state : last ≡ rest = ap (λ r. r.0) whole in
      (
        λ j h k. elim (Bool-cases (eqb j i)) [
          | inl is_i ↦
              let q : i ≡ j = ground arith in
              subst (λ m. Left view m last) q
                (Left-subst i y.0 last
                  (ap (λ t. view t (churn_name i)) same_state ∙ before i (omega arith)) here)
          | inr above ↦
              Left-subst j rest last (ap (λ t. view t (churn_name j)) same_state)
                (later j (ground arith) (omega arith))
        ],
        λ j h.
            let apart = churn_name-ne i j (omega arith) (omega arith) (ground arith) in
            ap (λ t. view t (churn_name j)) same_state
            ∙ before j (omega arith)
            ∙ delete_odd-others i (churn_name j) x.0 apart
            ∙ create_or_update-others (churn_name i) (churn_name j) (churn_value i) s apart,
      )

  -- Where no other client writes, a churn of at most 10 ^ 19 rounds that succeeds leaves the config
  -- maps of the even rounds, with the label of the demo and the number of their round, and none of the
  -- odd rounds.
  pub churn_lem :
      (count : ℕ) (s : S)
      → count ≤ 10 ^ 19
      → (churn_config_maps api count s).1 ≡ ok tt
      → (j : ℕ) → j < count
      → Left view j (churn_config_maps api count s).0
  unfolding churn_config_maps
  churn_lem count s small e j h =
      (churn_from_lem count 0 s (omega arith) e).0 j (omega arith) (omega arith)
