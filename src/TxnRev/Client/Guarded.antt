-- ===== src/TxnRev/Client/Guarded.antt =====
-- The comparisons of the transaction.
use go_by_example.Prelude.{
  ℕ, ◌≡◌, ◌≢◌, ◌<◌, Bool, true, false, ◌&&◌, Option, none, some, List, [], ◌∷◌, ◌++◌, String,
  Result, ok, err, ltb, eqb, arith, refl, inl, inr, ◌⊎◌, not,
}
use mathlib.Core.List.{append_assoc}
use go_by_example.Prelude.Texts.{Text, is_empty}
use go_by_example.TxnRev.Config.{load_config}
use go_by_example.TxnRev.Records.{KeyValue, Database, ReadError, read_records_by_main_revision}
use go_by_example.TxnRev.Client.{
  Compare, version_eq, version_gt, TxnResponse, Etcd, Os, Failure, compare_failed, checked, present,
  guard, next, slash, guard_name, delete_name, cleanup_prefix, put, run_single_txn, api_view,
  save_snapshot, demo, Op, create_failed, cleanup_failed, seed_failed, txn_failed, view_failed,
  save_failed, no_record, seed, read_result,
}

abbrev pub holds : (Text → ℕ) → Compare → Bool
holds version (version_eq key n) = eqb (version key) n
holds version (version_gt key n) = ltb n (version key)

abbrev pub all_hold : (Text → ℕ) → List Compare → Bool
all_hold version [] = true
all_hold version (c ∷ cs) = holds version c && all_hold version cs

-- etcd's documented behaviour where no other client writes: `version` counts the writes of a key
-- since its last deletion.
pub record EtcdLaws {S : Type 0} (etcd : Etcd S) (version : S → Text → ℕ) : Type 0 where
  pub deleted :
      (p rest : Text) (s : S)
      → (etcd.delete_prefix p s).1 ≡ true
      → version (etcd.delete_prefix p s).0 (p ++ rest) ≡ 0
  pub written : (k v : Text) (s : S) → (etcd.put k v s).1 ≡ true → 0 < version (etcd.put k v s).0 k
  pub others :
      (k v other : Text) (s : S) → k ≢ other → version (etcd.put k v s).0 other ≡ version s other
  pub committed :
      (cs : List Compare) (yes_ops no_ops : List Op) (s : S) (r : TxnResponse)
      → (etcd.commit cs yes_ops no_ops s).1 ≡ some r
      → r.succeeded ≡ all_hold (version s) cs

apart : (p : Text) → p ++ (slash ++ delete_name) ≢ p ++ (slash ++ guard_name)
apart [] e = absurd (ground arith)
apart (c ∷ p) e = apart p (cc)

-- results other than the failed comparison
abbrev Other : {A : Type 0} → Result Failure A → Type 0
Other r = r ≢ err compare_failed

module _ {S : Type 0} {B : Type 0} where
  after_checked :
      (e : Failure) (x : S × Bool) (f : S → S × Result Failure B)
      → e ≢ compare_failed
      → (x.1 ≡ true → Other (f x.0).1)
      → Other (next (checked e x) (λ _. f)).1
  after_checked e (s, true) f h k same = k refl same
  after_checked e (s, false) f h k same = h (cc)

  after_present :
      {A : Type 0} (e : Failure) (x : S × Option A) (f : A → S → S × Result Failure B)
      → e ≢ compare_failed
      → ((a : A) → x.1 ≡ some a → Other (f a x.0).1)
      → Other (next (present e x) f).1
  after_present e (s, none) f h k same = h (cc)
  after_present e (s, some a) f h k same = k a refl same

  after_read :
      {A : Type 0} (s : S) (r : Result ReadError A) (f : A → S → S × Result Failure B)
      → ((a : A) → Other (f a s).1)
      → Other (next (s, read_result r) f).1
  after_read s (ok a) f k same = k a same
  after_read s (err e) f k same = absurd (cc)

  after_guard :
      (test : Bool) (e : Failure) (s : S) (f : S → S × Result Failure B)
      → (test ≡ true) ⊎ (e ≢ compare_failed)
      → Other (f s).1
      → Other (next (guard test e s) (λ _. f)).1
  after_guard true e s f h k same = k same
  after_guard false e s f (inl h) k same = absurd (cc)
  after_guard false e s f (inr h) k same = h (cc)

module _ {S : Type 0} (etcd : Etcd S) (version : S → Text → ℕ) (laws : EtcdLaws etcd version) where
  prepared :
      (p v : Text) (s : S) (r : TxnResponse)
      → (cleanup_prefix etcd p s).1 ≡ true
      → (put etcd (p ++ (slash ++ delete_name)) v (cleanup_prefix etcd p s).0).1 ≡ true
      → (run_single_txn etcd p
          (put etcd (p ++ (slash ++ delete_name)) v (cleanup_prefix etcd p s).0).0).1
        ≡ some r
      → r.succeeded ≡ true
  unfolding cleanup_prefix put run_single_txn
  prepared p v s r cleaned seeded done =
      let delete_key = p ++ (slash ++ delete_name) in
      let guard_key = p ++ (slash ++ guard_name) in
      let t = (etcd.delete_prefix (p ++ slash) s).0 in
      ground (
        arith,
        laws.written delete_key v t,
        laws.others delete_key v guard_key t (apart p),
        laws.deleted (p ++ slash) guard_name s,
        append_assoc p slash guard_name,
        laws.committed (version_eq guard_key 0 ∷ version_gt delete_key 0 ∷ []) _ _
            (etcd.put delete_key v t).0 r done,
      )

  -- Where no other client writes, main never ends with its comparisons failed.
  pub never_compare_failed :
      (os : Os) (dir : Text → Text) (unmarshal : List ℕ → Option KeyValue)
      (open_db : List ℕ → Option Database) (getenv : String → Text) (s : S)
      → (demo etcd os dir unmarshal open_db getenv s).1 ≢ err compare_failed
  unfolding demo
  never_compare_failed os dir unmarshal open_db getenv s =
      let cfg = load_config getenv in
      let p = cfg.prefix in
      after_checked create_failed (etcd.connect cfg.endpoints s) _ (λ h. absurd (cc))
        λ _.
          let s0 = (etcd.connect cfg.endpoints s).0 in
          after_checked cleanup_failed (cleanup_prefix etcd p s0) _ (λ h. absurd (cc))
            λ cleaned.
              let s1 = (cleanup_prefix etcd p s0).0 in
              after_checked seed_failed (put etcd (p ++ (slash ++ delete_name)) seed s1) _
                (λ h. absurd (cc))
                λ seeded.
                  let s2 = (put etcd (p ++ (slash ++ delete_name)) seed s1).0 in
                  after_present txn_failed (run_single_txn etcd p s2) _ (λ h. absurd (cc))
                    λ r done.
                      let s2' = (run_single_txn etcd p s2).0 in
                      after_guard r.succeeded compare_failed (run_single_txn etcd p s2).0 _
                        (inl (prepared p seed s0 r cleaned seeded done))
                        (after_present view_failed (api_view etcd p s2') _ (λ h. absurd (cc))
                          λ view _.
                            let s3 = (api_view etcd p s2').0 in
                            after_present save_failed
                              (save_snapshot etcd os dir cfg.snapshot_path s3) _ (λ h. absurd (cc))
                              λ raw _.
                                let s4 = (save_snapshot etcd os dir cfg.snapshot_path s3).0 in
                                after_read s4
                                  (read_records_by_main_revision unmarshal p r.revision
                                    (open_db raw))
                                  _
                                  λ rs.
                                    after_guard (not (is_empty rs)) no_record s4 (λ s'. (s', ok rs))
                                      (inr (λ h. absurd (cc))) (λ h. absurd (cc)))
