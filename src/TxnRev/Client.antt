-- ===== src/TxnRev/Client.antt =====
-- The calls of etcd in etcd/txn-rev-main-sub/main.go, and its main. The client with the server behind
-- it is a parameter with states `S`, and so are the file system and the opening of a database.
pub mod Guarded
use go_by_example.Prelude.{
  ℕ, Bool, Option, none, some, List, [], ◌∷◌, ◌++◌, String, if◌then◌else◌, not, Result, ok, err,
}
use go_by_example.Prelude.Texts.{Text, is_empty, utf8}
use go_by_example.TxnRev.Config.{Config, load_config}
use go_by_example.TxnRev.Records.{
  KeyValue, RevRecord, Database, ReadError, read_records_by_main_revision,
}

-- clientv3.Compare of a key's version
pub data Compare : Type 0 where
  version_eq version_gt : Text → ℕ → Compare

pub data Op : Type 0 where
  op_put : Text → Text → Op
  op_delete op_get : Text → Op

pub record TxnResponse : Type 0 where
  pub succeeded : Bool
  pub revision : ℕ

-- What the code calls of etcd. `none` is an error, which may still have changed the state.
pub record Etcd (S : Type 0) : Type 0 where
  pub connect : List Text → S → S × Bool
  pub delete_prefix : Text → S → S × Bool
  pub put : Text → Text → S → S × Bool
  pub commit : List Compare → List Op → List Op → S → S × Option TxnResponse
  pub get_prefix : Text → S → S × Option (List KeyValue)
  pub snapshot : S → S × Option (List ℕ)

pub record Os : Type 0 where
  pub mkdir_all : Text → Bool
  pub create : Text → Bool
  pub copy : List ℕ → Bool
  pub sync : Bool

-- the calls of log.Fatalf
pub data Failure : Type 0 where
  create_failed cleanup_failed seed_failed txn_failed compare_failed view_failed : Failure
  save_failed no_record : Failure
  read_failed : ReadError → Failure

abbrev pub M : Type 0 → Type 0 → Type 0
M S A = S → S × Result Failure A

module _ {S : Type 0} where
  abbrev pub next : {A B : Type 0} → S × Result Failure A → (A → M S B) → S × Result Failure B
  next (s, ok a) f = f a s
  next (s, err e) f = (s, err e)

  infixl 5 ◌>>=◌ ◌>>◌
  abbrev pub ◌>>=◌ : {A B : Type 0} → M S A → (A → M S B) → M S B
  ◌>>=◌ m f s = next (m s) f

  abbrev pub ◌>>◌ : {B : Type 0} → M S (Unit {0}) → M S B → M S B
  m >> k = m >>= λ _. k

  abbrev pub checked : Failure → S × Bool → S × Result Failure (Unit {0})
  checked e (s, done) = (s, if done then ok tt else err e)

  abbrev pub present : {A : Type 0} → Failure → S × Option A → S × Result Failure A
  present e (s, none) = (s, err e)
  present e (s, some a) = (s, ok a)

  abbrev pub guard : Bool → Failure → M S (Unit {0})
  guard test e s = (s, if test then ok tt else err e)

abbrev pub slash : Text
slash = b'/' ∷ []

abbrev pub read_result : {A : Type 0} → Result ReadError A → Result Failure A
read_result (ok rs) = ok rs
read_result (err e) = err (read_failed e)

-- "seed"
abbrev pub seed : Text
seed = 115 ∷ 101 ∷ 101 ∷ 100 ∷ []

-- the ends of two keys: "guard", "to-delete"
abbrev pub guard_name : Text
guard_name = 103 ∷ 117 ∷ 97 ∷ 114 ∷ 100 ∷ []

abbrev pub delete_name : Text
delete_name = 116 ∷ 111 ∷ 45 ∷ 100 ∷ 101 ∷ 108 ∷ 101 ∷ 116 ∷ 101 ∷ []

module _ {S : Type 0} (etcd : Etcd S) where
  unfoldable pub cleanup_prefix : Text → S → S × Bool
  cleanup_prefix prefix s = etcd.delete_prefix (prefix ++ slash) s

  unfoldable pub put : Text → Text → S → S × Bool
  put key val s = etcd.put key val s

  -- "created-in-txn-v2", "A1" and "B1" are the values
  unfoldable pub run_single_txn : Text → S → S × Option TxnResponse
  run_single_txn prefix s =
      let guard_key = prefix ++ (slash ++ guard_name) in
      let key_a = prefix ++ (slash ++ b'a' ∷ []) in
      let key_b = prefix ++ (slash ++ b'b' ∷ []) in
      let delete_key = prefix ++ (slash ++ delete_name) in
      etcd.commit (version_eq guard_key 0 ∷ version_gt delete_key 0 ∷ [])
        (op_put guard_key (
            99 ∷ 114 ∷ 101 ∷ 97 ∷ 116 ∷ 101 ∷ 100 ∷ 45 ∷ 105 ∷ 110 ∷ 45 ∷ 116 ∷ 120 ∷ 110 ∷ 45 ∷ 118
            ∷ 50 ∷ [])
          ∷ op_put key_a (65 ∷ 49 ∷ [])
          ∷ op_put key_b (66 ∷ 49 ∷ [])
          ∷ op_delete delete_key
          ∷ [])
        (op_get guard_key ∷ []) s

  -- printAPIView, without its printing
  unfoldable pub api_view : Text → S → S × Option (List KeyValue)
  api_view prefix s = etcd.get_prefix (prefix ++ slash) s

  module _ (os : Os) (dir : Text → Text) where
    abbrev pub write_snapshot : Text → S × Option (List ℕ) → S × Option (List ℕ)
    write_snapshot path (s, none) = (s, none)
    write_snapshot path (s, some raw) = (
      s,
      if not (os.create path)
          then none
          else if not (os.copy raw)
          then none
          else if os.sync
          then some raw
          else none,
    )

    -- filepath.Dir is a parameter; the result is the content of the file
    unfoldable pub save_snapshot : Text → S → S × Option (List ℕ)
    save_snapshot path s =
        if os.mkdir_all (dir path) then write_snapshot path (etcd.snapshot s) else (s, none)

    module _ (unmarshal : List ℕ → Option KeyValue) (open_db : List ℕ → Option Database) where
      abbrev pub read : Text → ℕ → List ℕ → M S (List RevRecord)
      read prefix revision raw s =
          (s, read_result (read_records_by_main_revision unmarshal prefix revision (open_db raw)))

      -- main, up to the printing of the records; its environment is `getenv`
      unfoldable pub demo : (String → Text) → M S (List RevRecord)
      unfolding cleanup_prefix put run_single_txn api_view save_snapshot
      demo getenv =
          let cfg = load_config getenv in
          do
            (λ s. checked create_failed (etcd.connect cfg.endpoints s))
            (λ s. checked cleanup_failed (cleanup_prefix cfg.prefix s))
            (λ s. checked seed_failed (put (cfg.prefix ++ (slash ++ delete_name)) seed s))
            resp ← (λ s. present txn_failed (run_single_txn cfg.prefix s))
            guard resp.succeeded compare_failed
            view ← (λ s. present view_failed (api_view cfg.prefix s))
            raw ← (λ s. present save_failed (save_snapshot cfg.snapshot_path s))
            records ← read cfg.prefix resp.revision raw
            guard (not (is_empty records)) no_record
            λ s. (s, ok records)
