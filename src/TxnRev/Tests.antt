-- ===== src/TxnRev/Tests.antt =====
-- A toy server that counts the writes of every key, and a database of three pairs.
use go_by_example.Prelude.{
  ℕ, ◌+◌, ◌≡◌, ◌≢◌, ◌↔◌, ◌⊎◌, refl, true, Option, none, some, List, [], ◌∷◌, ◌++◌, String,
  if◌then◌else◌, All, Perm, ok, err, arith, ◌==◌, comparable_string,
}
use go_by_example.Prelude.Texts.{same_text, same_text_iff, Text, has_prefix, has_prefix_iff}
use go_by_example.Prelude.Sorting.{IsSorted}
use go_by_example.MessageCodec.{big_endian}
use go_by_example.TxnRev.Config.{load_config}
use go_by_example.TxnRev.Config.Endpoints.{Endpoint, Trimmed, load_config_clean}
use go_by_example.TxnRev.RevKeys.{Revision, decode_revision_key}
use go_by_example.TxnRev.RevKeys.Encoded.{Encodes, encoded, decode_revision_key_iff}
use go_by_example.TxnRev.Records.{
  KeyValue, RevRecord, Row, Database, ReadError, from_least, read_records_by_main_revision,
}
use go_by_example.TxnRev.Records.Chosen.{Chosen, FirstBroken, read_records_lem}
use go_by_example.TxnRev.Client.{Compare, Op, Etcd, Os, compare_failed, demo}
use go_by_example.TxnRev.Client.Guarded.{all_hold, EtcdLaws, never_compare_failed}

-- " a,b" for the endpoints, and nothing else
abbrev environment : String → Text
environment name = if name == "ETCD_ENDPOINTS" then 32 ∷ 97 ∷ 44 ∷ 32 ∷ 44 ∷ 98 ∷ [] else []

load_config_clean_example :
    ((load_config environment).endpoints ≢ [])
    × All Endpoint (load_config environment).endpoints
    × Trimmed (load_config environment).snapshot_path
    × Trimmed (load_config environment).prefix
load_config_clean_example = load_config_clean environment

abbrev revision : Revision
revision = record { main = 258; sub = 3; tombstone = true }

abbrev raw_key : List ℕ
raw_key = encoded 258 3 (some b't')

decode_revision_key_iff_example :
    (decode_revision_key (encoded 258 3 (some b't')) ≡ some revision)
    ↔ Encodes (encoded 258 3 (some b't')) revision
unfolding big_endian
decode_revision_key_iff_example = decode_revision_key_iff raw_key revision (omega arith)

-- a state is the number of writes of every key
abbrev toy : Etcd (Text → ℕ)
toy = record {
  connect = λ (es : List Text) (s : Text → ℕ). (s, true);
  delete_prefix = λ (p : Text) (s : Text → ℕ). (λ k. if has_prefix k p then 0 else s k, true);
  put = λ (k v : Text) (s : Text → ℕ).
      (λ other. if same_text k other then s other + 1 else s other, true);
  commit = λ (cs : List Compare) (yes_ops no_ops : List Op) (s : Text → ℕ).
      (s, some (record { succeeded = all_hold s cs; revision = 258 }));
  get_prefix = λ (p : Text) (s : Text → ℕ). (s, some []);
  snapshot = λ (s : Text → ℕ). (s, some []);
}

toy-EtcdLaws : EtcdLaws toy (λ s. s)
toy-EtcdLaws = record {
  deleted = λ p rest s _. ground (arith, (has_prefix_iff (p ++ rest) p).1 (rest, refl));
  written = λ k v s _. ground (arith, same_text_iff k k);
  others = λ k v other s h. ground (arith, same_text_iff k other);
  committed = λ cs yes_ops no_ops s r h. ground arith;
}

abbrev disk : Os
disk = record {
  mkdir_all = λ (p : Text). true;
  create = λ (p : Text). true;
  copy = λ (raw : List ℕ). true;
  sync = true;
}

-- a value is one byte: the index of the key in "ab", or no key at all
abbrev unmarshal : List ℕ → Option KeyValue
unmarshal [] = none
unmarshal (b ∷ _) = some (record {
  key = b ∷ b'/' ∷ b ∷ [];
  value = [];
  create_revision = 0;
  mod_revision = 0;
  version = 0;
})

abbrev rows : List Row
rows =
    (encoded 258 3 none, 112 ∷ [])
    ∷ (encoded 7 0 none, [])
    ∷ (encoded 258 1 (some b't'), 112 ∷ [])
    ∷ []

abbrev database : Database
database name = if name == "key" then some rows else none

never_compare_failed_example :
    (demo toy disk (λ p. p) unmarshal (λ raw. some database) environment (λ k. 0)).1
    ≢ err compare_failed
never_compare_failed_example =
    never_compare_failed toy (λ s. s) toy-EtcdLaws disk (λ p. p) unmarshal (λ raw. some database)
      environment (λ k. 0)

read_records_lem_example :
    ((rs : List RevRecord) × (found : List RevRecord) × (read_records_by_main_revision unmarshal
          (112 ∷ [])
          258
          (some database)
        ≡ ok rs)
      × Chosen unmarshal (112 ∷ []) 258 rows found
      × Perm rs found
      × IsSorted (λ r. from_least r.sub) rs)
    ⊎ ((e : ReadError) × (read_records_by_main_revision unmarshal (112 ∷ []) 258 (some database)
          ≡ err e)
        × FirstBroken unmarshal (112 ∷ []) 258 rows e)
unfolding big_endian
read_records_lem_example =
    read_records_lem unmarshal (112 ∷ []) 258 database rows refl (omega arith)
