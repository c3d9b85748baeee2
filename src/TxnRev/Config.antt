-- ===== src/TxnRev/Config.antt =====
-- loadConfig and parseEndpoints of etcd/txn-rev-main-sub/main.go. The environment is a function from
-- the names of the variables; a variable that is not set has the empty text, as with os.Getenv.
pub mod Endpoints
use go_by_example.Prelude.{List, [], ◌∷◌, String, if◌then◌else◌}
use go_by_example.Prelude.Texts.{Text, is_empty, trim_space, split}

pub record Config : Type 0 where
  pub endpoints : List Text
  pub snapshot_path : Text
  pub prefix : Text

-- the loop over the parts
unfoldable pub trimmed_parts : List Text → List Text
trimmed_parts [] = []
trimmed_parts (p ∷ parts) =
    let rest = trimmed_parts parts in if is_empty (trim_space p) then rest else trim_space p ∷ rest

unfoldable pub parse_endpoints : Text → List Text
unfolding trimmed_parts
parse_endpoints raw =
    if is_empty (trim_space raw) then [] else trimmed_parts (split (trim_space raw) b',')

-- "127.0.0.1:2379"
abbrev pub default_endpoint : Text
default_endpoint = 49 ∷ 50 ∷ 55 ∷ 46 ∷ 48 ∷ 46 ∷ 48 ∷ 46 ∷ 49 ∷ 58 ∷ 50 ∷ 51 ∷ 55 ∷ 57 ∷ []

-- ".tmp/txn-rev-snapshot.db"
abbrev pub default_path : Text
default_path =
    46 ∷ 116 ∷ 109 ∷ 112 ∷ 47 ∷ 116 ∷ 120 ∷ 110 ∷ 45 ∷ 114 ∷ 101 ∷ 118 ∷ 45 ∷ 115 ∷ 110 ∷ 97 ∷ 112
    ∷ 115 ∷ 104 ∷ 111 ∷ 116 ∷ 46 ∷ 100 ∷ 98 ∷ []

-- "demo/txn-rev"
abbrev pub default_prefix : Text
default_prefix = 100 ∷ 101 ∷ 109 ∷ 111 ∷ 47 ∷ 116 ∷ 120 ∷ 110 ∷ 45 ∷ 114 ∷ 101 ∷ 118 ∷ []

abbrev pub or_default {ℓ} : {A : Type ℓ} → List A → List A → List A
or_default [] fallback = fallback
or_default (x ∷ xs) fallback = x ∷ xs

unfoldable pub load_config : (String → Text) → Config
unfolding parse_endpoints
load_config getenv = record {
  endpoints = or_default (parse_endpoints (getenv "ETCD_ENDPOINTS")) (default_endpoint ∷ []);
  snapshot_path = or_default (trim_space (getenv "ETCD_SNAPSHOT")) default_path;
  prefix = or_default (trim_space (getenv "DEMO_PREFIX")) default_prefix;
}
