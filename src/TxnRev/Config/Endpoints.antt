-- ===== src/TxnRev/Config/Endpoints.antt =====
-- Proofs about the endpoints and names of a configuration.
use go_by_example.Prelude.{
  ◌≡◌, ◌≢◌, false, List, [], ◌∷◌, String, refl, All, arith, Bool-cases, inl, inr,
}
use go_by_example.Prelude.Texts.{
  Text, is_space, is_empty, trim_space, split, trim_space_idem, All-trim_space, split-lacks,
}
use go_by_example.TxnRev.Config.{
  trimmed_parts, parse_endpoints, or_default, load_config, default_endpoint, default_path,
  default_prefix,
}

-- text that is there, without space around it
abbrev pub Trimmed : Text → Type 0
Trimmed s = (s ≢ []) × (trim_space s ≡ s)

abbrev pub Endpoint : Text → Type 0
Endpoint s = Trimmed s × All (λ c. c ≢ b',') s

ne-nil_of_is_empty : (s : Text) → is_empty s ≡ false → s ≢ []
ne-nil_of_is_empty [] h e = absurd (cc)
ne-nil_of_is_empty (c ∷ s) h e = absurd (cc)

trimmed_parts-Endpoint :
    (parts : List Text) → All (All (λ c. c ≢ b',')) parts → All Endpoint (trimmed_parts parts)
unfolding trimmed_parts
trimmed_parts-Endpoint [] h = tt
trimmed_parts-Endpoint (p ∷ parts) h = elim (Bool-cases (is_empty (trim_space p))) [
  | inl e ↦ rw e (trimmed_parts-Endpoint parts h.1)
  | inr e ↦ rw e (
    (
      (ne-nil_of_is_empty (trim_space p) e, trim_space_idem p),
      All-trim_space (λ c. c ≢ b',') p h.0,
    ),
    trimmed_parts-Endpoint parts h.1,
  )
]

parse_endpoints-Endpoint : (raw : Text) → All Endpoint (parse_endpoints raw)
unfolding parse_endpoints
parse_endpoints-Endpoint raw = elim (Bool-cases (is_empty (trim_space raw))) [
  | inl e ↦ rw e tt
  | inr e ↦
      rw e
        (trimmed_parts-Endpoint (split (trim_space raw) b',') (split-lacks (trim_space raw) b','))
]

or_default-ne-nil :
    {A : Type 0} (xs fallback : List A) → fallback ≢ [] → or_default xs fallback ≢ []
or_default-ne-nil [] fallback h e = h e
or_default-ne-nil (x ∷ xs) fallback h e = absurd (cc)

or_default-Endpoint :
    (es fallback : List Text)
    → All Endpoint es
    → All Endpoint fallback
    → All Endpoint (or_default es fallback)
or_default-Endpoint [] fallback h k = k
or_default-Endpoint (e ∷ es) fallback h k = h

or_default-Trimmed :
    (raw fallback : Text) → Trimmed fallback → Trimmed (or_default (trim_space raw) fallback)
or_default-Trimmed raw fallback h =
    (or_default-ne-nil (trim_space raw) fallback h.0, keeps (trim_space raw) (trim_space_idem raw))
  where
    keeps :
        (s : Text) → trim_space s ≡ s → trim_space (or_default s fallback) ≡ or_default s fallback
    keeps [] e = h.1
    keeps (c ∷ s) e = e

default_endpoint-Endpoint : Endpoint default_endpoint
unfolding trim_space is_space
default_endpoint-Endpoint = ((λ e. absurd (cc), refl), omega arith)

default_path-Trimmed : Trimmed default_path
unfolding trim_space is_space
default_path-Trimmed = (λ e. absurd (cc), refl)

default_prefix-Trimmed : Trimmed default_prefix
unfolding trim_space is_space
default_prefix-Trimmed = (λ e. absurd (cc), refl)

-- Whatever the environment holds, the configuration has at least one endpoint; every endpoint, the
-- path of the snapshot and the prefix are texts that are not empty and have no space around them,
-- and no endpoint holds a comma.
pub load_config_clean :
    (getenv : String → Text)
    → ((load_config getenv).endpoints ≢ [])
      × All Endpoint (load_config getenv).endpoints
      × Trimmed (load_config getenv).snapshot_path
      × Trimmed (load_config getenv).prefix
unfolding load_config
load_config_clean getenv = (
  or_default-ne-nil (parse_endpoints (getenv "ETCD_ENDPOINTS")) (default_endpoint ∷ [])
      (λ e. absurd (cc)),
  or_default-Endpoint (parse_endpoints (getenv "ETCD_ENDPOINTS")) (default_endpoint ∷ [])
      (parse_endpoints-Endpoint (getenv "ETCD_ENDPOINTS")) (default_endpoint-Endpoint, tt),
  or_default-Trimmed (getenv "ETCD_SNAPSHOT") default_path default_path-Trimmed,
  or_default-Trimmed (getenv "DEMO_PREFIX") default_prefix default_prefix-Trimmed,
)
