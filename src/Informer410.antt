-- ===== src/Informer410.antt =====
-- client-go/informer-410-gone-real/main.go in its manual mode: it lets a resource version become stale
-- by many writes, watches from it, and lists anew where the server answers 410 Gone. The server is a
-- parameter with states `S`; its calls are those for the namespace of the options.
pub mod Watching
pub mod Names
pub mod Churn
mod Tests
use go_by_example.Prelude.{
  ℕ, zero, suc, ◌+◌, ◌-◌, ◌%◌, Bool, true, false, ◌||◌, Option, none, some, List, [], ◌∷◌, ◌++◌,
  if◌then◌else◌, eqb, length, Map, insert, Result, ok, err,
}
use go_by_example.Prelude.Integers.{ℤ, pos, negsuc}
use go_by_example.Prelude.Texts.{Text, is_empty, codes, digits, comparable_text, same_text}

pub record Options : Type 0 where
  pub mode : Text
  pub resource_ver : Text
  pub churn : ℤ
  pub watch_timeout : ℕ

-- corev1.ConfigMap; a nil map is the empty one
pub record ConfigMap : Type 0 where
  pub labels : Map Text Text
  pub entries : Map Text Text
  pub resource_version : Text

-- what an error event holds: a metav1.Status with its code and reason, or another object
pub data Object : Type 0 where
  status : ℕ → Text → Object
  other_object : Object

-- The events of a watch until its channel is closed, with the end of the context among them.
pub data Event : Type 0 where
  change error_event : Object → Event
  context_done : Event

pub data Watch : Type 0 where
  watch_gone watch_refused : Watch
  stream : List Event → Watch

pub data Got : Type 0 where
  found : ConfigMap → Got
  not_found get_failed : Got

pub data Deleted : Type 0 where
  deleted missing delete_failed : Deleted

pub record Api (S : Type 0) : Type 0 where
  pub get : Text → S → S × Got
  pub create : Text → ConfigMap → S → S × Bool
  pub update : Text → ConfigMap → S → S × Bool
  pub delete : Text → S → S × Deleted
  pub list : S → S × Option (List ConfigMap × Text)
  pub watch : Text → ℕ → S → S × Watch
  pub get_namespace : S → S × Got
  pub create_namespace : S → S × Bool

pub data Failure : Type 0 where
  get_error create_error update_error delete_error namespace_error : Failure
  capture_error relist_error start_watch watch_error context_error unknown_mode : Failure

-- http.StatusGone, or metav1.StatusReasonExpired
unfoldable pub is_gone_object : Object → Bool
is_gone_object (status code reason) = eqb code 410 || same_text reason (codes "Expired")
is_gone_object other_object = false

-- the loop of watchOnce
unfoldable pub watch_events : List Event → Result Failure Bool
unfolding is_gone_object
watch_events [] = ok false
watch_events (context_done ∷ es) = err context_error
watch_events (error_event o ∷ es) = if is_gone_object o then ok true else err watch_error
watch_events (change o ∷ es) = watch_events es

abbrev pub watched : Watch → Result Failure Bool
watched watch_gone = ok true
watched watch_refused = err start_watch
watched (stream es) = watch_events es

abbrev pub demo_label_key : Text
demo_label_key = codes "app.kubernetes.io/name"

abbrev pub demo_label_value : Text
demo_label_value = codes "informer-410-gone-real"

abbrev pub M : Type 0 → Type 0 → Type 0
M S A = S → S × Result Failure A

module _ {S : Type 0} where
  abbrev pub next : {A B : Type 0} → S × Result Failure A → (A → M S B) → S × Result Failure B
  next (s, ok a) f = f a s
  next (s, err e) f = (s, err e)

  abbrev pub checked : Failure → S × Bool → S × Result Failure (Unit {0})
  checked e (s, done) = (s, if done then ok tt else err e)

  abbrev pub checked_delete : S × Deleted → S × Result Failure (Unit {0})
  checked_delete (s, deleted) = (s, ok tt)
  checked_delete (s, missing) = (s, ok tt)
  checked_delete (s, delete_failed) = (s, err delete_error)

  abbrev pub listed : Failure → S × Option (List ConfigMap × Text) → S × Result Failure Text
  listed e (s, none) = (s, err e)
  listed e (s, some (items, version)) = (s, ok version)

-- fmt.Sprintf("%05d", i), and the name with it
abbrev pub zeros : ℕ → Text
zeros zero = []
zeros (suc n) = 48 ∷ zeros n

unfoldable pub padded : Text → Text
padded ds = zeros (5 - length ds) ++ ds

unfoldable pub churn_name : ℕ → Text
unfolding padded
churn_name i = codes "rv-churn-" ++ padded (digits 19 i)

-- fmt.Sprintf("%d", i)
unfoldable pub churn_value : ℕ → Text
churn_value i = digits 19 i

abbrev pub fresh : Text → ConfigMap
fresh value = record {
  labels = (demo_label_key, demo_label_value) ∷ [];
  entries = (codes "value", value) ∷ [];
  resource_version = [];
}

abbrev pub changed : Text → ConfigMap → ConfigMap
changed value cm = record cm {
  labels = insert demo_label_key demo_label_value cm.labels;
  entries = insert (codes "value") value cm.entries;
}

module _ {S : Type 0} (api : Api S) where
  unfoldable pub watch_once : Text → ℕ → M S Bool
  unfolding watch_events
  watch_once version timeout s =
      let (t, answer) = api.watch version timeout s in (t, watched answer)

  abbrev pub write_got : Text → Text → S × Got → S × Result Failure (Unit {0})
  write_got name value (s, found cm) = checked update_error (api.update name (changed value cm) s)
  write_got name value (s, not_found) = checked create_error (api.create name (fresh value) s)
  write_got name value (s, get_failed) = (s, err get_error)

  unfoldable pub create_or_update : Text → Text → M S (Unit {0})
  create_or_update name value s = write_got name value (api.get name s)

  -- the deletion of every other one
  abbrev pub delete_odd : ℕ → M S (Unit {0})
  delete_odd i s =
      if eqb (i % 2) 1 then checked_delete (api.delete (churn_name i) s) else (s, ok tt)

  -- the rounds of the loop from `i` on
  unfoldable pub churn_from : ℕ → ℕ → M S (Unit {0})
  unfolding create_or_update churn_value
  churn_from i zero s = (s, ok tt)
  churn_from i (suc rounds) s =
      next (create_or_update (churn_name i) (churn_value i) s)
        λ _ t. next (delete_odd i t) λ _. churn_from (i + 1) rounds

  unfoldable pub churn_config_maps : ℕ → M S (Unit {0})
  unfolding churn_from
  churn_config_maps count = churn_from 0 count

  -- the churn, and the version from before it
  abbrev pub after_churn : ℤ → Text → M S Text
  after_churn (negsuc n) version s = (s, ok version)
  after_churn (pos zero) version s = (s, ok version)
  after_churn (pos (suc n)) version s = next (churn_config_maps (suc n) s) (λ _ t. (t, ok version))

  unfoldable pub stale_resource_version : Options → M S Text
  unfolding churn_config_maps
  stale_resource_version opts s =
      if is_empty opts.resource_ver
      then next (listed capture_error (api.list s)) (after_churn opts.churn)
      else (s, ok opts.resource_ver)

  -- the part of runManual behind the first watch; 5 seconds are the second time-out
  abbrev pub after_watch : Bool → M S (Unit {0})
  after_watch false s = (s, ok tt)
  after_watch true s =
      next (listed relist_error (api.list s))
        λ version t. next (watch_once version 5 t) λ _ u. (u, ok tt)

  unfoldable pub run_manual : Options → M S (Unit {0})
  unfolding stale_resource_version watch_once
  run_manual opts s =
      next (stale_resource_version opts s)
        λ version t. next (watch_once version opts.watch_timeout t) after_watch

  abbrev pub namespace_got : S × Got → S × Result Failure (Unit {0})
  namespace_got (s, found cm) = (s, ok tt)
  namespace_got (s, not_found) = checked namespace_error (api.create_namespace s)
  namespace_got (s, get_failed) = (s, err namespace_error)

  unfoldable pub ensure_namespace : M S (Unit {0})
  ensure_namespace s = namespace_got (api.get_namespace s)

  module _ (run_informer : Options → M S (Unit {0})) where
    unfoldable pub run_mode : Options → M S (Unit {0})
    unfolding run_manual
    run_mode opts s =
        if same_text opts.mode (codes "manual")
        then run_manual opts s
        else if same_text opts.mode (codes "informer")
        then run_informer opts s
        else (s, err unknown_mode)
