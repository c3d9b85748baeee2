-- ===== src/Informer410/Tests.antt =====
-- A toy server that holds a function from names to config maps, whose watches tell that their version
-- is gone.
use go_by_example.Prelude.{
  ℕ, ◌≡◌, ◌↔◌, ◌⊎◌, refl, true, Option, none, some, List, [], ◌∷◌, if◌then◌else◌, ok, arith, ◌≢◌,
}
use go_by_example.Prelude.Texts.{Text, codes, digits, same_text, same_text_iff}
use go_by_example.Informer410.{
  ConfigMap, status, other_object, Event, change, error_event, watch_gone, stream, Got, found,
  not_found, deleted, Api, watch_once, churn_name, churn_config_maps,
}
use go_by_example.Informer410.Watching.{TellsGone, watch_once_iff}
use go_by_example.Informer410.Churn.{ApiLaws, Left, churn_lem}

abbrev State : Type 0
State = Text → Option ConfigMap

abbrev set : Text → Option ConfigMap → State → State
set name o s other = if same_text name other then o else s other

abbrev answer : Option ConfigMap → Got
answer none = not_found
answer (some cm) = found cm

abbrev events : List Event
events = change other_object ∷ error_event (status 410 []) ∷ []

abbrev toy : Api State
toy = record {
  get = λ (n : Text) (s : State). (s, answer (s n));
  create = λ (n : Text) (cm : ConfigMap) (s : State). (set n (some cm) s, true);
  update = λ (n : Text) (cm : ConfigMap) (s : State). (set n (some cm) s, true);
  delete = λ (n : Text) (s : State). (set n none s, deleted);
  list = λ (s : State). (s, some ([], codes "7"));
  watch = λ (v : Text) (t : ℕ) (s : State). (s, stream events);
  get_namespace = λ (s : State). (s, not_found);
  create_namespace = λ (s : State). (s, true);
}

set_self : (n : Text) (o : Option ConfigMap) (s : State) → set n o s n ≡ o
set_self n o s = ground (arith, same_text_iff n n)

set_ne : (n m : Text) (o : Option ConfigMap) (s : State) → n ≢ m → set n o s m ≡ s m
set_ne n m o s h = ground (arith, same_text_iff n m)

toy-ApiLaws : ApiLaws toy (λ s. s)
toy-ApiLaws = record {
  got = λ n m s. refl;
  created = λ n cm s e. (cm, set_self n (some cm) s, (refl, refl));
  created_others = λ n m cm s h. set_ne n m (some cm) s h;
  updated = λ n cm s e. (cm, set_self n (some cm) s, (refl, refl));
  updated_others = λ n m cm s h. set_ne n m (some cm) s h;
  removed = λ n s h. set_self n none s;
  removed_others = λ n m s h. set_ne n m none s h;
}

name_12 : churn_name 12 ≡ codes "rv-churn-00012"
unfolding churn_name digits
name_12 = refl

churned : (churn_config_maps toy 2 (λ n. none)).1 ≡ ok tt
unfolding churn_config_maps churn_name digits
churned = refl

churn_lem_example : Left {S = State} (λ s. s) 1 (churn_config_maps toy 2 (λ n. none)).0
churn_lem_example =
    churn_lem toy (λ s. s) toy-ApiLaws 2 (λ n. none) (omega arith) churned 1 (omega arith)

watch_once_iff_example : ((watch_once toy (codes "7") 5 (λ n. none)).1 ≡ ok true) ↔ (
    (stream events ≡ watch_gone) ⊎ ((es : List Event) × (stream events ≡ stream es) × TellsGone es))
watch_once_iff_example = watch_once_iff toy (codes "7") 5 (λ n. none)
