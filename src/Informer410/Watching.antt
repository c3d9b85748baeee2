-- ===== src/Informer410/Watching.antt =====
-- When watchOnce reports that the version is gone.
use go_by_example.Prelude.{
  ℕ, ◌≡◌, ◌↔◌, ◌⊎◌, inl, inr, refl, ap, ◌∙◌, true, Bool-cases, eqb, List, [], ◌∷◌, ◌++◌, ok, All,
  arith,
}
use mathlib.Core.Bool.{false≢true}
use go_by_example.Prelude.Texts.{Text, codes, same_text_iff}
use go_by_example.Informer410.{
  Object, status, other_object, Event, change, error_event, context_done, Watch, watch_gone,
  watch_refused, stream, Api, is_gone_object, watch_events, watched, watch_once,
}

abbrev pub IsChange : Event → Type 0
IsChange (change o) = Unit
IsChange _ = ⊥

-- a status with the code 410 or the reason Expired
abbrev pub IsGone : Object → Type 0
IsGone (status code reason) = (code ≡ 410) ⊎ (reason ≡ codes "Expired")
IsGone _ = ⊥

is_gone_object_iff : (o : Object) → (is_gone_object o ≡ true) ↔ IsGone o
unfolding is_gone_object
is_gone_object_iff (status code reason) =
    let expired = same_text_iff reason (codes "Expired") in
    (
      λ e. elim (Bool-cases (eqb code 410)) [
        | inl same ↦ inl (ground arith)
        | inr other ↦ inr (expired.0 (rw other at e))
      ],
      λ h. elim h [ inl same ↦ rw same refl | inr same ↦ rw (expired.1 same) (ground arith) ],
    )
is_gone_object_iff other_object = (λ e. absurd (false≢true e), λ h. absurd h)

-- the first event that is no change tells that the version is gone
abbrev pub TellsGone : List Event → Type 0
TellsGone es =
    (before : List Event) × (o : Object) × (after : List Event) × (es
      ≡ before ++ error_event o ∷ after)
    × All IsChange before
    × IsGone o

tells_gone : (es : List Event) → watch_events es ≡ ok true → TellsGone es
unfolding watch_events
tells_gone [] e = absurd (ground arith)
tells_gone (context_done ∷ es) e = absurd (cc)
tells_gone (error_event o ∷ es) e = ([], o, es, refl, tt, (is_gone_object_iff o).0 (ground arith))
tells_gone (change o ∷ es) e =
    let (before, p, after, same, changes, gone) = tells_gone es e in
    (change o ∷ before, p, after, ap (◌∷◌ (change o)) same, (tt, changes), gone)

gone_told :
    (before : List Event) (o : Object) (after : List Event)
    → All IsChange before
    → is_gone_object o ≡ true
    → watch_events (before ++ error_event o ∷ after) ≡ ok true
unfolding watch_events
gone_told [] o after h k = rw k refl
gone_told (change p ∷ before) o after h k = gone_told before o after h.1 k
gone_told (error_event p ∷ before) o after h k = absurd h.0
gone_told (context_done ∷ before) o after h k = absurd h.0

told :
    (es : List Event)
    → ((stream es ≡ watch_gone) ⊎ ((fs : List Event) × (stream es ≡ stream fs) × TellsGone fs))
    → watch_events es ≡ ok true
told es (inl e) = absurd (cc)
told es (inr (fs, same, (before, o, after, split, changes, gone))) =
    let is_fs : es ≡ fs = cc in
    ap watch_events (is_fs ∙ split)
    ∙ gone_told before o after changes ((is_gone_object_iff o).1 gone)

-- watchOnce reports that the version is gone exactly if the server says so when the watch starts, or
-- it starts and the first event that is no change is an error with the code 410 or the reason Expired.
pub watch_once_iff :
    {S : Type 0} (api : Api S) (version : Text) (timeout : ℕ) (s : S)
    → ((watch_once api version timeout s).1 ≡ ok true) ↔ (
        ((api.watch version timeout s).1 ≡ watch_gone)
        ⊎ ((es : List Event) × ((api.watch version timeout s).1 ≡ stream es) × TellsGone es))
unfolding watch_once
watch_once_iff api version timeout s = answers (api.watch version timeout s).1
  where
    answers :
        (w : Watch)
        → (watched w ≡ ok true)
          ↔ ((w ≡ watch_gone) ⊎ ((es : List Event) × (w ≡ stream es) × TellsGone es))
    answers watch_gone = (λ e. inl refl, λ h. refl)
    answers watch_refused = (λ e. absurd (cc), λ h. absurd (ground arith))
    answers (stream es) = (λ e. inr (es, refl, tells_gone es e), told es)
