-- ===== src/Wal/Tests.antt =====
-- The two Puts of main, a Close, and a name of two words.
use go_by_example.Prelude.{◌≡◌, refl, some, List, [], ◌∷◌, ◌++◌, All, ok, arith}
use go_by_example.Prelude.Texts.{Text, codes, is_space, utf8, comparable_text}
use go_by_example.Wal.{Wal, put, get, new_wal}
use go_by_example.Wal.Recovery.{
  healthy, Short, Op, put_of, close_of, Fine, perform, perform_all, blank, reload_lem,
  two_words_lost,
}
use go_by_example.Wal.Lines.{Plain, body}

abbrev name : Text
name = codes "name"

abbrev alice : Text
alice = codes "Alice"

abbrev ops : List Op
ops = put_of name alice ∷ put_of (codes "age") (codes "30") ∷ close_of ∷ []

name-Plain : Plain name
unfolding is_space
name-Plain = (λ e. absurd (cc), (refl, (refl, (refl, (refl, tt)))))

alice-Plain : Plain alice
unfolding is_space
alice-Plain = (λ e. absurd (cc), (refl, (refl, (refl, (refl, (refl, tt))))))

ops-Fine : All Fine ops
unfolding is_space utf8
ops-Fine = (
  (name-Plain, alice-Plain, omega arith),
  (
    (
      (λ e. absurd (cc), (refl, (refl, (refl, tt)))),
      (λ e. absurd (cc), (refl, (refl, tt))),
      omega arith,
    ),
    (tt, tt),
  ),
)

disk_of_ops : (perform_all ops blank).0 ≡ codes "PUT\tname\tAlice\nPUT\tage\t30\n\n"
unfolding perform_all perform
disk_of_ops = refl

reload_lem_example : new_wal healthy (perform_all ops blank).0 ≡ ok (perform_all ops blank).1
reload_lem_example = reload_lem ops ops-Fine

two_words-Short : Short (body name (alice ++ (32 ∷ name)))
unfolding utf8
two_words-Short = omega arith

two_words_lost_example :
    (disk : Text) × (w : Wal) × (put healthy name
        (alice ++ (32 ∷ name))
        (perform_all ops blank).0
        (perform_all ops blank).1
      ≡ (disk, w, ok tt))
    × (get name w ≡ some (alice ++ (32 ∷ name)))
    × (new_wal healthy disk ≡ ok (perform_all ops blank).1)
two_words_lost_example =
    two_words_lost ops name alice name ops-Fine name-Plain alice-Plain name-Plain two_words-Short
