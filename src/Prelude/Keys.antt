-- ===== src/Prelude/Keys.antt =====
-- Go's `comparable` constraint on the keys of a map, as an interface: the test and the law of it
-- that proofs need.
use Prim.Native.Nat.{ℕ}
use mathlib.Core.Path.{◌≡◌}
use mathlib.Core.Logic.{◌↔◌}
use mathlib.Core.Bool.{Bool, true}
use Prim.Native.String.{String}
use text.Mathlib.TextEquality
use text.Mathlib.Text
use go_by_example.Prelude.Tests.{eqb, eqb_iff}

pub record Comparable {ℓ} (K : Type ℓ) : Type ℓ where
  pub same : K → K → Bool
  pub same_iff : (i j : K) → (same i j ≡ true) ↔ (i ≡ j)

module _ {ℓ} {K : Type ℓ} ⦃keys : Comparable K⦄ where
  infix 50 ◌==◌
  abbrev pub ◌==◌ : K → K → Bool
  i == j = keys.same i j

instance abbrev pub comparable_number : Comparable ℕ
comparable_number = record { same = eqb; same_iff = eqb_iff }

instance abbrev pub comparable_string : Comparable String
comparable_string = record { same = Text.◌==◌; same_iff = TextEquality.eq_iff }
