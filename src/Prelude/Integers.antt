-- ===== src/Prelude/Integers.antt =====
-- Go's int where a program only compares it: the integers with their order.
use Prim.Native.Nat.{ℕ}
use mathlib.Core.Path.{◌≡◌}
use mathlib.Core.Logic.{◌↔◌}
use mathlib.Core.Bool.{Bool, true, false}
use native.Mathlib.Omega.{arith}
use go_by_example.Prelude.Tests.{ltb, eqb, eqb_iff}
use go_by_example.Prelude.Keys.{Comparable}

pub data ℤ : Type 0 where
  pos negsuc : ℕ → ℤ

-- `<`
abbrev pub less : ℤ → ℤ → Bool
less (pos a) (pos b) = ltb a b
less (pos a) (negsuc b) = false
less (negsuc a) (pos b) = true
less (negsuc a) (negsuc b) = ltb b a

abbrev pub same_int : ℤ → ℤ → Bool
same_int (pos a) (pos b) = eqb a b
same_int (negsuc a) (negsuc b) = eqb a b
same_int _ _ = false

pub same_int_iff : (i j : ℤ) → (same_int i j ≡ true) ↔ (i ≡ j)
same_int_iff (pos a) (pos b) = ground (arith, eqb_iff a b)
same_int_iff (pos a) (negsuc b) = ground arith
same_int_iff (negsuc a) (pos b) = ground arith
same_int_iff (negsuc a) (negsuc b) = ground (arith, eqb_iff a b)

instance abbrev pub comparable_int : Comparable ℤ
comparable_int = record { same = same_int; same_iff = same_int_iff }

-- an int that is neither less nor greater is the same
pub less-same : (i j : ℤ) → less i j ≡ false → less j i ≡ false → i ≡ j
less-same (pos a) (pos b) h k = ground arith
less-same (pos a) (negsuc b) h k = ground arith
less-same (negsuc a) (pos b) h k = ground arith
less-same (negsuc a) (negsuc b) h k = ground arith

pub less_irrefl : (i : ℤ) → less i i ≡ false
less_irrefl (pos a) = ground arith
less_irrefl (negsuc a) = ground arith

pub less_asymm : (i j : ℤ) → less i j ≡ true → less j i ≡ false
less_asymm (pos a) (pos b) h = ground arith
less_asymm (pos a) (negsuc b) h = ground arith
less_asymm (negsuc a) (pos b) h = ground arith
less_asymm (negsuc a) (negsuc b) h = ground arith
