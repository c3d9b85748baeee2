-- ===== src/Prelude/Maps.antt =====
-- Go maps as association lists with at most one entry for a key. The order of the entries stands
-- for the iteration order of `range`, which Go leaves open.
use mathlib.Core.Path.{◌≡◌, refl}
use mathlib.Core.Logic.{◌≢◌}
use mathlib.Core.Option.{Option, none, some}
use mathlib.Core.List.{List, [], ◌∷◌}
use native.Mathlib.Omega.{arith}
use go_by_example.Prelude.Tests.{if◌then◌else◌}
use go_by_example.Prelude.Lists.{All, All-map}
use go_by_example.Prelude.Keys.{Comparable, ◌==◌}

abbrev pub Map {ℓ κ} : Type ℓ → Type κ → Type (ℓ ⊔ κ)
Map K V = List (K × V)

module _ {ℓ κ} {K : Type ℓ} {V : Type κ} ⦃keys : Comparable K⦄ where
  module _ (key : K) where
    -- `v, ok := m[key]`
    unfoldable pub lookup : Map K V → Option V
    lookup [] = none
    lookup (p ∷ ps) = if p.0 == key then some p.1 else lookup ps

    -- `delete(m, key)`
    unfoldable pub delete : Map K V → Map K V
    delete [] = []
    delete (p ∷ ps) = let rest = delete ps in if p.0 == key then rest else p ∷ rest

    -- `m[key] = value`
    unfoldable pub insert : V → Map K V → Map K V
    insert value [] = (key, value) ∷ []
    insert value (p ∷ ps) = if p.0 == key then (key, value) ∷ ps else p ∷ insert value ps

  pub lookup-insert :
      (written read : K) (value : V) (m : Map K V)
      → lookup read (insert written value m)
        ≡ (if written == read then some value else lookup read m)
  unfolding insert lookup
  lookup-insert written read value [] = refl
  lookup-insert written read value (p ∷ ps) = ground (
    arith,
    lookup-insert written read value ps,
    keys.same_iff written read,
    keys.same_iff p.0 written,
    keys.same_iff p.0 read,
  )

  pub lookup-insert_self :
      (key : K) (value : V) (m : Map K V) → lookup key (insert key value m) ≡ some value
  lookup-insert_self key value m =
      ground (arith, lookup-insert key key value m, keys.same_iff key key)

  pub lookup-insert_ne :
      (written read : K) (value : V) (m : Map K V)
      → written ≢ read
      → lookup read (insert written value m) ≡ lookup read m
  lookup-insert_ne written read value m apart =
      ground (arith, lookup-insert written read value m, keys.same_iff written read, apart)

  pub lookup-delete :
      (gone read : K) (m : Map K V)
      → lookup read (delete gone m) ≡ (if gone == read then none else lookup read m)
  unfolding delete lookup
  lookup-delete gone read [] = ground arith
  lookup-delete gone read (p ∷ ps) = ground (
    arith,
    lookup-delete gone read ps,
    keys.same_iff gone read,
    keys.same_iff p.0 gone,
    keys.same_iff p.0 read,
  )

  -- a key has at most one entry
  abbrev pub Distinct : Map K V → Type κ
  Distinct [] = Unit
  Distinct (p ∷ ps) = (lookup p.0 ps ≡ none) × Distinct ps

  pub insert-Distinct :
      (key : K) (value : V) (m : Map K V) → Distinct m → Distinct (insert key value m)
  unfolding insert lookup
  insert-Distinct key value [] d = (refl, tt)
  insert-Distinct key value (p ∷ ps) d = ground (
    arith,
    insert-Distinct key value ps d.1,
    lookup-insert key p.0 value ps,
    keys.same_iff p.0 key,
    keys.same_iff key p.0,
  )

  pub delete-Distinct : (key : K) (m : Map K V) → Distinct m → Distinct (delete key m)
  unfolding delete lookup
  delete-Distinct key [] d = tt
  delete-Distinct key (p ∷ ps) d =
      ground (arith, delete-Distinct key ps d.1, lookup-delete key p.0 ps, keys.same_iff p.0 key)

  -- every entry is what its key looks up
  pub Distinct-lookup : (m : Map K V) → Distinct m → All (λ p. lookup p.0 m ≡ some p.1) m
  unfolding lookup
  Distinct-lookup [] d = tt
  Distinct-lookup (p ∷ ps) d = (
    ground (arith, keys.same_iff p.0 p.0),
    All-map (λ q h. ground (arith, keys.same_iff p.0 q.0)) ps (Distinct-lookup ps d.1),
  )
